-- ===== src/Dashboard/Requests/Reorderings.antt =====
-- Two lists of changes with the same changes, in any order or in the same order for every target.
use mathlib.Core.List.Perm
use mathlib.Core.List.{Perm}
use pulse_monitor.Dashboard.Requests.Changes.{Change, adds, removes, apply, apply_all}
use pulse_monitor.Dashboard.Requests.Goroutines.{}
use pulse_monitor.Prelude.{
  behind, take_out, ℕ, zero, suc, ◌≡◌, refl, ap, ◌∙◌, subst, inl, inr, false, List, [], ◌∷◌, ◌++◌,
  Option, none, some, arith, if◌then◌else◌, Bool-cases,
}
use pulse_monitor.Store.Database.{Table}
use pulse_monitor.Text.Split.{text_eq_iff}
use pulse_monitor.Text.{Text, text_eq}

-- A relation of lists that composes, in sequence and side by side.
pub record Reordering (R : List Change → List Change → Type 0) : Type 0 where
  pub rfl : (a : List Change) → R a a
  pub trans : (a b c : List Change) → R a b → R b c → R a c
  pub append_left : (l a b : List Change) → R a b → R (l ++ a) (l ++ b)
  pub append_right : (l a b : List Change) → R a b → R (a ++ l) (b ++ l)

pub reorder_perm : Reordering Perm
reorder_perm = record {
  rfl = Perm.refl;
  trans = λ a b c p q. Perm.trans p q;
  append_left = λ l a b p. Perm.append_left l p;
  append_right = λ l a b p. Perm.append_right l p;
}

pub take_out-perm :
    (i : ℕ) (cs : List Change) {c : Change} {ds : List Change}
    → take_out i cs ≡ some (c, ds)
    → Perm cs (c ∷ ds)
take_out-perm i [] e = cc
take_out-perm zero (d ∷ cs) e = subst (Perm (d ∷ cs)) (cc) Perm.rfl
take_out-perm (suc i) (d ∷ cs) {c = c} {ds = ds} e =
    behind-perm (take_out i cs) (λ f fs h. take_out-perm i cs h) e
  where
    behind-perm :
        (o : Option (Change × List Change))
        → ((f : Change) (fs : List Change) → o ≡ some (f, fs) → Perm cs (f ∷ fs))
        → behind d o ≡ some (c, ds)
        → Perm (d ∷ cs) (c ∷ ds)
    behind-perm none h k = cc
    behind-perm (some (f, fs)) h k =
        subst (Perm (d ∷ cs)) (cc) (Perm.trans (Perm.cons d (h f fs refl)) (Perm.swap f d fs))

-- `row_id` reads the id of a request as Postgres does.
module _ (row_id : Text → Text) where
  abbrev pub id_of : Change → Text
  id_of (adds t) = t.id
  id_of (removes id) = row_id id

  -- The changes of one target.
  abbrev pub about : Text → List Change → List Change
  about id [] = []
  about id (c ∷ cs) = let rest = about id cs in if text_eq (id_of c) id then c ∷ rest else rest

  -- Every target has the same changes in the same order.
  abbrev pub SameByTarget : List Change → List Change → Type 0
  SameByTarget a b = (id : Text) → about id a ≡ about id b

  about-append : (id : Text) (a b : List Change) → about id (a ++ b) ≡ about id a ++ about id b
  about-append id [] b = refl
  about-append id (c ∷ a) b = ground (arith, about-append id a b)

  pub reorder_by_target : Reordering SameByTarget
  reorder_by_target = record {
    rfl = λ a id. refl;
    trans = λ a b c p q id. p id ∙ q id;
    append_left = λ l a b p id. rw (about-append id l a, about-append id l b, p id) refl;
    append_right = λ l a b p id. rw (about-append id a l, about-append id b l, p id) refl;
  }

  -- No change of the same target stands before the one that is taken out.
  abbrev IsOther : Change → Option (Change × List Change) → Type 0
  IsOther d none = Unit {0}
  IsOther d (some (c, cs)) = text_eq (id_of c) (id_of d) ≡ false

  abbrev pub IsFirst : ℕ → List Change → Type 0
  IsFirst i [] = Unit
  IsFirst zero (c ∷ cs) = Unit
  IsFirst (suc i) (c ∷ cs) = IsFirst i cs × IsOther c (take_out i cs)

  swap-by-target :
      (d f : Change) (cs fs : List Change)
      → text_eq (id_of f) (id_of d) ≡ false
      → SameByTarget cs (f ∷ fs)
      → SameByTarget (d ∷ cs) (f ∷ d ∷ fs)
  swap-by-target d f cs fs n s id = ground (
    arith,
    n,
    s id,
    text_eq_iff (id_of f) (id_of d),
    text_eq_iff (id_of d) id,
    text_eq_iff (id_of f) id,
  )

  pub take_out-by-target :
      (i : ℕ) (cs : List Change) {c : Change} {ds : List Change}
      → IsFirst i cs
      → take_out i cs ≡ some (c, ds)
      → SameByTarget cs (c ∷ ds)
  take_out-by-target i [] o e = cc
  take_out-by-target zero (d ∷ cs) {c = c} {ds = ds} o e =
      subst (SameByTarget (d ∷ cs)) {x = d ∷ cs} {y = c ∷ ds} (cc) (λ id. refl)
  take_out-by-target (suc i) (d ∷ cs) {c = c} {ds = ds} o e =
      behind-by-target (take_out i cs) o.1 (λ f fs h. take_out-by-target i cs o.0 h) e
    where
      behind-by-target :
          (t : Option (Change × List Change))
          → IsOther d t
          → ((f : Change) (fs : List Change) → t ≡ some (f, fs) → SameByTarget cs (f ∷ fs))
          → behind d t ≡ some (c, ds)
          → SameByTarget (d ∷ cs) (c ∷ ds)
      behind-by-target none n h k = cc
      behind-by-target (some (f, fs)) n h k =
          subst (SameByTarget (d ∷ cs)) {x = f ∷ d ∷ fs} {y = c ∷ ds} (cc)
            (swap-by-target d f cs fs n (h f fs refl))

  apply-other :
      (c : Change) (table : Table) (id : Text)
      → text_eq (id_of c) id ≡ false
      → apply row_id c table id ≡ table id
  apply-other (adds t) table id e = rw e refl
  apply-other (removes k) table id e = rw e refl

  apply_all_at :
      (cs : List Change) (a b : Table) (id : Text)
      → a id ≡ b id
      → apply_all row_id cs a id ≡ apply_all row_id cs b id
  apply_all_at [] a b id e = e
  apply_all_at (c ∷ cs) a b id e =
      apply_all_at cs (apply row_id c a) (apply row_id c b) id (apply_at c)
    where
      apply_at : (c : Change) → apply row_id c a id ≡ apply row_id c b id
      apply_at (adds t) = ap (λ x. if text_eq t.id id then some t.url else x) e
      apply_at (removes k) = ap (λ x. if text_eq (row_id k) id then none else x) e

  -- What becomes of a target in the table is a matter of its own changes.
  pub apply_all-about :
      (cs : List Change) (table : Table) (id : Text)
      → apply_all row_id cs table id ≡ apply_all row_id (about id cs) table id
  apply_all-about [] table id = refl
  apply_all-about (c ∷ cs) table id = elim (Bool-cases (text_eq (id_of c) id)) [
    | inl e ↦ rw e (apply_all-about cs (apply row_id c table) id)
    | inr e ↦ rw e (
        apply_all_at cs (apply row_id c table) table id (apply-other c table id e)
        ∙ apply_all-about cs table id)
  ]
