-- ===== src/Dashboard/Requests/Interleaving.antt =====
-- What the table and the tabs have in common while requests run side by side.
use mathlib.Core.List.Sublistᴰ as SublistD
use mathlib.Core.List.{Sublistᴰ, Perm, append_assoc, append-nil}
use pulse_monitor.Prelude.Sublists.{sublist-append}
use pulse_monitor.Dashboard.Requests.Changes.{
  Change, apply_all, announce_all, apply_all-IsSame, apply_all-append, announce_all-append,
  accepted, failed, failed-append, IsSound,
}
use pulse_monitor.Dashboard.Requests.Commits.{Commits, commit-Commits}
use pulse_monitor.Dashboard.Requests.Goroutines.{
  Outcome, answers, changes, commit, Shared, Turn, commits, finishes, committed, finish, finished,
  and_then, turn, turns,
}
use pulse_monitor.Dashboard.Requests.Reorderings.{Reordering, reorder_perm, take_out-perm}
use pulse_monitor.Handlers.Targets.{Uri}
use pulse_monitor.Handlers.Writer.{Writer, fresh, write_header}
use pulse_monitor.Handlers.Views.{View, Rendered}
use pulse_monitor.Prelude.{
  inl, inr, ◌≤◌, take_out, ◌+◌, subst, ◌≡◌, refl, sym, ap, ◌∙◌, List, [], ◌∷◌, ◌++◌, Option, none,
  some, arith, length, length-append, All, All-append,
}
use pulse_monitor.Store.Database.{IsSame, Database}
use pulse_monitor.Text.{Text}

-- From `x` on, the changes in `made` were made in the table, and those in `told` were published. Those
-- in `loud` are the ones that a handler goes on to publish: the others were answered with status 500. With
-- those that are pending before and after, `loud` and `told` are related by `R`.
pub record Interleaves (R : List Change → List Change → Type 0) (db : Database)
    (render : View → Rendered) (parse : Text → Option Uri) (x y : Shared db.State) : Type 0 where
  pub made : List Change
  pub loud : List Change
  pub told : List Change
  pub tracked : IsSame (apply_all db.row_id made (db.table x.store)) (db.table y.store)
  pub announced : y.hub ≡ announce_all render told x.hub
  pub within : Sublistᴰ loud made
  pub silent : failed x.responses + length made ≤ length loud + failed y.responses
  pub same : R (x.pending ++ loud) (told ++ y.pending)
  pub counted : accepted y.responses ≡ accepted x.responses + length told
  pub sound : All (IsSound parse) made

accepted-append : (a b : List Writer) → accepted (a ++ b) ≡ accepted a + accepted b
accepted-append [] b = omega arith
accepted-append (r ∷ a) b = omega (arith, accepted-append a b)

module _ {R : List Change → List Change → Type 0} (r : Reordering R) (db : Database)
    (render : View → Rendered) (parse : Text → Option Uri) where
  abbrev Reaches : Shared db.State → Shared db.State → Type 0
  Reaches x y = Interleaves R db render parse x y

  -- A change is taken out of those that are pending only as `R` allows it.
  abbrev pub Allows : Turn → Shared db.State → Type 0
  Allows (commits q) x = Unit
  Allows (finishes i) x =
      (c : Change) (ds : List Change) → take_out i x.pending ≡ some (c, ds) → R x.pending (c ∷ ds)

  abbrev pub AllowsAll : List Turn → Shared db.State → Type 0
  AllowsAll [] x = Unit
  AllowsAll (t ∷ ts) x =
      Allows t x × ((y : Shared db.State) → turn db render parse t x ≡ some y → AllowsAll ts y)

  append-nil-rfl : (a : List Change) → R (a ++ []) a
  append-nil-rfl a = subst (λ l. R l a) (sym (append-nil a)) (r.rfl a)

  committed-Interleaves :
      (x : Shared db.State) (o : Outcome) (s' : db.State)
      → Commits db.row_id parse (db.table x.store) (db.table s') o
      → Reaches x (committed x (o, s'))
  committed-Interleaves x (answers w) s' (n, k) = elim k [
    | inl same ↦ record {
      made = [];
      loud = [];
      told = [];
      tracked = same;
      announced = refl;
      within = Sublistᴰ.slnil;
      silent = rw (failed-append x.responses (w ∷ [])) (omega arith);
      same = append-nil-rfl x.pending;
      counted = rw (accepted-append x.responses (w ∷ []), n) (omega arith);
      sound = tt;
    }
    | inr (e, (c, (same, m))) ↦ record {
      made = c ∷ [];
      loud = [];
      told = [];
      tracked = same;
      announced = refl;
      within = SublistD.cons Sublistᴰ.slnil;
      silent = rw (failed-append x.responses (w ∷ []), e) (omega arith);
      same = append-nil-rfl x.pending;
      counted = rw (accepted-append x.responses (w ∷ []), n) (omega arith);
      sound = (m, tt);
    }
  ]
  committed-Interleaves x (changes c) s' (same, m) = record {
    made = c ∷ [];
    loud = c ∷ [];
    told = [];
    tracked = same;
    announced = refl;
    within = SublistD.cons-cons refl Sublistᴰ.slnil;
    silent = omega arith;
    same = r.rfl (x.pending ++ c ∷ []);
    counted = omega arith;
    sound = (m, tt);
  }

  finish-Interleaves :
      (x : Shared db.State) (c : Change) (ds : List Change)
      → R x.pending (c ∷ ds)
      → Reaches x (finish render x (c, ds))
  unfolding finish write_header
  finish-Interleaves x c ds p = record {
    made = [];
    loud = [];
    told = c ∷ [];
    tracked = λ id. refl;
    announced = refl;
    within = Sublistᴰ.slnil;
    silent = rw (failed-append x.responses (write_header 200 fresh ∷ [])) (omega arith);
    same = subst (λ l. R l (c ∷ ds)) (sym (append-nil x.pending)) p;
    counted = rw (accepted-append x.responses (write_header 200 fresh ∷ [])) (omega arith);
    sound = tt;
  }

  finished-Interleaves :
      (x : Shared db.State) (o : Option (Change × List Change)) {y : Shared db.State}
      → ((c : Change) (ds : List Change) → o ≡ some (c, ds) → R x.pending (c ∷ ds))
      → finished render x o ≡ some y
      → Reaches x y
  finished-Interleaves x none p e = cc
  finished-Interleaves x (some (c, ds)) p e =
      subst (Reaches x) (cc) (finish-Interleaves x c ds (p c ds refl))

  turn-Interleaves :
      (t : Turn) (x : Shared db.State) {y : Shared db.State}
      → turn db render parse t x ≡ some y
      → Allows t x
      → Reaches x y
  unfolding turn
  turn-Interleaves (commits q) x e a =
      let (o, s') = commit db parse q x.store in
      subst (Reaches x) (cc) (committed-Interleaves x o s' (commit-Commits db parse q x.store))
  turn-Interleaves (finishes i) x e a = finished-Interleaves x (take_out i x.pending) a e

  chain :
      (p m n t u q s : List Change)
      → R (p ++ m) (t ++ q)
      → R (q ++ n) (u ++ s)
      → R (p ++ (m ++ n)) ((t ++ u) ++ s)
  chain p m n t u q s a b =
      let c : R ((p ++ m) ++ n) (t ++ (u ++ s)) =
        r.trans ((p ++ m) ++ n) ((t ++ q) ++ n) (t ++ (u ++ s))
          (r.append_right n (p ++ m) (t ++ q) a)
          (subst (λ l. R l (t ++ (u ++ s))) (sym (append_assoc t q n))
            (r.append_left t (q ++ n) (u ++ s) b)) in
      subst (λ l. R l ((t ++ u) ++ s)) (append_assoc p m n)
        (subst (R ((p ++ m) ++ n)) (sym (append_assoc t u s)) c)

  refl-Interleaves : (x : Shared db.State) → Reaches x x
  refl-Interleaves x = record {
    made = [];
    loud = [];
    told = [];
    tracked = λ id. refl;
    announced = refl;
    within = Sublistᴰ.slnil;
    silent = omega arith;
    same = append-nil-rfl x.pending;
    counted = omega arith;
    sound = tt;
  }

  trans-Interleaves : (x y z : Shared db.State) → Reaches x y → Reaches y z → Reaches x z
  trans-Interleaves x y z a b = record {
    made = a.made ++ b.made;
    loud = a.loud ++ b.loud;
    told = a.told ++ b.told;
    tracked = λ id.
        b.tracked id
        ∙ apply_all-IsSame db.row_id b.made (apply_all db.row_id a.made (db.table x.store))
            (db.table y.store) a.tracked id
        ∙ ap (λ t. t id) (sym (apply_all-append db.row_id a.made b.made (db.table x.store)));
    announced =
        b.announced
        ∙ ap (announce_all render b.told) a.announced
        ∙ sym (announce_all-append render a.told b.told x.hub);
    within = sublist-append a.loud a.made b.loud b.made a.within b.within;
    silent =
        omega (arith, length-append a.made b.made, length-append a.loud b.loud, a.silent, b.silent);
    same = chain x.pending a.loud b.loud a.told b.told y.pending z.pending a.same b.same;
    counted = omega (arith, length-append a.told b.told, a.counted, b.counted);
    sound = All-append (IsSound parse) a.made b.made a.sound b.sound;
  }

  follow :
      (x z : Shared db.State) (o : Option (Shared db.State)) (ts : List Turn)
      → ((y : Shared db.State) → o ≡ some y → Reaches x y)
      → ((y : Shared db.State) → o ≡ some y → turns db render parse ts y ≡ some z → Reaches y z)
      → and_then o (turns db render parse ts) ≡ some z
      → Reaches x z
  follow x z none ts h k e = cc
  follow x z (some y) ts h k e = trans-Interleaves x y z (h y refl) (k y refl e)

  pub turns-Reaches :
      (ts : List Turn) (x : Shared db.State) {y : Shared db.State}
      → turns db render parse ts x ≡ some y
      → AllowsAll ts x
      → Interleaves R db render parse x y
  unfolding turns
  turns-Reaches [] x e a = subst (Reaches x) (cc) (refl-Interleaves x)
  turns-Reaches (t ∷ ts) x {y = z} e a =
      follow x z (turn db render parse t x) ts (λ y h. turn-Interleaves t x h a.0)
        (λ y h k. turns-Reaches ts y k (a.1 y h)) e

Perm-AllowsAll :
    (db : Database) (render : View → Rendered) (parse : Text → Option Uri) (ts : List Turn)
    (x : Shared db.State)
    → AllowsAll reorder_perm db render parse ts x
Perm-AllowsAll db render parse [] x = tt
Perm-AllowsAll db render parse (commits q ∷ ts) x = (tt, λ y h. Perm-AllowsAll db render parse ts y)
Perm-AllowsAll db render parse (finishes i ∷ ts) x =
    (λ c ds h. take_out-perm i x.pending h, λ y h. Perm-AllowsAll db render parse ts y)

-- However the goroutines of the requests to create and to delete targets take turns, whatever their
-- forms and ids and whatever the database answers: every change of the table is published once, now or
-- when its goroutine goes on, or it was answered with status 500. That is, the table is the one at the
-- start with a list of changes made in order (with the ids of deletions as Postgres reads them), and the
-- hub was given the events of a list of changes and no other. But for those that were pending at the start
-- and those that are pending now, the second list has the changes of a sublist of the first one; they may
-- be in another order. The sublist misses at most as many changes as there are more responses with status
-- 500, and there is one more response with status 200 for each change that was published. Every target
-- that was added has a URL that can be monitored.
pub turns-Interleaves :
    (db : Database) (render : View → Rendered) (parse : Text → Option Uri) (ts : List Turn)
    (x : Shared db.State) {y : Shared db.State}
    → turns db render parse ts x ≡ some y
    → Interleaves Perm db render parse x y
turns-Interleaves db render parse ts x e =
    turns-Reaches reorder_perm db render parse ts x e (Perm-AllowsAll db render parse ts x)
