-- ===== src/Text/Split.antt =====
-- Laws of `cut`, `split_on`, `fields` and `text_eq`.
use mathlib.Core.List.{append_assoc, append-nil}
use pulse_monitor.Prelude.{
  ℕ, ◌≡◌, ◌≢◌, ◌↔◌, refl, ◌∙◌, ap, inl, inr, true, false, List, [], ◌∷◌, ◌++◌, some, All, arith,
  ◌==◌, Bool-cases, Bool, not, ◌&&◌,
}
use pulse_monitor.Text.Basic.{Text, is_space, text_eq, cut, split_on, fields, fields_from}
use pulse_monitor.Text.Trim.{NoSpace}

pub text_eq_iff : (s t : Text) → (text_eq s t ≡ true) ↔ (s ≡ t)
unfolding text_eq
text_eq_iff [] [] = ground arith
text_eq_iff [] (d ∷ t) = ground arith
text_eq_iff (c ∷ s) [] = ground arith
text_eq_iff (c ∷ s) (d ∷ t) = ground (arith, text_eq_iff s t)

pub text_eq_refl : (s : Text) → text_eq s s ≡ true
text_eq_refl s = (text_eq_iff s s).1 refl

pub text_eq-ne : (s t : Text) → s ≢ t → text_eq s t ≡ false
text_eq-ne s t h = elim (Bool-cases (text_eq s t)) [
  | inl e ↦ absurd (h ((text_eq_iff s t).0 e))
  | inr e ↦ e
]

-- The character does not occur.
abbrev pub Lacks : ℕ → Text → Type 0
Lacks sep = All (λ c. (c == sep) ≡ false)

abbrev pub lacks : ℕ → Text → Bool
lacks sep [] = true
lacks sep (c ∷ s) = not (c == sep) && lacks sep s

-- `refl` for the premise shows that a literal lacks a character.
pub lacks_lem : (sep : ℕ) (s : Text) → lacks sep s ≡ true → Lacks sep s
lacks_lem sep [] h = tt
lacks_lem sep (c ∷ s) h = ground (arith, lacks_lem sep s)

pub cut-append : (sep : ℕ) (a b : Text) → Lacks sep a → cut sep (a ++ sep ∷ b) ≡ some (a, b)
unfolding cut
cut-append sep [] b h = ground arith
cut-append sep (c ∷ a) b h = rw (h.0, cut-append sep a b h.1)

pub split_on-append :
    (sep : ℕ) (a b : Text) → Lacks sep a → split_on sep (a ++ sep ∷ b) ≡ a ∷ split_on sep b
unfolding split_on
split_on-append sep [] b h = ground arith
split_on-append sep (c ∷ a) b h = rw (h.0, split_on-append sep a b h.1)

pub split_on-Lacks : (sep : ℕ) (a : Text) → Lacks sep a → split_on sep a ≡ a ∷ []
unfolding split_on
split_on-Lacks sep [] h = refl
split_on-Lacks sep (c ∷ a) h = rw (h.0, split_on-Lacks sep a h.1)

-- The pieces, joined by the separator again.
unfoldable pub join : ℕ → List Text → Text
join sep [] = []
join sep (p ∷ []) = p
join sep (p ∷ q ∷ ps) = p ++ sep ∷ join sep (q ∷ ps)

join-cons_first :
    (sep c : ℕ) (p : Text) (ps : List Text) → join sep ((c ∷ p) ∷ ps) ≡ c ∷ join sep (p ∷ ps)
unfolding join
join-cons_first sep c p [] = refl
join-cons_first sep c p (q ∷ ps) = refl

pub join-cons :
    (sep : ℕ) (p q : Text) (ps : List Text) → join sep (p ∷ q ∷ ps) ≡ p ++ sep ∷ join sep (q ∷ ps)
unfolding join
join-cons sep p q ps = refl

pub join-one : (sep : ℕ) (p : Text) → join sep (p ∷ []) ≡ p
unfolding join
join-one sep p = refl

-- There is always a first piece.
pub split_on-cons : (sep : ℕ) (s : Text) → (p : Text) × (ps : List Text) × (split_on sep s ≡ p ∷ ps)
unfolding split_on
split_on-cons sep [] = ([], [], refl)
split_on-cons sep (c ∷ s) =
    let (p, ps, e) = split_on-cons sep s in
    elim (Bool-cases (c == sep)) [
      | inl h ↦ rw h ([], split_on sep s, refl)
      | inr h ↦ rw (h, e) (c ∷ p, ps, refl)
    ]

pub join-split_on : (sep : ℕ) (s : Text) → join sep (split_on sep s) ≡ s
unfolding split_on
join-split_on sep [] = join-one sep []
join-split_on sep (c ∷ s) =
    let (p, ps, e) = split_on-cons sep s in
    let ih = rw e at (join-split_on sep s) in
    elim (Bool-cases (c == sep)) [
      | inl h ↦ rw (h, e) (join-cons sep [] p ps ∙ ground (arith, ih))
      | inr h ↦ rw (h, e) (join-cons_first sep c p ps ∙ ap (◌∷◌ c) ih)
    ]

pub split_on-All-Lacks : (sep : ℕ) (s : Text) → All (Lacks sep) (split_on sep s)
unfolding split_on
split_on-All-Lacks sep [] = (tt, tt)
split_on-All-Lacks sep (c ∷ s) =
    let (p, ps, e) = split_on-cons sep s in
    let ih = rw e at (split_on-All-Lacks sep s) in
    elim (Bool-cases (c == sep)) [
      | inl h ↦ rw (h, e) (tt, ih)
      | inr h ↦ rw (h, e) ((h, ih.0), ih.1)
    ]

fields_from-word :
    (word a rest : Text) → NoSpace a → fields_from word (a ++ rest) ≡ fields_from (word ++ a) rest
unfolding fields_from
fields_from-word word [] rest h = rw append-nil
fields_from-word word (c ∷ a) rest h =
    rw (h.0, fields_from) (fields_from-word (word ++ c ∷ []) a rest h.1 ∙ rw append_assoc)

fields_from-last : (c : ℕ) (a : Text) → NoSpace (c ∷ a) → fields_from [] (c ∷ a) ≡ (c ∷ a) ∷ []
fields_from-last c a h =
    rw (← append-nil (c ∷ a))
      (fields_from-word [] (c ∷ a) [] h ∙ rw append-nil (unfold fields_from in refl))

fields_from-space :
    (c : ℕ) (a s : Text) → fields_from (c ∷ a) (b' ' ∷ s) ≡ (c ∷ a) ∷ fields_from [] s
unfolding fields_from is_space
fields_from-space c a s = refl

-- "name value" has two fields.
pub fields_pair :
    (c d : ℕ) (a b : Text)
    → NoSpace (c ∷ a)
    → NoSpace (d ∷ b)
    → fields ((c ∷ a) ++ b' ' ∷ d ∷ b) ≡ (c ∷ a) ∷ (d ∷ b) ∷ []
unfolding fields
fields_pair c d a b h k =
    fields_from-word [] (c ∷ a) (b' ' ∷ d ∷ b) h
    ∙ fields_from-space c a (d ∷ b)
    ∙ ap (◌∷◌ (c ∷ a)) (fields_from-last d b k)

pub split_on-Lacks-All : (sep c : ℕ) (s : Text) → Lacks c s → All (Lacks c) (split_on sep s)
unfolding split_on
split_on-Lacks-All sep c [] h = (tt, tt)
split_on-Lacks-All sep c (d ∷ s) h =
    let (p, ps, e) = split_on-cons sep s in
    let ih = rw e at (split_on-Lacks-All sep c s h.1) in
    elim (Bool-cases (d == sep)) [
      | inl k ↦ rw (k, e) (tt, ih)
      | inr k ↦ rw (k, e) ((h.0, ih.0), ih.1)
    ]
