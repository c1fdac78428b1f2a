-- ===== src/Text/Trim.antt =====
-- Laws of `trim_space`.
use mathlib.Core.List.{reverse-reverse}
use pulse_monitor.Prelude.{
  ◌≡◌, refl, inl, inr, Bool, true, false, [], ◌∷◌, ◌++◌, reverse, All, arith, if◌then◌else◌,
  Bool-cases,
}
use pulse_monitor.Text.Basic.{Text, is_space, trim_left, trim_space}

-- No character is a space.
abbrev pub NoSpace : Text → Type 0
NoSpace = All (λ c. is_space c ≡ false)

abbrev starts_solid : Text → Bool
starts_solid [] = true
starts_solid (c ∷ s) = if is_space c then false else true

-- Neither end is a space.
pub record IsTrimmed (s : Text) : Type 0 where
  pub front : starts_solid s ≡ true
  pub back : starts_solid (reverse s) ≡ true

trim_left-eq : (s : Text) → starts_solid s ≡ true → trim_left s ≡ s
unfolding trim_left
trim_left-eq [] h = refl
trim_left-eq (c ∷ s) h = ground arith

trim_left-solid : (s : Text) → starts_solid (trim_left s) ≡ true
unfolding trim_left
trim_left-solid [] = refl
trim_left-solid (c ∷ s) = elim (Bool-cases (is_space c)) [
  | inl h ↦ rw h (trim_left-solid s)
  | inr h ↦ rw (h, h)
]

pub trim_space-eq : (s : Text) → IsTrimmed s → trim_space s ≡ s
unfolding trim_space
trim_space-eq s t = rw (trim_left-eq s t.front, trim_left-eq (reverse s) t.back) (reverse-reverse s)

-- A text of spaces alone in front.
abbrev pub AllSpace : Text → Type 0
AllSpace = All (λ c. is_space c ≡ true)

pub trim_left-spaces : (ws s : Text) → AllSpace ws → trim_left (ws ++ s) ≡ trim_left s
unfolding trim_left
trim_left-spaces [] s h = refl
trim_left-spaces (c ∷ ws) s h = rw h.0 (trim_left-spaces ws s h.1)
