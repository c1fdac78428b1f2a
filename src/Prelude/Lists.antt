-- ===== src/Prelude/Lists.antt =====
-- Lists measured and indexed by native numbers, under the library's names.
use Prim.Native.Nat.{ℕ, zero, suc, ◌+◌}
use mathlib.Core.Path.{◌≡◌, refl, subst}
use mathlib.Core.List.{List, [], ◌∷◌, ◌++◌, map}
use mathlib.Core.Option.{Option, none, some}
use native.Mathlib.Omega.{arith}

module _ {ℓ} {A : Type ℓ} where
  abbrev pub length : List A → ℕ
  length [] = 0
  length (x ∷ xs) = suc (length xs)

  abbrev pub get_elem? : List A → ℕ → Option A
  get_elem? [] i = none
  get_elem? (x ∷ xs) zero = some x
  get_elem? (x ∷ xs) (suc i) = get_elem? xs i

  -- A write out of bounds changes nothing.
  abbrev pub set : List A → ℕ → A → List A
  set [] i v = []
  set (x ∷ xs) zero v = v ∷ xs
  set (x ∷ xs) (suc i) v = x ∷ set xs i v

  -- The element number `i`, and the others in their order.
  abbrev pub behind : A → Option (A × List A) → Option (A × List A)
  behind x none = none
  behind x (some (y, ys)) = some (y, x ∷ ys)

  abbrev pub take_out : ℕ → List A → Option (A × List A)
  take_out i [] = none
  take_out zero (x ∷ xs) = some (x, xs)
  take_out (suc i) (x ∷ xs) = behind x (take_out i xs)

  pub length-append : (xs ys : List A) → length (xs ++ ys) ≡ length xs + length ys
  length-append [] ys = omega arith
  length-append (x ∷ xs) ys = omega (arith, length-append xs ys)

-- A predicate by recursion computes to tuples, which the tactics read and build.
abbrev pub All {ℓ κ} : {A : Type ℓ} → (A → Type κ) → List A → Type κ
All P [] = Unit
All P (x ∷ xs) = P x × All P xs

pub All-append {ℓ κ} :
    {A : Type ℓ} (P : A → Type κ) (xs ys : List A) → All P xs → All P ys → All P (xs ++ ys)
All-append P [] ys hx hy = hy
All-append P (x ∷ xs) ys hx hy = (hx.0, All-append P xs ys hx.1 hy)

pub All-map {ℓ κ} :
    {A : Type ℓ} {P Q : A → Type κ} → ((x : A) → P x → Q x) → (xs : List A) → All P xs → All Q xs
All-map f [] h = tt
All-map f (x ∷ xs) h = (f x h.0, All-map f xs h.1)

pub length-map {ℓ κ} :
    {A : Type ℓ} {B : Type κ} (f : A → B) (xs : List A) → length (map f xs) ≡ length xs
length-map f [] = refl
length-map f (x ∷ xs) = omega (arith, length-map f xs)

module _ {ℓ κ} {A : Type ℓ} (P : A → Type κ) where
  abbrev AllPair : A × List A → Type κ
  AllPair (x, xs) = P x × All P xs

  All-behind :
      (x : A) (o : Option (A × List A)) {y : A} {ys : List A}
      → behind x o ≡ some (y, ys)
      → P x
      → ((z : A) (zs : List A) → o ≡ some (z, zs) → AllPair (z, zs))
      → AllPair (y, ys)
  All-behind x none e h k = cc
  All-behind x (some (z, zs)) {y = y} {ys = ys} e h k =
      let (pz, pzs) = k z zs refl in
      subst AllPair {x = (z, x ∷ zs)} {y = (y, ys)} (cc) (pz, (h, pzs))

  pub All-take_out :
      (i : ℕ) (xs : List A) {y : A} {ys : List A}
      → take_out i xs ≡ some (y, ys)
      → All P xs
      → P y × All P ys
  All-take_out i [] e h = cc
  All-take_out zero (x ∷ xs) {y = y} {ys = ys} e h =
      subst AllPair {x = (x, xs)} {y = (y, ys)} (cc) h
  All-take_out (suc i) (x ∷ xs) e h =
      All-behind x (take_out i xs) e h.0 (λ z zs k. All-take_out i xs k h.1)
