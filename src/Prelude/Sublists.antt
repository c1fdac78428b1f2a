-- ===== src/Prelude/Sublists.antt =====
-- Sublists of a list of images.
use mathlib.Core.List.Sublistᴰ as SublistD
use mathlib.Core.List.{Sublistᴰ}
use pulse_monitor.Prelude.Lists.{All, length}
use Prim.Native.Nat.{suc, ◌≤◌}
use native.Mathlib.Omega.{arith}
use mathlib.Core.Path.{◌≡◌, refl, sym, subst, ap, ◌∙◌}
use mathlib.Core.Logic.{inl, inr}
use mathlib.Core.List.{List, [], ◌∷◌, ◌++◌, map}

pub sublist-map {ℓ κ} :
    {A : Type ℓ} {B : Type κ} (f : A → B) (us : List B) (es : List A)
    → Sublistᴰ us (map f es)
    → (ds : List A) × Sublistᴰ ds es × (us ≡ map f ds)
sublist-map f us [] s = ([], Sublistᴰ.slnil, SublistD.eq-nil s)
sublist-map f us (e ∷ es) s = elim (SublistD.cases_cons s) [
  | inl t ↦ let (ds, d, p) = sublist-map f us es t in (ds, SublistD.cons d, p)
  | inr (r, p, t) ↦
      let (ds, d, q) = sublist-map f r es t in
      (e ∷ ds, SublistD.cons-cons refl d, p ∙ ap (◌∷◌ (f e)) q)
]

pub sublist-append_left {ℓ} : {A : Type ℓ} (xs ys : List A) → Sublistᴰ xs (xs ++ ys)
sublist-append_left [] ys = SublistD.nil-sublist ys
sublist-append_left (x ∷ xs) ys = SublistD.cons-cons refl (sublist-append_left xs ys)

pub sublist-append {ℓ} :
    {A : Type ℓ} (xs ys us vs : List A)
    → Sublistᴰ xs ys
    → Sublistᴰ us vs
    → Sublistᴰ (xs ++ us) (ys ++ vs)
sublist-append xs [] us vs s t = subst (λ l. Sublistᴰ (l ++ us) vs) (sym (SublistD.eq-nil s)) t
sublist-append xs (y ∷ ys) us vs s t = elim (SublistD.cases_cons s) [
  | inl r ↦ SublistD.cons (sublist-append xs ys us vs r t)
  | inr (r, p, q) ↦
      subst (λ l. Sublistᴰ (l ++ us) (y ∷ ys ++ vs)) (sym p)
        (SublistD.cons-cons refl (sublist-append r ys us vs q t))
]

pub sublist-length {ℓ} : {A : Type ℓ} (xs ys : List A) → Sublistᴰ xs ys → length xs ≤ length ys
sublist-length xs [] s = rw (SublistD.eq-nil s) (omega arith)
sublist-length xs (y ∷ ys) s = elim (SublistD.cases_cons s) [
  | inl t ↦ omega (arith, sublist-length xs ys t)
  | inr (r, p, t) ↦ rw p (omega (arith, sublist-length r ys t))
]

-- A sublist that misses nothing.
pub sublist-eq {ℓ} :
    {A : Type ℓ} (xs ys : List A) → Sublistᴰ xs ys → length ys ≤ length xs → xs ≡ ys
sublist-eq xs [] s h = SublistD.eq-nil s
sublist-eq xs (y ∷ ys) s h = elim (SublistD.cases_cons s) [
  | inl t ↦ ground (arith, h, sublist-length xs ys t)
  | inr (r, p, t) ↦
      p
      ∙ ap (◌∷◌ y) (sublist-eq r ys t (omega (arith, subst (λ l. suc (length ys) ≤ length l) p h)))
]

pub All-sublist {ℓ κ} :
    {A : Type ℓ} (P : A → Type κ) (ds es : List A) → Sublistᴰ ds es → All P es → All P ds
All-sublist P ds [] s h = subst (All P) (sym (SublistD.eq-nil s)) tt
All-sublist P ds (e ∷ es) s h = elim (SublistD.cases_cons s) [
  | inl t ↦ All-sublist P ds es t h.1
  | inr (r, p, t) ↦ subst (All P) (sym p) (h.0, All-sublist P r es t h.1)
]
