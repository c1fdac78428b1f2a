-- ===== src/Text/Decimal.antt =====
-- Decimal numbers: fmt's `%d`, strconv.Atoi and strconv.ParseInt(s, 10, 64), on 64-bit platforms.
use pulse_monitor.Prelude.{
  ℕ, zero, suc, ◌+◌, ◌-◌, ◌*◌, ◌/◌, ◌%◌, ◌<◌, ◌≡◌, refl, ◌∙◌, inl, inr, Bool, true, false, ◌&&◌, [],
  ◌∷◌, Option, none, some, All, arith, ltb, leb, lt→ltb, ◌==◌, if◌then◌else◌, Bool-cases,
}
use pulse_monitor.Prelude.Int.{ℤ, pos, negsuc}
use pulse_monitor.Prelude.Word.{word_half, IsInt64}
use pulse_monitor.Text.Basic.{Text}

unfoldable pub is_digit : ℕ → Bool
is_digit c = leb b'0' c && leb c b'9'

-- The digits of `n` in front of `acc`. The fuel is enough above `n`.
digits_onto : ℕ → ℕ → Text → Text
digits_onto zero n acc = acc
digits_onto (suc f) n acc =
    let rest = digits_onto f (n / 10) ((b'0' + n % 10) ∷ acc) in
    if ltb n 10 then (b'0' + n) ∷ acc else rest

unfoldable pub print_nat : ℕ → Text
unfolding digits_onto
print_nat n = digits_onto (suc n) n []

-- `%d`.
unfoldable pub print_int : ℤ → Text
unfolding print_nat
print_int (pos n) = print_nat n
print_int (negsuc n) = b'-' ∷ print_nat (suc n)

parse_digits : ℕ → Text → Option ℕ
unfolding is_digit
parse_digits acc [] = some acc
parse_digits acc (c ∷ s) =
    let rest = parse_digits (acc * 10 + (c - b'0')) s in if is_digit c then rest else none

-- The number behind the sign: at least one digit.
magnitude : Text → Option ℕ
unfolding parse_digits
magnitude [] = none
magnitude (c ∷ s) = parse_digits 0 (c ∷ s)

-- Below 2 ^ 63, and for a negative number at most that, else ErrRange.
signed : Bool → Option ℕ → Option ℤ
signed negative none = none
signed false (some n) = if ltb n word_half then some (pos n) else none
signed true (some zero) = some (pos 0)
signed true (some (suc n)) = if ltb n word_half then some (negsuc n) else none

-- strconv.Atoi and strconv.ParseInt in base 10: `none` for ErrSyntax and ErrRange.
unfoldable pub atoi : Text → Option ℤ
unfolding magnitude signed
atoi [] = none
atoi (c ∷ s) =
    if c == b'-'
    then signed true (magnitude s)
    else if c == b'+'
    then signed false (magnitude s)
    else signed false (magnitude (c ∷ s))

parse-digits_onto :
    (f n : ℕ) (acc : Text) → n < f → parse_digits 0 (digits_onto f n acc) ≡ parse_digits n acc
unfolding parse_digits digits_onto
parse-digits_onto zero n acc h = absurd (omega arith)
parse-digits_onto (suc f) n acc h = elim (Bool-cases (ltb n 10)) [
  | inl small ↦ rw small (ground arith)
  | inr large ↦ rw large (parse-digits_onto f (n / 10) _ (ground arith) ∙ ground arith)
]

-- The digits are nonempty, and every character is a digit.
abbrev pub AllDigits : Text → Type 0
AllDigits = All (λ c. is_digit c ≡ true)

digits_onto-AllDigits :
    (f n : ℕ) (acc : Text) → n < f → AllDigits acc → AllDigits (digits_onto f n acc)
unfolding digits_onto is_digit
digits_onto-AllDigits zero n acc h d = d
digits_onto-AllDigits (suc f) n acc h d = elim (Bool-cases (ltb n 10)) [
  | inl small ↦ rw small (ground arith, d)
  | inr large ↦ rw large (digits_onto-AllDigits f (n / 10) _ (ground arith) (ground arith, d))
]

pub print_nat-AllDigits : (n : ℕ) → AllDigits (print_nat n)
unfolding print_nat
print_nat-AllDigits n = digits_onto-AllDigits (suc n) n [] (omega arith) tt

digits_onto-cons :
    (f n : ℕ) (acc : Text) → n < f → (c : ℕ) × (s : Text) × (digits_onto f n acc ≡ c ∷ s)
unfolding digits_onto
digits_onto-cons zero n acc h = absurd (omega arith)
digits_onto-cons (suc f) n acc h = elim (Bool-cases (ltb n 10)) [
  | inl small ↦ rw small (b'0' + n, acc, refl)
  | inr large ↦ rw large (digits_onto-cons f (n / 10) _ (ground arith))
]

pub print_nat-cons : (n : ℕ) → (c : ℕ) × (s : Text) × (print_nat n ≡ c ∷ s)
unfolding print_nat
print_nat-cons n = digits_onto-cons (suc n) n [] (omega arith)

parse_digits-print_nat : (n : ℕ) → parse_digits 0 (print_nat n) ≡ some n
unfolding print_nat parse_digits
parse_digits-print_nat n = parse-digits_onto (suc n) n [] (omega arith)

magnitude-print_nat : (n : ℕ) → magnitude (print_nat n) ≡ some n
unfolding magnitude
magnitude-print_nat n =
    let (c, s, e) = print_nat-cons n in rw e (rw e at (parse_digits-print_nat n))

atoi-print_nat : (n : ℕ) → n < word_half → atoi (print_nat n) ≡ some (pos n)
unfolding atoi is_digit
atoi-print_nat n h =
    let (c, s, e) = print_nat-cons n in
    let d = rw e at (print_nat-AllDigits n) in
    let m = rw e at (magnitude-print_nat n) in rw e (ground (arith, d, m))

-- What `%d` prints of an int64, Atoi reads back.
pub atoi-print_int : (z : ℤ) → IsInt64 z → atoi (print_int z) ≡ some z
atoi-print_int (pos n) h = unfold print_int in atoi-print_nat n h.0
atoi-print_int (negsuc n) h =
    unfold print_int atoi in rw (magnitude-print_nat (suc n), lt→ltb n word_half (omega arith))

pub print_int-cons : (z : ℤ) → (c : ℕ) × (s : Text) × (print_int z ≡ c ∷ s)
unfolding print_int
print_int-cons (pos n) = print_nat-cons n
print_int-cons (negsuc n) = (b'-', print_nat (suc n), refl)
