-- ===== src/Prelude/Word.antt =====
-- Go's `int`, `int64` and `time.Duration` on a 64-bit platform: two's complement, wrapping.
use Prim.Native.Nat.{ℕ, ◌+◌, ◌-◌, ◌%◌, ◌≤◌, ◌<◌}
use mathlib.Core.Path.{◌≡◌}
use native.Mathlib.Omega.{arith}
use pulse_monitor.Prelude.Int.{ℤ, pos, negsuc, pos_part, neg_part, sub_ℕ, ◌+ℤ◌, ◌*ℤ◌}
use pulse_monitor.Prelude.Tests.{ltb, if◌then◌else◌}

-- 2 ^ 64 and 2 ^ 63.
abbrev pub word_mod : ℕ
word_mod = 18_446_744_073_709_551_616

abbrev pub word_half : ℕ
word_half = 9_223_372_036_854_775_808

-- The bit pattern of an integer, and the integer that a bit pattern stands for.
abbrev pub to_word : ℤ → ℕ
to_word (pos n) = n % word_mod
to_word (negsuc n) = word_mod - 1 - n % word_mod

abbrev pub of_word : ℕ → ℤ
of_word m = if ltb m word_half then pos m else negsuc (word_mod - 1 - m)

unfoldable pub wrap : ℤ → ℤ
wrap z = of_word (to_word z)

unfoldable pub add64 : ℤ → ℤ → ℤ
add64 a b = wrap (a +ℤ b)

unfoldable pub sub64 : ℤ → ℤ → ℤ
sub64 a b = wrap (sub_ℕ (pos_part a + neg_part b) (neg_part a + pos_part b))

unfoldable pub mul64 : ℤ → ℤ → ℤ
mul64 a b = wrap (a *ℤ b)

-- -2 ^ 63 ≤ z < 2 ^ 63.
abbrev pub IsInt64 : ℤ → Type 0
IsInt64 z = (pos_part z < word_half) × (neg_part z ≤ word_half)

pub wrap-eq : (z : ℤ) → IsInt64 z → wrap z ≡ z
unfolding wrap
wrap-eq (pos n) h = ground arith
wrap-eq (negsuc n) h = ground arith

pub wrap-IsInt64 : (z : ℤ) → IsInt64 (wrap z)
unfolding wrap
wrap-IsInt64 (pos n) = ground arith
wrap-IsInt64 (negsuc n) = ground arith
