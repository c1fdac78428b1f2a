-- ===== src/RateLimit/Bucket/Interval.antt =====
-- The interval of the ticker, and the bucket that NewBucket makes.
use native.Mathlib.Nat.{
  div-eq_of_lt, le-div_iff_mul-le, div-eq_of_lt-le, lt-div-mul-add, div-add-mod, mod-lt,
}
use pulse_monitor.Prelude.Int.{ℤ, pos, ◌<ℤ◌}
use pulse_monitor.Prelude.{ℕ, ◌*◌, ◌/◌, ◌%◌, ◌≤◌, ◌<◌, ◌≡◌, ◌↔◌, none, some, arith}
use pulse_monitor.RateLimit.Bucket.{Bucket, second, clamp, with_interval, new_bucket}

clamp-pos : (rate : ℤ) → 0 < clamp rate
unfolding clamp
clamp-pos rate = ground arith

clamp-lt_iff : (rate : ℤ) → (second < clamp rate) ↔ (pos second <ℤ rate)
unfolding clamp
clamp-lt_iff rate = (λ h. ground arith, λ h. ground arith)

interval-eq-zero : (n rate : ℕ) → 0 < rate → n / rate ≡ 0 → n < rate
interval-eq-zero n rate h e = grind (arith, div-add-mod n rate, mod-lt n h)

with_interval-none_iff : (rate interval : ℕ) → (with_interval rate interval ≡ none) ↔ (interval ≡ 0)
unfolding with_interval
with_interval-none_iff rate interval = (λ h. ground arith, λ h. ground arith)

-- NewBucket panics, in time.NewTicker, exactly for the rates above 1000000000 per second.
pub new_bucket_panics : (rate : ℤ) → (new_bucket rate ≡ none) ↔ (pos second <ℤ rate)
unfolding new_bucket
new_bucket_panics rate = (
  λ h.
      (clamp-lt_iff rate).0
        (interval-eq-zero second (clamp rate) (clamp-pos rate) ((with_interval-none_iff _ _).0 h)),
  λ h. (with_interval-none_iff _ _).1 (div-eq_of_lt ((clamp-lt_iff rate).1 h)),
)

-- The ticks that fall into a period, at a tick every `period / rate`.
abbrev pub ticks_in : ℕ → ℕ → ℕ
ticks_in period rate = period / (period / rate)

module _ (period rate : ℕ) (low : 0 < rate) (high : rate ≤ period) where
  interval-pos : 0 < period / rate
  interval-pos = (le-div_iff_mul-le low).1 (omega arith)

  ticks_in-ge : rate ≤ ticks_in period rate
  ticks_in-ge = (le-div_iff_mul-le interval-pos).1 (omega (arith, div-add-mod period rate))

  ticks_in_exact : period % rate < period / rate → ticks_in period rate ≡ rate
  ticks_in_exact h =
      div-eq_of_lt-le (period / rate) (omega (arith, div-add-mod period rate))
        (omega (arith, div-add-mod period rate))

  ticks_in_over : ticks_in period rate ≡ rate → period % rate < period / rate
  ticks_in_over e = omega (
    arith,
    rw e at (lt-div-mul-add {a = period} {b = period / rate} interval-pos),
    div-add-mod period rate,
  )

  -- The ticker of a rate fires at least `rate` times in a period, and exactly so often just where
  -- the remainder of the division is below the interval.
  pub ticks_in_iff :
      (rate ≤ ticks_in period rate)
      × ((ticks_in period rate ≡ rate) ↔ (period % rate < period / rate))
  ticks_in_iff = (ticks_in-ge, (ticks_in_over, ticks_in_exact))

interval_lem :
    (rate : ℕ) {b : Bucket}
    → 0 < rate
    → new_bucket (pos rate) ≡ some b
    → (rate ≤ second) × (b.interval ≡ second / rate)
interval_lem rate {b} low h =
    (ground (arith, (new_bucket_panics (pos rate)).1), unfold new_bucket in ground arith)

square-le : (rate : ℕ) → rate ≤ 31622 → rate * rate ≤ second
square-le rate h = let k : rate * rate ≤ 31622 * 31622 = grind arith in omega arith

-- For a rate from 1 to 31622 the interval that NewBucket computes, rounded down, makes exactly
-- `rate` ticks in a second.
new_bucket_ticks :
    (rate : ℕ) {b : Bucket}
    → 0 < rate
    → rate ≤ 31622
    → new_bucket (pos rate) ≡ some b
    → second / b.interval ≡ rate
new_bucket_ticks rate {b} low small h =
    let (high, e) = interval_lem rate {b = b} low h in
    rw e (
      (ticks_in_iff second rate low high).1.1
        (omega (arith, mod-lt second low, (le-div_iff_mul-le low).1 (square-le rate small))))
