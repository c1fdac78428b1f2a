-- ===== src/RateLimit/Manager/Pace.antt =====
-- A history of a manager with the times, in nanoseconds, at which its acts happen.
use native.Mathlib.Nat.{add-mul, zero-add}
use pulse_monitor.Prelude.{
  ℕ, ◌+◌, ◌-◌, ◌*◌, ◌≤◌, ◌≡◌, refl, ◌⊎◌, inl, inr, Bool, false, List, [], ◌∷◌, map, arith, All,
  Bool-cases, if◌then◌else◌,
}
use pulse_monitor.RateLimit.Bucket.Bounds.{count_ticks}
use pulse_monitor.RateLimit.Manager.Isolation.{cons_some-counts}
use pulse_monitor.RateLimit.Manager.Steps.{moves_at, move_for}
use pulse_monitor.RateLimit.Manager.{Act, enters, returns, fires, refills_at, stops_at, shuts}
use pulse_monitor.Text.{Text, text_eq}

abbrev pub Timed : Type 0
Timed = List (ℕ × Act)

abbrev pub acts_of : Timed → List Act
acts_of = map λ p. p.1

abbrev pub is_tick_of : Text → Act → Bool
is_tick_of k (fires j) = text_eq j k
is_tick_of k _ = false

-- The documented pace of a time.Ticker: a tick of the ticker of `k` is not before it is due, and the
-- next one is due an interval later. A slow receiver makes a ticker drop ticks, never add some.
abbrev pub IsPaced : ℕ → Text → ℕ → Timed → Type 0
IsPaced interval k due [] = Unit
IsPaced interval k due ((time, a) ∷ h) =
    if is_tick_of k a
    then (due ≤ time) × IsPaced interval k (due + interval) h
    else IsPaced interval k due h

abbrev pub IsBefore : ℕ → Timed → Type 0
IsBefore now = All (λ p. p.0 ≤ now)

tick-count :
    (k : Text) (a : Act) → count_ticks (moves_at k (a ∷ [])) ≡ (if is_tick_of k a then 1 else 0)
tick-count k (enters j) = refl
tick-count k (fires j) = ground arith
tick-count k (returns j o) = ground arith
tick-count k (refills_at j) = ground arith
tick-count k (stops_at j) = ground arith
tick-count k shuts = refl

-- The ticks of the ticker of `k`.
abbrev pub ticks_at : Text → Timed → ℕ
ticks_at k h = count_ticks (moves_at k (acts_of h))

ticks_at-cons :
    (k : Text) (time : ℕ) (a : Act) (h : Timed)
    → ticks_at k ((time, a) ∷ h) ≡ (if is_tick_of k a then 1 else 0) + ticks_at k h
ticks_at-cons k time a h =
    omega (arith, (cons_some-counts (move_for k a) (moves_at k (acts_of h))).1, tick-count k a)

later :
    (due i now n : ℕ)
    → due ≤ now
    → (n ≡ 0) ⊎ (due + i + n * i ≤ now + i)
    → due + (1 + n) * i ≤ now + i
later due i now n d (inl e) = rw e (omega arith)
later due i now n d (inr e) = omega (arith, add-mul 1 n i)

IsPaced-ticks_at :
    (interval : ℕ) (k : Text) (due now : ℕ) (h : Timed)
    → IsPaced interval k due h
    → IsBefore now h
    → (ticks_at k h ≡ 0) ⊎ (due + ticks_at k h * interval ≤ now + interval)
IsPaced-ticks_at interval k due now [] p b = inl refl
IsPaced-ticks_at interval k due now ((time, a) ∷ h) p b = elim (Bool-cases (is_tick_of k a)) [
  | inl e ↦
      let (d, q) : (due ≤ time) × IsPaced interval k (due + interval) h = rw e at p in
      rw (ticks_at-cons k time a h, e)
        (inr (
          later due interval now (ticks_at k h) (omega (arith, d, b.0))
            (IsPaced-ticks_at interval k (due + interval) now h q b.1)))
  | inr e ↦
      rw (ticks_at-cons k time a h, e, zero-add (ticks_at k h))
        (IsPaced-ticks_at interval k due now h (rw e at p) b.1)
]

-- So many ticks take so many intervals, from the start of the ticker on.
pub ticks_at-le :
    (interval : ℕ) (k : Text) (start now : ℕ) (h : Timed)
    → IsPaced interval k (start + interval) h
    → IsBefore now h
    → ticks_at k h * interval ≤ now - start
ticks_at-le interval k start now h p b =
    elim (IsPaced-ticks_at interval k (start + interval) now h p b) [
      | inl e ↦ rw e (omega arith)
      | inr e ↦ omega arith
    ]
