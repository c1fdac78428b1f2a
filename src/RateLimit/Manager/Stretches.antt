-- ===== src/RateLimit/Manager/Stretches.antt =====
-- What a manager grants in a part of its history.
use pulse_monitor.Prelude.Int.{ℤ}
use pulse_monitor.Prelude.{◌+◌, ◌≤◌, ◌≡◌, inl, inr, List, some, arith, Option-cases}
use pulse_monitor.RateLimit.Bucket.Bounds.{grants, count_ticks, pending}
use pulse_monitor.RateLimit.Bucket.{Bucket, clamp}
use pulse_monitor.RateLimit.Manager.Buckets.{IsOf, new_manager-IsOf}
use pulse_monitor.RateLimit.Manager.Isolation.{stock, run_budget, new_manager_rate}
use pulse_monitor.RateLimit.Manager.Steps.{moves_at}
use pulse_monitor.RateLimit.Manager.{Manager, Act, find, run, new_manager}
use pulse_monitor.Text.{Text}

pending-le : (b : Bucket) → pending b ≤ 1
pending-le b = ground arith

IsOf-stock : (rate : ℤ) (b : Bucket) → IsOf rate b → b.tokens + pending b ≤ clamp rate + 1
IsOf-stock rate b i = omega (arith, i.capacity, i.sound.stored, pending-le b)

stock-le :
    (rate : ℤ) (acts : List Act) {m : Manager} (k : Text)
    → run acts (new_manager rate) ≡ some m
    → stock (find k m.buckets) ≤ clamp rate + 1
stock-le rate acts {m} k h = elim (Option-cases (find k m.buckets)) [
  | inl e ↦ rw e (omega arith)
  | inr (b, e) ↦ rw e (IsOf-stock rate b (new_manager-IsOf rate acts k h e))
]

-- In any history of a new manager, and at every key, the calls of Wait for that key that return nil are at
-- most as many as the ticks of that key's own ticker. In any part of the history that comes later, they
-- are at most as many as the ticks in that part, the rate (1 if it is below 1) and one more.
pub new_manager_bursts :
    (rate : ℤ) (acts later : List Act) {m m' : Manager} (k : Text)
    → run acts (new_manager rate) ≡ some m
    → run later m ≡ some m'
    → (grants (moves_at k acts) ≤ count_ticks (moves_at k acts))
      × (grants (moves_at k later) ≤ count_ticks (moves_at k later) + clamp rate + 1)
new_manager_bursts rate acts later {m} k h g =
    (new_manager_rate rate acts h k, omega (arith, run_budget k later m g, stock-le rate acts k h))
