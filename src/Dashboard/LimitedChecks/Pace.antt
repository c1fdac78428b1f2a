-- ===== src/Dashboard/LimitedChecks/Pace.antt =====
-- The calls of client.Do that a pool makes for one host in a time.
use pulse_monitor.Dashboard.HostRates.{requests_to, requests_to-pace}
use pulse_monitor.Dashboard.LimitedChecks.Accounts.{IsAccounted, opened-IsAccounted}
use pulse_monitor.Dashboard.LimitedChecks.Redirects.{IsCapped, sent_for, sent_for-le}
use pulse_monitor.Dashboard.LimitedChecks.Steps.{step-IsAccounted}
use pulse_monitor.Dashboard.LimitedChecks.{Limited, opened, Event, step, and_then, run}
use pulse_monitor.Prelude.Int.{ℤ}
use pulse_monitor.Prelude.{
  ℕ, ◌+◌, ◌-◌, ◌*◌, ◌/◌, ◌≤◌, ◌≡◌, refl, subst, List, [], ◌∷◌, Option, none, some, All,
}
use pulse_monitor.RateLimit.Bucket.{Bucket, second, clamp}
use pulse_monitor.RateLimit.Manager.Pace.{IsPaced, IsBefore}
use pulse_monitor.RateLimit.Manager.{find}
use pulse_monitor.Text.{Text}

module _ {rate : ℤ} where
  pub run-IsAccounted :
      (es : List (ℕ × Event)) (x : Limited) {y : Limited}
      → run es x ≡ some y
      → IsAccounted rate x
      → IsAccounted rate y
  unfolding run
  run-IsAccounted [] x h i = subst (IsAccounted rate) (cc) i
  run-IsAccounted ((time, e) ∷ es) x {y = z} h i =
      chained (step (time, e) x) (λ y f. step-IsAccounted time e x f i)
        (λ y j g. run-IsAccounted es y g j) h
    where
      chained :
          (o : Option Limited)
          → ((y : Limited) → o ≡ some y → IsAccounted rate y)
          → ((y : Limited) → IsAccounted rate y → run es y ≡ some z → IsAccounted rate z)
          → and_then o (run es) ≡ some z
          → IsAccounted rate z
      chained none f k e = cc
      chained (some y) f k e = k y (f y refl) e

-- However the checks of a pool and the buckets of its limiter take turns, whatever the checks meet
-- outside: let the ticker of a host, from its start on, tick no faster than once in each of the intervals
-- that NewBucket gave it, and let client.Do, as net/http does by default, follow at most nine redirects.
-- Then the calls of client.Do that checks have made for targets on the host, at one interval for each,
-- take no longer than the time since that start; the requests that these checks have sent, redirects
-- followed to whatever host included, are at most ten for each of those calls; and the interval is a second
-- divided by the rate (1 if it is below 1), rounded down.
pub run-pace :
    (rate : ℤ) (es : List (ℕ × Event)) {x : Limited} (k : Text) (b : Bucket) (start now : ℕ)
    → run es (opened rate) ≡ some x
    → find k x.manager.buckets ≡ some b
    → IsPaced b.interval k (start + b.interval) x.history
    → IsBefore now x.history
    → All IsCapped x.checks
    → (requests_to k x.checks * b.interval ≤ now - start)
      × (sent_for k x.checks ≤ 10 * requests_to k x.checks)
      × (b.interval ≡ second / clamp rate)
run-pace rate es {x} k b start now h f p t c =
    let i = run-IsAccounted es (opened rate) h (opened-IsAccounted rate) in
    let (paced, interval) =
      requests_to-pace rate x.history k b x.checks start now i.managed f i.limited (i.let_through k)
        p t in
    (paced, sent_for-le k x.checks c, interval)
