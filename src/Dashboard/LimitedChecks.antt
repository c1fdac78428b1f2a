-- ===== src/Dashboard/LimitedChecks.antt =====
-- The checks of a pool on the manager of buckets that cmd/server/main.go gives it for a limiter:
-- checkOne of internal/monitor/monitor.go goes up to its call of Wait, and later, when the bucket
-- lets the call return, from there to its end. Checks and buckets take turns in any order.
pub mod Admissions
pub mod Accounts
pub mod Steps
pub mod Redirects
pub mod Pace
pub mod Waits
pub mod Tests
use pulse_monitor.Monitor.Check.{Outside, domain_of}
use pulse_monitor.Monitor.Types.{Target}
use pulse_monitor.Prelude.Int.{ℤ}
use pulse_monitor.Prelude.{ℕ, List, [], ◌∷◌, ◌++◌, take_out, Option, none, some}
use pulse_monitor.RateLimit.Bucket.{Outcome, granted, cancelled, bucket_closed}
use pulse_monitor.RateLimit.Manager.{Manager, Act, enters, returns, new_manager, act}
use pulse_monitor.Result.{Result, ok, err}
use pulse_monitor.Text.{Text, codes}

-- A check that is blocked in Wait, with its host.
abbrev pub Waiting : Type 0
Waiting = Outside × Target × Text

-- What has happened to the manager, with the times; and the checks that are past their Wait, or never
-- came to it, each with what it met outside: `limiter` is what Wait returned to it.
pub record Limited : Type 0 where
  pub manager : Manager
  pub history : List (ℕ × Act)
  pub waiting : List Waiting
  pub checks : List (Outside × Target)

abbrev pub opened : ℤ → Limited
opened rate = record { manager = new_manager rate; history = []; waiting = []; checks = [] }

-- A check begins; the call of Wait number `i` returns, with the text of its context's error; or
-- something else happens to a bucket.
pub data Event : Type 0 where
  begins : Outside → Target → Event
  wakes : ℕ → Outcome → Text → Event
  others : Act → Event

-- The error that Wait returns.
abbrev pub wait_error : Outcome → Text → Option Text
wait_error granted e = none
wait_error cancelled e = some e
wait_error bucket_closed e = some (codes "ratelimit: bucket closed")

abbrev pub with_limiter : Outside → Option Text → Outside
with_limiter w answer = record w { limiter = some (λ domain. answer) }

-- The manager after an act, at a time.
abbrev pub acted : ℕ → Act → Limited → Option Manager → Option Limited
acted time a x none = none
acted time a x (some m) = some (record x { manager = m; history = x.history ++ (time, a) ∷ [] })

abbrev pub map_limited : (Limited → Limited) → Option Limited → Option Limited
map_limited f none = none
map_limited f (some x) = some (f x)

abbrev pub wait_at : Waiting → Limited → Limited
wait_at g x = record x { waiting = x.waiting ++ g ∷ [] }

abbrev pub checked : Outside → Target → Limited → Limited
checked w t x = record x { checks = x.checks ++ (w, t) ∷ [] }

-- A URL without a host is not waited for.
abbrev pub begin : ℕ → Outside → Target → Limited → Result Text Text → Option Limited
begin time w t x (err e) = some (checked (with_limiter w none) t x)
begin time w t x (ok host) =
    map_limited (wait_at (w, t, host)) (acted time (enters host) x (act (enters host) x.manager))

abbrev pub wake : ℕ → Outcome → Text → Limited → Option (Waiting × List Waiting) → Option Limited
wake time o e x none = none
wake time o e x (some ((w, t, host), rest)) =
    map_limited (λ y. checked (with_limiter w (wait_error o e)) t (record y { waiting = rest }))
      (acted time (returns host o) x (act (returns host o) x.manager))

unfoldable pub step : ℕ × Event → Limited → Option Limited
unfolding domain_of act
step (time, begins w t) x = begin time w t x (domain_of w t.url)
step (time, wakes i o e) x = wake time o e x (take_out i x.waiting)
step (time, others a) x = acted time a x (act a x.manager)

abbrev pub and_then : Option Limited → (Limited → Option Limited) → Option Limited
and_then none k = none
and_then (some x) k = k x

unfoldable pub run : List (ℕ × Event) → Limited → Option Limited
unfolding step
run [] x = some x
run (e ∷ es) x = and_then (step e x) (run es)
