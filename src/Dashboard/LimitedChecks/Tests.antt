-- ===== src/Dashboard/LimitedChecks/Tests.antt =====
-- One check and the bucket of its host.
use pulse_monitor.Dashboard.HostRates.{requests_to}
use pulse_monitor.Dashboard.LimitedChecks.Redirects.{sent_for}
use pulse_monitor.Dashboard.LimitedChecks.Pace.{run-pace}
use pulse_monitor.Dashboard.LimitedChecks.Waits.{let_through, wait_returns}
use pulse_monitor.Dashboard.LimitedChecks.{
  Limited, opened, Event, begins, wakes, others, run as run_limited, step as step_limited,
}
use pulse_monitor.Monitor.Check.{Outside}
use pulse_monitor.Monitor.Types.{Target}
use pulse_monitor.Prelude.Int.{pos}
use pulse_monitor.Prelude.{
  ◌⊎◌, ℕ, ◌*◌, ◌-◌, ◌/◌, ◌≤◌, ◌≡◌, refl, true, false, List, [], ◌∷◌, none, some, arith,
}
use pulse_monitor.RateLimit.Bucket.{Bucket, granted, second, clamp, cancelled, bucket_closed}
use pulse_monitor.RateLimit.Manager.Pace.{Timed, IsPaced, IsBefore}
use pulse_monitor.RateLimit.Manager.{
  Manager, Act, enters, returns, fires, refills_at, run, find, new_manager,
}
use pulse_monitor.Result.{ok}
use pulse_monitor.Text.{Text, codes}

abbrev site : Target
site = record { id = codes "1"; url = codes "http://a.test" }

abbrev host : Text
host = codes "a.test"

abbrev outside : Outside
outside = record {
  now = 100;
  hostname = λ url. ok host;
  quote = λ s. s;
  limiter = some (λ domain. none);
  build = λ url. none;
  get = λ url. record { duration = 1; answer = ok 200; follows = codes "https://a.test/" ∷ [] };
}

-- A check, and the bucket of its host, whose ticker fires half a second after its start.
abbrev events : List (ℕ × Event)
events =
    (7, begins outside site)
    ∷ (500_000_007, others (fires host))
    ∷ (500_000_010, others (refills_at host))
    ∷ (500_000_020, wakes 0 granted [])
    ∷ []

abbrev timed : Timed
timed =
    (7, enters host)
    ∷ (500_000_007, fires host)
    ∷ (500_000_010, refills_at host)
    ∷ (500_000_020, returns host granted)
    ∷ []

abbrev host_bucket : Bucket
host_bucket = record {
  capacity = 2;
  interval = 500_000_000;
  tokens = 0;
  tick_pending = false;
  refilling = true;
  closed = false;
}

abbrev limited : Limited
limited = record {
  manager = record { rate_per_second = pos 2; buckets = (host, host_bucket) ∷ [] };
  history = timed;
  waiting = [];
  checks = (record outside { limiter = some (λ domain. none) }, site) ∷ [];
}

events-run : run_limited events (opened (pos 2)) ≡ some limited
unfolding run_limited new_manager pulse_monitor.RateLimit.Bucket.new_bucket
    pulse_monitor.Text.text_eq pulse_monitor.RateLimit.Bucket.move
    pulse_monitor.RateLimit.Manager.act
events-run = refl

find-host : find host limited.manager.buckets ≡ some host_bucket
unfolding find pulse_monitor.Text.text_eq
find-host = refl

timed-IsPaced : IsPaced 500_000_000 host 500_000_007 timed
unfolding pulse_monitor.Text.text_eq
timed-IsPaced = (omega arith, tt)

timed-IsBefore : IsBefore 600_000_000 timed
timed-IsBefore = (omega arith, (omega arith, (omega arith, (omega arith, tt))))

run-pace_example :
    (requests_to host limited.checks * 500_000_000 ≤ 600_000_000 - 7)
    × (sent_for host limited.checks ≤ 10 * requests_to host limited.checks)
    × (500_000_000 ≡ second / clamp (pos 2))
run-pace_example =
    run-pace (pos 2) events host host_bucket 7 600_000_000 events-run find-host timed-IsPaced
      timed-IsBefore (omega arith, tt)

-- The check waits for the first tick.
abbrev blocked : Limited
blocked = record {
  manager = record { rate_per_second = pos 2; buckets = (host, host_bucket) ∷ [] };
  history = (7, enters host) ∷ [];
  waiting = (outside, site, host) ∷ [];
  checks = [];
}

blocked-run : run_limited ((7, begins outside site) ∷ []) (opened (pos 2)) ≡ some blocked
unfolding run_limited new_manager pulse_monitor.RateLimit.Bucket.new_bucket
    pulse_monitor.Text.text_eq pulse_monitor.RateLimit.Bucket.move
    pulse_monitor.RateLimit.Manager.act
blocked-run = refl

wait_returns_example :
    ((y : Limited) × (step_limited (9, wakes 0 cancelled (codes "canceled")) blocked ≡ some y)
      × (y.waiting ≡ []))
    × (((y : Limited) × (run_limited (let_through 9 0 host (codes "canceled")) blocked ≡ some y)
          × (y.waiting ≡ []))
        ⊎ ((y : Limited) × (step_limited (9, wakes 0 bucket_closed (codes "canceled")) blocked
              ≡ some y)
            × (y.waiting ≡ [])))
wait_returns_example =
    wait_returns (pos 2) ((7, begins outside site) ∷ []) 0 9 outside site host [] (codes "canceled")
      blocked-run refl
