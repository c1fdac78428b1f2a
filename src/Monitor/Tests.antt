-- ===== src/Monitor/Tests.antt =====
-- One worker and two targets: a run of Check, a single check, and a tick.
use pulse_monitor.Metrics.Counting.{count_failed}
use pulse_monitor.Metrics.{new, add_all, in_flight_up, in_flight_down, total_up}
use pulse_monitor.Monitor.Check.Outcomes.{Reaches, check_one_lem}
use pulse_monitor.Monitor.Check.{Outside, waits_for, requests, check_one}
use pulse_monitor.Monitor.Pool.Bounds.{AllLeft, check_bounded, check_complete}
use pulse_monitor.Monitor.Pool.Counting.{holds, in_flight, total}
use pulse_monitor.Monitor.Pool.Completion.{AllOwn, check_finishes}
use pulse_monitor.Monitor.Pool.Tally.{cancellations}
use pulse_monitor.Monitor.Pool.Totals.{check_metrics}
use pulse_monitor.Monitor.Pool.{
  queued, running, left, Worker, Pool, Event, acquires, counts, calls, reports, stores, leaves,
  cancels, checks, clamp_workers, start, step, run,
}
use pulse_monitor.Monitor.Tick.Checks.{tick-Returns}
use pulse_monitor.Monitor.Tick.Effects.{expected, summary}
use pulse_monitor.Monitor.Tick.{Answers, tick}
use pulse_monitor.Monitor.Types.{Target, CheckResult, failed}
use pulse_monitor.Prelude.Int.{pos}
use pulse_monitor.Prelude.{
  ℕ, arith, ◌++◌, ◌+◌, ◌*◌, ◌≤◌, ◌<◌, ◌≡◌, ◌↔◌, refl, true, false, List, [], ◌∷◌, map, none, some,
  length,
}
use pulse_monitor.Result.{ok, err}
use pulse_monitor.Text.{codes}

abbrev site : Target
site = record { id = codes "1"; url = codes "http://a.test/x" }

abbrev other : Target
other = record { id = codes "2"; url = codes "http://b.test" }

-- Every URL is on the host a.test, and every answer is a 200.
abbrev outside : Outside
outside = record {
  now = 100;
  hostname = λ url. ok (codes "a.test");
  quote = λ s. s;
  limiter = some (λ domain. none);
  build = λ url. none;
  get = λ url. record { duration = 12_000_000; answer = ok 200; follows = [] };
}

abbrev up : Target → CheckResult
up t = record {
  target = t;
  status_code = 200;
  duration = 12_000_000;
  error = none;
  checked_at = 100;
}

check_one-site :
    (check_one outside site).calls ≡ waits_for (codes "a.test") ∷ requests site.url ∷ []
unfolding check_one
check_one-site = refl

check_one_example :
    ((check_one outside site).outcome.target ≡ site)
    × ((check_one outside site).outcome.checked_at ≡ 100)
    × ((failed (check_one outside site).outcome ≡ false)
        ↔ ((status : ℕ) × Reaches outside site (ok status) × (200 ≤ status) × (status < 400)))
check_one_example = check_one_lem outside site

abbrev targets : List Target
targets = site ∷ other ∷ []

-- The first goroutine is inside checkOne, the second waits for the only place.
abbrev early : List (ℕ × Event)
early = (0, acquires) ∷ (0, counts) ∷ (0, calls) ∷ []

abbrev busy : Pool
busy = record {
  capacity = 1;
  in_use = 1;
  has_metrics = true;
  recorded = in_flight_up ∷ [];
  workers =
      record { target = site; phase = running; slot = none }
      ∷ record { target = other; phase = queued; slot = none }
      ∷ [];
}

early-run : run early (start (pos 0) true targets) ≡ some busy
unfolding run start pulse_monitor.Metrics.check_started
early-run = refl

second-blocked : step (1, acquires) busy ≡ none
unfolding step
second-blocked = refl

check_bounded_example :
    (total holds busy.workers ≤ clamp_workers (pos 0))
    × (total in_flight busy.workers ≤ clamp_workers (pos 0))
check_bounded_example = check_bounded (pos 0) true targets early early-run

check_finishes_example :
    (es' : List (ℕ × Event)) × (q : Pool) × AllOwn es'
    × (run (early ++ es') (start (pos 0) true targets) ≡ some q)
    × AllLeft q.workers
    × (length (early ++ es') ≤ 7 * length targets)
    × (rs : List CheckResult) × (map (λ (g : Worker). g.slot) q.workers ≡ map (λ r. some r) rs)
    × (map (λ (r : CheckResult). r.target) rs ≡ targets)
check_finishes_example = check_finishes outside (pos 0) true targets early early-run

-- The context ends before the second goroutine gets in.
abbrev late : List (ℕ × Event)
late =
    (0, acquires)
    ∷ (0, counts)
    ∷ (0, calls)
    ∷ (1, cancels (codes "context canceled") 101)
    ∷ (0, checks outside)
    ∷ (0, reports)
    ∷ (0, stores)
    ∷ (0, leaves)
    ∷ []

abbrev cancelled : CheckResult
cancelled = record {
  target = other;
  status_code = 0;
  duration = 0;
  error = some (codes "context canceled");
  checked_at = 101;
}

abbrev done : Pool
done = record {
  capacity = 1;
  in_use = 0;
  has_metrics = true;
  recorded = in_flight_up ∷ in_flight_down ∷ total_up ∷ [];
  workers =
      record { target = site; phase = left; slot = some (up site) }
      ∷ record { target = other; phase = left; slot = some cancelled }
      ∷ [];
}

late-run : run late (start (pos 1) true targets) ≡ some done
unfolding run start pulse_monitor.Metrics.check_started check_one
    pulse_monitor.Metrics.check_finished failed
late-run = refl

check_complete_example :
    (done.in_use ≡ 0)
    × (rs : List CheckResult) × (map (λ (g : Worker). g.slot) done.workers ≡ map (λ r. some r) rs)
    × (map (λ (r : CheckResult). r.target) rs ≡ targets)
check_complete_example = check_complete (pos 1) true targets late late-run (refl, (refl, tt))

check_metrics_example :
    (checked : ℕ) × (wrong : ℕ) × (rs : List CheckResult) × (map
        (λ (g : Worker). g.slot)
        done.workers
      ≡ map (λ r. some r) rs)
    × (add_all done.recorded new ≡ record {
      checks_total = pos checked;
      checks_in_flight = pos 0;
      checks_failed = pos wrong;
    })
    × (checked + cancellations late ≡ length targets)
    × (wrong + cancellations late ≡ count_failed (map failed rs))
check_metrics_example = check_metrics (pos 1) targets late late-run (refl, (refl, tt)) (omega arith)

-- A store that cannot record, and has aggregates for one target only.
abbrev answers : Answers
answers = record {
  list_targets = ok targets;
  record_check = λ r. some (codes "timeout");
  recent_stats = λ id. err (codes "timeout");
}

tick-Returns_example :
    (map (λ (r : CheckResult). r.target) (up site ∷ cancelled ∷ []) ≡ targets)
    × (summary (tick true (λ ts. up site ∷ cancelled ∷ []) (some answers))
        ≡ expected true answers (up site ∷ cancelled ∷ []) targets)
tick-Returns_example =
    tick-Returns (pos 1) true true answers (λ ts. up site ∷ cancelled ∷ []) targets late refl
      late-run (refl, (refl, tt)) refl
