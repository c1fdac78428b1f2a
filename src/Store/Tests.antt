-- ===== src/Store/Tests.antt =====
-- The store on a driver that answers, and on one that fails.
use mathlib.Core.List.Sublistᴰ as SublistD
use mathlib.Core.List.{Sublistᴰ}
use pulse_monitor.Store.Failures.{row_of}
use pulse_monitor.Monitor.Check.{Outside, check_one}
use pulse_monitor.Monitor.Tick
use pulse_monitor.Monitor.Tick.Effects.{published_checks}
use pulse_monitor.Monitor.Tick.{Answers, Effect}
use pulse_monitor.Monitor.Types.{Target, CheckResult, Stats, failed}
use pulse_monitor.Prelude.{
  ℕ, ◌-◌, ◌≡◌, refl, sym, ap, true, ◌&&◌, List, [], ◌∷◌, map, Option, none, some, All, length, ◌≤◌,
  ◌+◌, arith,
}
use pulse_monitor.Result.{Result, ok, err}
use pulse_monitor.Store.Window.{
  IsShort, record_failures, Counts, IsOutcome, count, inserts, in_window, is_recent,
  recent_stats-published,
}
use pulse_monitor.Store.{
  Row, Aggregate, recent_window, DriverError, Driver, target_exists, target_not_found, wrapped,
  create_target, list_targets, delete_target, record_check, recent_stats, row_failure,
}
use pulse_monitor.Text.{Text, codes}

abbrev site : Target
site = record { id = codes "1"; url = codes "http://a.test" }

abbrev down : DriverError
down = record { code = none; message = codes "down" }

-- The URL is there already, the second row does not scan, nothing is deleted.
abbrev driver : Driver
driver = record {
  insert = λ url. err (record { code = some (codes "23505"); message = codes "duplicate" });
  select = ok (record { scans = ok site ∷ err down ∷ []; failure = none });
  delete = λ id. ok 0;
  insert_check = λ row. some down;
  aggregate = λ id since. ok (record {
    total = 3;
    failures = 1;
    p50 = record { numerator = 25; denominator = 2 };
    p99 = record { numerator = 40; denominator = 1 };
  });
  now = 0;
}

driver-errors :
    (create_target driver site.url ≡ err target_exists)
    × (delete_target driver (codes "1") ≡ some target_not_found)
    × (list_targets driver ≡ err (wrapped (codes "scan target: down")))
    × (record_check driver (codes "1") 200 12 [] 0 ≡ some (wrapped (codes "record check: down")))
unfolding create_target delete_target list_targets record_check pulse_monitor.Text.text_eq
driver-errors = (refl, refl, refl, refl)

stats-driver :
    recent_stats driver (codes "1")
    ≡ ok (record {
      target_id = codes "1";
      total_checks = 3;
      failures = 1;
      p50_latency_ms = 12;
      p99_latency_ms = 40;
    })
unfolding recent_stats
stats-driver = refl

-- The server answers a 503.
abbrev outside : Outside
outside = record {
  now = 100;
  hostname = λ url. ok (codes "a.test");
  quote = λ s. s;
  limiter = none;
  build = λ url. none;
  get = λ url. record { duration = 12_000_000; answer = ok 503; follows = [] };
}

abbrev check : List Target → List CheckResult
check = map (λ t. (check_one outside t).outcome)

-- Two ticks that list the site, the second of which loses its row, and one between them for which
-- the store is down.
abbrev lists : Option Answers
lists = some (record {
  list_targets = ok (site ∷ []);
  record_check = λ r. none;
  recent_stats = λ id. err (codes "down");
})

abbrev fails : Option Answers
fails = some (record {
  list_targets = err (codes "down");
  record_check = λ r. none;
  recent_stats = λ id. err (codes "down");
})

abbrev loses : Option Answers
loses = some (record {
  list_targets = ok (site ∷ []);
  record_check = λ r. some (codes "down");
  recent_stats = λ id. err (codes "down");
})

abbrev effects : List Effect
effects = Tick.run true check lists (fails ∷ loses ∷ [])

abbrev kept : List Row
kept = row_of (check_one outside site).outcome ∷ []

-- An aggregate that counts these rows.
abbrev counted : List Row → Text → ℕ → Aggregate
counted rows id since = record {
  total = count (in_window id since) rows;
  failures = count (λ row. in_window id since row && row_failure row) rows;
  p50 = record { numerator = 12; denominator = 1 };
  p99 = record { numerator = 12; denominator = 1 };
}

abbrev counting : Driver
counting = record driver { aggregate = λ id since. ok (counted kept id since) }

abbrev total_of : Result DriverError Aggregate → ℕ
total_of (ok a) = a.total
total_of (err e) = 0

abbrev failures_of : Result DriverError Aggregate → ℕ
failures_of (ok a) = a.failures
failures_of (err e) = 0

counting-Counts : Counts counting kept
counting-Counts = record {
  total = λ id since r e. sym (ap total_of e);
  failures = λ id since r e. sym (ap failures_of e);
}

outcomes-IsOutcome : All IsOutcome (published_checks effects)
unfolding Tick.run
outcomes-IsOutcome = ((outside, site, refl), ((outside, site, refl), tt))

kept-inserts :
    (Sublistᴰ kept (inserts effects)) × (length (inserts effects) ≤ 1 + record_failures effects)
unfolding Tick.run row_of pulse_monitor.Store.check_row check_one
kept-inserts = (SublistD.cons-cons refl (SublistD.cons Sublistᴰ.slnil), omega arith)

abbrev stats : Stats
stats = record {
  target_id = codes "1";
  total_checks = 1;
  failures = 1;
  p50_latency_ms = 12;
  p99_latency_ms = 12;
}

recent_stats-counting : recent_stats counting site.id ≡ ok stats
unfolding recent_stats in_window row_failure row_of pulse_monitor.Store.check_row check_one
    pulse_monitor.Text.text_eq
recent_stats-counting = refl

recent_stats-published_example :
    (stats.target_id ≡ site.id)
    × IsShort
        (record_failures effects)
        1
        (count (is_recent site.id (counting.now - recent_window)) (published_checks effects))
    × IsShort (record_failures effects) 1 (
        count
          (λ r. is_recent site.id (counting.now - recent_window) r && failed r)
          (published_checks effects))
recent_stats-published_example =
    recent_stats-published check lists (fails ∷ loses ∷ []) counting site.id kept stats
      outcomes-IsOutcome kept-inserts.0 kept-inserts.1 counting-Counts recent_stats-counting
