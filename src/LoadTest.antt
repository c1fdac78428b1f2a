-- ===== src/LoadTest.antt =====
-- cmd/loadtest/main.go: what run asks of the database, and the report that it prints.
pub mod Polling
pub mod Sampling
pub mod Cleanup
pub mod Tests
use pulse_monitor.LoadTest.Polling.{
  Float, Poll, Sample, WaitError, pct, sample_metrics, Bursts, bursts, last_sample, sustained,
  wait_for_checks,
}
use pulse_monitor.Prelude.Int.{ℤ, pos, negsuc, ltb_ℤ}
use pulse_monitor.Prelude.Word.{sub64}
use pulse_monitor.Prelude.{
  ℕ, zero, suc, ◌+◌, ◌-◌, Bool, true, false, not, ◌&&◌, List, [], ◌∷◌, ◌++◌, Option, none, some,
  ltb, leb, ◌==◌, length, if◌then◌else◌,
}
use pulse_monitor.Result.{Result, ok, err}
use pulse_monitor.Text.Decimal.{print_nat}
use pulse_monitor.Text.{Text, codes}

-- The prefix of the targets that the load test seeds and removes, and their URLs.
unfoldable pub url_prefix : Text → Text → Text
url_prefix host port = codes "http://" ++ (host ++ (codes ":" ++ (port ++ codes "/u/loadtest-")))

unfoldable pub seed_urls : Text → ℕ → ℕ → List Text
seed_urls prefix i zero = []
seed_urls prefix i (suc n) = (prefix ++ print_nat i) ∷ seed_urls prefix (i + 1) n

-- The flags that a run reads, and what they are if they are not given; times are in nanoseconds. `app`
-- and `sample` say where and how often the polling reads.
pub record Options : Type 0 where
  pub app : Text
  pub targets : ℕ
  pub duration : ℕ
  pub sample : ℕ
  pub target_host : Text
  pub target_port : Text

abbrev pub default_options : Options
default_options = record {
  app = codes "http://localhost:8080";
  targets = 500;
  duration = 180_000_000_000;
  sample = 5_000_000_000;
  target_host = codes "target";
  target_port = codes "8099";
}

abbrev pub prefix_of : Options → Text
prefix_of o = url_prefix o.target_host o.target_port

-- What `run` asks of the database: the rows of the prefix deleted, rows inserted, latencies read.
pub data Statement : Type 0 where
  clears : Text → Statement
  seeds : List Text → Statement
  reads_latencies : Text → Statement

pub data RunError : Type 0 where
  configuration connect_database ping_database clear_stale seed_targets : Text → RunError
  waiting : WaitError → RunError
  no_samples no_advance : RunError
  query_latencies cleanup : Text → RunError

-- The row of the query of the latencies.
pub record Latencies (F : Type 0) : Type 0 where
  pub total_checks : ℤ
  pub failures : ℤ
  pub p50 : F
  pub p99 : F

-- The numbers of the printed report.
pub record Report (F : Type 0) : Type 0 where
  pub monitored : ℕ
  pub window : ℕ
  pub exercised : ℤ
  pub per_second : F
  pub burst_max : F
  pub burst_min : F
  pub burst_avg : F
  pub p50 : F
  pub p99 : F
  pub failures : ℤ
  pub failure_pct : F

pub record Run (F : Type 0) : Type 0 where
  pub statements : List Statement
  pub printed : Option (Report F)
  pub failure : Option RunError

-- What is answered outside: the errors of config.Load and of the calls on the database, the row of the
-- latencies; and what the polling gave, the baseline and the samples.
pub record Setup (F : Type 0) : Type 0 where
  pub options : Options
  pub config : Option Text
  pub new_pool : Option Text
  pub ping : Option Text
  pub clear : Option Text
  pub seed : Option Text
  pub baseline : Result WaitError ℤ
  pub samples : List (Sample F)
  pub latencies : Result Text (Latencies F)
  pub cleanup_error : Option Text

module _ {F : Type 0} where
  abbrev pub fails : RunError → Run F
  fails e = record { statements = []; printed = none; failure = some e }

  abbrev pub ended : Run F
  ended = record { statements = []; printed = none; failure = none }

  abbrev pub asking : Statement → Run F → Run F
  asking q r = record r { statements = q ∷ r.statements }

  abbrev pub printing : Report F → Run F → Run F
  printing p r = record r { printed = some p }

  -- A call outside that returns an error, if any, and what follows it.
  abbrev pub unless : (Text → RunError) → Option Text → Run F → Run F
  unless context none r = r
  unless context (some e) r = fails (context e)

  -- `main`: the exit status.
  unfoldable pub exit_status : Run F → ℕ
  exit_status r = elim r.failure [ none ↦ 0 | some e ↦ 1 ]

module _ {F : Type 0} (float : Float F) where
  -- The report, from the baseline, the first sample and those after it, and the row of the latencies.
  unfoldable pub report_of : Setup F → ℤ → Sample F → List (Sample F) → Latencies F → Report F
  unfolding pct bursts sustained
  report_of s baseline x xs l =
      let last = last_sample float x xs in
      let b = bursts float (x ∷ xs) in
      record {
        monitored = s.options.targets;
        window = last.at - x.at;
        exercised = sub64 last.total baseline;
        per_second = sustained float baseline x xs;
        burst_max = b.burst_max;
        burst_min = b.burst_min;
        burst_avg = float.over b.burst_sum (float.of_int (pos (length (x ∷ xs))));
        p50 = l.p50;
        p99 = l.p99;
        failures = l.failures;
        failure_pct = pct float l.failures l.total_checks;
      }

  abbrev pub after_query :
      Setup F → ℤ → Sample F → List (Sample F) → Result Text (Latencies F) → Run F
  after_query s baseline x xs (err e) = fails (query_latencies e)
  after_query s baseline x xs (ok l) =
      printing (report_of s baseline x xs l)
        (asking (clears (prefix_of s.options)) (unless cleanup s.cleanup_error ended))

  abbrev pub report : Setup F → ℤ → Sample F → List (Sample F) → Run F
  report s baseline x xs =
      asking (reads_latencies (prefix_of s.options)) (after_query s baseline x xs s.latencies)

  -- From the samples on.
  abbrev pub after_samples : Setup F → ℤ → List (Sample F) → Run F
  after_samples s baseline [] = fails no_samples
  after_samples s baseline (x ∷ xs) =
      if ltb_ℤ (pos 0) (sub64 (last_sample float x xs).total baseline)
      then report s baseline x xs
      else fails no_advance

  abbrev pub after_baseline : Setup F → Result WaitError ℤ → Run F
  after_baseline s (err e) = fails (waiting e)
  after_baseline s (ok baseline) = after_samples s baseline s.samples

  -- `run`.
  unfoldable pub run : Setup F → Run F
  unfolding seed_urls url_prefix report_of
  run s = unless configuration s.config (
      unless connect_database s.new_pool (
        unless ping_database s.ping (
          asking (clears (prefix_of s.options)) (
            unless clear_stale s.clear (
              asking (seeds (seed_urls (prefix_of s.options) 0 s.options.targets))
                (unless seed_targets s.seed (after_baseline s s.baseline)))))))

  -- The samples are taken after the baseline; `none` if the rounds end before a deadline.
  abbrev polled : Setup F → Option (Result WaitError ℤ) → Option (List (Sample F)) → Option (Run F)
  polled s none samples = none
  polled s (some (err e)) samples = some (run (record s { baseline = err e; samples = [] }))
  polled s (some (ok b)) none = none
  polled s (some (ok b)) (some xs) = some (run (record s { baseline = ok b; samples = xs }))

  -- `run` with the rounds of both loops that poll, and the time at which each of them starts.
  unfoldable pub run_polls : Setup F → ℕ → List Poll → ℕ → List Poll → Option (Run F)
  unfolding run sample_metrics wait_for_checks
  run_polls s wait_start waits sample_start rounds =
      polled s (wait_for_checks (wait_start + 60_000_000_000) waits)
        (sample_metrics float (sample_start + s.options.duration) rounds)
