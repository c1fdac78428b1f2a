-- ===== src/LoadTest/Tests.antt =====
-- Four rounds of polling, one of them with a failed read, and a run that cleans up.
use pulse_monitor.LoadTest.Cleanup.{others, perform_all, run-others}
use pulse_monitor.LoadTest.Sampling.{readings, sample_metrics_lem}
use pulse_monitor.LoadTest.Polling.{
  Float, Poll, Sample, sample_metrics, sustained, wait_for_checks, no_checks_recorded, pct,
}
use pulse_monitor.LoadTest.{
  Latencies, Setup, default_options, run, run_polls, exit_status, clears, seeds, reads_latencies,
  no_samples, cleanup, url_prefix,
}
use pulse_monitor.Prelude.Int.{ℤ, pos, pos_part, ◌+ℤ◌, ◌*ℤ◌, ltb_ℤ}
use pulse_monitor.Prelude.{
  ℕ, ◌*◌, ◌/◌, ◌≡◌, refl, Bool, true, false, ◌&&◌, ◌==◌, List, [], ◌∷◌, ◌++◌, map, Option, none,
  some, All,
}
use pulse_monitor.Result.{ok, err}
use pulse_monitor.Text.{Text, codes}

-- Whole numbers in place of floating point.
abbrev whole : Float ℤ
whole = record {
  nought = pos 0;
  hundred = pos 100;
  max_float = pos 1_000_000;
  of_int = λ z. z;
  seconds = λ n. pos (n / 1_000_000_000);
  plus = λ a b. a +ℤ b;
  times = λ a b. a *ℤ b;
  over = λ a b. pos (pos_part a / pos_part b);
  less = ltb_ℤ;
}

abbrev at : ℕ → Option ℤ → Poll
at second total = record {
  total = total;
  read_at = second * 1_000_000_000;
  tested_at = second * 1_000_000_000;
}

abbrev polls : List Poll
polls =
    at 0 (some (pos 10))
    ∷ at 5 (some (pos 60))
    ∷ at 10 none
    ∷ at 15 (some (pos 160))
    ∷ at 20 (some (pos 200))
    ∷ []

sample_metrics-polls :
    sample_metrics whole 15_000_000_000 polls
    ≡ some (
        record { at = 0; total = pos 10; rate = pos 0 }
        ∷ record { at = 5_000_000_000; total = pos 60; rate = pos 10 }
        ∷ record { at = 15_000_000_000; total = pos 160; rate = pos 10 }
        ∷ [])
unfolding sample_metrics pulse_monitor.Prelude.Word.sub64 pulse_monitor.Prelude.Word.wrap
sample_metrics-polls = refl

waits :
    (wait_for_checks 60 (at 0 none ∷ at 0 (some (pos 0)) ∷ at 0 (some (pos 3)) ∷ [])
      ≡ some (ok (pos 3)))
    × (wait_for_checks 60 (at 0 none ∷ at 1 none ∷ []) ≡ some (err no_checks_recorded))
    × (pct whole (pos 1) (pos 0) ≡ pos 0)
unfolding wait_for_checks pct
waits = (refl, refl, refl)

abbrev tenth : Sample ℤ
tenth = record { at = 15_000_000_000; total = pos 160; rate = pos 10 }

-- 150 checks in 15 seconds; and one sample only, so that the window is empty.
sustained-samples :
    (sustained whole (pos 10) (record { at = 0; total = pos 10; rate = pos 0 }) (tenth ∷ [])
      ≡ pos 10)
    × (sustained whole (pos 10) tenth [] ≡ whole.over (whole.of_int (pos 150)) (whole.seconds 0))
unfolding sustained pulse_monitor.Prelude.Word.sub64 pulse_monitor.Prelude.Word.wrap
sustained-samples = (refl, refl)

abbrev latencies : Latencies ℤ
latencies = record { total_checks = pos 50; failures = pos 5; p50 = pos 7; p99 = pos 9 }

-- The samples and the baseline are those of the polling.
abbrev two : Setup ℤ
two = record {
  options = record default_options { targets = 2; duration = 15_000_000_000 };
  config = none;
  new_pool = none;
  ping = none;
  clear = none;
  seed = none;
  baseline = ok (pos 10);
  samples = record { at = 0; total = pos 10; rate = pos 0 } ∷ tenth ∷ [];
  latencies = ok latencies;
  cleanup_error = none;
}

abbrev prefix : Text
prefix = codes "http://target:8099/u/loadtest-"

run-two :
    ((run whole two).statements
      ≡ clears prefix
        ∷ seeds ((prefix ++ codes "0") ∷ (prefix ++ codes "1") ∷ [])
        ∷ reads_latencies prefix
        ∷ clears prefix
        ∷ [])
    × (exit_status (run whole two) ≡ 0)
    × ((run whole (record two { samples = [] })).failure ≡ some no_samples)
unfolding run exit_status url_prefix pulse_monitor.Text.Decimal.print_nat
    pulse_monitor.Prelude.Word.sub64 pulse_monitor.Prelude.Word.wrap
run-two = (refl, refl, refl)

-- The report is printed though the rows are not removed.
run_polls-two :
    run_polls whole
      (record two { cleanup_error = some (codes "timeout") })
      0
      (at 0 (some (pos 10)) ∷ [])
      0
      polls
    ≡ some (record {
      statements =
          clears prefix
          ∷ seeds ((prefix ++ codes "0") ∷ (prefix ++ codes "1") ∷ [])
          ∷ reads_latencies prefix
          ∷ clears prefix
          ∷ [];
      printed = some (record {
        monitored = 2;
        window = 15_000_000_000;
        exercised = pos 150;
        per_second = pos 10;
        burst_max = pos 10;
        burst_min = pos 0;
        burst_avg = pos 6;
        p50 = pos 7;
        p99 = pos 9;
        failures = pos 5;
        failure_pct = pos 10;
      });
      failure = some (cleanup (codes "timeout"));
    })
unfolding run_polls url_prefix pulse_monitor.Text.Decimal.print_nat pulse_monitor.Prelude.Word.sub64
    pulse_monitor.Prelude.Word.wrap ◌+ℤ◌ ◌*ℤ◌
run_polls-two = refl

abbrev until_fifteen : List Poll
until_fifteen =
    at 0 (some (pos 10)) ∷ at 5 (some (pos 60)) ∷ at 10 none ∷ at 15 (some (pos 160)) ∷ []

sample_metrics_example :
    (out : List (Sample ℤ)) × (sample_metrics whole 15_000_000_000 polls ≡ some out)
    × (map (λ (s : Sample ℤ). (s.at, s.total)) out ≡ readings until_fifteen)
    × All (λ (s : Sample ℤ). ltb_ℤ s.rate (pos 0) ≡ false) out
sample_metrics_example = sample_metrics_lem whole 15_000_000_000 polls refl refl

abbrev starts : Text → Text → Bool
starts [] u = true
starts (c ∷ p) [] = false
starts (c ∷ p) (d ∷ u) = (d == c) && starts p u

-- A target of the dashboard and one that an earlier run has left.
abbrev monitored : List Text
monitored = codes "a" ∷ (prefix ++ codes "7") ∷ []

run-others_example :
    (others starts prefix (perform_all starts (run whole two).statements monitored)
      ≡ others starts prefix monitored)
    × ((run whole two).failure ≡ none
        → perform_all starts (run whole two).statements monitored ≡ others starts prefix monitored)
unfolding url_prefix
run-others_example = run-others whole starts two monitored (λ i. refl)
