-- ===== src/Metrics.antt =====
-- internal/metrics/metrics.go: the counters and the text of GET /metrics; and `readMetric` of
-- cmd/loadtest/main.go, which reads that text.
pub mod Counting
pub mod Scrape
pub mod Tests
use pulse_monitor.Prelude.Int.{ℤ, pos, negsuc}
use pulse_monitor.Prelude.Word.{add64}
use pulse_monitor.Prelude.{ℕ, Bool, List, [], ◌∷◌, ◌++◌, Option, none, some, ◌==◌, if◌then◌else◌}
use pulse_monitor.Text.Decimal.{print_int, atoi}
use pulse_monitor.Text.{Text, codes, text_eq, split_on, fields}

-- The three atomic counters; the clock stays outside.
pub record Metrics : Type 0 where
  pub checks_total : ℤ
  pub checks_in_flight : ℤ
  pub checks_failed : ℤ

unfoldable pub new : Metrics
new = record { checks_total = pos 0; checks_in_flight = pos 0; checks_failed = pos 0 }

-- The atomic additions, each a step of its own: other goroutines may run between any two.
pub data Add : Type 0 where
  in_flight_up in_flight_down total_up failed_up : Add

unfoldable pub add : Add → Metrics → Metrics
add in_flight_up m = record m { checks_in_flight = add64 m.checks_in_flight (pos 1) }
add in_flight_down m = record m { checks_in_flight = add64 m.checks_in_flight (negsuc 0) }
add total_up m = record m { checks_total = add64 m.checks_total (pos 1) }
add failed_up m = record m { checks_failed = add64 m.checks_failed (pos 1) }

unfoldable pub add_all : List Add → Metrics → Metrics
unfolding add
add_all [] m = m
add_all (a ∷ rest) m = add_all rest (add a m)

-- `CheckStarted` and `CheckFinished`, as the additions that they make.
unfoldable pub check_started : List Add
check_started = in_flight_up ∷ []

unfoldable pub check_finished : Bool → List Add
check_finished failed = in_flight_down ∷ total_up ∷ (if failed then failed_up ∷ [] else [])

abbrev pub line : Text → ℤ → Text
line name value = name ++ b' ' ∷ (print_int value ++ b'\n' ∷ [])

-- The body that `Handler` writes; `uptime` is `int64(time.Since(m.startedAt).Seconds())`.
unfoldable pub body : Metrics → ℤ → Text
body m uptime =
    line (codes "checks_total") m.checks_total
    ++ (line (codes "checks_in_flight") m.checks_in_flight
        ++ (line (codes "checks_failures") m.checks_failed ++ line (codes "uptime_seconds") uptime))

-- The value of a line `name value`.
abbrev pub value_of : Text → List Text → Option Text
value_of name (n ∷ v ∷ []) = if text_eq n name then some v else none
value_of name _ = none

abbrev pub or_next : Option Text → Option ℤ → Option ℤ
or_next none next = next
or_next (some v) next = atoi v

-- The loop of `readMetric` over the lines; `none` for each of its errors.
unfoldable pub read_lines : Text → List Text → Option ℤ
read_lines name [] = none
read_lines name (l ∷ ls) = or_next (value_of name (fields l)) (read_lines name ls)

-- `readMetric`, from the status code and the body of the response.
unfoldable pub read_metric : ℕ → Text → Text → Option ℤ
unfolding read_lines
read_metric status text name = if status == 200 then read_lines name (split_on b'\n' text) else none
