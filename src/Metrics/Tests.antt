-- ===== src/Metrics/Tests.antt =====
-- Two checks that overlap, and the text that is scraped afterwards.

use pulse_monitor.Metrics.Scrape.{name_total, name_in_flight, name_failures, read_metric-body}
use pulse_monitor.Metrics.{
  Metrics, new, Add, in_flight_up, in_flight_down, total_up, failed_up, add_all, body, read_metric,
}
use pulse_monitor.Prelude.Int.{pos}
use pulse_monitor.Prelude.{◌≡◌, refl, Bool, true, false, List, [], ◌∷◌, none, some, arith}
use pulse_monitor.Text.{codes}

abbrev verdicts : List Bool
verdicts = false ∷ true ∷ []

-- The second check starts before the first is counted.
abbrev overlapping : List Add
overlapping =
    in_flight_up ∷ in_flight_up ∷ in_flight_down ∷ total_up ∷ in_flight_down ∷ total_up ∷ failed_up
    ∷ []

abbrev after_two : Metrics
after_two = record { checks_total = pos 2; checks_in_flight = pos 0; checks_failed = pos 1 }

add_all-overlapping : add_all overlapping new ≡ after_two
unfolding add_all new pulse_monitor.Prelude.Word.add64 pulse_monitor.Prelude.Word.wrap
    pulse_monitor.Prelude.Int.◌+ℤ◌
add_all-overlapping = refl

body-after_two :
    body after_two (pos 7)
    ≡ codes "checks_total 2\nchecks_in_flight 0\nchecks_failures 1\nuptime_seconds 7\n"
unfolding body pulse_monitor.Text.Decimal.print_int
body-after_two = refl

read_metric_errors :
    (read_metric 500 (body after_two (pos 7)) name_total ≡ none)
    × (read_metric 200 (body after_two (pos 7)) (codes "checks") ≡ none)
    × (read_metric 200 (codes "a 1 2\na x\n") (codes "a") ≡ none)
unfolding read_metric body pulse_monitor.Text.split_on pulse_monitor.Text.Decimal.print_int
    pulse_monitor.Text.fields pulse_monitor.Text.is_space pulse_monitor.Text.text_eq
    pulse_monitor.Text.Decimal.atoi
read_metric_errors = (refl, refl, refl)

read_metric-body_example :
    (read_metric 200 (body after_two (pos 7)) name_total ≡ some (pos 2))
    × (read_metric 200 (body after_two (pos 7)) name_in_flight ≡ some (pos 0))
    × (read_metric 200 (body after_two (pos 7)) name_failures ≡ some (pos 1))
read_metric-body_example =
    read_metric-body after_two (pos 7) (omega arith) (omega arith) (omega arith)
