-- ===== src/Handlers/Views.antt =====
-- The view models of internal/handlers/handlers.go and its four Publish methods. html/template is a
-- parameter: what ExecuteTemplate writes for a view, and its error.
use pulse_monitor.Monitor.Tick.{error_text, milliseconds}
use pulse_monitor.Monitor.Types.{Target, CheckResult, Stats, failed}
use pulse_monitor.Prelude.{ℕ, List, ◌++◌, Option, none, some, ltb, if◌then◌else◌}
use pulse_monitor.Sse.Hub.{Hub, publish}
use pulse_monitor.Text.Decimal.{print_nat}
use pulse_monitor.Text.{Text, codes}

pub record CheckStatusView : Type 0 where
  pub id : Text
  pub status : Text
  pub label : Text
  pub latency : Text
  pub error : Text

pub record StatsView : Type 0 where
  pub id : Text
  pub total : ℕ
  pub failures : ℕ
  pub p50_ms : ℕ
  pub p99_ms : ℕ

-- A template with its argument.
pub data View : Type 0 where
  index_page : List Target → View
  target_row target_added : Target → View
  target_removed : Text → View
  check_status : CheckStatusView → View
  stats_cell : StatsView → View

-- What has been written when ExecuteTemplate returns, and its error.
pub record Rendered : Type 0 where
  pub written : Text
  pub error : Option Text

unfoldable pub check_status_from_result : CheckResult → CheckStatusView
check_status_from_result r = record {
  id = r.target.id;
  status = if failed r then codes "down" else codes "up";
  label = if failed r then codes "Down" else codes "Up";
  latency =
      if ltb 0 r.duration then print_nat (milliseconds r.duration) ++ codes " ms" else codes "—";
  error = error_text r.error;
}

-- After ExecuteTemplate into the buffer: an error is logged, and nothing is published.
abbrev pub publish_buffer : Text → Option Text → Text → Hub → Hub
publish_buffer name none payload h = publish (record { name = name; payload = payload }) h
publish_buffer name (some e) payload h = h

-- Without a hub the method returns at once.
unfoldable pub publish_view : Text → Rendered → Option Hub → Option Hub
publish_view name r none = none
publish_view name r (some h) = some (publish_buffer name r.error r.written h)

unfoldable pub publish_check : (View → Rendered) → CheckResult → Option Hub → Option Hub
unfolding publish_view check_status_from_result
publish_check render r =
    publish_view (codes "check") (render (check_status (check_status_from_result r)))

unfoldable pub publish_stats : (View → Rendered) → Stats → Option Hub → Option Hub
unfolding publish_view
publish_stats render s = publish_view (codes "stats") (
    render (
      stats_cell (record {
        id = s.target_id;
        total = s.total_checks;
        failures = s.failures;
        p50_ms = s.p50_latency_ms;
        p99_ms = s.p99_latency_ms;
      })))

unfoldable pub publish_target_added : (View → Rendered) → Target → Option Hub → Option Hub
unfolding publish_view
publish_target_added render t = publish_view (codes "target_added") (render (target_added t))

unfoldable pub publish_target_removed : (View → Rendered) → Text → Option Hub → Option Hub
unfolding publish_view
publish_target_removed render id =
    publish_view (codes "target_removed") (render (target_removed id))
