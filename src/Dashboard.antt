-- ===== src/Dashboard.antt =====
-- How the parts are wired in cmd/server/main.go: the handlers are the publisher of the monitor, and
-- the manager of buckets is its limiter.
pub mod Broadcasts
pub mod Ticks
pub mod HostRates
pub mod LimitedChecks
pub mod Drains
pub mod TabStreams
pub mod Requests
pub mod TurnTests
pub mod Tests
use pulse_monitor.Handlers.Views.{View, Rendered, publish_check, publish_stats}
use pulse_monitor.Monitor.Tick.{
  Effect, publishes_check, records, publishes_stats, logs_list_failed, logs_record_failed,
  logs_stats_failed,
}
use pulse_monitor.Prelude.{List, [], ◌∷◌, Option}
use pulse_monitor.Sse.Hub.{Hub}

-- The hub after the publisher's calls among the effects of a tick.
unfoldable pub deliver : (View → Rendered) → List Effect → Option Hub → Option Hub
unfolding publish_check publish_stats
deliver render [] h = h
deliver render (publishes_check r ∷ es) h = deliver render es (publish_check render r h)
deliver render (publishes_stats s ∷ es) h = deliver render es (publish_stats render s h)
deliver render (_ ∷ es) h = deliver render es h
