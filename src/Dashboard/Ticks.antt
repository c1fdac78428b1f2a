-- ===== src/Dashboard/Ticks.antt =====
-- What a tick of the monitor puts into the channel of an open tab.
use pulse_monitor.Dashboard.Broadcasts.{publish_all, publish_all-append, publish_all-channel}
use mathlib.Core.List.{append_assoc}
use pulse_monitor.Dashboard.{deliver}
use pulse_monitor.Handlers.Views.{
  View, check_status, stats_cell, Rendered, check_status_from_result, publish_buffer, publish_view,
  publish_check, publish_stats,
}
use pulse_monitor.Monitor.Tick.{
  Answers, Effect, publishes_check, records, publishes_stats, logs_list_failed, logs_record_failed,
  logs_stats_failed, log_failure, handle_result, handle_results, stats_effect, handle_stats,
  with_targets, tick,
}
use pulse_monitor.Monitor.Tick.Effects.{available}
use pulse_monitor.Monitor.Types.{Target, CheckResult, Stats}
use pulse_monitor.Prelude.{
  ℕ, ◌+◌, ◌≤◌, ◌≡◌, refl, sym, ap, ◌∙◌, true, List, [], ◌∷◌, ◌++◌, map, Option, none, some, length,
}
use pulse_monitor.Result.{Result, ok, err}
use pulse_monitor.Sse.Frame.{Event, frame}
use pulse_monitor.Sse.Hub.Publish.{IsKeySet}
use pulse_monitor.Sse.Hub.{Channel, Hub, contains}
use pulse_monitor.Text.{Text, codes}

-- The event of a view that renders.
abbrev pub event_of : Text → Rendered → Option Text → List Event
event_of name r none = record { name = name; payload = r.written } ∷ []
event_of name r (some e) = []

abbrev pub view_event : Text → Rendered → List Event
view_event name r = event_of name r r.error

module _ (render : View → Rendered) where
  abbrev pub check_event : CheckResult → List Event
  check_event r = view_event (codes "check") (render (check_status (check_status_from_result r)))

  abbrev pub stats_event : Stats → List Event
  stats_event s = view_event (codes "stats") (
      render (
        stats_cell (record {
          id = s.target_id;
          total = s.total_checks;
          failures = s.failures;
          p50_ms = s.p50_latency_ms;
          p99_ms = s.p99_latency_ms;
        })))

  abbrev pub check_events : List CheckResult → List Event
  check_events [] = []
  check_events (r ∷ rs) = check_event r ++ check_events rs

  abbrev pub stats_events : List Stats → List Event
  stats_events [] = []
  stats_events (s ∷ ss) = stats_event s ++ stats_events ss

  -- The events of the publisher's calls.
  abbrev pub effect_events : List Effect → List Event
  effect_events [] = []
  effect_events (publishes_check r ∷ es) = check_event r ++ effect_events es
  effect_events (publishes_stats s ∷ es) = stats_event s ++ effect_events es
  effect_events (_ ∷ es) = effect_events es

publish_buffer-event :
    (name : Text) (r : Rendered) (o : Option Text) (h : Hub)
    → publish_buffer name o r.written h ≡ publish_all (event_of name r o) h
publish_buffer-event name r none h = refl
publish_buffer-event name r (some e) h = refl

publish_view-event :
    (name : Text) (r : Rendered) (h : Hub)
    → publish_view name r (some h) ≡ some (publish_all (view_event name r) h)
unfolding publish_view
publish_view-event name r h = ap some (publish_buffer-event name r r.error h)

-- The handlers' methods publish these events.
deliver-publish_all :
    (render : View → Rendered) (es : List Effect) (h : Hub)
    → deliver render es (some h) ≡ some (publish_all (effect_events render es) h)
unfolding deliver publish_check publish_stats
deliver-publish_all render [] h = refl
deliver-publish_all render (publishes_check r ∷ es) h =
    ap (deliver render es) (publish_view-event (codes "check") _ h)
    ∙ deliver-publish_all render es (publish_all (check_event render r) h)
    ∙ ap some (sym (publish_all-append (check_event render r) (effect_events render es) h))
deliver-publish_all render (publishes_stats s ∷ es) h =
    ap (deliver render es) (publish_view-event (codes "stats") _ h)
    ∙ deliver-publish_all render es (publish_all (stats_event render s) h)
    ∙ ap some (sym (publish_all-append (stats_event render s) (effect_events render es) h))
deliver-publish_all render (records a b c d e ∷ es) h = deliver-publish_all render es h
deliver-publish_all render (logs_list_failed e ∷ es) h = deliver-publish_all render es h
deliver-publish_all render (logs_record_failed i e ∷ es) h = deliver-publish_all render es h
deliver-publish_all render (logs_stats_failed i e ∷ es) h = deliver-publish_all render es h

module _ (render : View → Rendered) (s : Answers) where
  log_failure-events :
      (id : Text) (o : Option Text) (es : List Effect)
      → effect_events render (log_failure id o ++ es) ≡ effect_events render es
  log_failure-events id none es = refl
  log_failure-events id (some e) es = refl

  handle_results-events :
      (rs : List CheckResult) (es : List Effect)
      → effect_events render (handle_results true s rs ++ es)
        ≡ check_events render rs ++ effect_events render es
  unfolding handle_results handle_result
  handle_results-events [] es = refl
  handle_results-events (r ∷ rs) es =
      let log = log_failure r.target.id (s.record_check r) in
      ap (λ x. check_event render r ++ x)
        (ap (effect_events render) (append_assoc log (handle_results true s rs) es)
          ∙ log_failure-events r.target.id (s.record_check r) (handle_results true s rs ++ es)
          ∙ handle_results-events rs es)
      ∙ sym (append_assoc (check_event render r) (check_events render rs) (effect_events render es))

  stats_effect-events :
      (id : Text) (r : Result Text Stats) (es : List Effect) (rs : List (Result Text Stats))
      → effect_events render es ≡ stats_events render (available rs)
      → effect_events render (stats_effect id r ∷ es) ≡ stats_events render (available (r ∷ rs))
  stats_effect-events id (ok st) es rs h = ap (λ x. stats_event render st ++ x) h
  stats_effect-events id (err e) es rs h = h

  handle_stats-events :
      (ts : List Target)
      → effect_events render (handle_stats s ts)
        ≡ stats_events render (available (map (λ t. s.recent_stats t.id) ts))
  unfolding handle_stats
  handle_stats-events [] = refl
  handle_stats-events (t ∷ ts) =
      stats_effect-events t.id (s.recent_stats t.id) (handle_stats s ts) _ (handle_stats-events ts)

-- The events of a tick: of every check, then of every target whose aggregates the store has.
abbrev pub tick_events : (View → Rendered) → Answers → List CheckResult → List Target → List Event
tick_events render s rs ts =
    check_events render rs ++ stats_events render (available (map (λ t. s.recent_stats t.id) ts))

pub deliver-tick :
    (render : View → Rendered) (s : Answers) (check : List Target → List CheckResult)
    (ts : List Target) (h : Hub)
    → s.list_targets ≡ ok ts
    → deliver render (tick true check (some s)) (some h)
      ≡ some (publish_all (tick_events render s (check ts) ts) h)
unfolding tick
deliver-tick render s check ts h e =
    ap (λ r. deliver render (with_targets true s check r) (some h)) e
    ∙ deliver-publish_all render (handle_results true s (check ts) ++ handle_stats s ts) h
    ∙ ap (λ es. some (publish_all es h))
        (handle_results-events render s (check ts) (handle_stats s ts)
          ∙ ap (λ es. check_events render (check ts) ++ es) (handle_stats-events render s ts))

-- The monitor's tick with the handlers for its publisher, on a hub: if the store can list the
-- targets, every tab whose channel has room for them gets, behind what waits there and in this order,
-- the event `check` of every target's check and the event `stats` of every target for which the store
-- has the aggregates, as far as their templates render.
pub tick_reaches_tabs :
    (render : View → Rendered) (s : Answers) (check : List Target → List CheckResult)
    (ts : List Target) (h : Hub) (c : ℕ)
    → s.list_targets ≡ ok ts
    → IsKeySet h.clients
    → contains c h.clients ≡ true
    → length (h.channels c).buffer + length (tick_events render s (check ts) ts)
      ≤ (h.channels c).capacity
    → (h' : Hub) × (deliver render (tick true check (some s)) (some h) ≡ some h')
      × ((h'.channels c).buffer
          ≡ (h.channels c).buffer ++ map frame (tick_events render s (check ts) ts))
tick_reaches_tabs render s check ts h c e k i room =
    let es = tick_events render s (check ts) ts in
    (
      publish_all es h,
      deliver-tick render s check ts h e,
      ap (λ (ch : Channel). ch.buffer) (publish_all-channel es h c k i room),
    )
