-- ===== src/Dashboard/TabStreams.antt =====
-- From a tick of the monitor to the browser: the events, their frames on the stream of HandleEvents,
-- and what the EventSource reads.
use pulse_monitor.Dashboard.Drains.{
  announcements, drains, at_hub, run-announcements, run-drains, published-turns, turns-IsPrivate,
}
use pulse_monitor.Dashboard.Broadcasts.{publish_all, publish_all-channel}
use pulse_monitor.Dashboard.Ticks.{
  event_of, check_event, stats_event, check_events, stats_events, tick_events, deliver-tick,
}
use pulse_monitor.Dashboard.{deliver}
use pulse_monitor.Handlers.Events.Tabs.{IsNew, tab_reads_every}
use pulse_monitor.Handlers.Events.{wire, Session, run, open_session, stream_capacity}
use pulse_monitor.Handlers.Views.{View, Rendered}
use pulse_monitor.Monitor.Tick.{Answers, tick}
use pulse_monitor.Monitor.Types.{Target, CheckResult, Stats}
use pulse_monitor.Prelude.{
  ℕ, ◌+◌, ◌≤◌, ◌≡◌, ◌≢◌, refl, sym, ap, ◌∙◌, subst, true, List, [], ◌∷◌, ◌++◌, map, Option, none,
  some, arith, All, All-append, length,
}
use pulse_monitor.Result.{ok}
use pulse_monitor.Sse.Frame.Reader.{read_stream}
use pulse_monitor.Sse.Frame.RoundTrip.{IsSendable}
use pulse_monitor.Sse.Frame.{Event, frame}
use pulse_monitor.Sse.Hub.Publish.{IsKeySet}
use pulse_monitor.Sse.Hub.Steps.{step-IsKeySet, step-is_client, subscribe-channels}
use pulse_monitor.Sse.Hub.World.{World, subscribes, step}
use pulse_monitor.Sse.Hub.{Channel, Hub, contains}
use pulse_monitor.Text.Split.{Lacks, lacks, lacks_lem}
use pulse_monitor.Text.{Text, codes}

-- The templates write no carriage return.
abbrev pub LacksReturns : (View → Rendered) → Type 0
LacksReturns render = (v : View) → Lacks b'\r' (render v).written

module _ (render : View → Rendered) (l : LacksReturns render) where
  event_of-IsSendable :
      (name : Text) (v : View) (o : Option Text)
      → name ≢ []
      → lacks b'\n' name ≡ true
      → lacks b'\r' name ≡ true
      → All IsSendable (event_of name (render v) o)
  event_of-IsSendable name v (some e) n line return = tt
  event_of-IsSendable name v none n line return = (
    record {
      name_ne_nil = n;
      name_line = lacks_lem b'\n' name line;
      name_no_cr = lacks_lem b'\r' name return;
      payload_no_cr = l v;
    },
    tt,
  )

  check_events-IsSendable : (rs : List CheckResult) → All IsSendable (check_events render rs)
  check_events-IsSendable [] = tt
  check_events-IsSendable (r ∷ rs) =
      All-append IsSendable (check_event render r) (check_events render rs)
        (event_of-IsSendable (codes "check") _ _ (λ e. cc) refl refl) (check_events-IsSendable rs)

  stats_events-IsSendable : (ss : List Stats) → All IsSendable (stats_events render ss)
  stats_events-IsSendable [] = tt
  stats_events-IsSendable (s ∷ ss) =
      All-append IsSendable (stats_event render s) (stats_events render ss)
        (event_of-IsSendable (codes "stats") _ _ (λ e. cc) refl refl) (stats_events-IsSendable ss)

-- A new tab, these events published and then written.
module _ (c : ℕ) (w : World) (k : IsKeySet w.hub.clients) (n : IsNew c w) (es : List Event)
    (a : All IsSendable es) (room : length es ≤ stream_capacity) where
  abbrev opened : Session
  opened = open_session c w

  opened-channel : opened.world.hub.channels c ≡ w.hub.channels c
  unfolding open_session step
  opened-channel = ap (λ m. m c) (subscribe-channels c w.hub)

  opened-IsKeySet : IsKeySet opened.world.hub.clients
  unfolding open_session
  opened-IsKeySet = step-IsKeySet (subscribes c) w k

  opened-is_client : contains c opened.world.hub.clients ≡ true
  unfolding open_session
  opened-is_client = step-is_client c (subscribes c) w ∙ ground arith

  opened-buffer : (opened.world.hub.channels c).buffer ≡ []
  opened-buffer = ap (λ (ch : Channel). ch.buffer) opened-channel ∙ n.empty

  opened-room :
      length (opened.world.hub.channels c).buffer + length es
      ≤ (opened.world.hub.channels c).capacity
  opened-room = omega (
    arith,
    ap length opened-buffer,
    ap (λ (ch : Channel). ch.capacity) opened-channel,
    n.capacity,
    room,
  )

  announced-buffer : ((publish_all es opened.world.hub).channels c).buffer ≡ map frame es
  announced-buffer =
      ap (λ (ch : Channel). ch.buffer)
        (publish_all-channel es opened.world.hub c opened-IsKeySet opened-is_client opened-room)
      ∙ ap (λ b. b ++ map frame es) opened-buffer

  turns-run :
      {s : Session}
      → run c (drains es) (at_hub (publish_all es opened.world.hub) opened) ≡ some s
      → run c (announcements es ++ drains es) opened ≡ some s
  turns-run r = run-announcements c es (drains es) opened ∙ r

  reads_published :
      (s : Session) × (run c (drains es) (at_hub (publish_all es opened.world.hub) opened) ≡ some s)
      × (read_stream (wire s.writes) ≡ es)
  reads_published =
      let (s, r, l, b) =
        run-drains c es (at_hub (publish_all es opened.world.hub) opened)
          (unfold open_session in refl) announced-buffer in
      let e = published-turns es es in
      (
        s,
        r,
        tab_reads_every c w (announcements es ++ drains es) k n (turns-IsPrivate c es es)
              (subst (All IsSendable) (sym e) a) (turns-run r) (omega (arith, ap length e, room)) l
              b
            ∙ e,
      )

-- A tick of the monitor, seen from a tab that has just been opened: let the store list the targets,
-- the templates write no carriage return, and the events of the tick be at most 32. After the tick the
-- handler of the tab can write a frame for each event, and then the browser has read exactly those
-- events, unchanged and in order: `check` for every target's check, then `stats` for every target for
-- which the store has the aggregates, as far as their templates render.
pub tick_is_read :
    (render : View → Rendered) (a : Answers) (check : List Target → List CheckResult)
    (ts : List Target) (c : ℕ) (w : World)
    → a.list_targets ≡ ok ts
    → IsKeySet w.hub.clients
    → IsNew c w
    → LacksReturns render
    → length (tick_events render a (check ts) ts) ≤ stream_capacity
    → (h : Hub) × (deliver render (tick true check (some a)) (some (open_session c w).world.hub)
        ≡ some h)
      × (s : Session) × (run c
            (drains (tick_events render a (check ts) ts))
            (at_hub h (open_session c w))
          ≡ some s)
      × (read_stream (wire s.writes) ≡ tick_events render a (check ts) ts)
tick_is_read render a check ts c w listed k n l room =
    let es = tick_events render a (check ts) ts in
    let sendable =
      All-append IsSendable (check_events render (check ts)) _
        (check_events-IsSendable render l (check ts)) (stats_events-IsSendable render l _) in
    let (s, r, e) = reads_published c w k n es sendable room in
    (
      publish_all es (open_session c w).world.hub,
      deliver-tick render a check ts (open_session c w).world.hub listed,
      s,
      r,
      e,
    )
