-- ===== src/Handlers/Events/Tabs.antt =====
-- What the browser reads from a session.

use pulse_monitor.Handlers.Events.Published.{published, heard-published, read_stream-wire}
use mathlib.Core.List.Sublist
use mathlib.Core.List.{append-nil, append_assoc, Sublist}
use mathlib.Core.Logic.{∥∥₁_elim, ∥∥₁_prop}
use pulse_monitor.Handlers.Events.{wire, Session, Turn, run, open_session, stream_capacity}
use pulse_monitor.Handlers.Events.Turns.{all_calls}
use pulse_monitor.Handlers.Events.Sessions.{IsPrivate, frames_sent, Keeps, run-Keeps}
use pulse_monitor.Prelude.Sublists.{sublist-map, sublist-append_left, All-sublist}
use pulse_monitor.Prelude.{
  ℕ, ◌+◌, ◌≤◌, ◌≡◌, refl, sym, ap, ◌∙◌, subst, true, List, [], ◌++◌, map, some, arith, All, length,
  length-map,
}
use pulse_monitor.Sse.Frame.Reader.{read_stream}
use pulse_monitor.Sse.Frame.RoundTrip.{IsSendable}
use pulse_monitor.Sse.Frame.{frame}
use pulse_monitor.Sse.Hub.Publish.{IsKeySet}
use pulse_monitor.Sse.Hub.Steps.{
  step-IsKeySet, step-is_client, step-stream, step-capacity, step-buffer,
}
use pulse_monitor.Sse.Hub.Streams.{run-stream, run-stream_lossless}
use pulse_monitor.Sse.Hub.World
use pulse_monitor.Sse.Hub.World.{
  Call, subscribes, unsubscribes, receives, publishes, World, step, stream, is_client, heard,
}
use pulse_monitor.Text.{Text}

-- The channel as HandleEvents makes it: empty, with its capacity, and nothing received from it.
pub record IsNew (c : ℕ) (w : World) : Type 0 where
  pub empty : (w.hub.channels c).buffer ≡ []
  pub capacity : (w.hub.channels c).capacity ≡ stream_capacity
  pub unread : w.received c ≡ []

module _ (c : ℕ) (w : World) (ts : List Turn) {s : Session} (k : IsKeySet w.hub.clients)
    (n : IsNew c w) (p : IsPrivate c ts) (r : run c ts (open_session c w) ≡ some s) where
  abbrev subscribed : World
  subscribed = step (subscribes c) w

  open-Keeps : Keeps c (open_session c w)
  unfolding open_session step
  open-Keeps = record {
    lost = [];
    delivered = n.unread;
    nothing_lost = λ e. refl;
    subscribed = step-is_client c (subscribes c) w ∙ ground arith;
  }

  session : Keeps c s × (s.world ≡ World.run (all_calls c ts) subscribed)
  unfolding open_session
  session = run-Keeps c ts (open_session c w) p open-Keeps r

  heard-session : heard c (is_client c subscribed) (all_calls c ts) ≡ map frame (published ts)
  heard-session =
      ap (λ b. heard c b (all_calls c ts)) (step-is_client c (subscribes c) w ∙ ground arith)
      ∙ heard-published c ts p

  stream-subscribed : stream c subscribed ≡ []
  stream-subscribed =
      step-stream c (subscribes c) w k
      ∙ append-nil _
      ∙ ap (λ x. x ++ (w.hub.channels c).buffer) n.unread
      ∙ n.empty

  -- What the client got, what it lost and what waits, in order.
  kept :
      (got : List Text)
      → stream c (World.run (all_calls c ts) subscribed) ≡ stream c subscribed ++ got
      → frames_sent s.writes ++ (session.0.lost ++ (s.world.hub.channels c).buffer) ≡ got
  kept got e =
      sym (append_assoc (frames_sent s.writes) session.0.lost (s.world.hub.channels c).buffer)
      ∙ ap (λ x. x ++ (s.world.hub.channels c).buffer) (sym session.0.delivered)
      ∙ ap (stream c) session.1
      ∙ e
      ∙ ap (λ x. x ++ got) stream-subscribed

  frames_sent-sublist : Sublist (frames_sent s.writes) (map frame (published ts))
  frames_sent-sublist =
      let (got, e, sub) =
        run-stream c (all_calls c ts) subscribed (step-IsKeySet (subscribes c) w k) in
      Sublist.trans ∣ sublist-append_left (frames_sent s.writes) _ ∣₁ (
        subst (λ x. Sublist x (map frame (published ts))) (sym (kept got e))
          (subst (Sublist got) heard-session sub))

  has_room :
      length (published ts) ≤ stream_capacity
      → length (subscribed.hub.channels c).buffer
          + length (heard c (is_client c subscribed) (all_calls c ts))
        ≤ (subscribed.hub.channels c).capacity
  unfolding heard
  has_room room = omega (
    arith,
    ap length heard-session,
    length-map frame (published ts),
    step-capacity c (subscribes c) w k,
    n.capacity,
    step-buffer c (subscribes c) w k,
    ap length n.empty,
  )

  frames_sent-eq :
      length (published ts) ≤ stream_capacity
      → s.live ≡ true
      → (s.world.hub.channels c).buffer ≡ []
      → frames_sent s.writes ≡ map frame (published ts)
  frames_sent-eq room live read =
      let e =
        run-stream_lossless c (all_calls c ts) subscribed (step-IsKeySet (subscribes c) w k)
          (has_room room) in
      sym (append-nil _)
      ∙ ap (λ x. frames_sent s.writes ++ x)
          (sym
            (ap (λ x. x ++ (s.world.hub.channels c).buffer) (session.0.nothing_lost live) ∙ read))
      ∙ kept (heard c (is_client c subscribed) (all_calls c ts)) e
      ∙ heard-session

-- What a browser reads from its stream, at any moment of any history of the hub in which no one else
-- uses the stream's channel, are some of the events that were published until then and while the
-- handler ran: in order, none twice, and each with its name and its data unchanged, if all of them
-- have a single nonempty line for a name and no carriage return.
pub tab_reads :
    (c : ℕ) (w : World) (ts : List Turn) {s : Session}
    → IsKeySet w.hub.clients
    → IsNew c w
    → IsPrivate c ts
    → All IsSendable (published ts)
    → run c ts (open_session c w) ≡ some s
    → Sublist (read_stream (wire s.writes)) (published ts)
tab_reads c w ts {s} k n p a r = ∥∥₁_elim (frames_sent-sublist c w ts k n p r) ∥∥₁_prop (λ d.
    let (ds, sub, e) = sublist-map frame (frames_sent s.writes) (published ts) d in
    subst (λ x. Sublist x (published ts))
      (sym (read_stream-wire s.writes ds e (All-sublist IsSendable ds (published ts) sub a)))
      ∣ sub ∣₁)

-- If at most 32 events are published while the handler runs, it has not returned, and its channel is
-- empty, then the browser has read every one of them.
pub tab_reads_every :
    (c : ℕ) (w : World) (ts : List Turn) {s : Session}
    → IsKeySet w.hub.clients
    → IsNew c w
    → IsPrivate c ts
    → All IsSendable (published ts)
    → run c ts (open_session c w) ≡ some s
    → length (published ts) ≤ stream_capacity
    → s.live ≡ true
    → (s.world.hub.channels c).buffer ≡ []
    → read_stream (wire s.writes) ≡ published ts
tab_reads_every c w ts {s} k n p a r room live read =
    read_stream-wire s.writes (published ts) (frames_sent-eq c w ts k n p r room live read) a

-- HandleEvents is a client of the hub exactly until it returns.
pub session-is_client :
    (c : ℕ) (w : World) (ts : List Turn) {s : Session}
    → IsKeySet w.hub.clients
    → IsNew c w
    → IsPrivate c ts
    → run c ts (open_session c w) ≡ some s
    → is_client c s.world ≡ s.live
session-is_client c w ts k n p r = (session c w ts k n p r).0.subscribed
