-- ===== src/Handlers/Events/Published.antt =====
-- What a session hears of the events, and how its stream reads.

use pulse_monitor.Handlers.Events.{
  Written, heartbeat_sent, frame_sent, wire, Turn, others, hangs_up, beats, takes,
}
use pulse_monitor.Handlers.Events.Turns.{all_calls}
use pulse_monitor.Handlers.Events.Sessions.{IsPrivate, frames_sent}
use pulse_monitor.Prelude.{ℕ, ◌≡◌, refl, ap, ◌∙◌, true, false, List, [], ◌∷◌, ◌++◌, map, arith, All}
use pulse_monitor.Sse.Frame.Reader.{read_stream}
use pulse_monitor.Sse.Frame.RoundTrip.{
  Chunk, heartbeat, event, written, events, IsSendable, IsSendableChunk, read_stream-written,
}
use pulse_monitor.Sse.Frame.{Event, frame, ping}
use pulse_monitor.Sse.Hub.World.{subscribes, unsubscribes, receives, publishes, heard}

-- The events that are published until the handler returns.
abbrev pub published : List Turn → List Event
published [] = []
published (others (publishes e) ∷ ts) = e ∷ published ts
published (others _ ∷ ts) = published ts
published (hangs_up ∷ ts) = []
published (beats true ∷ ts) = published ts
published (beats false ∷ ts) = []
published (takes true ∷ ts) = published ts
published (takes false ∷ ts) = []

heard-left : (c : ℕ) (ts : List Turn) → IsPrivate c ts → heard c false (all_calls c ts) ≡ []
unfolding heard
heard-left c [] p = refl
heard-left c (others (subscribes d) ∷ ts) p = rw p.0 (heard-left c ts p.1)
heard-left c (others (unsubscribes d) ∷ ts) p = rw p.0 (heard-left c ts p.1)
heard-left c (others (receives d) ∷ ts) p = heard-left c ts p.1
heard-left c (others (publishes e) ∷ ts) p = heard-left c ts p.1
heard-left c (hangs_up ∷ ts) p = ground (arith, heard-left c ts p)
heard-left c (beats true ∷ ts) p = heard-left c ts p
heard-left c (beats false ∷ ts) p = ground (arith, heard-left c ts p)
heard-left c (takes true ∷ ts) p = heard-left c ts p
heard-left c (takes false ∷ ts) p = ground (arith, heard-left c ts p)

pub heard-published :
    (c : ℕ) (ts : List Turn)
    → IsPrivate c ts
    → heard c true (all_calls c ts) ≡ map frame (published ts)
unfolding heard
heard-published c [] p = refl
heard-published c (others (subscribes d) ∷ ts) p = rw p.0 (heard-published c ts p.1)
heard-published c (others (unsubscribes d) ∷ ts) p = rw p.0 (heard-published c ts p.1)
heard-published c (others (receives d) ∷ ts) p = heard-published c ts p.1
heard-published c (others (publishes e) ∷ ts) p = ap (◌∷◌ (frame e)) (heard-published c ts p.1)
heard-published c (hangs_up ∷ ts) p = ground (arith, heard-left c ts p)
heard-published c (beats true ∷ ts) p = heard-published c ts p
heard-published c (beats false ∷ ts) p = ground (arith, heard-left c ts p)
heard-published c (takes true ∷ ts) p = heard-published c ts p
heard-published c (takes false ∷ ts) p = ground (arith, heard-left c ts p)

-- The writes of the frames of these events, with the heartbeats between them, are read as the
-- events.
wire-chunks :
    (ws : List Written) (ds : List Event)
    → frames_sent ws ≡ map frame ds
    → All IsSendable ds
    → (cs : List Chunk) × (wire ws ≡ written cs) × (events cs ≡ ds) × All IsSendableChunk cs
wire-chunks [] [] e a = ([], refl, refl, tt)
wire-chunks [] (d ∷ ds) e a = cc
wire-chunks (heartbeat_sent ∷ ws) ds e a =
    let (cs, w, v, s) = wire-chunks ws ds e a in (heartbeat ∷ cs, ap (λ x. ping ++ x) w, v, (tt, s))
wire-chunks (frame_sent f ∷ ws) [] e a = cc
wire-chunks (frame_sent f ∷ ws) (d ∷ ds) e a =
    let (cs, w, v, s) = wire-chunks ws ds (cc) a.1 in
    let e' : f ≡ frame d = cc in
    (event d ∷ cs, ap (λ x. x ++ wire ws) e' ∙ ap (λ x. frame d ++ x) w, ap (◌∷◌ d) v, (a.0, s))

pub read_stream-wire :
    (ws : List Written) (ds : List Event)
    → frames_sent ws ≡ map frame ds
    → All IsSendable ds
    → read_stream (wire ws) ≡ ds
read_stream-wire ws ds e a =
    let (cs, w, v, s) = wire-chunks ws ds e a in ap read_stream w ∙ read_stream-written cs s ∙ v
