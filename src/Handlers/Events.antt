-- ===== src/Handlers/Events.antt =====
-- `HandleEvents` of internal/handlers/handlers.go: one tab's stream. Between two rounds of its loop
-- anything may happen at the hub, so a history is a list of turns: a call of someone else, or the
-- case that the select takes, with the success of the write.
pub mod Turns
pub mod Sessions
pub mod Published
pub mod Tabs
pub mod Tests
use pulse_monitor.Handlers.Writer.{Writer, set_header, write_header, http_error}
use pulse_monitor.Prelude.{
  ℕ, Bool, true, false, List, [], ◌∷◌, ◌++◌, Option, none, some, if◌then◌else◌,
}
use pulse_monitor.Sse.Frame.{Event, frame, ping}
use pulse_monitor.Sse.Hub.World.{Call, subscribes, unsubscribes, receives, publishes, World, step}
use pulse_monitor.Sse.Hub.{Channel, Hub}
use pulse_monitor.Text.{Text, codes}

-- A completed write to the client: a heartbeat or a frame.
pub data Written : Type 0 where
  heartbeat_sent : Written
  frame_sent : Text → Written

-- The bytes on the wire.
abbrev pub wire : List Written → Text
wire [] = []
wire (heartbeat_sent ∷ ws) = ping ++ wire ws
wire (frame_sent f ∷ ws) = f ++ wire ws

-- The session of one tab; `live` until the handler returns.
pub record Session : Type 0 where
  pub world : World
  pub writes : List Written
  pub live : Bool

-- `hangs_up` is the case ctx.Done(); `beats` and `takes` are the heartbeat and a frame from the
-- channel, with whether the write succeeds.
pub data Turn : Type 0 where
  others : Call → Turn
  hangs_up : Turn
  beats takes : Bool → Turn

-- The handler returns: its deferred Unsubscribe runs.
abbrev pub leave : ℕ → Session → Session
leave c s = record s { world = step (unsubscribes c) s.world; live = false }

-- After `w.Write`: an error ends the handler.
abbrev pub wrote : ℕ → Written → Bool → Session → Session
wrote c o true s = record s { writes = s.writes ++ o ∷ [] }
wrote c o false s = leave c s

abbrev pub take_frame : ℕ → Bool → Session → List Text → Option Session
take_frame c ok s [] = none
take_frame c ok s (f ∷ fs) =
    some (wrote c (frame_sent f) ok (record s { world = step (receives c) s.world }))

abbrev pub when_live : Bool → Option Session → Option Session
when_live true s = s
when_live false s = none

-- One turn of the session on the channel `c`, and `none` where the select is not ready for it.
unfoldable pub turn : ℕ → Turn → Session → Option Session
unfolding step
turn c (others call) s = some (record s { world = step call s.world })
turn c hangs_up s = when_live s.live (some (leave c s))
turn c (beats ok) s = when_live s.live (some (wrote c heartbeat_sent ok s))
turn c (takes ok) s = when_live s.live (take_frame c ok s (s.world.hub.channels c).buffer)

abbrev pub and_then : Option Session → (Session → Option Session) → Option Session
and_then none k = none
and_then (some s) k = k s

unfoldable pub run : ℕ → List Turn → Session → Option Session
unfolding turn
run c [] s = some s
run c (t ∷ ts) s = and_then (turn c t s) (run c ts)

-- `make(chan []byte, 32)`.
abbrev pub stream_capacity : ℕ
stream_capacity = 32

-- The start of the stream: the new channel `c` is subscribed.
unfoldable pub open_session : ℕ → World → Session
unfolding step
open_session c w = record { world = step (subscribes c) w; writes = []; live = true }

-- What is sent before the loop, and whether it is reached: without a hub or a Flusher there is none.
unfoldable pub open_stream : Option Hub → Bool → Writer → Writer × Bool
unfolding set_header write_header http_error
open_stream none flusher w = (http_error (codes "streaming unavailable") 500 w, false)
open_stream (some h) false w = (http_error (codes "streaming unsupported") 500 w, false)
open_stream (some h) true w = (
  write_header 200 (
      set_header (codes "X-Accel-Buffering") (codes "no") (
        set_header (codes "Connection") (codes "keep-alive") (
          set_header (codes "Cache-Control") (codes "no-cache")
            (set_header (codes "Content-Type") (codes "text/event-stream") w)))),
  true,
)
