-- ===== src/Sse/Tests.antt =====
-- Frames on the wire, and two tabs that listen to one hub.
use mathlib.Core.List.{Sublist}
use pulse_monitor.Prelude.{ℕ, ◌≡◌, refl, List, [], ◌∷◌, ◌++◌}
use pulse_monitor.Sse.Frame.Reader.{read_stream}
use pulse_monitor.Sse.Frame.RoundTrip.{
  Chunk, heartbeat, event, written, IsSendable, read_stream-written,
}
use pulse_monitor.Sse.Frame.{Event, frame}
use pulse_monitor.Sse.Hub.Abstract.{perform_all, view, run-view}
use pulse_monitor.Sse.Hub.Publish.{IsKeySet}
use pulse_monitor.Sse.Hub.World
use pulse_monitor.Sse.Hub.Streams.{run-stream}
use pulse_monitor.Sse.Hub.World.{
  Call, subscribes, unsubscribes, receives, publishes, World, run, stream, heard, is_client,
}
use pulse_monitor.Sse.Hub.{Channel, Hub, new, contains, offer}
use pulse_monitor.Text.Split.{lacks_lem}
use pulse_monitor.Text.{Text, codes}

abbrev check : Event
check = record { name = codes "check"; payload = codes "Up\n\n12 ms" }

abbrev stats : Event
stats = record { name = codes "stats"; payload = [] }

frame-check :
    (frame check ≡ codes "event: check\ndata: Up\ndata: \ndata: 12 ms\n\n")
    × (frame stats ≡ codes "event: stats\ndata: \n\n")
unfolding frame pulse_monitor.Text.split_on
frame-check = (refl, refl)

check-IsSendable : IsSendable check
check-IsSendable = record {
  name_ne_nil = cc;
  name_line = lacks_lem b'\n' check.name refl;
  name_no_cr = lacks_lem b'\r' check.name refl;
  payload_no_cr = lacks_lem b'\r' check.payload refl;
}

stats-IsSendable : IsSendable stats
stats-IsSendable = record {
  name_ne_nil = cc;
  name_line = lacks_lem b'\n' stats.name refl;
  name_no_cr = lacks_lem b'\r' stats.name refl;
  payload_no_cr = lacks_lem b'\r' stats.payload refl;
}

-- A carriage return ends a line for the browser, so the rest of the data is lost.
read_stream-cr :
    read_stream (frame (record { name = codes "check"; payload = codes "a\rb" }))
    ≡ record { name = codes "check"; payload = codes "a" } ∷ []
unfolding read_stream pulse_monitor.Text.split_on frame pulse_monitor.Text.text_eq
    pulse_monitor.Text.cut
read_stream-cr = refl

abbrev chunks : List Chunk
chunks = event check ∷ heartbeat ∷ event stats ∷ []

read_stream-written_example : read_stream (written chunks) ≡ check ∷ stats ∷ []
read_stream-written_example =
    read_stream-written chunks (check-IsSendable, (tt, (stats-IsSendable, tt)))

abbrev room : ℕ → Channel
room c = record { capacity = 1; buffer = [] }

abbrev two_tabs : Hub
two_tabs = record { clients = 1 ∷ 2 ∷ []; channels = room }

two_tabs-IsKeySet : IsKeySet two_tabs.clients
unfolding contains
two_tabs-IsKeySet = (refl, (refl, tt))

-- The second tab is served before the first one.
abbrev served : List Call
served = publishes check ∷ receives 2 ∷ unsubscribes 1 ∷ publishes check ∷ []

run-view_example :
    view (World.run served (record { hub = two_tabs; received = λ c. [] }))
    ≡ perform_all served (view (record { hub = two_tabs; received = λ c. [] }))
run-view_example = run-view served (record { hub = two_tabs; received = λ c. [] }) two_tabs-IsKeySet

abbrev start : World
start = record { hub = new room; received = λ c. [] }

-- The second tab does not read, so it misses a frame.
abbrev calls : List Call
calls =
    publishes stats
    ∷ subscribes 1
    ∷ subscribes 2
    ∷ publishes check
    ∷ receives 1
    ∷ publishes stats
    ∷ unsubscribes 1
    ∷ publishes check
    ∷ []

calls-stream :
    (stream 1 (run calls start) ≡ frame check ∷ frame stats ∷ [])
    × (stream 2 (run calls start) ≡ frame check ∷ [])
unfolding run new offer
calls-stream = (refl, refl)

start-IsKeySet : IsKeySet start.hub.clients
unfolding new
start-IsKeySet = tt

run-stream_example :
    (got : List Text) × (stream 2 (run calls start) ≡ stream 2 start ++ got)
    × Sublist got (heard 2 (is_client 2 start) calls)
run-stream_example = run-stream 2 calls start start-IsKeySet
