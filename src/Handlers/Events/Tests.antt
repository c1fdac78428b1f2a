-- ===== src/Handlers/Events/Tests.antt =====
-- A tab that opens, reads two events with a heartbeat between them, and closes.
use mathlib.Core.List.{Sublist}
use pulse_monitor.Handlers.Events.Sessions.{IsPrivate}
use pulse_monitor.Handlers.Events.Published.{published}
use pulse_monitor.Handlers.Events.Tabs.{IsNew, tab_reads}
use pulse_monitor.Handlers.Events.{
  Session, Turn, others, hangs_up, beats, takes, heartbeat_sent, frame_sent, wire, run,
  open_session,
}
use pulse_monitor.Prelude.{◌≡◌, refl, true, false, List, [], ◌∷◌, Option, none, some, All}
use pulse_monitor.Sse.Frame.Reader.{read_stream}
use pulse_monitor.Sse.Frame.RoundTrip.{IsSendable}
use pulse_monitor.Sse.Frame.{Event, frame}
use pulse_monitor.Sse.Hub.World.{subscribes, unsubscribes, publishes, World}
use pulse_monitor.Sse.Hub.{Hub, Channel}
use pulse_monitor.Text.Split.{lacks_lem}
use pulse_monitor.Text.{codes}

abbrev check : Event
check = record { name = codes "check"; payload = codes "up" }

check-IsSendable : IsSendable check
check-IsSendable = record {
  name_ne_nil = cc;
  name_line = lacks_lem b'\n' check.name refl;
  name_no_cr = lacks_lem b'\r' check.name refl;
  payload_no_cr = lacks_lem b'\r' check.payload refl;
}

abbrev quiet : World
quiet = record {
  hub = record { clients = []; channels = λ c. record { capacity = 32; buffer = [] } };
  received = λ c. [];
}

-- Another tab comes and goes.
abbrev turns : List Turn
turns =
    others (subscribes 2)
    ∷ others (publishes check)
    ∷ takes true
    ∷ beats true
    ∷ others (unsubscribes 2)
    ∷ others (publishes check)
    ∷ takes true
    ∷ []

abbrev or_start : Option Session → Session
or_start none = record { world = quiet; writes = []; live = false }
or_start (some s) = s

abbrev reached : Session
unfolding run open_session
reached = or_start (run 1 turns (open_session 1 quiet))

quiet-IsNew : IsNew 1 quiet
quiet-IsNew = record { empty = refl; capacity = refl; unread = refl }

turns-IsPrivate : IsPrivate 1 turns
turns-IsPrivate = (refl, (tt, (refl, (tt, tt))))

turns-run : run 1 turns (open_session 1 quiet) ≡ some reached
unfolding reached pulse_monitor.Sse.Hub.offer
turns-run = refl

reached-writes :
    (reached.writes ≡ frame_sent (frame check) ∷ heartbeat_sent ∷ frame_sent (frame check) ∷ [])
    × (run 1 (hangs_up ∷ beats true ∷ []) (open_session 1 quiet) ≡ none)
    × (run 1 (takes true ∷ []) (open_session 1 quiet) ≡ none)
unfolding reached run open_session pulse_monitor.Sse.Hub.offer
reached-writes = (refl, refl, refl)

published-IsSendable : All IsSendable (published turns)
published-IsSendable = (check-IsSendable, (check-IsSendable, tt))

tab_reads_example : Sublist (read_stream (wire reached.writes)) (check ∷ check ∷ [])
tab_reads_example =
    tab_reads 1 quiet turns tt quiet-IsNew turns-IsPrivate published-IsSendable turns-run
