-- ===== src/Sse/Frame.antt =====
-- `Event` and `Event.Frame` of internal/sse/hub.go, and the heartbeat that HandleEvents of
-- internal/handlers/handlers.go writes between frames.
pub mod Reader
pub mod Lines
pub mod Returns
pub mod RoundTrip
use pulse_monitor.Prelude.{List, [], ◌∷◌, ◌++◌}
use pulse_monitor.Text.{Text, codes, split_on}

pub record Event : Type 0 where
  pub name : Text
  pub payload : Text

-- The loop over the lines of the data.
unfoldable pub data_lines : List Text → Text
data_lines [] = []
data_lines (line ∷ ls) = codes "data: " ++ (line ++ b'\n' ∷ data_lines ls)

unfoldable pub frame : Event → Text
unfolding data_lines
frame e =
    codes "event: " ++ (e.name ++ b'\n' ∷ (data_lines (split_on b'\n' e.payload) ++ b'\n' ∷ []))

abbrev pub ping : Text
ping = codes ": ping\n\n"
