-- ===== src/Sse/Frame/Reader.antt =====
-- An independent description of the browser's EventSource: how the event stream format of the HTML
-- standard is read. The fields `id` and `retry` dispatch nothing and are passed over.
use pulse_monitor.Prelude.{
  Bool, false, List, [], ◌∷◌, ◌++◌, reverse, Option, none, some, ◌==◌, if◌then◌else◌,
}
use pulse_monitor.Sse.Frame.{Event}
use pulse_monitor.Text.{Text, codes, text_eq, cut, split_on}

-- A line ends at CR LF, at LF or at CR: here each becomes one LF.
unfoldable pub normalise_after : Bool → Text → Text
normalise_after after_cr [] = []
normalise_after after_cr (c ∷ s) =
    let rest = normalise_after (c == b'\r') s in
    if c == b'\r'
    then b'\n' ∷ rest
    else if c == b'\n'
    then (if after_cr then rest else b'\n' ∷ rest)
    else c ∷ rest

-- The event type buffer and the data buffer.
pub record Buffers : Type 0 where
  pub event_type : Text
  pub data_buffer : Text

abbrev pub empty : Buffers
empty = record { event_type = []; data_buffer = [] }

abbrev pub strip_space : Text → Text
strip_space [] = []
strip_space (c ∷ s) = if c == b' ' then s else c ∷ s

abbrev pub process_field : Text → Text → Buffers → Buffers
process_field field value b =
    if text_eq field (codes "event")
    then record b { event_type = value }
    else if text_eq field (codes "data")
    then record b { data_buffer = b.data_buffer ++ (value ++ b'\n' ∷ []) }
    else b

-- A field ends at the first colon; a comment is a field with no name.
abbrev pub process_split : Text → Option (Text × Text) → Buffers → Buffers
process_split line none b = process_field line [] b
process_split line (some (field, value)) b = process_field field (strip_space value) b

unfoldable pub process_line : Text → Buffers → Buffers
process_line line b = process_split line (cut b':' line) b

abbrev pub drop_newline : Text → Text
drop_newline [] = []
drop_newline (c ∷ s) = if c == b'\n' then reverse s else reverse (c ∷ s)

abbrev pub or_message : Text → Text
or_message [] = codes "message"
or_message (c ∷ s) = c ∷ s

-- With no data there is no event.
unfoldable pub dispatch : Buffers → List Event → List Event
dispatch b rest =
    if text_eq b.data_buffer []
    then rest
    else record { name = or_message b.event_type; payload = drop_newline (reverse b.data_buffer) }
      ∷ rest

-- The last piece has no line end yet, and is not processed.
unfoldable pub read_lines : Buffers → List Text → List Event
unfolding process_line dispatch
read_lines b [] = []
read_lines b (l ∷ []) = []
read_lines b ([] ∷ m ∷ ls) = dispatch b (read_lines empty (m ∷ ls))
read_lines b ((c ∷ l) ∷ m ∷ ls) = read_lines (process_line (c ∷ l) b) (m ∷ ls)

unfoldable pub read_from : Buffers → Text → List Event
unfolding read_lines
read_from b s = read_lines b (split_on b'\n' s)

-- The events that a stream dispatches.
unfoldable pub read_stream : Text → List Event
unfolding normalise_after read_from
read_stream s = read_from empty (normalise_after false s)
