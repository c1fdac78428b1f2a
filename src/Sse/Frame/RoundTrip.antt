-- ===== src/Sse/Frame/RoundTrip.antt =====
-- What HandleEvents writes, as the EventSource reads it.
use mathlib.Core.List.{append_assoc, reverse-append, reverse-reverse}
use pulse_monitor.Prelude.{
  ℕ, ◌≡◌, ◌≢◌, refl, ap, ◌∙◌, false, List, [], ◌∷◌, ◌++◌, reverse, All, All-append,
}
use pulse_monitor.Sse.Frame.Lines.{
  read_from-line, read_from-blank, process_line-event, read_from-data_lines, terminated-split_on,
}
use pulse_monitor.Sse.Frame.Returns.{normalise-Lacks, data_lines-Lacks}
use pulse_monitor.Sse.Frame.Reader.{
  empty, process_line, dispatch, read_lines, read_from, read_stream, or_message,
}
use pulse_monitor.Sse.Frame.{Event, data_lines, frame, ping}
use pulse_monitor.Text.Split.{Lacks, split_on-All-Lacks, split_on-Lacks-All, lacks_lem}
use pulse_monitor.Text.{Text, codes, text_eq, cut, split_on}

reverse-snoc : (s : Text) (c : ℕ) → reverse (s ++ c ∷ []) ≡ c ∷ reverse s
reverse-snoc s c = reverse-append s (c ∷ [])

snoc-ne-nil : (s : Text) (c : ℕ) → text_eq (s ++ c ∷ []) [] ≡ false
unfolding text_eq
snoc-ne-nil [] c = refl
snoc-ne-nil (d ∷ s) c = refl

-- An event that the hub sends: its name is one line, and its data holds no carriage return.
pub record IsSendable (e : Event) : Type 0 where
  pub name_ne_nil : e.name ≢ []
  pub name_line : Lacks b'\n' e.name
  pub name_no_cr : Lacks b'\r' e.name
  pub payload_no_cr : Lacks b'\r' e.payload

or_message-eq : (s : Text) → s ≢ [] → or_message s ≡ s
or_message-eq [] h = absurd (h refl)
or_message-eq (c ∷ s) h = refl

dispatch-sent :
    (e : Event) (rest : List Event)
    → e.name ≢ []
    → dispatch (record { event_type = e.name; data_buffer = e.payload ++ b'\n' ∷ [] }) rest
      ≡ e ∷ rest
unfolding dispatch
dispatch-sent e rest h = rw (
  snoc-ne-nil e.payload b'\n',
  reverse-snoc e.payload b'\n',
  reverse-reverse e.payload,
  or_message-eq e.name h,
)

read_from-frame :
    (e : Event) (rest : Text)
    → IsSendable e
    → read_from empty (frame e ++ rest) ≡ e ∷ read_from empty rest
unfolding frame
read_from-frame e rest h =
    rw (append_assoc e.name, append_assoc (data_lines (split_on b'\n' e.payload)))
      (read_from-line empty b'e' (b'v' ∷ b'e' ∷ b'n' ∷ b't' ∷ b':' ∷ b' ' ∷ e.name) _ (
          All-append _ (codes "event: ") e.name (lacks_lem b'\n' (codes "event: ") refl)
            h.name_line)
        ∙ rw (process_line-event e.name empty) (
            read_from-data_lines (split_on b'\n' e.payload) _ (b'\n' ∷ rest)
              (split_on-All-Lacks b'\n' e.payload)
            ∙ read_from-blank _ rest
            ∙ rw (terminated-split_on e.payload) (dispatch-sent e _ h.name_ne_nil)))

-- What HandleEvents writes: heartbeats and frames.
pub data Chunk : Type 0 where
  heartbeat : Chunk
  event : Event → Chunk

abbrev pub written : List Chunk → Text
written [] = []
written (heartbeat ∷ cs) = ping ++ written cs
written (event e ∷ cs) = frame e ++ written cs

abbrev pub events : List Chunk → List Event
events [] = []
events (heartbeat ∷ cs) = events cs
events (event e ∷ cs) = e ∷ events cs

abbrev pub IsSendableChunk : Chunk → Type 0
IsSendableChunk heartbeat = Unit
IsSendableChunk (event e) = IsSendable e

read_from-ping : (rest : Text) → read_from empty (ping ++ rest) ≡ read_from empty rest
read_from-ping rest =
    read_from-line empty b':' (b' ' ∷ b'p' ∷ b'i' ∷ b'n' ∷ b'g' ∷ []) (b'\n' ∷ rest)
      (lacks_lem b'\n' (codes ": ping") refl)
    ∙ process_ping
    ∙ read_from-blank empty rest
    ∙ unfold dispatch text_eq in refl
  where
    process_ping :
        read_from (process_line (codes ": ping") empty) (b'\n' ∷ rest)
        ≡ read_from empty (b'\n' ∷ rest)
    process_ping = unfold process_line cut text_eq in refl

read_from-written :
    (cs : List Chunk) → All IsSendableChunk cs → read_from empty (written cs) ≡ events cs
read_from-written [] h = unfold read_from read_lines split_on in refl
read_from-written (heartbeat ∷ cs) h = read_from-ping (written cs) ∙ read_from-written cs h.1
read_from-written (event e ∷ cs) h =
    read_from-frame e (written cs) h.0 ∙ ap (◌∷◌ e) (read_from-written cs h.1)

frame-Lacks : (e : Event) → IsSendable e → Lacks b'\r' (frame e)
unfolding frame
frame-Lacks e h =
    let lines = split_on b'\n' e.payload in
    All-append _ (codes "event: ") _ (lacks_lem b'\r' (codes "event: ") refl) (
      All-append _ e.name _ h.name_no_cr (
        refl,
        All-append _ (data_lines lines) _
            (data_lines-Lacks lines (split_on-Lacks-All b'\n' b'\r' e.payload h.payload_no_cr))
            (refl, tt),
      ))

written-Lacks : (cs : List Chunk) → All IsSendableChunk cs → Lacks b'\r' (written cs)
written-Lacks [] h = tt
written-Lacks (heartbeat ∷ cs) h =
    All-append _ ping (written cs) (lacks_lem b'\r' ping refl) (written-Lacks cs h.1)
written-Lacks (event e ∷ cs) h =
    All-append _ (frame e) (written cs) (frame-Lacks e h.0) (written-Lacks cs h.1)

-- A browser that reads any sequence of frames and heartbeats dispatches exactly the events that
-- were framed, in order, each with its name and its data unchanged, if every name is a nonempty
-- single line and no data holds a carriage return.
pub read_stream-written :
    (cs : List Chunk) → All IsSendableChunk cs → read_stream (written cs) ≡ events cs
unfolding read_stream
read_stream-written cs h =
    rw (normalise-Lacks (written cs) (written-Lacks cs h)) (read_from-written cs h)
