-- ===== src/Sse/Frame/Lines.antt =====
-- How the EventSource reads a line of the stream.
use mathlib.Core.List.{append_assoc, append-nil}
use pulse_monitor.Prelude.{ℕ, ◌≡◌, refl, ap, ◌∙◌, List, [], ◌∷◌, ◌++◌, All, All-append}
use pulse_monitor.Sse.Frame.Reader.{Buffers, empty, process_line, dispatch, read_lines, read_from}
use pulse_monitor.Sse.Frame.{data_lines}
use pulse_monitor.Text.Split.{
  Lacks, lacks_lem, split_on-append, split_on-cons, join, join-split_on, join-cons, join-one,
}
use pulse_monitor.Text.{Text, codes, text_eq, cut, split_on}

pub read_from-line :
    (b : Buffers) (c : ℕ) (l rest : Text)
    → Lacks b'\n' (c ∷ l)
    → read_from b ((c ∷ l) ++ b'\n' ∷ rest) ≡ read_from (process_line (c ∷ l) b) rest
unfolding read_from
read_from-line b c l rest h =
    let (p, ps, e) = split_on-cons b'\n' rest in
    rw (split_on-append b'\n' (c ∷ l) rest h, e) (unfold read_lines in refl)

pub read_from-blank :
    (b : Buffers) (rest : Text) → read_from b (b'\n' ∷ rest) ≡ dispatch b (read_from empty rest)
unfolding read_from
read_from-blank b rest =
    let (p, ps, e) = split_on-cons b'\n' rest in
    rw (split_on-append b'\n' [] rest tt, e) (unfold read_lines in refl)

pub process_line-event :
    (name : Text) (b : Buffers)
    → process_line (codes "event: " ++ name) b ≡ record b { event_type = name }
unfolding process_line cut text_eq
process_line-event name b = refl

pub process_line-data :
    (line : Text) (b : Buffers)
    → process_line (codes "data: " ++ line) b
      ≡ record b { data_buffer = b.data_buffer ++ (line ++ b'\n' ∷ []) }
unfolding process_line cut text_eq
process_line-data line b = refl

-- Each line with its newline.
abbrev pub terminated : List Text → Text
terminated [] = []
terminated (l ∷ ls) = l ++ b'\n' ∷ terminated ls

pub read_from-data_lines :
    (ls : List Text) (b : Buffers) (rest : Text)
    → All (Lacks b'\n') ls
    → read_from b (data_lines ls ++ rest)
      ≡ read_from (record b { data_buffer = b.data_buffer ++ terminated ls }) rest
unfolding data_lines
read_from-data_lines [] b rest h = rw append-nil
read_from-data_lines (l ∷ ls) b rest h = rw (append_assoc l (b'\n' ∷ data_lines ls) rest) (
    read_from-line b b'd' (b'a' ∷ b't' ∷ b'a' ∷ b':' ∷ b' ' ∷ l) _
      (All-append _ (codes "data: ") l (lacks_lem b'\n' (codes "data: ") refl) h.0)
    ∙ rw (process_line-data l b) (
        read_from-data_lines ls (record b { data_buffer = b.data_buffer ++ (l ++ b'\n' ∷ []) }) rest
          h.1
        ∙ simp append_assoc))

terminated-join :
    (p : Text) (ps : List Text) → terminated (p ∷ ps) ≡ join b'\n' (p ∷ ps) ++ b'\n' ∷ []
terminated-join p [] = rw (join-one b'\n' p)
terminated-join p (q ∷ ps) =
    rw (join-cons b'\n' p q ps, append_assoc p) (ap (λ t. p ++ b'\n' ∷ t) (terminated-join q ps))

pub terminated-split_on : (s : Text) → terminated (split_on b'\n' s) ≡ s ++ b'\n' ∷ []
terminated-split_on s =
    let (p, ps, e) = split_on-cons b'\n' s in
    rw e (terminated-join p ps ∙ ap (λ t. t ++ b'\n' ∷ []) (rw e at (join-split_on b'\n' s)))
