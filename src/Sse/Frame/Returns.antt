-- ===== src/Sse/Frame/Returns.antt =====
-- Text with no carriage return, which the EventSource would take for a line end.
use pulse_monitor.Prelude.{◌≡◌, refl, false, List, [], ◌∷◌, All, All-append, arith}
use pulse_monitor.Sse.Frame.Reader.{normalise_after}
use pulse_monitor.Sse.Frame.{data_lines}
use pulse_monitor.Text.Split.{Lacks, lacks_lem}
use pulse_monitor.Text.{Text, codes}

pub normalise-Lacks : (s : Text) → Lacks b'\r' s → normalise_after false s ≡ s
unfolding normalise_after
normalise-Lacks [] h = refl
normalise-Lacks (c ∷ s) h = rw h.0 (ground (arith, normalise-Lacks s h.1))

pub data_lines-Lacks : (ls : List Text) → All (Lacks b'\r') ls → Lacks b'\r' (data_lines ls)
unfolding data_lines
data_lines-Lacks [] h = tt
data_lines-Lacks (l ∷ ls) h =
    All-append _ (codes "data: ") _ (lacks_lem b'\r' (codes "data: ") refl)
      (All-append _ l (b'\n' ∷ data_lines ls) h.0 (refl, data_lines-Lacks ls h.1))
