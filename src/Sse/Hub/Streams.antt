-- ===== src/Sse/Hub/Streams.antt =====
-- Histories of the hub: what the owner of a channel gets.
use mathlib.Core.List.Sublist
use mathlib.Core.List.{Sublist, nil-sublist, append_assoc, append-nil}
use pulse_monitor.Prelude.{
  ℕ, ◌+◌, ◌≤◌, ◌≡◌, sym, ap, ◌∙◌, List, [], ◌∷◌, ◌++◌, arith, length, length-append,
}
use pulse_monitor.Sse.Hub.Publish.{IsKeySet}
use pulse_monitor.Sse.Hub.Steps.{
  step-IsKeySet, step-is_client, step-stream, step-capacity, heard-cons, gain-heard, step-buffer,
  gain-eq-heard, step-IsBounded, listens, gain, IsBounded,
}
use pulse_monitor.Sse.Hub.World.{Call, World, step, run, stream, heard, is_client}
use pulse_monitor.Text.{Text}

-- In any history, what the owner of a channel has received and what is still in the channel's
-- buffer is, in order, what was there before, followed by some of the frames that were published
-- while the channel was subscribed: none is repeated or reordered, and none comes from before the
-- subscription or after its end.
pub run-stream :
    (c : ℕ) (os : List Call) (w : World)
    → IsKeySet w.hub.clients
    → (got : List Text) × (stream c (run os w) ≡ stream c w ++ got)
      × Sublist got (heard c (is_client c w) os)
unfolding run
run-stream c [] w k = ([], sym (append-nil (stream c w)), nil-sublist _)
run-stream c (o ∷ os) w k =
    let (got, e, s) = run-stream c os (step o w) (step-IsKeySet o w k) in
    (
      gain c o w ++ got,
      e ∙ rw (step-stream c o w k) (append_assoc (stream c w) (gain c o w) got),
      rw (heard-cons c (is_client c w) o os)
          (Sublist.append (gain-heard c o w) (rw (step-is_client c o w) at s)),
    )

-- If a channel's buffer has room for every frame that is published while it is subscribed, its
-- owner misses none: all of them arrive, in order.
pub run-stream_lossless :
    (c : ℕ) (os : List Call) (w : World)
    → IsKeySet w.hub.clients
    → length (w.hub.channels c).buffer + length (heard c (is_client c w) os)
      ≤ (w.hub.channels c).capacity
    → stream c (run os w) ≡ stream c w ++ heard c (is_client c w) os
unfolding run
run-stream_lossless c [] w k room = unfold heard in sym (append-nil (stream c w))
run-stream_lossless c (o ∷ os) w k room =
    let now = heard c (is_client c w) (o ∷ []) in
    let later = heard c (listens c o (is_client c w)) os in
    let split : length (heard c (is_client c w) (o ∷ os)) ≡ length now + length later =
      ap length (heard-cons c (is_client c w) o os) ∙ length-append now later in
    let room' : length ((step o w).hub.channels c).buffer
          + length (heard c (is_client c (step o w)) os)
        ≤ ((step o w).hub.channels c).capacity =
      rw (step-is_client c o w, step-capacity c o w k) (omega (arith, step-buffer c o w k)) in
    run-stream_lossless c os (step o w) (step-IsKeySet o w k) room'
    ∙ rw (step-stream c o w k, step-is_client c o w, gain-eq-heard c o w (omega arith))
        (append_assoc (stream c w) now later ∙ rw (heard-cons c (is_client c w) o os))

-- In any history the hub never holds more frames of a channel than its capacity, and never has one
-- client twice.
pub run-IsBounded :
    (os : List Call) (w : World)
    → IsKeySet w.hub.clients
    → IsBounded w
    → IsBounded (run os w) × IsKeySet (run os w).hub.clients
unfolding run
run-IsBounded [] w k b = (b, k)
run-IsBounded (o ∷ os) w k b =
    run-IsBounded os (step o w) (step-IsKeySet o w k) (step-IsBounded o w k b)
