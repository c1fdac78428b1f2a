-- ===== src/Sse/Hub/Steps.antt =====
-- What one call does to the clients, to a channel and to its stream.
use mathlib.Core.List.Sublist
use mathlib.Core.List.{Sublist, nil-sublist, append_assoc, append-nil}
use pulse_monitor.Prelude.{
  ℕ, ◌+◌, ◌≤◌, ◌≡◌, refl, inl, inr, Bool, true, false, List, [], ◌∷◌, ◌++◌, arith, ltb, ◌==◌,
  ==_iff, if◌then◌else◌, Bool-cases, length, length-append,
}
use pulse_monitor.Sse.Frame.{frame}
use pulse_monitor.Sse.Hub.Publish.{IsKeySet, contains-remove, remove-IsKeySet, publish_lem}
use pulse_monitor.Sse.Hub.World.{
  Call, subscribes, unsubscribes, receives, publishes, World, append_some, step, stream, heard,
  is_client,
}
use pulse_monitor.Sse.Hub.{
  Channel, Hub, take_first, contains, subscribe, unsubscribe, offer, publish, receive,
}
use pulse_monitor.Text.{Text}

subscribe-IsKeySet : (c : ℕ) (h : Hub) → IsKeySet h.clients → IsKeySet (subscribe c h).clients
unfolding subscribe
subscribe-IsKeySet c h k = ground arith

-- Every call keeps the clients a set.
pub step-IsKeySet :
    (o : Call) (w : World) → IsKeySet w.hub.clients → IsKeySet (step o w).hub.clients
unfolding step publish unsubscribe
step-IsKeySet (subscribes c) w k = subscribe-IsKeySet c w.hub k
step-IsKeySet (unsubscribes c) w k = remove-IsKeySet c w.hub.clients k
step-IsKeySet (publishes e) w k = k
step-IsKeySet (receives c) w k = unfold receive in k

subscribe-contains :
    (c d : ℕ) (h : Hub)
    → contains c (subscribe d h).clients ≡ (if d == c then true else contains c h.clients)
unfolding subscribe
subscribe-contains c d h = elim (Bool-cases (d == c)) [
  | inl e ↦ rw (← (==_iff d c).0 e) (unfold contains in ground arith)
  | inr e ↦ unfold contains in ground arith
]

-- Whether `c` is a client after a call.
abbrev pub listens : ℕ → Call → Bool → Bool
listens c (subscribes d) on = if d == c then true else on
listens c (unsubscribes d) on = if d == c then false else on
listens c (receives d) on = on
listens c (publishes e) on = on

pub step-is_client :
    (c : ℕ) (o : Call) (w : World) → is_client c (step o w) ≡ listens c o (is_client c w)
unfolding step publish unsubscribe receive
step-is_client c (subscribes d) w = subscribe-contains c d w.hub
step-is_client c (unsubscribes d) w = contains-remove c d w.hub.clients
step-is_client c (receives d) w = refl
step-is_client c (publishes e) w = refl

-- The frames that a call adds to the stream of `c`.
abbrev pub gain : ℕ → Call → World → List Text
gain c (publishes e) w =
    if is_client c w
    then (if ltb (length (w.hub.channels c).buffer) (w.hub.channels c).capacity
        then frame e ∷ []
        else [])
    else []
gain c (subscribes d) w = []
gain c (unsubscribes d) w = []
gain c (receives d) w = []

pub subscribe-channels : (d : ℕ) (h : Hub) → (subscribe d h).channels ≡ h.channels
unfolding subscribe
subscribe-channels d h = ground arith

take_first-stream :
    (fs : List Text) (ch : Channel) (b : List Text)
    → ch.buffer ≡ b
    → let (ch', f) = take_first ch b in append_some fs f ++ ch'.buffer ≡ fs ++ b
take_first-stream fs ch [] e = rw e
take_first-stream fs ch (f ∷ b) e = rw append_assoc

receive-stream : (c d : ℕ) (w : World) → stream c (step (receives d) w) ≡ stream c w
unfolding step receive
receive-stream c d w = elim (Bool-cases (c == d)) [
  | inl e ↦
      rw ((==_iff c d).0 e, (==_iff d d).1 refl)
        (take_first-stream (w.received d) (w.hub.channels d) (w.hub.channels d).buffer refl)
  | inr e ↦ rw e
]

pub step-stream :
    (c : ℕ) (o : Call) (w : World)
    → IsKeySet w.hub.clients
    → stream c (step o w) ≡ stream c w ++ gain c o w
step-stream c (subscribes d) w k = rw append-nil (unfold step in rw (subscribe-channels d w.hub))
step-stream c (unsubscribes d) w k = rw append-nil (unfold step unsubscribe in refl)
step-stream c (receives d) w k = rw append-nil (receive-stream c d w)
step-stream c (publishes e) w k =
    unfold step offer in
    rw ((publish_lem e w.hub k).1 c) (
      ground (
        arith,
        append_assoc (w.received c) (w.hub.channels c).buffer (frame e ∷ []),
        append-nil (stream c w),
      ))

-- A receive keeps the capacity and does not lengthen the buffer.
take_first-bounds :
    (ch : Channel) (b : List Text)
    → ch.buffer ≡ b
    → ((take_first ch b).0.capacity ≡ ch.capacity)
      × (length (take_first ch b).0.buffer ≤ length ch.buffer)
take_first-bounds ch [] e = (refl, omega arith)
take_first-bounds ch (f ∷ b) e = (refl, rw e (omega arith))

-- A receive changes only the channel of its owner.
receive-channel :
    (c d : ℕ) (h : Hub)
    → (((receive d h).0.channels c).capacity ≡ (h.channels c).capacity)
      × (length ((receive d h).0.channels c).buffer ≤ length (h.channels c).buffer)
unfolding receive
receive-channel c d h = elim (Bool-cases (c == d)) [
  | inl e ↦
      rw ((==_iff c d).0 e, (==_iff d d).1 refl)
        (take_first-bounds (h.channels d) (h.channels d).buffer refl)
  | inr e ↦ rw e (refl, omega arith)
]

pub step-capacity :
    (c : ℕ) (o : Call) (w : World)
    → IsKeySet w.hub.clients
    → ((step o w).hub.channels c).capacity ≡ (w.hub.channels c).capacity
unfolding step
step-capacity c (subscribes d) w k = rw (subscribe-channels d w.hub)
step-capacity c (unsubscribes d) w k = unfold unsubscribe in refl
step-capacity c (receives d) w k = (receive-channel c d w.hub).0
step-capacity c (publishes e) w k = rw ((publish_lem e w.hub k).1 c) (unfold offer in ground arith)

pub heard-cons :
    (c : ℕ) (on : Bool) (o : Call) (os : List Call)
    → heard c on (o ∷ os) ≡ heard c on (o ∷ []) ++ heard c (listens c o on) os
unfolding heard
heard-cons c on (subscribes d) os = refl
heard-cons c on (unsubscribes d) os = refl
heard-cons c on (receives d) os = refl
heard-cons c on (publishes e) os = rw append-nil

kept-sublist :
    (on room : Bool) (f : Text)
    → Sublist (if on then (if room then f ∷ [] else []) else []) ((if on then f ∷ [] else []) ++ [])
kept-sublist true true f = Sublist.refl (f ∷ [])
kept-sublist true false f = nil-sublist (f ∷ [])
kept-sublist false room f = nil-sublist []

pub gain-heard :
    (c : ℕ) (o : Call) (w : World) → Sublist (gain c o w) (heard c (is_client c w) (o ∷ []))
unfolding heard
gain-heard c (subscribes d) w = nil-sublist []
gain-heard c (unsubscribes d) w = nil-sublist []
gain-heard c (receives d) w = nil-sublist []
gain-heard c (publishes e) w = kept-sublist (is_client c w) _ (frame e)

-- A call uses at most as many places of the buffer as it adds frames.
pub step-buffer :
    (c : ℕ) (o : Call) (w : World)
    → IsKeySet w.hub.clients
    → length ((step o w).hub.channels c).buffer
      ≤ length (w.hub.channels c).buffer + length (heard c (is_client c w) (o ∷ []))
unfolding step heard
step-buffer c (subscribes d) w k = rw (subscribe-channels d w.hub) (omega arith)
step-buffer c (unsubscribes d) w k = unfold unsubscribe in omega arith
step-buffer c (receives d) w k = omega (arith, (receive-channel c d w.hub).1)
step-buffer c (publishes e) w k =
    rw ((publish_lem e w.hub k).1 c)
      (unfold offer in ground (arith, length-append (w.hub.channels c).buffer (frame e ∷ [])))

-- With room for the frames of one call, all of them arrive.
pub gain-eq-heard :
    (c : ℕ) (o : Call) (w : World)
    → length (w.hub.channels c).buffer + length (heard c (is_client c w) (o ∷ []))
      ≤ (w.hub.channels c).capacity
    → gain c o w ≡ heard c (is_client c w) (o ∷ [])
unfolding heard
gain-eq-heard c (subscribes d) w h = refl
gain-eq-heard c (unsubscribes d) w h = refl
gain-eq-heard c (receives d) w h = refl
gain-eq-heard c (publishes e) w h = ground arith

-- No buffer ever holds more frames than its capacity.
abbrev pub IsBounded : World → Type 0
IsBounded w = (c : ℕ) → length (w.hub.channels c).buffer ≤ (w.hub.channels c).capacity

pub step-IsBounded :
    (o : Call) (w : World) → IsKeySet w.hub.clients → IsBounded w → IsBounded (step o w)
unfolding step
step-IsBounded (subscribes d) w k b c = rw (subscribe-channels d w.hub) (b c)
step-IsBounded (unsubscribes d) w k b c = unfold unsubscribe in b c
step-IsBounded (receives d) w k b c =
    let (e, l) = receive-channel c d w.hub in rw e (omega (arith, b c))
step-IsBounded (publishes e) w k b c =
    rw ((publish_lem e w.hub k).1 c)
      (unfold offer in ground (arith, b c, length-append (w.hub.channels c).buffer (frame e ∷ [])))
