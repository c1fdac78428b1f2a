-- ===== src/Sse/Hub/World.antt =====
-- The hub and the owners of its channels: the calls in the order in which the mutex admits them.

use pulse_monitor.Prelude.{
  ℕ, Bool, true, false, List, [], ◌∷◌, ◌++◌, Option, none, some, ◌==◌, if◌then◌else◌,
}
use pulse_monitor.Sse.Frame.{Event, frame}
use pulse_monitor.Sse.Hub.{Hub, contains, subscribe, unsubscribe, publish, receive}
use pulse_monitor.Text.{Text}

-- The calls that the mutex puts in order, and the receives.
pub data Call : Type 0 where
  subscribes unsubscribes receives : ℕ → Call
  publishes : Event → Call

-- The hub with what each channel's owner has received so far.
pub record World : Type 0 where
  pub hub : Hub
  pub received : ℕ → List Text

abbrev pub append_some : List Text → Option Text → List Text
append_some fs none = fs
append_some fs (some f) = fs ++ f ∷ []

unfoldable pub step : Call → World → World
unfolding subscribe unsubscribe publish receive
step (subscribes c) w = record w { hub = subscribe c w.hub }
step (unsubscribes c) w = record w { hub = unsubscribe c w.hub }
step (publishes e) w = record w { hub = publish e w.hub }
step (receives c) w =
    let (h, f) = receive c w.hub in
    record {
      hub = h;
      received = λ d. if d == c then append_some (w.received d) f else w.received d;
    }

unfoldable pub run : List Call → World → World
unfolding step
run [] w = w
run (o ∷ os) w = run os (step o w)

-- Received and still in the buffer, oldest first.
abbrev pub stream : ℕ → World → List Text
stream c w = w.received c ++ (w.hub.channels c).buffer

-- The frames that are published while `c` is subscribed, by the calls alone.
unfoldable pub heard : ℕ → Bool → List Call → List Text
heard c on [] = []
heard c on (subscribes d ∷ os) = heard c (if d == c then true else on) os
heard c on (unsubscribes d ∷ os) = heard c (if d == c then false else on) os
heard c on (receives d ∷ os) = heard c on os
heard c on (publishes e ∷ os) = (if on then frame e ∷ [] else []) ++ heard c on os

abbrev pub is_client : ℕ → World → Bool
is_client c w = contains c w.hub.clients
