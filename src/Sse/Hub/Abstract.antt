-- ===== src/Sse/Hub/Abstract.antt =====
-- The hub as a set of channels: what a client of the package can rely on, with no order in which the
-- clients stand or are served.
use mathlib.Core.Path.{fun_ext}
use pulse_monitor.Prelude.{
  ℕ, ◌≡◌, refl, ap, ◌∙◌, Bool, true, false, List, [], ◌∷◌, ◌==◌, if◌then◌else◌,
}
use pulse_monitor.Sse.Frame.{frame}
use pulse_monitor.Sse.Hub.Publish.{IsKeySet, publish_lem}
use pulse_monitor.Sse.Hub.Steps.{step-IsKeySet, step-is_client, subscribe-channels}
use pulse_monitor.Sse.Hub.World
use pulse_monitor.Sse.Hub.World.{
  Call, subscribes, unsubscribes, receives, publishes, World, append_some, step, is_client,
}
use pulse_monitor.Sse.Hub.{Channel, contains, update, offer, take_first, unsubscribe, receive}
use pulse_monitor.Text.{Text}

-- A set of channels, what each channel holds, and what its owner has received.
pub record Broadcast : Type 0 where
  pub member : ℕ → Bool
  pub channel : ℕ → Channel
  pub received : ℕ → List Text

-- Each call, for every channel at once.
abbrev pub perform : Call → Broadcast → Broadcast
perform (subscribes c) b = record b { member = λ d. if c == d then true else b.member d }
perform (unsubscribes c) b = record b { member = λ d. if c == d then false else b.member d }
perform (publishes e) b = record b {
  channel = λ d. if b.member d then offer (frame e) (b.channel d) else b.channel d;
}
perform (receives c) b =
    let (ch, f) = take_first (b.channel c) (b.channel c).buffer in
    record b {
      channel = update b.channel c ch;
      received = λ d. if d == c then append_some (b.received d) f else b.received d;
    }

abbrev pub perform_all : List Call → Broadcast → Broadcast
perform_all [] b = b
perform_all (o ∷ os) b = perform_all os (perform o b)

-- The view that forgets the order of the clients.
abbrev pub view : World → Broadcast
view w = record {
  member = λ c. contains c w.hub.clients;
  channel = w.hub.channels;
  received = w.received;
}

broadcast_ext :
    (a b : Broadcast)
    → a.member ≡ b.member
    → a.channel ≡ b.channel
    → a.received ≡ b.received
    → a ≡ b
broadcast_ext a b m c r = λ i. record { member = m i; channel = c i; received = r i }

step-channels :
    (o : Call) (w : World)
    → IsKeySet w.hub.clients
    → (step o w).hub.channels ≡ (perform o (view w)).channel
unfolding step unsubscribe receive
step-channels (subscribes c) w k = subscribe-channels c w.hub
step-channels (unsubscribes c) w k = refl
step-channels (publishes e) w k = fun_ext (publish_lem e w.hub k).1
step-channels (receives c) w k = refl

step-received : (o : Call) (w : World) → (step o w).received ≡ (perform o (view w)).received
unfolding step receive
step-received (subscribes c) w = refl
step-received (unsubscribes c) w = refl
step-received (publishes e) w = refl
step-received (receives c) w = refl

step-member : (o : Call) (w : World) → (view (step o w)).member ≡ (perform o (view w)).member
step-member (subscribes c) w = fun_ext (λ d. step-is_client d (subscribes c) w)
step-member (unsubscribes c) w = fun_ext (λ d. step-is_client d (unsubscribes c) w)
step-member (publishes e) w = fun_ext (λ d. step-is_client d (publishes e) w)
step-member (receives c) w = fun_ext (λ d. step-is_client d (receives c) w)

step-view : (o : Call) (w : World) → IsKeySet w.hub.clients → view (step o w) ≡ perform o (view w)
step-view o w k = broadcast_ext _ _ (step-member o w) (step-channels o w k) (step-received o w)

-- Every history of a hub whose list of clients names none twice, seen without the order of the
-- clients, is the same history of the set of channels: which channels are clients, what each holds and
-- what each owner has received depend on the calls alone.
pub run-view :
    (os : List Call) (w : World)
    → IsKeySet w.hub.clients
    → view (World.run os w) ≡ perform_all os (view w)
unfolding World.run
run-view [] w k = refl
run-view (o ∷ os) w k =
    run-view os (step o w) (step-IsKeySet o w k) ∙ ap (perform_all os) (step-view o w k)
