-- ===== src/Handlers/Events/Turns.antt =====
-- A turn as calls of the hub, and what a turn that is ready has done.
use pulse_monitor.Handlers.Events.{
  Written, heartbeat_sent, frame_sent, Session, Turn, others, hangs_up, beats, takes, wrote,
  take_frame, when_live, turn, run,
}
use pulse_monitor.Prelude.{
  ℕ, ◌≡◌, refl, sym, ap, ◌∙◌, Bool, true, false, List, [], ◌∷◌, ◌++◌, Option, some, some-inj, inl,
  inr, Option-cases,
}
use pulse_monitor.Sse.Hub.World
use pulse_monitor.Sse.Hub.World.{
  Call, subscribes, unsubscribes, receives, publishes, World, step, is_client, heard,
}
use pulse_monitor.Text.{Text}

-- The calls of the hub that a turn makes.
abbrev pub calls_of_write : ℕ → Bool → List Call
calls_of_write c true = []
calls_of_write c false = unsubscribes c ∷ []

abbrev pub calls_of : ℕ → Turn → List Call
calls_of c (others call) = call ∷ []
calls_of c hangs_up = unsubscribes c ∷ []
calls_of c (beats ok) = calls_of_write c ok
calls_of c (takes ok) = receives c ∷ calls_of_write c ok

abbrev pub all_calls : ℕ → List Turn → List Call
all_calls c [] = []
all_calls c (t ∷ ts) = calls_of c t ++ all_calls c ts

pub run-append :
    (os os' : List Call) (w : World) → World.run (os ++ os') w ≡ World.run os' (World.run os w)
unfolding World.run
run-append [] os' w = refl
run-append (o ∷ os) os' w = run-append os os' (step o w)

pub when_live-inv :
    (b : Bool) (o : Option Session) {s' : Session}
    → when_live b o ≡ some s'
    → (b ≡ true) × (o ≡ some s')
when_live-inv true o h = (refl, h)
when_live-inv false o h = cc

pub take_frame-inv :
    (c : ℕ) (ok : Bool) (s : Session) (fs : List Text) {s' : Session}
    → take_frame c ok s fs ≡ some s'
    → (f : Text) × (rest : List Text) × (fs ≡ f ∷ rest)
      × (wrote c (frame_sent f) ok (record s { world = step (receives c) s.world }) ≡ s')
take_frame-inv c ok s [] h = cc
take_frame-inv c ok s (f ∷ fs) h = (f, fs, refl, some-inj h)

wrote-world :
    (c : ℕ) (o : Written) (ok : Bool) (s : Session)
    → (wrote c o ok s).world ≡ World.run (calls_of_write c ok) s.world
unfolding World.run
wrote-world c o true s = refl
wrote-world c o false s = refl

pub turn-world :
    (c : ℕ) (t : Turn) (s : Session) {s' : Session}
    → turn c t s ≡ some s'
    → s'.world ≡ World.run (calls_of c t) s.world
unfolding turn World.run
turn-world c (others call) s h = sym (ap (λ (x : Session). x.world) (some-inj h))
turn-world c hangs_up s h =
    sym (ap (λ (x : Session). x.world) (some-inj (when_live-inv s.live _ h).1))
turn-world c (beats ok) s h =
    sym (ap (λ (x : Session). x.world) (some-inj (when_live-inv s.live _ h).1))
    ∙ wrote-world c heartbeat_sent ok s
turn-world c (takes ok) s h =
    let (f, rest, e, g) =
      take_frame-inv c ok s (s.world.hub.channels c).buffer (when_live-inv s.live _ h).1 in
    sym (ap (λ (x : Session). x.world) g)
    ∙ wrote-world c (frame_sent f) ok (record s { world = step (receives c) s.world })

-- To take apart a history that runs.
pub run-cons :
    (c : ℕ) (t : Turn) (ts : List Turn) (s : Session) {s' : Session}
    → run c (t ∷ ts) s ≡ some s'
    → (m : Session) × (turn c t s ≡ some m) × (run c ts m ≡ some s')
unfolding run
run-cons c t ts s h = elim (Option-cases (turn c t s)) [
  | inl e ↦ cc (rw e at h)
  | inr (m, e) ↦ (m, e, rw e at h)
]

pub run-nil : (c : ℕ) (s : Session) {s' : Session} → run c [] s ≡ some s' → s ≡ s'
unfolding run
run-nil c s h = some-inj h
