-- ===== src/Handlers/Events/Sessions.antt =====
-- A session as calls of the hub: what it is subscribed to, and what it has received and written.
use pulse_monitor.Handlers.Events.Turns.{
  calls_of, all_calls, run-append, when_live-inv, take_frame-inv, turn-world, run-cons, run-nil,
}
use mathlib.Core.List.{append-nil}
use pulse_monitor.Handlers.Events.{
  Written, heartbeat_sent, frame_sent, Session, Turn, others, hangs_up, beats, takes, leave, wrote,
  turn, run,
}
use pulse_monitor.Prelude.{
  ℕ, ◌≡◌, refl, sym, ap, ◌∙◌, Bool, true, false, List, [], ◌∷◌, ◌++◌, some, arith, some-inj, subst,
  ◌==◌,
}
use pulse_monitor.Sse.Hub.Steps.{step-is_client}
use pulse_monitor.Sse.Hub.World
use pulse_monitor.Sse.Hub.World.{
  Call, subscribes, unsubscribes, receives, publishes, World, step, is_client, heard,
}
use pulse_monitor.Sse.Hub.{take_first}
use pulse_monitor.Text.{Text}

-- The call leaves the channel `c` to its session.
abbrev pub LeavesAlone : ℕ → Call → Type 0
LeavesAlone c (subscribes d) = (d == c) ≡ false
LeavesAlone c (unsubscribes d) = (d == c) ≡ false
LeavesAlone c (receives d) = (d == c) ≡ false
LeavesAlone c (publishes e) = Unit {0}

-- The others do.
abbrev pub IsPrivate : ℕ → List Turn → Type 0
IsPrivate c [] = Unit {0}
IsPrivate c (others call ∷ ts) = LeavesAlone c call × IsPrivate c ts
IsPrivate c (_ ∷ ts) = IsPrivate c ts

-- The frames of the completed writes.
abbrev pub frames_sent : List Written → List Text
frames_sent [] = []
frames_sent (heartbeat_sent ∷ ws) = frames_sent ws
frames_sent (frame_sent f ∷ ws) = f ∷ frames_sent ws

pub frames_sent-append :
    (vs ws : List Written) → frames_sent (vs ++ ws) ≡ frames_sent vs ++ frames_sent ws
frames_sent-append [] ws = refl
frames_sent-append (heartbeat_sent ∷ vs) ws = frames_sent-append vs ws
frames_sent-append (frame_sent f ∷ vs) ws = ap (◌∷◌ f) (frames_sent-append vs ws)

-- What the client got is the first part of what the session received, and all of it while the
-- session lives, which is as long as its channel is a client.
pub record Keeps (c : ℕ) (s : Session) : Type 0 where
  pub lost : List Text
  pub delivered : s.world.received c ≡ frames_sent s.writes ++ lost
  pub nothing_lost : s.live ≡ true → lost ≡ []
  pub subscribed : is_client c s.world ≡ s.live

-- What a call of someone else leaves alone.
step-received :
    (c : ℕ) (call : Call) (w : World)
    → LeavesAlone c call
    → ((step call w).received c ≡ w.received c) × (is_client c (step call w) ≡ is_client c w)
unfolding step
step-received c (subscribes d) w p = (refl, step-is_client c (subscribes d) w ∙ ground arith)
step-received c (unsubscribes d) w p = (refl, step-is_client c (unsubscribes d) w ∙ ground arith)
step-received c (receives d) w p = (ground arith, step-is_client c (receives d) w ∙ ground arith)
step-received c (publishes e) w p = (refl, step-is_client c (publishes e) w ∙ ground arith)

leave-Keeps : (c : ℕ) (s : Session) → Keeps c s → Keeps c (leave c s)
unfolding step
leave-Keeps c s k = record {
  lost = k.lost;
  delivered = k.delivered;
  nothing_lost = λ e. cc;
  subscribed = step-is_client c (unsubscribes c) s.world ∙ ground arith;
}

-- A frame that was taken from the channel and then written, or not.
wrote-Keeps :
    (c : ℕ) (f : Text) (ok : Bool) (s : Session)
    → (s.world.received c ≡ frames_sent s.writes ++ f ∷ [])
    → s.live ≡ true
    → is_client c s.world ≡ true
    → Keeps c (wrote c (frame_sent f) ok s)
unfolding step
wrote-Keeps c f true s d l i = record {
  lost = [];
  delivered = d ∙ sym (append-nil _ ∙ frames_sent-append s.writes (frame_sent f ∷ []));
  nothing_lost = λ e. refl;
  subscribed = i ∙ sym l;
}
wrote-Keeps c f false s d l i = record {
  lost = f ∷ [];
  delivered = d;
  nothing_lost = λ e. cc;
  subscribed = step-is_client c (unsubscribes c) s.world ∙ ground arith;
}

receives-received :
    (c : ℕ) (w : World) (f : Text) (rest : List Text)
    → (w.hub.channels c).buffer ≡ f ∷ rest
    → (step (receives c) w).received c ≡ w.received c ++ f ∷ []
unfolding step
receives-received c w f rest e =
    let t : (take_first (w.hub.channels c) (w.hub.channels c).buffer).1 ≡ some f =
      ap (λ b. (take_first (w.hub.channels c) b).1) e in
    rw t (ground arith)

turn-Keeps :
    (c : ℕ) (t : Turn) (s : Session) {s' : Session}
    → IsPrivate c (t ∷ [])
    → Keeps c s
    → turn c t s ≡ some s'
    → Keeps c s'
unfolding turn
turn-Keeps c (others call) s p k h =
    let (r, i) = step-received c call s.world p.0 in
    subst (Keeps c) (some-inj h) (record {
      lost = k.lost;
      delivered = r ∙ k.delivered;
      nothing_lost = k.nothing_lost;
      subscribed = i ∙ k.subscribed;
    })
turn-Keeps c hangs_up s p k h =
    subst (Keeps c) (some-inj (when_live-inv s.live _ h).1) (leave-Keeps c s k)
turn-Keeps c (beats ok) s p k h =
    subst (Keeps c) (some-inj (when_live-inv s.live _ h).1) (beat-Keeps ok)
  where
    beat-Keeps : (ok : Bool) → Keeps c (wrote c heartbeat_sent ok s)
    beat-Keeps true = record {
      lost = k.lost;
      delivered =
          k.delivered
          ∙ ap (λ x. x ++ k.lost)
              (sym (frames_sent-append s.writes (heartbeat_sent ∷ []) ∙ append-nil _));
      nothing_lost = k.nothing_lost;
      subscribed = k.subscribed;
    }
    beat-Keeps false = leave-Keeps c s k
turn-Keeps c (takes ok) s p k h =
    let (l, g) = when_live-inv s.live _ h in
    let (f, rest, e, g') = take_frame-inv c ok s (s.world.hub.channels c).buffer g in
    subst (Keeps c) g' (
      wrote-Keeps c f ok (record s { world = step (receives c) s.world })
        (receives-received c s.world f rest e
          ∙ ap (λ x. x ++ f ∷ [])
              (k.delivered ∙ ap (λ x. frames_sent s.writes ++ x) (k.nothing_lost l) ∙ append-nil _))
        l (step-is_client c (receives c) s.world ∙ (k.subscribed ∙ l)))

IsPrivate-cons :
    (c : ℕ) (t : Turn) (ts : List Turn)
    → IsPrivate c (t ∷ ts)
    → IsPrivate c (t ∷ []) × IsPrivate c ts
IsPrivate-cons c (others call) ts p = ((p.0, tt), p.1)
IsPrivate-cons c hangs_up ts p = (tt, p)
IsPrivate-cons c (beats ok) ts p = (tt, p)
IsPrivate-cons c (takes ok) ts p = (tt, p)

-- A history of the session, in the world and in what the client got.
pub run-Keeps :
    (c : ℕ) (ts : List Turn) (s : Session) {s' : Session}
    → IsPrivate c ts
    → Keeps c s
    → run c ts s ≡ some s'
    → Keeps c s' × (s'.world ≡ World.run (all_calls c ts) s.world)
run-Keeps c [] s p k h = (
  subst (Keeps c) (run-nil c s h) k,
  unfold World.run in ap (λ (x : Session). x.world) (sym (run-nil c s h)),
)
run-Keeps c (t ∷ ts) s p k h =
    let (p0, p1) = IsPrivate-cons c t ts p in
    let (m, e, g) = run-cons c t ts s h in
    let (k', w) = run-Keeps c ts m p1 (turn-Keeps c t s p0 k e) g in
    (
      k',
      w
          ∙ ap (World.run (all_calls c ts)) (turn-world c t s e)
          ∙ sym (run-append (calls_of c t) (all_calls c ts) s.world),
    )
