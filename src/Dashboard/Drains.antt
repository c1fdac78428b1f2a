-- ===== src/Dashboard/Drains.antt =====
-- The turns in which events are published and their frames are written.
use pulse_monitor.Dashboard.Broadcasts.{publish_all}
use pulse_monitor.Handlers.Events.Sessions.{IsPrivate}
use pulse_monitor.Handlers.Events.Published.{published}
use pulse_monitor.Handlers.Events.{
  frame_sent, Session, Turn, others, takes, turn, run, take_frame, wrote, when_live, and_then,
}
use pulse_monitor.Prelude.{ℕ, ◌≡◌, refl, ap, ◌∙◌, true, List, [], ◌∷◌, ◌++◌, map, some, ==_iff}
use pulse_monitor.Sse.Frame.{Event, frame}
use pulse_monitor.Sse.Hub.World.{World, receives, publishes, step}
use pulse_monitor.Sse.Hub.{Hub, publish, receive, take_first}
use pulse_monitor.Text.{Text}

abbrev pub announcements : List Event → List Turn
announcements = map λ e. others (publishes e)

-- The handler writes a frame for each of them.
abbrev pub drains : List Event → List Turn
drains = map λ e. takes true

abbrev pub at_hub : Hub → Session → Session
at_hub h s = record s { world = record s.world { hub = h } }

pub run-announcements :
    (c : ℕ) (es : List Event) (ts : List Turn) (s : Session)
    → run c (announcements es ++ ts) s ≡ run c ts (at_hub (publish_all es s.world.hub) s)
unfolding run turn step
run-announcements c [] ts s = refl
run-announcements c (e ∷ es) ts s = run-announcements c es ts (at_hub (publish e s.world.hub) s)

receives-buffer :
    (c : ℕ) (w : World) (f : Text) (fs : List Text)
    → (w.hub.channels c).buffer ≡ f ∷ fs
    → ((step (receives c) w).hub.channels c).buffer ≡ fs
unfolding step receive
receives-buffer c w f fs e =
    rw ((==_iff c c).1 refl) (ap (λ b. (take_first (w.hub.channels c) b).0.buffer) e)

-- The session with the next frame written.
abbrev wrote_next : ℕ → Text → Session → Session
wrote_next c f s = wrote c (frame_sent f) true (record s { world = step (receives c) s.world })

turn-takes :
    (c : ℕ) (f : Text) (fs : List Text) (s : Session)
    → s.live ≡ true
    → (s.world.hub.channels c).buffer ≡ f ∷ fs
    → turn c (takes true) s ≡ some (wrote_next c f s)
unfolding turn
turn-takes c f fs s l b =
    ap (λ x. when_live x (take_frame c true s (s.world.hub.channels c).buffer)) l
    ∙ ap (take_frame c true s) b

-- While the channel holds the frames of `es`, the handler can write them all.
pub run-drains :
    (c : ℕ) (es : List Event) (s : Session)
    → s.live ≡ true
    → (s.world.hub.channels c).buffer ≡ map frame es
    → (s' : Session) × (run c (drains es) s ≡ some s')
      × (s'.live ≡ true)
      × ((s'.world.hub.channels c).buffer ≡ [])
unfolding run
run-drains c [] s l b = (s, refl, l, b)
run-drains c (e ∷ es) s l b =
    let (s', r, l', b') =
      run-drains c es (wrote_next c (frame e) s) l
        (receives-buffer c s.world (frame e) (map frame es) b) in
    (
      s',
      ap (λ o. and_then o (run c (drains es))) (turn-takes c (frame e) (map frame es) s l b) ∙ r,
      l',
      b',
    )

pub published-turns : (es ds : List Event) → published (announcements es ++ drains ds) ≡ es
published-turns [] [] = refl
published-turns [] (d ∷ ds) = published-turns [] ds
published-turns (e ∷ es) ds = ap (◌∷◌ e) (published-turns es ds)

pub turns-IsPrivate : (c : ℕ) (es ds : List Event) → IsPrivate c (announcements es ++ drains ds)
turns-IsPrivate c [] [] = tt
turns-IsPrivate c [] (d ∷ ds) = turns-IsPrivate c [] ds
turns-IsPrivate c (e ∷ es) ds = (tt, turns-IsPrivate c es ds)
