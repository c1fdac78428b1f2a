-- ===== src/Dashboard/LimitedChecks/Waits.antt =====
-- The checks that are blocked in Wait, and how they go on.
use pulse_monitor.Dashboard.LimitedChecks.Accounts.{opened-IsAccounted, HasHost, after}
use pulse_monitor.Dashboard.LimitedChecks.Pace.{run-IsAccounted}
use pulse_monitor.Dashboard.LimitedChecks.{
  Waiting, Limited, opened, Event, wakes, others, wait_error, with_limiter, checked, step, run,
}
use pulse_monitor.Monitor.Check.{Outside}
use pulse_monitor.Monitor.Types.{Target}
use pulse_monitor.Prelude.Int.{ℤ}
use pulse_monitor.Prelude.{
  ℕ, ◌-◌, ◌≡◌, ◌⊎◌, refl, ◌∙◌, inl, inr, true, false, List, [], ◌∷◌, take_out, All-take_out, some,
  arith, Bool-cases,
}
use pulse_monitor.RateLimit.Bucket.Bounds.{IsSound}
use pulse_monitor.RateLimit.Bucket.{
  Bucket, Outcome, granted, cancelled, bucket_closed, Move, ticks, refills, waits, move, add_token,
}
use pulse_monitor.RateLimit.Manager.Buckets.{new_manager-IsOf}
use pulse_monitor.RateLimit.Manager.Pace.{acts_of}
use pulse_monitor.RateLimit.Manager.Steps.{find-put}
use pulse_monitor.RateLimit.Manager.{
  Manager, Act, returns, fires, refills_at, find, put, move_at, act,
}
use pulse_monitor.Text.Split.{text_eq_refl}
use pulse_monitor.Text.{Text}

-- A bucket that runs grants a token after its next tick.
grants_next :
    (b : Bucket)
    → IsSound b
    → b.refilling ≡ true
    → (c d e : Bucket) × (move ticks b ≡ some c)
      × (move refills c ≡ some d)
      × (move (waits granted) d ≡ some e)
unfolding move add_token
grants_next b s r =
    let c : Bucket = record b { tick_pending = true } in
    let d : Bucket = record (add_token c) { tick_pending = false } in
    (
      c,
      d,
      record d { tokens = d.tokens - 1 },
      ground arith,
      ground arith,
      ground (arith, s.capacity_pos),
    )

-- One that has stopped is closed.
closed_next : (b : Bucket) → IsSound b → b.refilling ≡ false → move (waits bucket_closed) b ≡ some b
unfolding move
closed_next b s r = ground (arith, s.stopped_closed)

moved :
    (host : Text) (mv : Move) (m : Manager) (b c : Bucket)
    → find host m.buckets ≡ some b
    → move mv b ≡ some c
    → (n : Manager) × (move_at host mv m (find host m.buckets) ≡ some n)
      × (find host n.buckets ≡ some c)
moved host mv m b c f e = (
  record m { buckets = put host c m.buckets },
  rw (f, e) refl,
  find-put host host c m.buckets f ∙ rw (text_eq_refl host) refl,
)

-- The call number `i` is in Wait for a host.
module _ (x : Limited) (i : ℕ) (w : Outside) (t : Target) (host : Text) (rest : List Waiting)
    (e : Text) where
  step-wakes :
      (time : ℕ) (o : Outcome) {m : Manager}
      → take_out i x.waiting ≡ some ((w, t, host), rest)
      → act (returns host o) x.manager ≡ some m
      → (y : Limited) × (step (time, wakes i o e) x ≡ some y) × (y.waiting ≡ rest)
  unfolding step
  step-wakes time o {m = m} p f = (
    checked (with_limiter w (wait_error o e)) t
        (record (after time (returns host o) x m) { waiting = rest }),
    rw (p, f) refl,
    refl,
  )

step-others :
    (time : ℕ) (a : Act) (x : Limited) {m : Manager}
    → act a x.manager ≡ some m
    → step (time, others a) x ≡ some (after time a x m)
unfolding step
step-others time a x f = rw f refl

run_then :
    (e : ℕ × Event) (es : List (ℕ × Event)) (x y : Limited) {z : Limited}
    → step e x ≡ some y
    → run es y ≡ some z
    → run (e ∷ es) x ≡ some z
unfolding run
run_then e es x y f g = rw f g

run-nil : (x : Limited) → run [] x ≡ some x
unfolding run
run-nil x = refl

-- The bucket of the host ticks, its goroutine takes the tick, and the call returns nil.
abbrev pub let_through : ℕ → ℕ → Text → Text → List (ℕ × Event)
let_through time i host e =
    (time, others (fires host)) ∷ (time, others (refills_at host)) ∷ (time, wakes i granted e) ∷ []

let_through-run :
    (x : Limited) (i time : ℕ) (w : Outside) (t : Target) (host : Text) (rest : List Waiting)
    (e : Text) (b : Bucket)
    → take_out i x.waiting ≡ some ((w, t, host), rest)
    → find host x.manager.buckets ≡ some b
    → IsSound b
    → b.refilling ≡ true
    → (y : Limited) × (run (let_through time i host e) x ≡ some y) × (y.waiting ≡ rest)
unfolding act
let_through-run x i time w t host rest e b p f s r =
    let (c, d, g, tick, refill, grant) = grants_next b s r in
    let (l, fired, fl) = moved host ticks x.manager b c f tick in
    let (m, refilled, fm) = moved host refills l c d fl refill in
    let (n, returned, fn) = moved host (waits granted) m d g fm grant in
    let x1 = after time (fires host) x l in
    let x2 = after time (refills_at host) x1 m in
    let (y, woken, left) = step-wakes x2 i w t host rest e time granted p returned in
    (
      y,
      run_then (time, others (fires host)) _ x x1 (step-others time (fires host) x fired)
          (run_then (time, others (refills_at host)) _ x1 x2
            (step-others time (refills_at host) x1 refilled)
            (run_then (time, wakes i granted e) [] x2 y woken (run-nil y))),
      left,
    )

move-cancelled : (b : Bucket) → move (waits cancelled) b ≡ some b
unfolding move
move-cancelled b = refl

-- A call of Wait that the bucket lets return so.
returns-step :
    (x : Limited) (i time : ℕ) (w : Outside) (t : Target) (host : Text) (rest : List Waiting)
    (e : Text) (o : Outcome) (b : Bucket)
    → take_out i x.waiting ≡ some ((w, t, host), rest)
    → find host x.manager.buckets ≡ some b
    → move (waits o) b ≡ some b
    → (y : Limited) × (step (time, wakes i o e) x ≡ some y) × (y.waiting ≡ rest)
unfolding act
returns-step x i time w t host rest e o b p f m =
    let (n, returned, fn) = moved host (waits o) x.manager b b f m in
    step-wakes x i w t host rest e time o p returned

-- Whatever the checks of a pool and the buckets of its limiter have done so far, a call of Wait never
-- blocks for ever. Once its context is done it can return. And before that, either the next tick of its
-- host's bucket, when the goroutine of the bucket has taken it, can let it return nil, or the bucket is
-- closed and it can return ErrClosed at once. Then the other calls wait as before.
pub wait_returns :
    (rate : ℤ) (es : List (ℕ × Event)) {x : Limited} (i time : ℕ) (w : Outside) (t : Target)
    (host : Text) (rest : List Waiting) (e : Text)
    → run es (opened rate) ≡ some x
    → take_out i x.waiting ≡ some ((w, t, host), rest)
    → ((y : Limited) × (step (time, wakes i cancelled e) x ≡ some y) × (y.waiting ≡ rest))
      × (((y : Limited) × (run (let_through time i host e) x ≡ some y) × (y.waiting ≡ rest))
          ⊎ ((y : Limited) × (step (time, wakes i bucket_closed e) x ≡ some y)
              × (y.waiting ≡ rest)))
wait_returns rate es {x} i time w t host rest e h p =
    let a = run-IsAccounted es (opened rate) h (opened-IsAccounted rate) in
    let ((d, b, f), others_wait) = All-take_out (HasHost x.manager) i x.waiting p a.waited in
    let sound = (new_manager-IsOf rate (acts_of x.history) host a.managed f).sound in
    (
      returns-step x i time w t host rest e cancelled b p f (move-cancelled b),
      elim (Bool-cases b.refilling) [
        | inl r ↦ inl (let_through-run x i time w t host rest e b p f sound r)
        | inr r ↦
            inr (returns-step x i time w t host rest e bucket_closed b p f (closed_next b sound r))
      ],
    )
