-- ===== src/Monitor/Pool/Progress.antt =====
-- Which step a run of Check can take next.
use pulse_monitor.Monitor.Check.{Outside}
use pulse_monitor.Monitor.Pool.Bounds.{AllLeft}
use pulse_monitor.Monitor.Pool.Counting.{holds, total}
use pulse_monitor.Monitor.Pool.Invariant.{Inv, run-Lasting, start-Inv}
use pulse_monitor.Monitor.Pool.{
  Phase, queued, acquired, counted, running, checked, finished, stored, left, Worker, Pool, Event,
  acquires, counts, calls, reports, stores, leaves, cancels, checks, Change, advance, advance_at,
  install, step, run, start,
}
use pulse_monitor.Metrics.{Add}
use pulse_monitor.Monitor.Types.{Target}
use pulse_monitor.Prelude.Int.{ℤ}
use pulse_monitor.Prelude.{
  ℕ, zero, suc, ◌+◌, ◌<◌, ◌≡◌, refl, Bool, true, List, [], ◌∷◌, Option, none, some, arith, ltb,
  lt→ltb, subst, sym,
}

-- A step that needs no cancelled context.
abbrev pub IsOwn : Event → Type 0
IsOwn (cancels e now) = ⊥
IsOwn _ = Unit

-- The goroutine `i` can take the step `e` while a place is free, or whether or not.
abbrev Takes : (List Worker) → ℕ → Event → ℕ → Bool → Type 0
Takes gs i e used free = (r : List Worker × ℕ × List Add) × (advance_at i e used free gs ≡ some r)

data Next (gs : List Worker) : Type 0 where
  goes :
      (i : ℕ) (e : Event) → IsOwn e → ((used : ℕ) (free : Bool) → Takes gs i e used free) → Next gs
  enters : (i : ℕ) → ((used : ℕ) → Takes gs i acquires used true) → total holds gs ≡ 0 → Next gs
  all_left : AllLeft gs → total holds gs ≡ 0 → Next gs

behind-Takes :
    (g : Worker) (gs : List Worker) (i : ℕ) (e : Event) (used : ℕ) (free : Bool)
    → Takes gs i e used free
    → Takes (g ∷ gs) (suc i) e used free
unfolding advance_at
behind-Takes g gs i e used free ((gs', used', adds), h) = ((g ∷ gs', used', adds), rw h)

goes_first :
    (g : Worker) (gs : List Worker) (e : Event) (ph : Phase)
    → g.phase ≡ ph
    → IsOwn e
    → ((used : ℕ) (free : Bool) → (c : Change) × (advance ph e used free g ≡ some c))
    → Next (g ∷ gs)
unfolding advance_at
goes_first g gs e ph p own f = goes zero e own (λ used free.
    let (c, h) = f used free in
    let h' : advance g.phase e used free g ≡ some c =
      subst (λ x. advance x e used free g ≡ some c) (sym p) h in
    ((c.worker ∷ gs, c.used, c.adds), rw h'))

enters_first :
    (g : Worker) (gs : List Worker)
    → g.phase ≡ queued
    → (used : ℕ) → Takes (g ∷ gs) zero acquires used true
unfolding advance_at
enters_first g gs p used =
    let c : Change = record {
      worker = record g { phase = acquired };
      used = used + 1;
      adds = [];
    } in
    let h : advance g.phase acquires used true g ≡ some c =
      subst (λ x. advance x acquires used true g ≡ some c) (sym p) refl in
    ((c.worker ∷ gs, c.used, c.adds), rw h)

Next-cons :
    (w : Outside) (g : Worker) (gs : List Worker) (ph : Phase)
    → g.phase ≡ ph
    → Next gs
    → Next (g ∷ gs)
unfolding advance
Next-cons w g gs acquired p n = goes_first g gs counts acquired p tt (λ used free. (_, refl))
Next-cons w g gs counted p n = goes_first g gs calls counted p tt (λ used free. (_, refl))
Next-cons w g gs running p n = goes_first g gs (checks w) running p tt (λ used free. (_, refl))
Next-cons w g gs (checked r) p n = goes_first g gs reports (checked r) p tt (λ used free. (_, refl))
Next-cons w g gs (finished r) p n =
    goes_first g gs stores (finished r) p tt (λ used free. (_, refl))
Next-cons w g gs stored p n = goes_first g gs leaves stored p tt (λ used free. (_, refl))
Next-cons w g gs ph p (goes i e own f) =
    goes (suc i) e own (λ used free. behind-Takes g gs i e used free (f used free))
Next-cons w g gs queued p (enters i f z) = enters zero (enters_first g gs p) (rw p (omega arith))
Next-cons w g gs queued p (all_left a z) = enters zero (enters_first g gs p) (rw p (omega arith))
Next-cons w g gs left p (enters i f z) =
    enters (suc i) (λ used. behind-Takes g gs i acquires used true (f used)) (rw p (omega arith))
Next-cons w g gs left p (all_left a z) = all_left (p, a) (rw p (omega arith))

next : (w : Outside) (gs : List Worker) → Next gs
next w [] = all_left tt refl
next w (g ∷ gs) = Next-cons w g gs g.phase refl (next w gs)

install-some :
    (p : Pool) (o : Option (List Worker × ℕ × List Add)) {r : List Worker × ℕ × List Add}
    → o ≡ some r
    → (q : Pool) × (install p o ≡ some q)
install-some p none h = cc
install-some p (some r) h = (_, refl)

start-capacity : (n : ℤ) (b : Bool) (ts : List Target) → 0 < (start n b ts).capacity
unfolding start
start-capacity n b ts = ground arith

step-Next :
    (p : Pool)
    → Inv p
    → 0 < p.capacity
    → Next p.workers
    → ¬ AllLeft p.workers
    → (i : ℕ) × (e : Event) × IsOwn e × (q : Pool) × (step (i, e) p ≡ some q)
unfolding step
step-Next p v c (goes i e own f) n =
    let (r, h) = f p.in_use (ltb p.in_use p.capacity) in
    let (q, k) = install-some p _ h in (i, e, own, q, k)
step-Next p v c (enters i f z) n =
    let (r, h) = f p.in_use in
    let free : ltb p.in_use p.capacity ≡ true =
      lt→ltb p.in_use p.capacity (omega (arith, v.places)) in
    let (q, k) = install-some p _ h in (i, acquires, tt, q, rw free k)
step-Next p v c (all_left a z) n = absurd (n a)

-- While a goroutine of Check has not returned, one of them can take its next step, and it need not
-- be the cancelled case: the semaphore never deadlocks.
pub check_progress :
    (w : Outside) (n : ℤ) (b : Bool) (ts : List Target) (es : List (ℕ × Event)) {p : Pool}
    → run es (start n b ts) ≡ some p
    → ¬ AllLeft p.workers
    → (i : ℕ) × (e : Event) × IsOwn e × (q : Pool) × (step (i, e) p ≡ some q)
check_progress w n b ts es {p} h more =
    let l = run-Lasting es (start n b ts) (start-Inv n b ts) h in
    step-Next p l.inv (rw l.same_capacity (start-capacity n b ts)) (next w p.workers) more
