-- ===== src/Monitor/Pool/Bounds.antt =====
-- What the invariant says of every run of Check.
use pulse_monitor.Metrics.{in_flight_up, in_flight_down}
use pulse_monitor.Metrics.Counting.{times}
use pulse_monitor.Monitor.Pool.Counting.{holds, in_flight, total, IsFilled, IsOk}
use pulse_monitor.Monitor.Pool.Invariant.{run-Lasting, start-Inv, spawned, start-targets}
use pulse_monitor.Monitor.Pool.Shift.{AllOk, targets_of}
use pulse_monitor.Monitor.Pool.{
  Phase, counted, running, checked, left, Worker, Pool, Event, run, start, clamp_workers,
}
use pulse_monitor.Monitor.Types.{Target, CheckResult}
use pulse_monitor.Prelude.Int.{ℤ}
use pulse_monitor.Prelude.{
  ℕ, ◌+◌, ◌*◌, ◌≤◌, ◌≡◌, refl, ap, ◌∙◌, Bool, true, List, [], ◌∷◌, map, some, arith, subst, length,
}

in_flight-le-holds : (gs : List Worker) → total in_flight gs ≤ total holds gs
in_flight-le-holds [] = omega arith
in_flight-le-holds (g ∷ gs) = omega (arith, phase-le g.phase, in_flight-le-holds gs)
  where
    phase-le : (ph : Phase) → in_flight ph ≤ holds ph
    phase-le counted = omega arith
    phase-le running = omega arith
    phase-le (checked r) = omega arith
    phase-le _ = omega arith

-- At every moment of every run of Check, however its goroutines are scheduled, at most maxWorkers
-- of them (1 if it is below 1) are in the semaphore, and so at most as many between CheckStarted and
-- CheckFinished, where they are inside checkOne, about to call it, or just back from it.
pub check_bounded :
    (n : ℤ) (b : Bool) (ts : List Target) (es : List (ℕ × Event)) {p : Pool}
    → run es (start n b ts) ≡ some p
    → (total holds p.workers ≤ clamp_workers n) × (total in_flight p.workers ≤ clamp_workers n)
unfolding start
check_bounded n b ts es {p} h =
    let l = run-Lasting es (start n b ts) (start-Inv n b ts) h in
    let held : total holds p.workers ≤ clamp_workers n =
      omega (arith, l.same_capacity, l.inv.places, l.inv.capped) in
    (held, omega (arith, held, in_flight-le-holds p.workers))

-- At every moment of every run of Check of a pool with metrics, the additions made to the in-flight
-- counter come to the number of the goroutines that are between CheckStarted and CheckFinished.
pub check_in_flight :
    (n : ℤ) (ts : List Target) (es : List (ℕ × Event)) {p : Pool}
    → run es (start n true ts) ≡ some p
    → times in_flight_up p.recorded ≡ total in_flight p.workers + times in_flight_down p.recorded
check_in_flight n ts es {p} h =
    let l = run-Lasting es (start n true ts) (start-Inv n true ts) h in
    l.inv.counted (l.same_metrics ∙ unfold start in refl)

-- A run of Check takes at most seven steps for each target, so it ends whatever the scheduler does.
pub check_ends :
    (n : ℤ) (b : Bool) (ts : List Target) (es : List (ℕ × Event)) {p : Pool}
    → run es (start n b ts) ≡ some p
    → length es ≤ 7 * length ts
unfolding start
check_ends n b ts es h =
    let l = run-Lasting es (start n b ts) (start-Inv n b ts) h in omega (arith, l.spent, spawned ts)

-- Every goroutine has returned.
abbrev pub AllLeft : List Worker → Type 0
AllLeft [] = Unit {0}
AllLeft (g ∷ gs) = (g.phase ≡ left) × AllLeft gs

left-holds : (gs : List Worker) → AllLeft gs → total holds gs ≡ 0
left-holds [] l = refl
left-holds (g ∷ gs) l = rw l.0 (omega (arith, left-holds gs l.1))

results_of :
    (gs : List Worker)
    → AllOk gs
    → AllLeft gs
    → (rs : List CheckResult) × (map (λ (g : Worker). g.slot) gs ≡ map (λ r. some r) rs)
      × (map (λ (r : CheckResult). r.target) rs ≡ targets_of gs)
results_of [] a l = ([], refl, refl)
results_of (g ∷ gs) a l =
    let (r, e, t) : IsFilled g = subst (λ ph. IsOk ph g) l.0 a.0 in
    let (rs, e', t') = results_of gs a.1 l.1 in
    (
      r ∷ rs,
      ap (λ x. x ∷ map (λ (g : Worker). g.slot) gs) e ∙ ap (◌∷◌ (some r)) e',
      ap (λ x. x ∷ map (λ (r : CheckResult). r.target) rs) t ∙ ap (◌∷◌ g.target) t',
    )

-- When all goroutines of a run of Check have returned, no place of the semaphore is taken, every
-- element of `results` has been written, and element i is a result for target i.
pub check_complete :
    (n : ℤ) (b : Bool) (ts : List Target) (es : List (ℕ × Event)) {p : Pool}
    → run es (start n b ts) ≡ some p
    → AllLeft p.workers
    → (p.in_use ≡ 0)
      × (rs : List CheckResult) × (map (λ (g : Worker). g.slot) p.workers ≡ map (λ r. some r) rs)
      × (map (λ (r : CheckResult). r.target) rs ≡ ts)
check_complete n b ts es {p} h l =
    let v = run-Lasting es (start n b ts) (start-Inv n b ts) h in
    let (rs, e, t) = results_of p.workers v.inv.ok l in
    (
      omega (arith, v.inv.places, left-holds p.workers l),
      rs,
      e,
      t ∙ v.same_targets ∙ start-targets n b ts,
    )
