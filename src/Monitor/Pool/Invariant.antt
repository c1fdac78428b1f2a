-- ===== src/Monitor/Pool/Invariant.antt =====
-- The invariant of the pool, along a history.
use pulse_monitor.Metrics.{Add, in_flight_up, in_flight_down}
use pulse_monitor.Metrics.Counting.{times}
use pulse_monitor.Monitor.Pool.Counting.{holds, in_flight, remaining, total}
use pulse_monitor.Monitor.Pool.Shift.{AllOk, targets_of, Shift, advance_at-Shift}
use pulse_monitor.Monitor.Pool.{Worker, Pool, Event, install, step, run, start, spawn}
use pulse_monitor.Monitor.Types.{Target}
use pulse_monitor.Prelude.Int.{ℤ}
use pulse_monitor.Prelude.{
  ℕ, ◌+◌, ◌*◌, ◌≤◌, ◌<◌, ◌≡◌, refl, ap, ◌∙◌, inl, inr, Bool, true, List, [], ◌∷◌, ◌++◌, map, Option,
  none, some, arith, ltb, ltb→lt, Option-cases, subst, some-inj, length, dec_lt,
}

-- The semaphore counts the goroutines that hold a place of it, and never overflows; the metrics
-- count the goroutines between CheckStarted and CheckFinished; a goroutine past checkOne has a result for its own target.
pub record Inv (p : Pool) : Type 0 where
  pub places : p.in_use ≡ total holds p.workers
  pub capped : p.in_use ≤ p.capacity
  pub counted :
      p.has_metrics ≡ true
      → times in_flight_up p.recorded ≡ total in_flight p.workers + times in_flight_down p.recorded
  pub ok : AllOk p.workers

pub times-append : (a : Add) (xs ys : List Add) → times a (xs ++ ys) ≡ times a xs + times a ys
times-append a [] ys = omega arith
times-append a (x ∷ xs) ys = omega (arith, times-append a xs ys)

-- What a step does to the pool.
pub record Effect (p q : Pool) : Type 0 where
  pub inv : Inv q
  pub same_capacity : q.capacity ≡ p.capacity
  pub same_metrics : q.has_metrics ≡ p.has_metrics
  pub nearer : total remaining q.workers < total remaining p.workers
  pub same_targets : targets_of q.workers ≡ targets_of p.workers

capped :
    (used used' capacity : ℕ)
    → used ≤ capacity
    → used' ≤ used + 1
    → (used < used' → ltb used capacity ≡ true)
    → used' ≤ capacity
capped used used' capacity l m f = elim (dec_lt used used') [
  | yes h ↦ omega (arith, ltb→lt used capacity (f h))
  | no h ↦ omega arith
]

install-Effect :
    (p : Pool) (o : Option (List Worker × ℕ × List Add)) {q : Pool}
    → Inv p
    → ((r : List Worker × ℕ × List Add)
        → o ≡ some r
        → Shift p.in_use (ltb p.in_use p.capacity) p.workers r)
    → install p o ≡ some q
    → Effect p q
install-Effect p none v s h = cc
install-Effect p (some (gs, used, adds)) v s h =
    let t = s (gs, used, adds) refl in
    subst (Effect p) (some-inj h) (record {
      inv = record {
        places = omega (arith, t.places);
        capped = capped p.in_use used p.capacity v.capped t.at_most_one t.had_room;
        counted = λ m. rw m (
            omega (
              arith,
              times-append in_flight_up p.recorded adds,
              times-append in_flight_down p.recorded adds,
              v.counted m,
              t.recorded_up,
            ));
        ok = t.ok v.ok;
      };
      same_capacity = refl;
      same_metrics = refl;
      nearer = t.nearer;
      same_targets = t.same_targets;
    })

pub step-Effect : (e : ℕ × Event) (p : Pool) {q : Pool} → Inv p → step e p ≡ some q → Effect p q
unfolding step
step-Effect (i, e) p v h =
    install-Effect p _ v
      (λ r.
        advance_at-Shift i e p.in_use (ltb p.in_use p.capacity) p.workers {r = r}
          (omega (arith, v.places)))
      h

pub run-cons :
    (e : ℕ × Event) (es : List (ℕ × Event)) (p : Pool) {q : Pool}
    → run (e ∷ es) p ≡ some q
    → (r : Pool) × (step e p ≡ some r) × (run es r ≡ some q)
unfolding run
run-cons e es p h = elim (Option-cases (step e p)) [
  | inl n ↦ cc (rw n at h)
  | inr (r, n) ↦ (r, n, rw n at h)
]

pub run-nil : (p : Pool) {q : Pool} → run [] p ≡ some q → p ≡ q
unfolding run
run-nil p h = cc

-- What a history does to the pool.
pub record Lasting (p q : Pool) (steps : ℕ) : Type 0 where
  pub inv : Inv q
  pub same_capacity : q.capacity ≡ p.capacity
  pub same_metrics : q.has_metrics ≡ p.has_metrics
  pub spent : steps + total remaining q.workers ≤ total remaining p.workers
  pub same_targets : targets_of q.workers ≡ targets_of p.workers

pub run-Lasting :
    (es : List (ℕ × Event)) (p : Pool) {q : Pool}
    → Inv p
    → run es p ≡ some q
    → Lasting p q (length es)
run-Lasting [] p v h =
    subst (λ q. Lasting p q 0) (run-nil p h)
      (record {
        inv = v;
        same_capacity = refl;
        same_metrics = refl;
        spent = omega arith;
        same_targets = refl;
      })
run-Lasting (e ∷ es) p v h =
    let (r, s, h') = run-cons e es p h in
    let a = step-Effect e p v s in
    let b = run-Lasting es r a.inv h' in
    record {
      inv = b.inv;
      same_capacity = b.same_capacity ∙ a.same_capacity;
      same_metrics = b.same_metrics ∙ a.same_metrics;
      spent = omega (arith, a.nearer, b.spent);
      same_targets = b.same_targets ∙ a.same_targets;
    }

pub spawned :
    (ts : List Target)
    → (total holds (map spawn ts) ≡ 0)
      × (total in_flight (map spawn ts) ≡ 0)
      × (total remaining (map spawn ts) ≡ 7 * length ts)
spawned [] = omega arith
spawned (t ∷ ts) = omega (arith, spawned ts)

spawned-AllOk : (ts : List Target) → AllOk (map spawn ts)
spawned-AllOk [] = tt
spawned-AllOk (t ∷ ts) = (tt, spawned-AllOk ts)

spawned-targets : (ts : List Target) → targets_of (map spawn ts) ≡ ts
spawned-targets [] = refl
spawned-targets (t ∷ ts) = ap (◌∷◌ t) (spawned-targets ts)

pub start-Inv : (n : ℤ) (b : Bool) (ts : List Target) → Inv (start n b ts)
unfolding start
start-Inv n b ts = record {
  places = omega (arith, spawned ts);
  capped = omega arith;
  counted = λ _. omega (arith, spawned ts);
  ok = spawned-AllOk ts;
}

pub start-targets : (n : ℤ) (b : Bool) (ts : List Target) → targets_of (start n b ts).workers ≡ ts
unfolding start
start-targets n b ts = spawned-targets ts
