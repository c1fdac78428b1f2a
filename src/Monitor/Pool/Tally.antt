-- ===== src/Monitor/Pool/Tally.antt =====
-- What the metrics read when a run of Check is over.
use pulse_monitor.Metrics.{Add, total_up, failed_up, check_started, check_finished}
use pulse_monitor.Metrics.Counting.{times}
use pulse_monitor.Monitor.Pool.Counting.{total}
use pulse_monitor.Monitor.Pool.Invariant.{times-append, run-cons, run-nil}
use pulse_monitor.Monitor.Pool.{
  Phase, queued, acquired, counted, running, checked, finished, stored, Worker, Pool, Event,
  acquires, counts, calls, reports, stores, leaves, cancels, checks, Change, advance, on_head,
  behind, advance_at, install, step, run,
}
use pulse_monitor.Monitor.Types.{CheckResult, is_failure, failed}
use pulse_monitor.Prelude.{
  ℕ, zero, suc, ◌+◌, ◌≤◌, ◌≡◌, refl, Bool, true, false, List, [], ◌∷◌, Option, none, some, arith,
  subst, some-inj, length, length-append, ltb, if◌then◌else◌,
}

-- The goroutines that take the cancelled case.
abbrev pub cancellation : Event → ℕ
cancellation (cancels e now) = 1
cancellation _ = 0

abbrev pub cancellations : List (ℕ × Event) → ℕ
cancellations [] = 0
cancellations ((i, e) ∷ es) = cancellation e + cancellations es

-- Past CheckFinished, or cancelled.
abbrev pub is_past : Phase → ℕ
is_past queued = 0
is_past acquired = 0
is_past counted = 0
is_past running = 0
is_past (checked r) = 0
is_past _ = 1

abbrev pub bit : Bool → ℕ
bit b = if b then 1 else 0

abbrev pub slot_failure : Option CheckResult → ℕ
slot_failure none = 0
slot_failure (some r) = bit (failed r)

-- A failed result that CheckFinished has counted, written or not.
abbrev pub failure : Phase → Option CheckResult → ℕ
failure queued s = 0
failure acquired s = 0
failure counted s = 0
failure running s = 0
failure (checked r) s = 0
failure (finished r) s = bit (failed r)
failure _ s = slot_failure s

-- At most as many additions are still to come.
abbrev pub additions : Phase → ℕ
additions queued = 4
additions acquired = 4
additions counted = 3
additions running = 3
additions (checked r) = 3
additions _ = 0

-- What one step adds.
record Adds (ph : Phase) (e : Event) (g : Worker) (c : Change) : Type 0 where
  past : is_past c.worker.phase ≡ is_past ph + times total_up c.adds + cancellation e
  failures :
      failure c.worker.phase c.worker.slot
      ≡ failure ph g.slot + times failed_up c.adds + cancellation e
  short : length c.adds + additions c.worker.phase ≤ additions ph

finished-Adds :
    (f : Bool)
    → (times total_up (check_finished f) ≡ 1)
      × (times failed_up (check_finished f) ≡ bit f)
      × (length (check_finished f) ≤ 3)
unfolding check_finished
finished-Adds true = omega arith
finished-Adds false = omega arith

advance-Adds :
    (ph : Phase) (e : Event) (used : ℕ) (free : Bool) (g : Worker) {c : Change}
    → advance ph e used free g ≡ some c
    → Adds ph e g c
unfolding advance check_started
advance-Adds queued acquires used true g h =
    subst (Adds queued acquires g) (some-inj h)
      (record { past = refl; failures = refl; short = omega arith })
advance-Adds queued acquires used false g h = cc
advance-Adds queued (cancels t now) used free g h =
    subst (Adds queued (cancels t now) g) (some-inj h)
      (unfold failed is_failure in record { past = refl; failures = refl; short = omega arith })
advance-Adds acquired counts used free g h =
    subst (Adds acquired counts g) (some-inj h)
      (record { past = refl; failures = refl; short = omega arith })
advance-Adds counted calls used free g h =
    subst (Adds counted calls g) (some-inj h)
      (record { past = refl; failures = refl; short = omega arith })
advance-Adds running (checks w) used free g h =
    subst (Adds running (checks w) g) (some-inj h)
      (record { past = refl; failures = refl; short = omega arith })
advance-Adds (checked r) reports used free g h = subst (Adds (checked r) reports g) (some-inj h) (
    let a = finished-Adds (failed r) in
    record { past = omega (arith, a); failures = omega (arith, a); short = omega (arith, a) })
advance-Adds (finished r) stores used free g h =
    subst (Adds (finished r) stores g) (some-inj h)
      (record { past = refl; failures = omega arith; short = omega arith })
advance-Adds stored leaves used free g h =
    subst (Adds stored leaves g) (some-inj h)
      (record { past = refl; failures = omega arith; short = omega arith })
advance-Adds _ _ used free g h = cc

abbrev pub all_past : List Worker → ℕ
all_past [] = 0
all_past (g ∷ gs) = is_past g.phase + all_past gs

abbrev pub all_failures : List Worker → ℕ
all_failures [] = 0
all_failures (g ∷ gs) = failure g.phase g.slot + all_failures gs

-- What one event adds, over all goroutines.
record Tally (e : Event) (gs : List Worker) (r : List Worker × ℕ × List Add) : Type 0 where
  past : all_past r.0 ≡ all_past gs + times total_up r.2 + cancellation e
  failures : all_failures r.0 ≡ all_failures gs + times failed_up r.2 + cancellation e
  short : length r.2 + total additions r.0 ≤ total additions gs

on_head-Tally :
    (e : Event) (g : Worker) (gs : List Worker) (o : Option Change) {r : List Worker × ℕ × List Add}
    → ((c : Change) → o ≡ some c → Adds g.phase e g c)
    → on_head gs o ≡ some r
    → Tally e (g ∷ gs) r
on_head-Tally e g gs none m h = cc
on_head-Tally e g gs (some c) m h =
    let a = m c refl in
    subst (Tally e (g ∷ gs)) (some-inj h) (record {
      past = omega (arith, a.past);
      failures = omega (arith, a.failures);
      short = omega (arith, a.short);
    })

behind-Tally :
    (e : Event) (g : Worker) (gs : List Worker) (o : Option (List Worker × ℕ × List Add))
    {r : List Worker × ℕ × List Add}
    → ((q : List Worker × ℕ × List Add) → o ≡ some q → Tally e gs q)
    → behind g o ≡ some r
    → Tally e (g ∷ gs) r
behind-Tally e g gs none m h = cc
behind-Tally e g gs (some (gs', used, adds)) m h =
    let a = m (gs', used, adds) refl in
    subst (Tally e (g ∷ gs)) (some-inj h) (record {
      past = omega (arith, a.past);
      failures = omega (arith, a.failures);
      short = omega (arith, a.short);
    })

advance_at-Tally :
    (i : ℕ) (e : Event) (used : ℕ) (free : Bool) (gs : List Worker) {r : List Worker × ℕ × List Add}
    → advance_at i e used free gs ≡ some r
    → Tally e gs r
unfolding advance_at
advance_at-Tally i e used free [] h = cc
advance_at-Tally zero e used free (g ∷ gs) h =
    on_head-Tally e g gs _ (λ c. advance-Adds g.phase e used free g {c = c}) h
advance_at-Tally (suc i) e used free (g ∷ gs) h =
    behind-Tally e g gs _ (λ q. advance_at-Tally i e used free gs {r = q}) h

-- What a history adds to a pool with metrics.
pub record Tallied (p q : Pool) (es : List (ℕ × Event)) : Type 0 where
  pub metrics : q.has_metrics ≡ true
  pub past :
      all_past q.workers + times total_up p.recorded
      ≡ all_past p.workers + times total_up q.recorded + cancellations es
  pub failures :
      all_failures q.workers + times failed_up p.recorded
      ≡ all_failures p.workers + times failed_up q.recorded + cancellations es
  pub short :
      length q.recorded + total additions q.workers ≤ length p.recorded + total additions p.workers

install-Tallied :
    (i : ℕ) (e : Event) (p : Pool) (o : Option (List Worker × ℕ × List Add)) {q : Pool}
    → p.has_metrics ≡ true
    → ((r : List Worker × ℕ × List Add) → o ≡ some r → Tally e p.workers r)
    → install p o ≡ some q
    → Tallied p q ((i, e) ∷ [])
install-Tallied i e p none b s h = cc
install-Tallied i e p (some (gs, used, adds)) b s h =
    let t = s (gs, used, adds) refl in
    subst (λ q. Tallied p q ((i, e) ∷ [])) (some-inj h)
      (record {
        metrics = b;
        past = rw b (omega (arith, t.past, times-append total_up p.recorded adds));
        failures = rw b (omega (arith, t.failures, times-append failed_up p.recorded adds));
        short = rw b (omega (arith, t.short, length-append p.recorded adds));
      })

step-Tallied :
    (i : ℕ) (e : Event) (p : Pool) {q : Pool}
    → p.has_metrics ≡ true
    → step (i, e) p ≡ some q
    → Tallied p q ((i, e) ∷ [])
unfolding step
step-Tallied i e p b h =
    install-Tallied i e p _ b
      (λ r. advance_at-Tally i e p.in_use (ltb p.in_use p.capacity) p.workers {r = r}) h

pub run-Tallied :
    (es : List (ℕ × Event)) (p : Pool) {q : Pool}
    → p.has_metrics ≡ true
    → run es p ≡ some q
    → Tallied p q es
run-Tallied [] p b h =
    subst (λ q. Tallied p q []) (run-nil p h)
      (record { metrics = b; past = omega arith; failures = omega arith; short = omega arith })
run-Tallied ((i, e) ∷ es) p b h =
    let (r, s, h') = run-cons (i, e) es p h in
    let a = step-Tallied i e p b s in
    let c = run-Tallied es r a.metrics h' in
    record {
      metrics = c.metrics;
      past = omega (arith, a.past, c.past);
      failures = omega (arith, a.failures, c.failures);
      short = omega (arith, a.short, c.short);
    }
