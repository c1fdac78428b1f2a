-- ===== src/Monitor/Pool/Totals.antt =====
-- The counters of GET /metrics after a run of Check, against the results it returns.
use pulse_monitor.Metrics.Counting.{times, count_failed, add_all-Counts, new-AllFit, Metrics-eq}
use pulse_monitor.Metrics.{new, total_up, failed_up, add_all}
use pulse_monitor.Monitor.Pool.Bounds.{AllLeft, check_in_flight, check_complete}
use pulse_monitor.Monitor.Pool.Counting.{in_flight, total}
use pulse_monitor.Monitor.Pool.Tally.{
  additions, cancellations, all_past, all_failures, slot_failure, run-Tallied,
}
use pulse_monitor.Monitor.Pool.{Worker, Pool, Event, run, start, spawn}
use pulse_monitor.Monitor.Types.{Target, CheckResult, failed}
use pulse_monitor.Prelude.Int.{ℤ, pos, eq_of_parts}
use pulse_monitor.Prelude.{
  ℕ, ◌+◌, ◌*◌, ◌<◌, ◌≡◌, refl, ap, ◌∙◌, sym, subst, true, List, [], ◌∷◌, map, Option, some, arith,
  length, length-map,
}

spawned-untold :
    (ts : List Target)
    → (all_past (map spawn ts) ≡ 0)
      × (all_failures (map spawn ts) ≡ 0)
      × (total additions (map spawn ts) ≡ 4 * length ts)
spawned-untold [] = (refl, refl, refl)
spawned-untold (t ∷ ts) = omega (arith, spawned-untold ts)

left-in_flight : (gs : List Worker) → AllLeft gs → total in_flight gs ≡ 0
left-in_flight [] l = refl
left-in_flight (g ∷ gs) l = rw l.0 (omega (arith, left-in_flight gs l.1))

left-past : (gs : List Worker) → AllLeft gs → all_past gs ≡ length gs
left-past [] l = refl
left-past (g ∷ gs) l = rw l.0 (omega (arith, left-past gs l.1))

slot_failures : List (Option CheckResult) → ℕ
slot_failures [] = 0
slot_failures (s ∷ ss) = slot_failure s + slot_failures ss

left-failures :
    (gs : List Worker)
    → AllLeft gs
    → all_failures gs ≡ slot_failures (map (λ (g : Worker). g.slot) gs)
unfolding slot_failures
left-failures [] l = refl
left-failures (g ∷ gs) l = rw l.0 (omega (arith, left-failures gs l.1))

slot_failures-some :
    (rs : List CheckResult) → slot_failures (map (λ r. some r) rs) ≡ count_failed (map failed rs)
unfolding slot_failures
slot_failures-some [] = refl
slot_failures-some (r ∷ rs) = omega (arith, slot_failures-some rs)

-- What the additions of a run of Check make of the counters of a new process.
totals :
    (n : ℤ) (ts : List Target) (es : List (ℕ × Event)) {p : Pool}
    → run es (start n true ts) ≡ some p
    → length ts < 600_000_000_000_000_000
    → add_all p.recorded new ≡ record {
      checks_total = pos (times total_up p.recorded);
      checks_in_flight = pos (total in_flight p.workers);
      checks_failed = pos (times failed_up p.recorded);
    }
unfolding new start
totals n ts es {p} h k =
    let v = run-Tallied es (start n true ts) refl h in
    let c =
      add_all-Counts p.recorded new
        (new-AllFit (length p.recorded) (omega (arith, v.short, spawned-untold ts))) in
    let f = check_in_flight n ts es h in
    Metrics-eq (add_all p.recorded new) (eq_of_parts _ _ (omega (arith, c)))
      (eq_of_parts _ _ (omega (arith, c, f))) (eq_of_parts _ _ (omega (arith, c)))

-- When all goroutines of a run of Check have returned, in a process that has counted nothing before
-- and for fewer than 600000000000000000 targets: the counter of the checks and the number of
-- goroutines that took the cancelled case come to the number of targets, the counter of the failed
-- checks and that number come to the number of failed results, and no check is counted as in flight.
pub check_metrics :
    (n : ℤ) (ts : List Target) (es : List (ℕ × Event)) {p : Pool}
    → run es (start n true ts) ≡ some p
    → AllLeft p.workers
    → length ts < 600_000_000_000_000_000
    → (checked : ℕ) × (wrong : ℕ) × (rs : List CheckResult) × (map
          (λ (g : Worker). g.slot)
          p.workers
        ≡ map (λ r. some r) rs)
      × (add_all p.recorded new ≡ record {
        checks_total = pos checked;
        checks_in_flight = pos 0;
        checks_failed = pos wrong;
      })
      × (checked + cancellations es ≡ length ts)
      × (wrong + cancellations es ≡ count_failed (map failed rs))
unfolding start
check_metrics n ts es {p} h l k =
    let v = run-Tallied es (start n true ts) refl h in
    let (z, rs, e, t) = check_complete n true ts es h l in
    let size : length p.workers ≡ length ts =
      sym (length-map (λ (g : Worker). g.slot) p.workers)
      ∙ ap length e
      ∙ length-map (λ (r : CheckResult). some r) rs
      ∙ sym (length-map (λ (r : CheckResult). r.target) rs)
      ∙ ap length t in
    let wrong : all_failures p.workers ≡ count_failed (map failed rs) =
      left-failures p.workers l ∙ ap slot_failures e ∙ slot_failures-some rs in
    (
      times total_up p.recorded,
      times failed_up p.recorded,
      rs,
      e,
      subst
          (λ z. add_all p.recorded new ≡ record {
            checks_total = pos (times total_up p.recorded);
            checks_in_flight = pos z;
            checks_failed = pos (times failed_up p.recorded);
          })
          (left-in_flight p.workers l) (totals n ts es h k),
      omega (arith, v.past, spawned-untold ts, left-past p.workers l, size),
      omega (arith, v.failures, spawned-untold ts, wrong),
    )
