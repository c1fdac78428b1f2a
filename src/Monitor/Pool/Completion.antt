-- ===== src/Monitor/Pool/Completion.antt =====
-- Check returns: whatever its goroutines have done so far, they can all get to their end.
use mathlib.Core.List.{append_assoc, append-nil}
use pulse_monitor.Monitor.Check.{Outside}
use pulse_monitor.Monitor.Pool.Bounds.{AllLeft, check_ends, check_complete}
use pulse_monitor.Monitor.Pool.Invariant.{run-cons, run-nil}
use pulse_monitor.Monitor.Pool.Progress.{IsOwn, check_progress}
use pulse_monitor.Monitor.Pool.{
  Phase, queued, acquired, counted, running, checked, finished, stored, left, Worker, Pool, Event,
  step, run, start, and_then,
}
use pulse_monitor.Monitor.Types.{Target, CheckResult}
use pulse_monitor.Prelude.Int.{ℤ}
use pulse_monitor.Prelude.{
  ℕ, zero, suc, ◌+◌, ◌*◌, ◌≤◌, ◌≡◌, ◌⊎◌, inl, inr, refl, sym, ap, ◌∙◌, Bool, List, [], ◌∷◌, ◌++◌,
  map, some, arith, All, length, length-append,
}

phase-left : (ph : Phase) → (ph ≡ left) ⊎ (¬ (ph ≡ left))
phase-left left = inl refl
phase-left queued = inr (λ e. cc)
phase-left acquired = inr (λ e. cc)
phase-left counted = inr (λ e. cc)
phase-left running = inr (λ e. cc)
phase-left (checked r) = inr (λ e. cc)
phase-left (finished r) = inr (λ e. cc)
phase-left stored = inr (λ e. cc)

AllLeft-cases : (gs : List Worker) → AllLeft gs ⊎ (¬ (AllLeft gs))
AllLeft-cases [] = inl tt
AllLeft-cases (g ∷ gs) = elim (phase-left g.phase) [
  | inr n ↦ inr (λ a. n a.0)
  | inl e ↦ elim (AllLeft-cases gs) [ inl a ↦ inl (e, a) | inr n ↦ inr (λ a. n a.1) ]
]

run-append :
    (es es' : List (ℕ × Event)) (p : Pool) {q : Pool}
    → run es p ≡ some q
    → run (es ++ es') p ≡ run es' q
unfolding run
run-append [] es' p h = ap (run es') (run-nil p h)
run-append (e ∷ es) es' p h =
    let (r, s, h') = run-cons e es p h in
    ap (λ o. and_then o (run (es ++ es'))) s ∙ run-append es es' r h'

run-snoc :
    (es : List (ℕ × Event)) (e : ℕ × Event) (s : Pool) {p q : Pool}
    → run es s ≡ some p
    → step e p ≡ some q
    → run (es ++ e ∷ []) s ≡ some q
unfolding run
run-snoc es e s h k = run-append es (e ∷ []) s h ∙ ap (λ o. and_then o (run [])) k

-- No goroutine takes the cancelled case.
abbrev pub AllOwn : List (ℕ × Event) → Type 0
AllOwn = All (λ e. IsOwn e.1)

too_long : (a b : ℕ) → 7 * b ≤ a + 0 → a + 1 ≤ 7 * b → ⊥
too_long a b f g = omega arith

module _ (w : Outside) (n : ℤ) (b : Bool) (ts : List Target) where
  finishes :
      (k : ℕ) (es : List (ℕ × Event)) {p : Pool}
      → run es (start n b ts) ≡ some p
      → 7 * length ts ≤ length es + k
      → (es' : List (ℕ × Event)) × (q : Pool) × AllOwn es'
        × (run (es ++ es') (start n b ts) ≡ some q)
        × AllLeft q.workers
  finishes zero es {p} h f = elim (AllLeft-cases p.workers) [
    | inl a ↦ ([], p, tt, ap (λ x. run x (start n b ts)) (append-nil es) ∙ h, a)
    | inr m ↦
        let (i, e, own, q, s) = check_progress w n b ts es h m in
        let h' = run-snoc es (i, e) (start n b ts) h s in
        absurd (
          too_long (length es) (length ts) f (
            omega
              (arith, check_ends n b ts (es ++ (i, e) ∷ []) h', length-append es ((i, e) ∷ []))))
  ]
  finishes (suc k) es {p} h f = elim (AllLeft-cases p.workers) [
    | inl a ↦ ([], p, tt, ap (λ x. run x (start n b ts)) (append-nil es) ∙ h, a)
    | inr m ↦
        let (i, e, own, q, s) = check_progress w n b ts es h m in
        let (es', q', o, r, a) =
          finishes k (es ++ (i, e) ∷ []) (run-snoc es (i, e) (start n b ts) h s)
            (omega (arith, f, length-append es ((i, e) ∷ []))) in
        (
          (i, e) ∷ es',
          q',
          (own, o),
          ap (λ x. run x (start n b ts)) (sym (append_assoc es ((i, e) ∷ []) es')) ∙ r,
          a,
        )
  ]

-- Whatever the goroutines of Check have done so far, they can go on to the point where all of them
-- have returned, in at most seven steps for each target in all and with no further one cancelled; then
-- Check returns a result for every target, in the order of the targets. The semaphore never deadlocks.
pub check_finishes :
    (w : Outside) (n : ℤ) (b : Bool) (ts : List Target) (es : List (ℕ × Event)) {p : Pool}
    → run es (start n b ts) ≡ some p
    → (es' : List (ℕ × Event)) × (q : Pool) × AllOwn es'
      × (run (es ++ es') (start n b ts) ≡ some q)
      × AllLeft q.workers
      × (length (es ++ es') ≤ 7 * length ts)
      × (rs : List CheckResult) × (map (λ (g : Worker). g.slot) q.workers ≡ map (λ r. some r) rs)
      × (map (λ (r : CheckResult). r.target) rs ≡ ts)
check_finishes w n b ts es h =
    let (es', q, o, r, a) = finishes w n b ts (7 * length ts) es h (omega arith) in
    let (z, rs, e, t) = check_complete n b ts (es ++ es') r a in
    (es', q, o, r, a, check_ends n b ts (es ++ es') r, rs, e, t)
