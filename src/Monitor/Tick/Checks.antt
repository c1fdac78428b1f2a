-- ===== src/Monitor/Tick/Checks.antt =====
-- A tick with the results of Check.
use pulse_monitor.Monitor.Pool.Bounds.{AllLeft, check_complete}
use pulse_monitor.Monitor.Pool.{Worker, Pool, Event}
use pulse_monitor.Monitor.Pool
use pulse_monitor.Monitor.Tick.Effects.{summary, summary-tick, expected}
use pulse_monitor.Monitor.Tick.{Answers, tick}
use pulse_monitor.Monitor.Types.{Target, CheckResult}
use pulse_monitor.Prelude.Int.{ℤ}
use pulse_monitor.Prelude.{ℕ, ◌≡◌, refl, sym, ap, ◌∙◌, Bool, List, [], ◌∷◌, map, some}
use pulse_monitor.Result.{ok}

map-some_inj : (xs ys : List CheckResult) → map (λ r. some r) xs ≡ map (λ r. some r) ys → xs ≡ ys
map-some_inj [] [] e = refl
map-some_inj [] (y ∷ ys) e = cc
map-some_inj (x ∷ xs) [] e = cc
map-some_inj (x ∷ xs) (y ∷ ys) e = let h : x ≡ y = cc in let t = map-some_inj xs ys (cc) in cc

-- The elements of `results` that a run of Check has written are the list `rs`.
abbrev pub Returns : Pool → List CheckResult → Type 0
Returns p rs = map (λ (g : Worker). g.slot) p.workers ≡ map (λ r. some r) rs

-- A tick whose store can list the targets, and whose Check has let all its goroutines return, however
-- they were scheduled: the results are those of the listed targets, one for each and in their order. The
-- store is asked to record every one of them, in order, whatever it answers and with or without a
-- publisher. With a publisher every one is published, and the aggregate of every target for which the
-- store has one, in order; without a publisher nothing is.
pub tick-Returns :
    (n : ℤ) (b publisher : Bool) (s : Answers) (check : List Target → List CheckResult)
    (ts : List Target) (es : List (ℕ × Event)) {p : Pool}
    → s.list_targets ≡ ok ts
    → Pool.run es (Pool.start n b ts) ≡ some p
    → AllLeft p.workers
    → Returns p (check ts)
    → (map (λ (r : CheckResult). r.target) (check ts) ≡ ts)
      × (summary (tick publisher check (some s)) ≡ expected publisher s (check ts) ts)
tick-Returns n b publisher s check ts es e h a r =
    let (z, rs, f, t) = check_complete n b ts es h a in
    (
      ap (map (λ (r : CheckResult). r.target)) (map-some_inj (check ts) rs (sym r ∙ f)) ∙ t,
      summary-tick publisher s check ts e,
    )
