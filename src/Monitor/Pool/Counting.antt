-- ===== src/Monitor/Pool/Counting.antt =====
-- What the goroutines of a pool hold, and how a step changes it.
use pulse_monitor.Metrics.{in_flight_up, in_flight_down, check_started, check_finished}
use pulse_monitor.Metrics.Counting.{times}
use pulse_monitor.Monitor.Check.Outcomes.{check_one_lem}
use pulse_monitor.Monitor.Check.{Outside}
use pulse_monitor.Monitor.Pool.{
  Phase, queued, acquired, counted, running, checked, finished, stored, left, Worker, Event,
  acquires, counts, calls, reports, stores, leaves, cancels, checks, Change, advance,
}
use pulse_monitor.Monitor.Types.{CheckResult, failed}
use pulse_monitor.Prelude.{
  ℕ, ◌+◌, ◌≤◌, ◌<◌, ◌≡◌, refl, Bool, true, false, List, [], ◌∷◌, some, arith, subst, some-inj,
}
use pulse_monitor.Text.{Text}

-- In the semaphore; between CheckStarted and CheckFinished, and so in flight as the metrics see it; the
-- steps still to come.
abbrev pub holds : Phase → ℕ
holds queued = 0
holds acquired = 1
holds counted = 1
holds running = 1
holds (checked r) = 1
holds (finished r) = 1
holds stored = 1
holds left = 0

abbrev pub in_flight : Phase → ℕ
in_flight counted = 1
in_flight running = 1
in_flight (checked r) = 1
in_flight _ = 0

abbrev pub remaining : Phase → ℕ
remaining queued = 7
remaining acquired = 6
remaining counted = 5
remaining running = 4
remaining (checked r) = 3
remaining (finished r) = 2
remaining stored = 1
remaining left = 0

abbrev pub total : (Phase → ℕ) → List Worker → ℕ
total f [] = 0
total f (g ∷ gs) = f g.phase + total f gs

-- The result is there, and is the target's own.
abbrev pub IsFilled : Worker → Type 0
IsFilled g = (r : CheckResult) × (g.slot ≡ some r) × (r.target ≡ g.target)

abbrev pub IsOk : Phase → Worker → Type 0
IsOk (checked r) g = r.target ≡ g.target
IsOk (finished r) g = r.target ≡ g.target
IsOk stored g = IsFilled g
IsOk left g = IsFilled g
IsOk _ g = Unit {0}

-- What one goroutine's step does to the counts.
pub record Moves (ph : Phase) (used : ℕ) (free : Bool) (g : Worker) (c : Change) : Type 0 where
  pub places : c.used + holds ph ≡ used + holds c.worker.phase
  pub nearer : remaining c.worker.phase < remaining ph
  pub same_target : c.worker.target ≡ g.target
  pub had_room : used < c.used → free ≡ true
  pub at_most_one : c.used ≤ used + 1
  pub recorded_up :
      times in_flight_up c.adds + in_flight ph
      ≡ in_flight c.worker.phase + times in_flight_down c.adds
  pub ok : IsOk ph g → IsOk c.worker.phase c.worker

acquires-Moves :
    (used : ℕ) (free : Bool) (g : Worker) {c : Change}
    → advance queued acquires used free g ≡ some c
    → Moves queued used free g c
unfolding advance
acquires-Moves used true g h = subst (Moves queued used true g) (some-inj h) (record {
  places = omega arith;
  nearer = omega arith;
  same_target = refl;
  had_room = λ _. refl;
  at_most_one = omega arith;
  recorded_up = refl;
  ok = λ _. tt;
})
acquires-Moves used false g h = cc

cancels-Moves :
    (t : Text) (now used : ℕ) (free : Bool) (g : Worker) {c : Change}
    → advance queued (cancels t now) used free g ≡ some c
    → Moves queued used free g c
unfolding advance
cancels-Moves t now used free g h = subst (Moves queued used free g) (some-inj h) (record {
  places = omega arith;
  nearer = omega arith;
  same_target = refl;
  had_room = λ l. absurd (omega arith);
  at_most_one = omega arith;
  recorded_up = refl;
  ok = λ _. (_, refl, refl);
})

counts-Moves :
    (used : ℕ) (free : Bool) (g : Worker) {c : Change}
    → advance acquired counts used free g ≡ some c
    → Moves acquired used free g c
unfolding advance check_started
counts-Moves used free g h = subst (Moves acquired used free g) (some-inj h) (record {
  places = omega arith;
  nearer = omega arith;
  same_target = refl;
  had_room = λ l. absurd (omega arith);
  at_most_one = omega arith;
  recorded_up = refl;
  ok = λ _. tt;
})

calls-Moves :
    (used : ℕ) (free : Bool) (g : Worker) {c : Change}
    → advance counted calls used free g ≡ some c
    → Moves counted used free g c
unfolding advance
calls-Moves used free g h = subst (Moves counted used free g) (some-inj h) (record {
  places = omega arith;
  nearer = omega arith;
  same_target = refl;
  had_room = λ l. absurd (omega arith);
  at_most_one = omega arith;
  recorded_up = refl;
  ok = λ _. tt;
})

finished-adds :
    (f : Bool)
    → (times in_flight_up (check_finished f) ≡ 0) × (times in_flight_down (check_finished f) ≡ 1)
unfolding check_finished
finished-adds f = ground arith

checks-Moves :
    (w : Outside) (used : ℕ) (free : Bool) (g : Worker) {c : Change}
    → advance running (checks w) used free g ≡ some c
    → Moves running used free g c
unfolding advance
checks-Moves w used free g h = subst (Moves running used free g) (some-inj h) (record {
  places = omega arith;
  nearer = omega arith;
  same_target = refl;
  had_room = λ l. absurd (omega arith);
  at_most_one = omega arith;
  recorded_up = refl;
  ok = λ _. (check_one_lem w g.target).0;
})

reports-Moves :
    (r : CheckResult) (used : ℕ) (free : Bool) (g : Worker) {c : Change}
    → advance (checked r) reports used free g ≡ some c
    → Moves (checked r) used free g c
unfolding advance
reports-Moves r used free g h = subst (Moves (checked r) used free g) (some-inj h) (record {
  places = omega arith;
  nearer = omega arith;
  same_target = refl;
  had_room = λ l. absurd (omega arith);
  at_most_one = omega arith;
  recorded_up = omega (arith, finished-adds (failed r));
  ok = λ o. o;
})

stores-Moves :
    (r : CheckResult) (used : ℕ) (free : Bool) (g : Worker) {c : Change}
    → advance (finished r) stores used free g ≡ some c
    → Moves (finished r) used free g c
unfolding advance
stores-Moves r used free g h = subst (Moves (finished r) used free g) (some-inj h) (record {
  places = omega arith;
  nearer = omega arith;
  same_target = refl;
  had_room = λ l. absurd (omega arith);
  at_most_one = omega arith;
  recorded_up = refl;
  ok = λ o. (r, refl, o);
})

leaves-Moves :
    (used : ℕ) (free : Bool) (g : Worker) {c : Change}
    → 1 ≤ used
    → advance stored leaves used free g ≡ some c
    → Moves stored used free g c
unfolding advance
leaves-Moves used free g l h = subst (Moves stored used free g) (some-inj h) (record {
  places = omega arith;
  nearer = omega arith;
  same_target = refl;
  had_room = λ l. absurd (omega arith);
  at_most_one = omega arith;
  recorded_up = refl;
  ok = λ o. o;
})

pub advance-Moves :
    (ph : Phase) (e : Event) (used : ℕ) (free : Bool) (g : Worker) {c : Change}
    → holds ph ≤ used
    → advance ph e used free g ≡ some c
    → Moves ph used free g c
advance-Moves queued acquires used free g l h = acquires-Moves used free g h
advance-Moves queued (cancels t now) used free g l h = cancels-Moves t now used free g h
advance-Moves acquired counts used free g l h = counts-Moves used free g h
advance-Moves counted calls used free g l h = calls-Moves used free g h
advance-Moves running (checks w) used free g l h = checks-Moves w used free g h
advance-Moves (checked r) reports used free g l h = reports-Moves r used free g h
advance-Moves (finished r) stores used free g l h = stores-Moves r used free g h
advance-Moves stored leaves used free g l h = leaves-Moves used free g l h
advance-Moves _ _ used free g l h = unfold advance in cc
