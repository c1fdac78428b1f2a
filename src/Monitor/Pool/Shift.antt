-- ===== src/Monitor/Pool/Shift.antt =====
-- What one event does to the list of goroutines.
use pulse_monitor.Metrics.{Add, in_flight_up, in_flight_down}
use pulse_monitor.Metrics.Counting.{times}
use pulse_monitor.Monitor.Pool.Counting.{
  holds, in_flight, remaining, total, IsOk, Moves, advance-Moves,
}
use pulse_monitor.Monitor.Pool.{Worker, Event, Change, on_head, behind, advance_at}
use pulse_monitor.Monitor.Types.{Target}
use pulse_monitor.Prelude.{
  ℕ, zero, suc, ◌+◌, ◌≤◌, ◌<◌, ◌≡◌, refl, ap, Bool, true, List, [], ◌∷◌, map, Option, none, some,
  arith, subst, some-inj,
}

abbrev pub AllOk : List Worker → Type 0
AllOk [] = Unit {0}
AllOk (g ∷ gs) = IsOk g.phase g × AllOk gs

abbrev pub targets_of : List Worker → List Target
targets_of = map λ g. g.target

-- What one event does to all goroutines.
pub record Shift (used : ℕ) (free : Bool) (gs : List Worker) (r : List Worker × ℕ × List Add)
    : Type 0 where
  pub places : r.1 + total holds gs ≡ used + total holds r.0
  pub nearer : total remaining r.0 < total remaining gs
  pub same_targets : targets_of r.0 ≡ targets_of gs
  pub had_room : used < r.1 → free ≡ true
  pub at_most_one : r.1 ≤ used + 1
  pub recorded_up :
      times in_flight_up r.2 + total in_flight gs ≡ total in_flight r.0 + times in_flight_down r.2
  pub ok : AllOk gs → AllOk r.0

on_head-Shift :
    (used : ℕ) (free : Bool) (g : Worker) (gs : List Worker) (o : Option Change)
    {r : List Worker × ℕ × List Add}
    → ((c : Change) → o ≡ some c → Moves g.phase used free g c)
    → on_head gs o ≡ some r
    → Shift used free (g ∷ gs) r
on_head-Shift used free g gs none m h = cc
on_head-Shift used free g gs (some c) m h =
    let v = m c refl in
    subst (Shift used free (g ∷ gs)) (some-inj h) (record {
      places = omega arith;
      nearer = omega arith;
      same_targets = rw v.same_target;
      had_room = v.had_room;
      at_most_one = v.at_most_one;
      recorded_up = omega arith;
      ok = λ a. (v.ok a.0, a.1);
    })

behind-Shift :
    (used : ℕ) (free : Bool) (g : Worker) (gs : List Worker)
    (o : Option (List Worker × ℕ × List Add)) {r : List Worker × ℕ × List Add}
    → ((q : List Worker × ℕ × List Add) → o ≡ some q → Shift used free gs q)
    → behind g o ≡ some r
    → Shift used free (g ∷ gs) r
behind-Shift used free g gs none m h = cc
behind-Shift used free g gs (some (gs', used', adds)) m h =
    let v = m (gs', used', adds) refl in
    subst (Shift used free (g ∷ gs)) (some-inj h) (record {
      places = omega (arith, v.places);
      nearer = omega (arith, v.nearer);
      same_targets = ap (◌∷◌ g.target) v.same_targets;
      had_room = v.had_room;
      at_most_one = v.at_most_one;
      recorded_up = omega (arith, v.recorded_up);
      ok = λ a. (a.0, v.ok a.1);
    })

pub advance_at-Shift :
    (i : ℕ) (e : Event) (used : ℕ) (free : Bool) (gs : List Worker) {r : List Worker × ℕ × List Add}
    → total holds gs ≤ used
    → advance_at i e used free gs ≡ some r
    → Shift used free gs r
unfolding advance_at
advance_at-Shift i e used free [] l h = cc
advance_at-Shift zero e used free (g ∷ gs) l h =
    on_head-Shift used free g gs _ (λ c. advance-Moves g.phase e used free g {c = c} (omega arith))
      h
advance_at-Shift (suc i) e used free (g ∷ gs) l h =
    behind-Shift used free g gs _ (λ q. advance_at-Shift i e used free gs {r = q} (omega arith)) h
