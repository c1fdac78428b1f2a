-- ===== src/Monitor/Tick/Effects.antt =====
-- What a tick records and publishes.
use mathlib.Core.List.{append-nil}
use pulse_monitor.Monitor.Tick.{
  Answers, Effect, publishes_check, records, publishes_stats, recorded, handle_result,
  handle_results, handle_stats, with_targets, tick,
}
use pulse_monitor.Monitor.Types.{Target, CheckResult, Stats}
use pulse_monitor.Prelude.{
  ◌≡◌, refl, ap, ◌∙◌, Bool, true, false, List, [], ◌∷◌, ◌++◌, map, some, arith, if◌then◌else◌,
}
use pulse_monitor.Result.{Result, ok, err}
use pulse_monitor.Text.{Text}

-- The calls of RecordCheck, of PublishCheck and of PublishStats among the effects.
abbrev pub recordings : List Effect → List Effect
recordings [] = []
recordings (records i s d e t ∷ es) = records i s d e t ∷ recordings es
recordings (_ ∷ es) = recordings es

abbrev pub published_checks : List Effect → List CheckResult
published_checks [] = []
published_checks (publishes_check r ∷ es) = r ∷ published_checks es
published_checks (_ ∷ es) = published_checks es

abbrev pub published_stats : List Effect → List Stats
published_stats [] = []
published_stats (publishes_stats s ∷ es) = s ∷ published_stats es
published_stats (_ ∷ es) = published_stats es

-- The aggregates that the store could give.
abbrev pub available : List (Result Text Stats) → List Stats
available [] = []
available (ok st ∷ rs) = st ∷ available rs
available (err e ∷ rs) = available rs

module _ (publisher : Bool) (s : Answers) where
  handle_results-recordings :
      (rs : List CheckResult) (rest : List Effect)
      → recordings (handle_results publisher s rs ++ rest) ≡ map recorded rs ++ recordings rest
  unfolding handle_results handle_result
  handle_results-recordings [] rest = refl
  handle_results-recordings (r ∷ rs) rest = ground (arith, handle_results-recordings rs rest)

  handle_results-published_stats :
      (rs : List CheckResult) (rest : List Effect)
      → published_stats (handle_results publisher s rs ++ rest) ≡ published_stats rest
  unfolding handle_results handle_result
  handle_results-published_stats [] rest = refl
  handle_results-published_stats (r ∷ rs) rest =
      ground (arith, handle_results-published_stats rs rest)

module _ (s : Answers) where
  handle_results-published_checks :
      (rs : List CheckResult) (rest : List Effect)
      → published_checks (handle_results true s rs ++ rest) ≡ rs ++ published_checks rest
  unfolding handle_results handle_result
  handle_results-published_checks [] rest = refl
  handle_results-published_checks (r ∷ rs) rest =
      ground (arith, handle_results-published_checks rs rest)

  handle_results-publishes_none :
      (rs : List CheckResult) → published_checks (handle_results false s rs ++ []) ≡ []
  unfolding handle_results handle_result
  handle_results-publishes_none [] = refl
  handle_results-publishes_none (r ∷ rs) = ground (arith, handle_results-publishes_none rs)

  -- The aggregates are neither recordings nor checks.
  handle_stats-recordings : (ts : List Target) → recordings (handle_stats s ts) ≡ []
  unfolding handle_stats
  handle_stats-recordings [] = refl
  handle_stats-recordings (t ∷ ts) = ground (arith, handle_stats-recordings ts)

  handle_stats-published_checks : (ts : List Target) → published_checks (handle_stats s ts) ≡ []
  unfolding handle_stats
  handle_stats-published_checks [] = refl
  handle_stats-published_checks (t ∷ ts) = ground (arith, handle_stats-published_checks ts)

  handle_stats-published_stats :
      (ts : List Target)
      → published_stats (handle_stats s ts) ≡ available (map (λ t. s.recent_stats t.id) ts)
  unfolding handle_stats
  handle_stats-published_stats [] = refl
  handle_stats-published_stats (t ∷ ts) = ground (arith, handle_stats-published_stats ts)

-- What one tick comes to: its recordings, the checks and the aggregates it publishes.
pub record Summary : Type 0 where
  pub recordings_made : List Effect
  pub checks_sent : List CheckResult
  pub stats_sent : List Stats

abbrev pub summary : List Effect → Summary
summary es = record {
  recordings_made = recordings es;
  checks_sent = published_checks es;
  stats_sent = published_stats es;
}

abbrev pub expected : Bool → Answers → List CheckResult → List Target → Summary
expected publisher s rs ts = record {
  recordings_made = map recorded rs;
  checks_sent = if publisher then rs else [];
  stats_sent = if publisher then available (map (λ t. s.recent_stats t.id) ts) else [];
}

with_targets-summary :
    (publisher : Bool) (s : Answers) (check : List Target → List CheckResult) (ts : List Target)
    → summary (with_targets publisher s check (ok ts)) ≡ expected publisher s (check ts) ts
with_targets-summary true s check ts =
    let es = handle_stats s ts in
    rw (
      handle_results-recordings true s (check ts) es,
      handle_results-published_checks s (check ts) es,
      handle_results-published_stats true s (check ts) es,
      handle_stats-recordings s ts,
      handle_stats-published_checks s ts,
      handle_stats-published_stats s ts,
      append-nil (map recorded (check ts)),
      append-nil (check ts),
    )
with_targets-summary false s check ts = rw (
  handle_results-recordings false s (check ts) [],
  handle_results-publishes_none s (check ts),
  handle_results-published_stats false s (check ts) [],
  append-nil (map recorded (check ts)),
)

-- If the store can list the targets, a tick asks the store to record every result of the check, in
-- order, whatever the store answers to each and with or without a publisher. With a publisher it
-- publishes every result, and the aggregate of every target for which the store has one, in order;
-- without a publisher it publishes nothing.
pub summary-tick :
    (publisher : Bool) (s : Answers) (check : List Target → List CheckResult) (ts : List Target)
    → s.list_targets ≡ ok ts
    → summary (tick publisher check (some s)) ≡ expected publisher s (check ts) ts
unfolding tick
summary-tick publisher s check ts e =
    ap (λ r. summary (with_targets publisher s check r)) e
    ∙ with_targets-summary publisher s check ts
