-- ===== src/RateLimit/Tests.antt =====
-- Buckets of small rates, and a manager of two keys.
use pulse_monitor.Prelude.Int.{pos, ◌<ℤ◌}
use pulse_monitor.Prelude.{◌+◌, ◌≤◌, ◌≡◌, ◌↔◌, refl, true, false, List, [], ◌∷◌, none, some, arith}
use pulse_monitor.RateLimit.Bucket
use pulse_monitor.RateLimit.Bucket.Bounds.{IsSound, grants, count_ticks}
use pulse_monitor.RateLimit.Bucket.Bursts.{IsFull, drain, pass_on, full_burst}
use pulse_monitor.RateLimit.Bucket.Closing.{close_stops}
use pulse_monitor.RateLimit.Bucket.Interval.{new_bucket_panics}
use pulse_monitor.RateLimit.Bucket.{
  Bucket, granted, bucket_closed, Move, ticks, refills, stops, closes, waits, new_bucket, move,
  second, clamp,
}
use pulse_monitor.RateLimit.Manager.Isolation.{run-find}
use pulse_monitor.RateLimit.Manager.Stretches.{new_manager_bursts}
use pulse_monitor.RateLimit.Manager.Steps.{moves_at}
use pulse_monitor.RateLimit.Manager.{
  Manager, Act, enters, returns, fires, refills_at, shuts, find, run, new_manager,
}
use pulse_monitor.Text.{Text, codes}

abbrev two : Bucket
two = record {
  capacity = 2;
  interval = 500_000_000;
  tokens = 0;
  tick_pending = false;
  refilling = true;
  closed = false;
}

new_bucket-two : new_bucket (pos 2) ≡ some two
unfolding new_bucket
new_bucket-two = refl

abbrev moves : List Move
moves = ticks ∷ refills ∷ waits granted ∷ ticks ∷ ticks ∷ []

moves-run : Bucket.run moves two ≡ some (record two { tick_pending = true })
unfolding Bucket.run
moves-run = refl

two-IsSound : IsSound two
two-IsSound = record { capacity_pos = omega arith; stored = omega arith; stopped_closed = refl }

abbrev full : Bucket
full = record two { tokens = 2 }

full-IsSound : IsSound full
full-IsSound = record { capacity_pos = omega arith; stored = omega arith; stopped_closed = refl }

full-IsFull : IsFull full
full-IsFull = record { full = refl; running = refl; idle = refl }

full_burst_example :
    (Bucket.run (drain 2 (pass_on 3)) full ≡ some (record full { tokens = 0 }))
    × (count_ticks (drain 2 (pass_on 3)) ≡ 3)
    × (grants (drain 2 (pass_on 3)) ≡ 2 + 3)
full_burst_example = full_burst 3 full full-IsSound full-IsFull

new_bucket_panics_example :
    (new_bucket (pos 1_000_000_001) ≡ none) ↔ (pos second <ℤ pos 1_000_000_001)
new_bucket_panics_example = new_bucket_panics (pos 1_000_000_001)

abbrev shut : List Move
shut = closes ∷ stops ∷ waits granted ∷ waits bucket_closed ∷ []

shut-run :
    Bucket.run shut full ≡ some (record full { tokens = 1; closed = true; refilling = false })
unfolding Bucket.run
shut-run = refl

close_stops_example :
    (grants (waits granted ∷ waits bucket_closed ∷ []) + 1 ≤ 2)
    × (move (waits bucket_closed) (record full { tokens = 1; closed = true; refilling = false })
        ≡ some (record full { tokens = 1; closed = true; refilling = false }))
    × (Bucket.run (closes ∷ stops ∷ []) full
        ≡ some (record full { closed = true; refilling = false }))
close_stops_example = close_stops full (waits granted ∷ waits bucket_closed ∷ []) refl shut-run

abbrev api : Text
api = codes "api"

abbrev web : Text
web = codes "web"

abbrev acts : List Act
acts = enters api ∷ enters web ∷ fires api ∷ refills_at api ∷ returns api granted ∷ fires web ∷ []

abbrev after_acts : Manager
after_acts = record {
  rate_per_second = pos 2;
  buckets = (web, record two { tick_pending = true }) ∷ (api, two) ∷ [];
}

acts-run : run acts (new_manager (pos 2)) ≡ some after_acts
unfolding run new_manager new_bucket pulse_monitor.Text.text_eq move
acts-run = refl

abbrev later : List Act
later = refills_at web ∷ returns web granted ∷ []

after_later :
    run later after_acts ≡ some (record after_acts { buckets = (web, two) ∷ (api, two) ∷ [] })
unfolding run pulse_monitor.Text.text_eq move
after_later = refl

new_manager_bursts_example :
    (grants (moves_at web acts) ≤ count_ticks (moves_at web acts))
    × (grants (moves_at web later) ≤ count_ticks (moves_at web later) + clamp (pos 2) + 1)
new_manager_bursts_example = new_manager_bursts (pos 2) acts later web acts-run after_later

closed_acts :
    run (shuts ∷ []) after_acts
    ≡ some (record after_acts {
      buckets =
          (web, record two { tick_pending = true; closed = true })
          ∷ (api, record two { closed = true })
          ∷ [];
    })
unfolding run
closed_acts = refl

api-find : find api after_acts.buckets ≡ some two
unfolding find pulse_monitor.Text.text_eq
api-find = refl

run-find_example :
    (b : Bucket) × (find api (
        (web, record two { tick_pending = true; closed = true })
        ∷ (api, record two { closed = true })
        ∷ [])
      ≡ some b)
    × (Bucket.run (moves_at api (shuts ∷ [])) two ≡ some b)
run-find_example = run-find api (shuts ∷ []) after_acts two closed_acts api-find
