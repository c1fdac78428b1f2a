-- ===== src/RateLimit/Manager.antt =====
-- internal/ratelimit/manager.go. The map of buckets is an association list; a bucket is shared by
-- the calls that wait on it, and is named by its key.
pub mod Steps
pub mod Isolation
pub mod Buckets
pub mod Stretches
pub mod Pace
use pulse_monitor.Prelude.Int.{ℤ}
use pulse_monitor.Prelude.{
  ℕ, Bool, true, false, List, [], ◌∷◌, ◌++◌, Option, none, some, if◌then◌else◌,
}
use pulse_monitor.RateLimit.Bucket.{
  Bucket, Outcome, Move, ticks, refills, stops, closes, waits, new_bucket, move,
}
use pulse_monitor.Text.{Text, text_eq}

pub record Manager : Type 0 where
  pub rate_per_second : ℤ
  pub buckets : List (Text × Bucket)

-- `NewManager`.
unfoldable pub new_manager : ℤ → Manager
new_manager rate = record { rate_per_second = rate; buckets = [] }

unfoldable pub find : Text → List (Text × Bucket) → Option Bucket
find k [] = none
find k ((j, b) ∷ bs) = if text_eq j k then some b else find k bs

-- Writes to a bucket that is there.
unfoldable pub put : Text → Bucket → List (Text × Bucket) → List (Text × Bucket)
put k b [] = []
put k b ((j, c) ∷ bs) = if text_eq j k then (k, b) ∷ bs else (j, c) ∷ put k b bs

abbrev pub add_new : Manager → Text → Option Bucket → Option Bucket → Option (Manager × Bucket)
add_new m k (some b) created = some (m, b)
add_new m k none (some b) = some (record m { buckets = (k, b) ∷ m.buckets }, b)
add_new m k none none = none

-- `none`: NewBucket panics.
unfoldable pub bucket_for : Text → Manager → Option (Manager × Bucket)
unfolding find
bucket_for k m = add_new m k (find k m.buckets) (new_bucket m.rate_per_second)

abbrev pub put_back : Text → Manager → Option Bucket → Option Manager
put_back k m none = none
put_back k m (some b) = some (record m { buckets = put k b m.buckets })

abbrev pub move_at : Text → Move → Manager → Option Bucket → Option Manager
move_at k mv m none = none
move_at k mv m (some b) = put_back k m (move mv b)

abbrev pub and_then : Option Manager → (Manager → Option Manager) → Option Manager
and_then none f = none
and_then (some m) f = f m

abbrev pub forget_bucket : Option (Manager × Bucket) → Option Manager
forget_bucket none = none
forget_bucket (some (m, b)) = some m

-- `Wait`, in two parts: bucketFor under the lock, and later, outside it, the return of the wait on
-- the bucket with the outcome `o`.
unfoldable pub enter : Text → Manager → Option Manager
unfolding bucket_for
enter k m = forget_bucket (bucket_for k m)

unfoldable pub leave : Text → Outcome → Manager → Option Manager
unfolding find put
leave k o m = move_at k (waits o) m (find k m.buckets)

unfoldable pub wait : Text → Outcome → Manager → Option Manager
unfolding enter leave
wait k o m = and_then (enter k m) (leave k o)

unfoldable pub close_all : List (Text × Bucket) → List (Text × Bucket)
close_all [] = []
close_all ((k, b) ∷ bs) = (k, record b { closed = true }) ∷ close_all bs

unfoldable pub close : Manager → Manager
unfolding close_all
close m = record m { buckets = close_all m.buckets }

-- What can happen to a manager: a call of Wait enters or returns, a bucket's ticker fires, its
-- goroutine takes the tick or returns, Close.
pub data Act : Type 0 where
  enters : Text → Act
  returns : Text → Outcome → Act
  fires refills_at stops_at : Text → Act
  shuts : Act

unfoldable pub act : Act → Manager → Option Manager
unfolding enter leave close find put
act (enters k) m = enter k m
act (returns k o) m = leave k o m
act (fires k) m = move_at k ticks m (find k m.buckets)
act (refills_at k) m = move_at k refills m (find k m.buckets)
act (stops_at k) m = move_at k stops m (find k m.buckets)
act shuts m = some (close m)

unfoldable pub run : List Act → Manager → Option Manager
unfolding act
run [] m = some m
run (a ∷ rest) m = and_then (act a m) (run rest)
