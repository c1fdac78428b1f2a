-- ===== src/RateLimit/Bucket.antt =====
-- internal/ratelimit/bucket.go. A bucket is a machine whose moves are the firing of its ticker, the
-- rounds of its refill goroutine, the returns of the calls of Wait that are blocked on it, and
-- Close. A `select` may take any of its ready cases, so the list of moves says which one it took.
pub mod Bounds
pub mod Bursts
pub mod Interval
pub mod Closing
use pulse_monitor.Prelude.Int.{ℤ, pos, pos_part, ltb_ℤ}
use pulse_monitor.Prelude.{
  ℕ, ◌+◌, ◌-◌, ◌/◌, Bool, true, false, ◌&&◌, List, [], ◌∷◌, Option, none, some, ltb, ◌==◌,
  if◌then◌else◌,
}

-- `tokens` counts the channel's elements; the ticker's channel holds one tick at most, and
-- `refilling` says that the goroutine has not returned, nor the ticker been stopped.
pub record Bucket : Type 0 where
  pub capacity : ℕ
  pub interval : ℕ
  pub tokens : ℕ
  pub tick_pending : Bool
  pub refilling : Bool
  pub closed : Bool

abbrev pub second : ℕ
second = 1_000_000_000

-- The rate, at least 1.
unfoldable pub clamp : ℤ → ℕ
clamp rate = if ltb_ℤ rate (pos 1) then 1 else pos_part rate

-- The bucket for an interval in nanoseconds; time.NewTicker panics on an interval of 0: `none`.
unfoldable pub with_interval : ℕ → ℕ → Option Bucket
with_interval rate interval =
    if interval == 0
    then none
    else some (record {
      capacity = rate;
      interval = interval;
      tokens = 0;
      tick_pending = false;
      refilling = true;
      closed = false;
    })

unfoldable pub new_bucket : ℤ → Option Bucket
unfolding clamp with_interval
new_bucket rate = with_interval (clamp rate) (second / clamp rate)

-- How a call of Wait returns: nil, ctx.Err() or ErrClosed.
pub data Outcome : Type 0 where
  granted cancelled bucket_closed : Outcome

pub data Move : Type 0 where
  ticks refills stops closes : Move
  waits : Outcome → Move

abbrev when : Bool → Bucket → Option Bucket
when ready b = if ready then some b else none

-- The inner `select` of refill: a full bucket drops the tick.
unfoldable pub add_token : Bucket → Bucket
add_token b = if ltb b.tokens b.capacity then record b { tokens = b.tokens + 1 } else b

-- The select of Wait, by the case that it takes. A context may be done at any time.
unfoldable pub wait : Outcome → Bucket → Option Bucket
wait granted b = when (ltb 0 b.tokens) (record b { tokens = b.tokens - 1 })
wait cancelled b = some b
wait bucket_closed b = when b.closed b

-- One move, and `none` where it is not ready. A tick that finds one pending is lost.
unfoldable pub move : Move → Bucket → Option Bucket
unfolding add_token wait
move ticks b = when b.refilling (record b { tick_pending = true })
move refills b =
    when (b.refilling && b.tick_pending) (record (add_token b) { tick_pending = false })
move stops b = when (b.refilling && b.closed) (record b { refilling = false })
move closes b = some (record b { closed = true })
move (waits o) b = wait o b

abbrev and_then : Option Bucket → (Bucket → Option Bucket) → Option Bucket
and_then none k = none
and_then (some b) k = k b

unfoldable pub run : List Move → Bucket → Option Bucket
unfolding move
run [] b = some b
run (m ∷ ms) b = and_then (move m b) (run ms)
