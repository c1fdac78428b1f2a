-- ===== src/RateLimit/Bucket/Bursts.antt =====
-- How much a bucket that has filled up can grant at once.
use pulse_monitor.Prelude.{
  ℕ, zero, suc, ◌+◌, ◌<◌, ◌≡◌, refl, ap, ◌∙◌, true, false, List, [], ◌∷◌, some, arith,
}
use pulse_monitor.RateLimit.Bucket.Bounds.{grants, count_ticks, IsSound}
use pulse_monitor.RateLimit.Bucket.{Bucket, granted, Move, ticks, refills, waits, move, run}

-- `k` calls of Wait return.
abbrev pub drain : ℕ → List Move → List Move
drain zero ms = ms
drain (suc k) ms = waits granted ∷ drain k ms

-- `n` times, a tick comes and its token is granted.
abbrev pub pass_on : ℕ → List Move
pass_on zero = []
pass_on (suc n) = ticks ∷ refills ∷ waits granted ∷ pass_on n

-- Full, and its goroutine waits for the next tick.
pub record IsFull (b : Bucket) : Type 0 where
  pub full : b.tokens ≡ b.capacity
  pub running : b.refilling ≡ true
  pub idle : b.tick_pending ≡ false

move-granted :
    (k : ℕ) (b : Bucket)
    → b.tokens ≡ suc k
    → move (waits granted) b ≡ some (record b { tokens = k })
unfolding move
move-granted k b e = ground arith

run-drain :
    (k : ℕ) (ms : List Move) (b : Bucket)
    → b.tokens ≡ k
    → run (drain k ms) b ≡ run ms (record b { tokens = 0 })
unfolding run
run-drain zero ms b e = ap (run ms) (ground arith)
run-drain (suc k) ms b e = rw (move-granted k b e) (run-drain k ms (record b { tokens = k }) refl)

run_round :
    (ms : List Move) (b : Bucket)
    → b.tokens ≡ 0
    → 0 < b.capacity
    → b.refilling ≡ true
    → b.tick_pending ≡ false
    → run (ticks ∷ refills ∷ waits granted ∷ ms) b ≡ run ms b
unfolding run
run_round ms b t c r p = ground arith

run-pass_on :
    (n : ℕ) (b : Bucket)
    → b.tokens ≡ 0
    → 0 < b.capacity
    → b.refilling ≡ true
    → b.tick_pending ≡ false
    → run (pass_on n) b ≡ some b
run-pass_on zero b t c r p = unfold run in refl
run-pass_on (suc n) b t c r p = run_round (pass_on n) b t c r p ∙ run-pass_on n b t c r p

grants-pass_on : (n : ℕ) → (grants (pass_on n) ≡ n) × (count_ticks (pass_on n) ≡ n)
grants-pass_on zero = omega arith
grants-pass_on (suc n) = omega (arith, grants-pass_on n)

grants-drain :
    (k : ℕ) (ms : List Move)
    → (grants (drain k ms) ≡ k + grants ms) × (count_ticks (drain k ms) ≡ count_ticks ms)
grants-drain zero ms = omega arith
grants-drain (suc k) ms = omega (arith, grants-drain k ms)

-- A bucket that has filled up can grant its whole capacity on top of its rate: for every n there is
-- a run with n ticks in which capacity + n calls of Wait return nil.
pub full_burst :
    (n : ℕ) (b : Bucket)
    → IsSound b
    → IsFull b
    → let ms = drain b.capacity (pass_on n) in
      (run ms b ≡ some (record b { tokens = 0 }))
      × (count_ticks ms ≡ n)
      × (grants ms ≡ b.capacity + n)
full_burst n b s f = (
  run-drain b.capacity (pass_on n) b f.full
      ∙ run-pass_on n (record b { tokens = 0 }) refl s.capacity_pos f.running f.idle,
  omega (arith, grants-drain b.capacity (pass_on n), grants-pass_on n),
  omega (arith, grants-drain b.capacity (pass_on n), grants-pass_on n),
)
