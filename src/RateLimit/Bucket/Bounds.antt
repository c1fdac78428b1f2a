-- ===== src/RateLimit/Bucket/Bounds.antt =====
-- What a bucket holds and what it grants.
use pulse_monitor.Prelude.Int.{ℤ}
use pulse_monitor.Prelude.{
  ℕ, suc, ◌+◌, ◌≤◌, ◌<◌, ◌≡◌, true, ◌||◌, List, [], ◌∷◌, some, subst, inl, inr, Option-cases, arith,
  if◌then◌else◌,
}
use pulse_monitor.RateLimit.Bucket.{
  Bucket, granted, cancelled, bucket_closed, Move, ticks, refills, stops, closes, waits, new_bucket,
  move, run,
}

-- The moves of one kind in a history.
abbrev pub grants : List Move → ℕ
grants [] = 0
grants (waits granted ∷ ms) = suc (grants ms)
grants (_ ∷ ms) = grants ms

abbrev pub count_ticks : List Move → ℕ
count_ticks [] = 0
count_ticks (ticks ∷ ms) = suc (count_ticks ms)
count_ticks (_ ∷ ms) = count_ticks ms

abbrev pub pending : Bucket → ℕ
pending b = if b.tick_pending then 1 else 0

-- At most a capacity of tokens is stored; the goroutine returns only after Close.
pub record IsSound (b : Bucket) : Type 0 where
  pub capacity_pos : 0 < b.capacity
  pub stored : b.tokens ≤ b.capacity
  pub stopped_closed : b.refilling || b.closed ≡ true

pub new_bucket-IsSound : (rate : ℤ) {b : Bucket} → new_bucket rate ≡ some b → IsSound b
unfolding new_bucket
new_bucket-IsSound rate h = ground arith

pub move-IsSound :
    (m : Move) (b : Bucket) {b' : Bucket} → move m b ≡ some b' → IsSound b → IsSound b'
unfolding move
move-IsSound (waits granted) b h s = ground arith
move-IsSound (waits cancelled) b h s = ground arith
move-IsSound (waits bucket_closed) b h s = ground arith
move-IsSound ticks b h s = ground arith
move-IsSound refills b h s = ground arith
move-IsSound stops b h s = ground arith
move-IsSound closes b h s = ground arith

-- A token granted was stored, or came with a tick.
pub move_budget :
    (m : Move) (b : Bucket) {b' : Bucket}
    → move m b ≡ some b'
    → (grants (m ∷ []) + b'.tokens + pending b' ≤ b.tokens + pending b + count_ticks (m ∷ []))
      × (b'.capacity ≡ b.capacity)
unfolding move
move_budget (waits granted) b h = ground arith
move_budget (waits cancelled) b h = ground arith
move_budget (waits bucket_closed) b h = ground arith
move_budget ticks b h = ground arith
move_budget refills b h = ground arith
move_budget stops b h = ground arith
move_budget closes b h = ground arith

pub grants-cons : (m : Move) (ms : List Move) → grants (m ∷ ms) ≡ grants (m ∷ []) + grants ms
grants-cons (waits granted) ms = omega arith
grants-cons (waits cancelled) ms = omega arith
grants-cons (waits bucket_closed) ms = omega arith
grants-cons ticks ms = omega arith
grants-cons _ ms = omega arith

pub count_ticks-cons :
    (m : Move) (ms : List Move) → count_ticks (m ∷ ms) ≡ count_ticks (m ∷ []) + count_ticks ms
count_ticks-cons ticks ms = omega arith
count_ticks-cons _ ms = omega arith

-- To take apart a history that runs.
pub run-cons :
    (m : Move) (ms : List Move) (b : Bucket) {b' : Bucket}
    → run (m ∷ ms) b ≡ some b'
    → (c : Bucket) × (move m b ≡ some c) × (run ms c ≡ some b')
unfolding run
run-cons m ms b h = elim (Option-cases (move m b)) [
  | inl e ↦ cc (rw e at h)
  | inr (c, e) ↦ (c, e, rw e at h)
]

pub run-nil : (b : Bucket) {b' : Bucket} → run [] b ≡ some b' → b ≡ b'
unfolding run
run-nil b h = cc

pub run-IsSound :
    (ms : List Move) (b : Bucket) {b' : Bucket} → run ms b ≡ some b' → IsSound b → IsSound b'
run-IsSound [] b h s = subst IsSound (run-nil b h) s
run-IsSound (m ∷ ms) b h s =
    let (c, e, h') = run-cons m ms b h in run-IsSound ms c h' (move-IsSound m b e s)

pub run_budget :
    (ms : List Move) (b : Bucket) {b' : Bucket}
    → run ms b ≡ some b'
    → grants ms + b'.tokens + pending b' ≤ b.tokens + pending b + count_ticks ms
run_budget [] b h = rw (← run-nil b h) (omega arith)
run_budget (m ∷ ms) b h =
    let (c, e, h') = run-cons m ms b h in
    omega
      (arith, (move_budget m b e).0, run_budget ms c h', grants-cons m ms, count_ticks-cons m ms)

-- Whatever happens to a sound bucket, the calls of Wait that return nil are at most one more than
-- its capacity and the ticks of its ticker together, and it stays sound: it never stores more
-- tokens than its capacity.
run_rate :
    (ms : List Move) (b : Bucket) {b' : Bucket}
    → IsSound b
    → run ms b ≡ some b'
    → (grants ms ≤ b.capacity + 1 + count_ticks ms) × IsSound b'
run_rate ms b s h = (ground (arith, run_budget ms b h), run-IsSound ms b h s)

-- A new bucket allows no burst: from its creation on there are never more grants than ticks.
pub new_bucket_rate :
    (rate : ℤ) (ms : List Move) {b b' : Bucket}
    → new_bucket rate ≡ some b
    → run ms b ≡ some b'
    → grants ms ≤ count_ticks ms
unfolding new_bucket
new_bucket_rate rate ms {b} n h = ground (arith, run_budget ms b h)
