-- ===== src/RateLimit/Manager/Isolation.antt =====
-- The bucket of one key in a history of the manager, against the bucket alone.
use pulse_monitor.Prelude.Int.{ℤ}
use pulse_monitor.Prelude.{
  ℕ, ◌+◌, ◌≤◌, ◌≡◌, refl, ap, ◌∙◌, inl, inr, List, [], ◌∷◌, Option, none, some, arith, Bool-cases,
  Option-cases,
}
use pulse_monitor.RateLimit.Bucket
use pulse_monitor.RateLimit.Bucket.Bounds.{
  grants, count_ticks, pending, grants-cons, count_ticks-cons, move_budget,
}
use pulse_monitor.RateLimit.Bucket.{
  Bucket, Outcome, granted, cancelled, bucket_closed, Move, ticks, refills, stops, closes, waits,
  new_bucket, move,
}
use pulse_monitor.RateLimit.Manager.Steps.{
  move_at-absent, shut-absent, act-find, enter-inv, find-cons, move_for, cons_some, moves_at, apply,
}
use pulse_monitor.RateLimit.Manager.{
  Manager, find, enter, Act, enters, returns, fires, refills_at, stops_at, shuts, act, run,
  new_manager,
}
use pulse_monitor.Text.{Text, text_eq}

pub run-cons :
    (a : Act) (rest : List Act) (m : Manager) {m' : Manager}
    → run (a ∷ rest) m ≡ some m'
    → (n : Manager) × (act a m ≡ some n) × (run rest n ≡ some m')
unfolding run
run-cons a rest m h = elim (Option-cases (act a m)) [
  | inl e ↦ cc (rw e at h)
  | inr (n, e) ↦ (n, e, rw e at h)
]

pub run-nil : (m : Manager) {m' : Manager} → run [] m ≡ some m' → m ≡ m'
unfolding run
run-nil m h = cc

bucket_run-cons :
    (o : Option Move) (ms : List Move) (b c : Bucket)
    → apply o b ≡ some c
    → Bucket.run (cons_some o ms) b ≡ Bucket.run ms c
bucket_run-cons none ms b c h = let p : b ≡ c = cc in ap (Bucket.run ms) p
bucket_run-cons (some mv) ms b c h = unfold Bucket.run in rw h

-- Once a key has a bucket, that bucket is never replaced, and any history of the manager does to it
-- exactly what the bucket's own machine does on the moves of the history at that key: what happens
-- at other keys does not touch it.
pub run-find :
    (k : Text) (acts : List Act) (m : Manager) {m' : Manager} (b : Bucket)
    → run acts m ≡ some m'
    → find k m.buckets ≡ some b
    → (b' : Bucket) × (find k m'.buckets ≡ some b') × (Bucket.run (moves_at k acts) b ≡ some b')
run-find k [] m b h e = (b, rw (← run-nil m h) e, unfold Bucket.run in refl)
run-find k (a ∷ rest) m b h e =
    let (n, f, h') = run-cons a rest m h in
    let (c, e', g) = act-find k a m b f e in
    let (b', e'', r) = run-find k rest n c h' e' in
    (b', e'', bucket_run-cons (move_for k a) (moves_at k rest) b c g ∙ r)

-- The tokens that the bucket of a key can still grant without a tick.
abbrev pub stock : Option Bucket → ℕ
stock none = 0
stock (some b) = b.tokens + pending b

new_bucket-stock : (rate : ℤ) {b : Bucket} → new_bucket rate ≡ some b → b.tokens + pending b ≡ 0
unfolding new_bucket
new_bucket-stock rate h = ground arith

enter-absent :
    (k j : Text) (m : Manager) {m' : Manager}
    → enter j m ≡ some m'
    → find k m.buckets ≡ none
    → stock (find k m'.buckets) ≡ 0
enter-absent k j m {m'} h e = elim (enter-inv j m {m' = m'} h) [
  | inl (c, f, p) ↦ rw (← p, e)
  | inr (c, n, g, p) ↦
      rw (← p, find-cons k j c m.buckets)
        (elim (Bool-cases (text_eq j k)) [
          | inl same ↦ rw same (new_bucket-stock m.rate_per_second g)
          | inr other ↦ rw (other, e)
        ])
]

-- An act at a key that has no bucket grants nothing there.
act-absent :
    (k : Text) (a : Act) (m : Manager) {m' : Manager}
    → act a m ≡ some m'
    → find k m.buckets ≡ none
    → (grants (cons_some (move_for k a) []) ≡ 0) × (stock (find k m'.buckets) ≡ 0)
unfolding act
act-absent k (enters j) m h e = (refl, enter-absent k j m h e)
act-absent k (returns j o) m h e =
    let (other, f) = move_at-absent k j (waits o) m h e in rw (other, f) (refl, refl)
act-absent k (fires j) m h e =
    let (other, f) = move_at-absent k j ticks m h e in rw (other, f) (refl, refl)
act-absent k (refills_at j) m h e =
    let (other, f) = move_at-absent k j refills m h e in rw (other, f) (refl, refl)
act-absent k (stops_at j) m h e =
    let (other, f) = move_at-absent k j stops m h e in rw (other, f) (refl, refl)
act-absent k shuts m h e = rw (shut-absent k m h e) (refl, refl)

apply_budget :
    (o : Option Move) (b : Bucket) {b' : Bucket}
    → apply o b ≡ some b'
    → grants (cons_some o []) + stock (some b') ≤ stock (some b) + count_ticks (cons_some o [])
apply_budget none b {b'} h = let p : b ≡ b' = cc in rw p (omega arith)
apply_budget (some mv) b h = omega (arith, (move_budget mv b h).0)

pub cons_some-counts :
    (o : Option Move) (ms : List Move)
    → (grants (cons_some o ms) ≡ grants (cons_some o []) + grants ms)
      × (count_ticks (cons_some o ms) ≡ count_ticks (cons_some o []) + count_ticks ms)
cons_some-counts none ms = omega arith
cons_some-counts (some mv) ms = (grants-cons mv ms, count_ticks-cons mv ms)

act_budget :
    (k : Text) (a : Act) (m : Manager) {m' : Manager}
    → act a m ≡ some m'
    → grants (cons_some (move_for k a) []) + stock (find k m'.buckets)
      ≤ stock (find k m.buckets) + count_ticks (cons_some (move_for k a) [])
act_budget k a m h = elim (Option-cases (find k m.buckets)) [
  | inl e ↦ omega (arith, act-absent k a m h e)
  | inr (b, e) ↦
      let (b', e', g) = act-find k a m b h e in rw (e, e') (apply_budget (move_for k a) b g)
]

pub run_budget :
    (k : Text) (acts : List Act) (m : Manager) {m' : Manager}
    → run acts m ≡ some m'
    → grants (moves_at k acts) + stock (find k m'.buckets)
      ≤ stock (find k m.buckets) + count_ticks (moves_at k acts)
run_budget k [] m h = rw (← run-nil m h) (omega arith)
run_budget k (a ∷ rest) m h =
    let (n, f, h') = run-cons a rest m h in
    omega (
      arith,
      act_budget k a m f,
      run_budget k rest n h',
      cons_some-counts (move_for k a) (moves_at k rest),
    )

-- In any history of a new manager, and at every key, the calls of Wait for that key that return nil
-- are at most as many as the ticks of that key's own ticker.
pub new_manager_rate :
    (rate : ℤ) (acts : List Act) {m : Manager}
    → run acts (new_manager rate) ≡ some m
    → (k : Text) → grants (moves_at k acts) ≤ count_ticks (moves_at k acts)
unfolding new_manager find
new_manager_rate rate acts h k = omega (arith, run_budget k acts (new_manager rate) h)
