-- ===== src/RateLimit/Manager/Buckets.antt =====
-- The buckets of a manager, and what they grant in a part of a history.
use pulse_monitor.Prelude.Int.{ℤ}
use pulse_monitor.Prelude.{
  ℕ, ◌/◌, ◌≡◌, refl, sym, ap, ◌∙◌, subst, inl, inr, List, [], ◌∷◌, Option, none, some, arith,
  Bool-cases, Option-cases,
}
use pulse_monitor.RateLimit.Bucket.Bounds.{IsSound, new_bucket-IsSound, move-IsSound, move_budget}
use pulse_monitor.RateLimit.Bucket.{
  Bucket, granted, cancelled, bucket_closed, Move, ticks, refills, stops, closes, waits, second,
  clamp, new_bucket, move,
}
use pulse_monitor.RateLimit.Manager.Isolation.{run-cons, run-nil}
use pulse_monitor.RateLimit.Manager.Steps.{
  move_at-inv, move_at-absent, shut-absent, act-find, enter-inv, find-cons, move_for, apply,
}
use pulse_monitor.RateLimit.Manager.{
  Manager, find, move_at, enter, close, Act, enters, returns, fires, refills_at, stops_at, shuts,
  act, run, new_manager,
}
use pulse_monitor.Text.{Text, text_eq}

abbrev pub interval_of : ℤ → ℕ
interval_of rate = second / clamp rate

-- A sound bucket of the rate: its capacity, and the interval of its ticker.
pub record IsOf (rate : ℤ) (b : Bucket) : Type 0 where
  pub interval : b.interval ≡ interval_of rate
  pub capacity : b.capacity ≡ clamp rate
  pub sound : IsSound b

new_bucket-shape :
    (rate : ℤ) {b : Bucket}
    → new_bucket rate ≡ some b
    → (b.interval ≡ interval_of rate) × (b.capacity ≡ clamp rate)
unfolding new_bucket
new_bucket-shape rate h = ground arith

new_bucket-IsOf : (rate : ℤ) {b : Bucket} → new_bucket rate ≡ some b → IsOf rate b
new_bucket-IsOf rate {b} h = record {
  interval = (new_bucket-shape rate {b = b} h).0;
  capacity = (new_bucket-shape rate {b = b} h).1;
  sound = new_bucket-IsSound rate h;
}

move-interval :
    (mv : Move) (b : Bucket) {b' : Bucket} → move mv b ≡ some b' → b'.interval ≡ b.interval
unfolding move
move-interval (waits granted) b h = ground arith
move-interval (waits cancelled) b h = ground arith
move-interval (waits bucket_closed) b h = ground arith
move-interval ticks b h = ground arith
move-interval refills b h = ground arith
move-interval stops b h = ground arith
move-interval closes b h = ground arith

apply-IsOf :
    (rate : ℤ) (o : Option Move) (b : Bucket) {b' : Bucket}
    → apply o b ≡ some b'
    → IsOf rate b
    → IsOf rate b'
apply-IsOf rate none b h s = subst (IsOf rate) (cc) s
apply-IsOf rate (some mv) b h s = record {
  interval = move-interval mv b h ∙ s.interval;
  capacity = (move_budget mv b h).1 ∙ s.capacity;
  sound = move-IsSound mv b h s.sound;
}

-- The bucket of a key, if it has one.
abbrev pub AllOf : ℤ → Option Bucket → Type 0
AllOf rate none = Unit
AllOf rate (some b) = IsOf rate b

move_at-rate :
    (j : Text) (mv : Move) (m : Manager) {m' : Manager}
    → move_at j mv m (find j m.buckets) ≡ some m'
    → m'.rate_per_second ≡ m.rate_per_second
move_at-rate j mv m h =
    let (c, c', f, g, p) = move_at-inv j mv m (find j m.buckets) h in
    ap (λ x. x.rate_per_second) (sym p)

act-rate :
    (a : Act) (m : Manager) {m' : Manager}
    → act a m ≡ some m'
    → m'.rate_per_second ≡ m.rate_per_second
unfolding act close
act-rate (enters j) m {m'} h = elim (enter-inv j m {m' = m'} h) [
  | inl (c, f, p) ↦ ap (λ x. x.rate_per_second) (sym p)
  | inr (c, n, g, p) ↦ ap (λ x. x.rate_per_second) (sym p)
]
act-rate (returns j o) m h = move_at-rate j (waits o) m h
act-rate (fires j) m h = move_at-rate j ticks m h
act-rate (refills_at j) m h = move_at-rate j refills m h
act-rate (stops_at j) m h = move_at-rate j stops m h
act-rate shuts m h = cc

enter-AllOf :
    (k j : Text) (m : Manager) {m' : Manager}
    → enter j m ≡ some m'
    → find k m.buckets ≡ none
    → AllOf m.rate_per_second (find k m'.buckets)
enter-AllOf k j m {m'} h e = elim (enter-inv j m {m' = m'} h) [
  | inl (c, f, p) ↦ rw (← p, e) tt
  | inr (c, n, g, p) ↦
      rw (← p, find-cons k j c m.buckets)
        (elim (Bool-cases (text_eq j k)) [
          | inl same ↦ rw same (new_bucket-IsOf m.rate_per_second g)
          | inr other ↦ rw (other, e) tt
        ])
]

absent-AllOf :
    (k : Text) (a : Act) (m : Manager) {m' : Manager}
    → act a m ≡ some m'
    → find k m.buckets ≡ none
    → AllOf m.rate_per_second (find k m'.buckets)
unfolding act
absent-AllOf k (enters j) m h e = enter-AllOf k j m h e
absent-AllOf k (returns j o) m h e = rw (move_at-absent k j (waits o) m h e).1 tt
absent-AllOf k (fires j) m h e = rw (move_at-absent k j ticks m h e).1 tt
absent-AllOf k (refills_at j) m h e = rw (move_at-absent k j refills m h e).1 tt
absent-AllOf k (stops_at j) m h e = rw (move_at-absent k j stops m h e).1 tt
absent-AllOf k shuts m h e = rw (shut-absent k m h e) tt

act-AllOf :
    (k : Text) (a : Act) (m : Manager) {m' : Manager}
    → act a m ≡ some m'
    → AllOf m.rate_per_second (find k m.buckets)
    → AllOf m'.rate_per_second (find k m'.buckets)
act-AllOf k a m h i = rw (act-rate a m h) (elim (Option-cases (find k m.buckets)) [
  | inl e ↦ absent-AllOf k a m h e
  | inr (b, e) ↦
      let (b', e', g) = act-find k a m b h e in
      rw e' (apply-IsOf m.rate_per_second (move_for k a) b g (rw e at i))
])

run-AllOf :
    (k : Text) (acts : List Act) (m : Manager) {m' : Manager}
    → run acts m ≡ some m'
    → AllOf m.rate_per_second (find k m.buckets)
    → AllOf m'.rate_per_second (find k m'.buckets) × (m'.rate_per_second ≡ m.rate_per_second)
run-AllOf k [] m h i = rw (← run-nil m h) (i, refl)
run-AllOf k (a ∷ rest) m h i =
    let (n, f, h') = run-cons a rest m h in
    let (j, r) = run-AllOf k rest n h' (act-AllOf k a m f i) in (j, r ∙ act-rate a m f)

-- Every bucket of a manager is a sound bucket of the manager's rate.
pub new_manager-IsOf :
    (rate : ℤ) (acts : List Act) {m : Manager} (k : Text) {b : Bucket}
    → run acts (new_manager rate) ≡ some m
    → find k m.buckets ≡ some b
    → IsOf rate b
unfolding new_manager find
new_manager-IsOf rate acts k h e =
    let (i, r) = run-AllOf k acts (new_manager rate) h tt in rw (e, r) at i
