-- ===== src/RateLimit/Manager/Steps.antt =====
-- What one act does to the bucket of a key.
use pulse_monitor.Prelude.{
  ◌≡◌, refl, ap, ◌∙◌, ◌⊎◌, inl, inr, true, false, List, [], ◌∷◌, Option, none, some, arith,
  if◌then◌else◌, Bool-cases,
}
use pulse_monitor.RateLimit.Bucket.{
  Bucket, Move, ticks, refills, stops, closes, waits, new_bucket, move,
}
use pulse_monitor.RateLimit.Manager.{
  Manager, find, put, put_back, add_new, forget_bucket, move_at, enter, close, close_all, Act,
  enters, returns, fires, refills_at, stops_at, shuts, act,
}
use pulse_monitor.Text.Split.{text_eq_iff}
use pulse_monitor.Text.{Text, text_eq}

pub find-put :
    (k j : Text) (b : Bucket) (bs : List (Text × Bucket)) {c : Bucket}
    → find j bs ≡ some c
    → find k (put j b bs) ≡ (if text_eq j k then some b else find k bs)
unfolding find put
find-put k j b [] h = cc
find-put k j b ((i, d) ∷ bs) {c} h =
    ground (arith, text_eq_iff i j, text_eq_iff j k, text_eq_iff i k, find-put k j b bs {c = c})

abbrev closed_copy : Option Bucket → Option Bucket
closed_copy none = none
closed_copy (some b) = some (record b { closed = true })

find-close_all :
    (k : Text) (bs : List (Text × Bucket)) → find k (close_all bs) ≡ closed_copy (find k bs)
unfolding find close_all
find-close_all k [] = refl
find-close_all k ((j, b) ∷ bs) = ground (arith, find-close_all k bs)

-- The move that an act makes on the bucket of `k`, if it makes one.
abbrev pub move_for : Text → Act → Option Move
move_for k (enters j) = none
move_for k (returns j o) = if text_eq j k then some (waits o) else none
move_for k (fires j) = if text_eq j k then some ticks else none
move_for k (refills_at j) = if text_eq j k then some refills else none
move_for k (stops_at j) = if text_eq j k then some stops else none
move_for k shuts = some closes

abbrev pub cons_some : Option Move → List Move → List Move
cons_some none ms = ms
cons_some (some mv) ms = mv ∷ ms

-- What a history of the manager does at the key `k`.
abbrev pub moves_at : Text → List Act → List Move
moves_at k [] = []
moves_at k (a ∷ rest) = cons_some (move_for k a) (moves_at k rest)

abbrev pub apply : Option Move → Bucket → Option Bucket
apply none b = some b
apply (some mv) b = move mv b

put_back-inv :
    (j : Text) (m : Manager) {m' : Manager} (o : Option Bucket)
    → put_back j m o ≡ some m'
    → (c : Bucket) × (o ≡ some c) × (record m { buckets = put j c m.buckets } ≡ m')
put_back-inv j m none h = cc
put_back-inv j m (some c) h = (c, refl, cc)

pub move_at-inv :
    (j : Text) (mv : Move) (m : Manager) {m' : Manager} (o : Option Bucket)
    → move_at j mv m o ≡ some m'
    → (c c' : Bucket) × (o ≡ some c)
      × (move mv c ≡ some c')
      × (record m { buckets = put j c' m.buckets } ≡ m')
move_at-inv j mv m none h = cc
move_at-inv j mv m (some c) h =
    let (c', e, e') = put_back-inv j m (move mv c) h in (c, c', refl, e, e')

-- A move on the bucket of `j` is that move on the bucket of `k` if the keys are equal, and leaves it
-- alone otherwise.
move_at-find :
    (k j : Text) (mv : Move) (m : Manager) {m' : Manager} (b : Bucket)
    → move_at j mv m (find j m.buckets) ≡ some m'
    → find k m.buckets ≡ some b
    → (b' : Bucket) × (find k m'.buckets ≡ some b')
      × (apply (if text_eq j k then some mv else none) b ≡ some b')
move_at-find k j mv m b h e =
    let (c, c', f, g, p) = move_at-inv j mv m (find j m.buckets) h in
    rw (← p) (elim (Bool-cases (text_eq j k)) [
      | inl same ↦
          let q : find j m.buckets ≡ find k m.buckets =
            ap (λ x. find x m.buckets) ((text_eq_iff j k).0 same) in
          (c', find-put k j c' m.buckets f ∙ rw same, rw same (ground (arith, f, q, e, g)))
      | inr other ↦ (b, find-put k j c' m.buckets f ∙ rw other e, rw other)
    ])

add_new-inv :
    (j : Text) (m : Manager) {m' : Manager} (o created : Option Bucket)
    → forget_bucket (add_new m j o created) ≡ some m'
    → ((c : Bucket) × (o ≡ some c) × (m ≡ m'))
      ⊎ ((c : Bucket) × (o ≡ none)
          × (created ≡ some c)
          × (record m { buckets = (j, c) ∷ m.buckets } ≡ m'))
add_new-inv j m (some c) created h = inl (c, refl, cc)
add_new-inv j m none (some c) h = inr (c, refl, refl, cc)
add_new-inv j m none none h = cc

-- bucketFor finds a bucket and changes nothing, or makes a new one for a new key.
pub enter-inv :
    (j : Text) (m : Manager) {m' : Manager}
    → enter j m ≡ some m'
    → ((c : Bucket) × (find j m.buckets ≡ some c) × (m ≡ m'))
      ⊎ ((c : Bucket) × (find j m.buckets ≡ none)
          × (new_bucket m.rate_per_second ≡ some c)
          × (record m { buckets = (j, c) ∷ m.buckets } ≡ m'))
unfolding enter
enter-inv j m h = add_new-inv j m (find j m.buckets) (new_bucket m.rate_per_second) h

pub find-cons :
    (k j : Text) (c : Bucket) (bs : List (Text × Bucket))
    → find k ((j, c) ∷ bs) ≡ (if text_eq j k then some c else find k bs)
unfolding find
find-cons k j c bs = refl

-- A new key is not one that has a bucket.
new_key :
    (k j : Text) (bs : List (Text × Bucket)) {b : Bucket}
    → find j bs ≡ none
    → find k bs ≡ some b
    → text_eq j k ≡ false
new_key k j bs n e = elim (Bool-cases (text_eq j k)) [
  | inl same ↦ cc (ap (λ x. find x bs) ((text_eq_iff j k).0 same))
  | inr other ↦ other
]

enter-find :
    (k j : Text) (m : Manager) {m' : Manager} {b : Bucket}
    → enter j m ≡ some m'
    → find k m.buckets ≡ some b
    → find k m'.buckets ≡ some b
enter-find k j m {m'} {b} h e = elim (enter-inv j m {m' = m'} h) [
  | inl (c, f, p) ↦ rw (← p) e
  | inr (c, n, g, p) ↦ rw (← p) (find-cons k j c m.buckets ∙ rw (new_key k j m.buckets n e) e)
]

move-closes : (b : Bucket) → move closes b ≡ some (record b { closed = true })
unfolding move
move-closes b = refl

shut-find :
    (k : Text) (m : Manager) {m' : Manager} {b : Bucket}
    → some (close m) ≡ some m'
    → find k m.buckets ≡ some b
    → find k m'.buckets ≡ some (record b { closed = true })
unfolding close
shut-find k m {m'} h e =
    let p : record m { buckets = close_all m.buckets } ≡ m' = cc in
    rw (← p) (find-close_all k m.buckets ∙ rw e)

-- An act goes on with a bucket that is there as the bucket's own machine does.
pub act-find :
    (k : Text) (a : Act) (m : Manager) {m' : Manager} (b : Bucket)
    → act a m ≡ some m'
    → find k m.buckets ≡ some b
    → (b' : Bucket) × (find k m'.buckets ≡ some b') × (apply (move_for k a) b ≡ some b')
unfolding act
act-find k (enters j) m b h e = (b, enter-find k j m h e, refl)
act-find k (returns j o) m b h e = move_at-find k j (waits o) m b h e
act-find k (fires j) m b h e = move_at-find k j ticks m b h e
act-find k (refills_at j) m b h e = move_at-find k j refills m b h e
act-find k (stops_at j) m b h e = move_at-find k j stops m b h e
act-find k shuts m {m'} b h e =
    (record b { closed = true }, shut-find k m {m' = m'} {b = b} h e, move-closes b)

-- A move at another key leaves a key without a bucket.
pub move_at-absent :
    (k j : Text) (mv : Move) (m : Manager) {m' : Manager}
    → move_at j mv m (find j m.buckets) ≡ some m'
    → find k m.buckets ≡ none
    → (text_eq j k ≡ false) × (find k m'.buckets ≡ none)
move_at-absent k j mv m h e =
    let (c, c', f, g, p) = move_at-inv j mv m (find j m.buckets) h in
    rw (← p) (elim (Bool-cases (text_eq j k)) [
      | inl same ↦ cc (ap (λ x. find x m.buckets) ((text_eq_iff j k).0 same))
      | inr other ↦ (other, find-put k j c' m.buckets f ∙ rw other e)
    ])

pub shut-absent :
    (k : Text) (m : Manager) {m' : Manager}
    → some (close m) ≡ some m'
    → find k m.buckets ≡ none
    → find k m'.buckets ≡ none
unfolding close
shut-absent k m {m'} h e =
    let p : record m { buckets = close_all m.buckets } ≡ m' = cc in
    rw (← p) (find-close_all k m.buckets ∙ rw e)
