-- ===== src/Metrics/Counting.antt =====
-- The counters after any interleaving of checks.
use mathlib.Core.List.{Perm, Permᴰ}
use mathlib.Core.Logic.{∥∥₁_elim}
use native.Mathlib.Nat.{ℕ_set}
use pulse_monitor.Metrics.{
  Metrics, new, Add, in_flight_up, in_flight_down, total_up, failed_up, add, add_all, check_started,
  check_finished,
}
use pulse_monitor.Prelude.Int.{ℤ, pos, negsuc, pos_part, neg_part, ◌+ℤ◌, eq_of_parts}
use pulse_monitor.Prelude.Word.{add64, wrap, wrap-eq, word_half}
use pulse_monitor.Prelude.{
  ℕ, suc, ◌+◌, ◌*◌, ◌≤◌, ◌<◌, ◌≡◌, refl, ◌∙◌, Bool, true, false, List, [], ◌∷◌, ◌++◌, arith, length,
  if◌then◌else◌,
}

-- How often an addition was made.
abbrev pub is_same : Add → Add → Bool
is_same in_flight_up in_flight_up = true
is_same in_flight_down in_flight_down = true
is_same total_up total_up = true
is_same failed_up failed_up = true
is_same _ _ = false

abbrev pub times : Add → List Add → ℕ
times a [] = 0
times a (b ∷ bs) = (if is_same a b then 1 else 0) + times a bs

-- What a counter reads at `z`, with `up` and `down` further steps, while nothing can overflow.
abbrev pub Fits : ℤ → ℕ → Type 0
Fits z n = (pos_part z + n < word_half) × (neg_part z + n < word_half)

step_up :
    (z : ℤ) (n : ℕ)
    → Fits z (suc n)
    → Fits (add64 z (pos 1)) n
      × (pos_part (add64 z (pos 1)) + neg_part z ≡ neg_part (add64 z (pos 1)) + pos_part z + 1)
unfolding add64 ◌+ℤ◌
step_up z n h =
    let e : wrap (z +ℤ pos 1) ≡ z +ℤ pos 1 = wrap-eq (z +ℤ pos 1) (ground arith) in
    rw e (ground arith)

step_down :
    (z : ℤ) (n : ℕ)
    → Fits z (suc n)
    → Fits (add64 z (negsuc 0)) n
      × (pos_part (add64 z (negsuc 0)) + neg_part z + 1
          ≡ neg_part (add64 z (negsuc 0)) + pos_part z)
unfolding add64 ◌+ℤ◌
step_down z n h =
    let e : wrap (z +ℤ negsuc 0) ≡ z +ℤ negsuc 0 = wrap-eq (z +ℤ negsuc 0) (ground arith) in
    rw e (ground arith)

pub record AllFit (m : Metrics) (n : ℕ) : Type 0 where
  pub total : Fits m.checks_total n
  pub in_flight : Fits m.checks_in_flight n
  pub failed : Fits m.checks_failed n

pub record Counts (m m' : Metrics) (os : List Add) : Type 0 where
  pub total :
      pos_part m'.checks_total + neg_part m.checks_total
      ≡ neg_part m'.checks_total + pos_part m.checks_total + times total_up os
  pub failed :
      pos_part m'.checks_failed + neg_part m.checks_failed
      ≡ neg_part m'.checks_failed + pos_part m.checks_failed + times failed_up os
  pub in_flight :
      pos_part m'.checks_in_flight + neg_part m.checks_in_flight + times in_flight_down os
      ≡ neg_part m'.checks_in_flight + pos_part m.checks_in_flight + times in_flight_up os

add-AllFit :
    (a : Add) (m : Metrics) (n : ℕ)
    → AllFit m (suc n)
    → AllFit (add a m) n × Counts m (add a m) (a ∷ [])
unfolding add
add-AllFit in_flight_up m n h = omega (arith, step_up m.checks_in_flight n h.in_flight)
add-AllFit in_flight_down m n h = omega (arith, step_down m.checks_in_flight n h.in_flight)
add-AllFit total_up m n h = omega (arith, step_up m.checks_total n h.total)
add-AllFit failed_up m n h = omega (arith, step_up m.checks_failed n h.failed)

times-cons : (a b : Add) (os : List Add) → times a (b ∷ os) ≡ times a (b ∷ []) + times a os
times-cons a b os = omega arith

pub add_all-Counts :
    (os : List Add) (m : Metrics) → AllFit m (length os) → Counts m (add_all os m) os
unfolding add_all
add_all-Counts [] m h = omega arith
add_all-Counts (a ∷ os) m h =
    let (f, c) = add-AllFit a m (length os) h in
    omega (
      arith,
      c,
      add_all-Counts os (add a m) f,
      times-cons total_up a os,
      times-cons failed_up a os,
      times-cons in_flight_up a os,
      times-cons in_flight_down a os,
    )

-- The checks of a run, each with its verdict, one after the other.
abbrev pub checks : List Bool → List Add
checks [] = []
checks (failed ∷ fs) = check_started ++ (check_finished failed ++ checks fs)

abbrev pub count_failed : List Bool → ℕ
count_failed [] = 0
count_failed (failed ∷ fs) = (if failed then 1 else 0) + count_failed fs

checks-times :
    (fs : List Bool)
    → (times in_flight_up (checks fs) ≡ length fs)
      × (times in_flight_down (checks fs) ≡ length fs)
      × (times total_up (checks fs) ≡ length fs)
      × (times failed_up (checks fs) ≡ count_failed fs)
unfolding check_started check_finished
checks-times [] = omega arith
checks-times (true ∷ fs) = omega (arith, checks-times fs)
checks-times (false ∷ fs) = omega (arith, checks-times fs)

times-perm_d : (c : Add) {xs ys : List Add} → Permᴰ xs ys → times c xs ≡ times c ys
times-perm_d c Permᴰ.nil = refl
times-perm_d c (Permᴰ.cons e p) = rw e (omega (arith, times-perm_d c p))
times-perm_d c (Permᴰ.swap e f) = rw (e, f) (omega arith)
times-perm_d c (Permᴰ.trans p q) = times-perm_d c p ∙ times-perm_d c q

times-perm : (c : Add) {xs ys : List Add} → Perm xs ys → times c xs ≡ times c ys
times-perm c p = ∥∥₁_elim p (ℕ_set _ _) (times-perm_d c)

length-perm_d : {xs ys : List Add} → Permᴰ xs ys → length xs ≡ length ys
length-perm_d Permᴰ.nil = refl
length-perm_d (Permᴰ.cons e p) = omega (arith, length-perm_d p)
length-perm_d (Permᴰ.swap e f) = omega arith
length-perm_d (Permᴰ.trans p q) = length-perm_d p ∙ length-perm_d q

length-perm : {xs ys : List Add} → Perm xs ys → length xs ≡ length ys
length-perm p = ∥∥₁_elim p (ℕ_set _ _) length-perm_d

length-checks-le : (fs : List Bool) → length (checks fs) ≤ 4 * length fs
unfolding check_started check_finished
length-checks-le [] = omega arith
length-checks-le (true ∷ fs) = omega (arith, length-checks-le fs)
length-checks-le (false ∷ fs) = omega (arith, length-checks-le fs)

pub Metrics-eq :
    (m : Metrics) {t f x : ℤ}
    → m.checks_total ≡ t
    → m.checks_in_flight ≡ f
    → m.checks_failed ≡ x
    → m ≡ record { checks_total = t; checks_in_flight = f; checks_failed = x }
Metrics-eq m p q r = λ i. record { checks_total = p i; checks_in_flight = q i; checks_failed = r i }

pub new-AllFit : (n : ℕ) → n < word_half → AllFit new n
unfolding new
new-AllFit n h = omega arith

-- However the atomic additions of a set of finished checks interleave, and as long as there are
-- fewer than 2000000000000000000 of them, the counters end with the number of checks, with the
-- number of failed ones, and with no check in flight.
pub add_all_interleaved :
    (fs : List Bool) (os : List Add)
    → Perm os (checks fs)
    → length fs < 2_000_000_000_000_000_000
    → add_all os new ≡ record {
      checks_total = pos (length fs);
      checks_in_flight = pos 0;
      checks_failed = pos (count_failed fs);
    }
unfolding new
add_all_interleaved fs os p h =
    let c =
      add_all-Counts os new
        (new-AllFit (length os) (omega (arith, length-checks-le fs, length-perm p))) in
    let t = checks-times fs in
    Metrics-eq (add_all os new) (eq_of_parts _ _ (omega (arith, c, t, times-perm total_up p)))
      (eq_of_parts _ _
        (omega (arith, c, t, times-perm in_flight_up p, times-perm in_flight_down p)))
      (eq_of_parts _ _ (omega (arith, c, t, times-perm failed_up p)))
