-- ===== src/Dashboard/HostRates.antt =====
-- The requests that checks make to one host, against the ticks of its bucket.
use native.Mathlib.Nat.{mul-le-mul_right}
use pulse_monitor.Monitor.Check.{
  Outside, Call, waits_for, requests, redirects, domain_of, request, after_wait, limited,
  with_domain, check_one,
}
use pulse_monitor.Monitor.Types.{Target}
use pulse_monitor.Prelude.Int.{ℤ}
use pulse_monitor.Prelude.{
  ℕ, suc, refl, map, ◌+◌, ◌-◌, ◌*◌, ◌/◌, ◌≤◌, ◌≡◌, Bool, false, List, [], ◌∷◌, Option, none, some,
  arith, All, if◌then◌else◌, Bool-cases, inl, inr, subst, sym,
}
use pulse_monitor.RateLimit.Bucket.Bounds.{grants, count_ticks}
use pulse_monitor.RateLimit.Manager.Isolation.{new_manager_rate}
use pulse_monitor.RateLimit.Manager.Steps.{moves_at}
use pulse_monitor.RateLimit.Manager.Buckets.{new_manager-IsOf}
use pulse_monitor.RateLimit.Manager.Pace.{Timed, acts_of, IsPaced, IsBefore, ticks_at-le}
use pulse_monitor.RateLimit.Manager.{Manager, Act, find, run, new_manager}
use pulse_monitor.RateLimit.Bucket.{Bucket, second, clamp}
use pulse_monitor.Result.{Result, ok, err}
use pulse_monitor.Text.Split.{text_eq_iff}
use pulse_monitor.Text.{Text, text_eq}

-- The checks that a process has made, each with what it met outside.
abbrev pub Visits : Type 0
Visits = List (Outside × Target)

abbrev pub is_host : Text → Result Text Text → Bool
is_host k (ok domain) = text_eq domain k
is_host k (err e) = false

-- The calls of client.Do.
abbrev pub count_requests : List Call → ℕ
count_requests [] = 0
count_requests (requests url ∷ cs) = suc (count_requests cs)
count_requests (waits_for domain ∷ cs) = count_requests cs
count_requests (redirects url ∷ cs) = count_requests cs

pub count_requests-redirects : (us : List Text) → count_requests (map redirects us) ≡ 0
count_requests-redirects [] = refl
count_requests-redirects (u ∷ us) = count_requests-redirects us

-- The calls of client.Do for the targets on the host `k`.
abbrev pub requests_to : Text → Visits → ℕ
requests_to k [] = 0
requests_to k ((w, t) ∷ vs) =
    (if is_host k (domain_of w t.url) then count_requests (check_one w t).calls else 0)
    + requests_to k vs

abbrev pub passed : Option Text → ℕ
passed none = 1
passed (some e) = 0

-- Whether the limiter let the check through.
abbrev pub passes : Option (Text → Option Text) → Text → ℕ
passes none k = 0
passes (some wait) k = passed (wait k)

-- The checks of the host `k` whose wait on the limiter returned nil.
abbrev pub admitted : Text → Visits → ℕ
admitted k [] = 0
admitted k ((w, t) ∷ vs) =
    (if is_host k (domain_of w t.url) then passes w.limiter k else 0) + admitted k vs

-- The pool has a limiter.
abbrev pub HasLimiter : Outside × Target → Type 0
HasLimiter v = (wait : Text → Option Text) × (v.0.limiter ≡ some wait)

request-count :
    (w : Outside) (t : Target) (k : Text) (o : Option Text)
    → count_requests (request w t (waits_for k ∷ []) o).calls ≤ 1
unfolding request
request-count w t k none = omega (arith, count_requests-redirects (w.get t.url).follows)
request-count w t k (some e) = omega arith

after_wait-count :
    (w : Outside) (t : Target) (k : Text) (o : Option Text)
    → count_requests (after_wait w t k o).calls ≤ passed o
after_wait-count w t k none = request-count w t k (w.build t.url)
after_wait-count w t k (some e) = omega arith

limited-count :
    (w : Outside) (t : Target) (k : Text) (o : Option (Text → Option Text))
    (wait : Text → Option Text)
    → o ≡ some wait
    → count_requests (limited w t k o).calls ≤ passes o k
unfolding limited
limited-count w t k none wait e = cc
limited-count w t k (some f) wait e = after_wait-count w t k (f k)

with_domain-count :
    (k : Text) (w : Outside) (t : Target) (r : Result Text Text)
    → HasLimiter (w, t)
    → (if is_host k r then count_requests (with_domain w t r).calls else 0)
      ≤ (if is_host k r then passes w.limiter k else 0)
with_domain-count k w t (err e) (wait, l) = omega arith
with_domain-count k w t (ok d) (wait, l) = elim (Bool-cases (text_eq d k)) [
  | inl e ↦ rw e (
      subst (λ x. count_requests (limited w t x w.limiter).calls ≤ passes w.limiter k)
        (sym ((text_eq_iff d k).0 e)) (limited-count w t k w.limiter wait l))
  | inr e ↦ rw e (omega arith)
]

check_one-count :
    (k : Text) (w : Outside) (t : Target)
    → HasLimiter (w, t)
    → (if is_host k (domain_of w t.url) then count_requests (check_one w t).calls else 0)
      ≤ (if is_host k (domain_of w t.url) then passes w.limiter k else 0)
unfolding check_one
check_one-count k w t l = with_domain-count k w t (domain_of w t.url) l

requests_to-le-admitted :
    (k : Text) (vs : Visits) → All HasLimiter vs → requests_to k vs ≤ admitted k vs
requests_to-le-admitted k [] h = omega arith
requests_to-le-admitted k ((w, t) ∷ vs) h =
    omega (arith, check_one-count k w t h.0, requests_to-le-admitted k vs h.1)

requests_to-le-count_ticks :
    (rate : ℤ) (acts : List Act) {m : Manager} (k : Text) (vs : Visits)
    → run acts (new_manager rate) ≡ some m
    → All HasLimiter vs
    → admitted k vs ≤ grants (moves_at k acts)
    → requests_to k vs ≤ count_ticks (moves_at k acts)
requests_to-le-count_ticks rate acts k vs r l a =
    omega (arith, requests_to-le-admitted k vs l, new_manager_rate rate acts r k, a)

-- However the checks of a pool and its limiter interleave: let every wait of a check that was let
-- through be one of the limiter's waits that returned nil, and let the ticker of the host, from its
-- start on, tick no faster than one tick in each of the intervals that NewBucket gave it. Then the
-- calls of client.Do for the targets on the host, at one interval for each, take no longer than the time
-- since that start; and the interval is a second divided by the rate (1 if it is below 1), rounded down.
pub requests_to-pace :
    (rate : ℤ) (h : Timed) {m : Manager} (k : Text) (b : Bucket) (vs : Visits) (start now : ℕ)
    → run (acts_of h) (new_manager rate) ≡ some m
    → find k m.buckets ≡ some b
    → All HasLimiter vs
    → admitted k vs ≤ grants (moves_at k (acts_of h))
    → IsPaced b.interval k (start + b.interval) h
    → IsBefore now h
    → (requests_to k vs * b.interval ≤ now - start) × (b.interval ≡ second / clamp rate)
requests_to-pace rate h k b vs start now r f l a p t = (
  (let n = requests_to-le-count_ticks rate (acts_of h) k vs r l a in
      omega (arith, mul-le-mul_right b.interval n, ticks_at-le b.interval k start now h p t)),
  (new_manager-IsOf rate (acts_of h) k r f).interval,
)
