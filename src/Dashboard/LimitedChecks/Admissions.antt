-- ===== src/Dashboard/LimitedChecks/Admissions.antt =====
-- How many checks of a host a call of Wait lets through.
use pulse_monitor.Dashboard.HostRates.{Visits, admitted}
use pulse_monitor.Dashboard.LimitedChecks.{wait_error, with_limiter}
use pulse_monitor.Monitor.Check.{Outside, host_or_error, domain_of}
use pulse_monitor.Monitor.Types.{Target}
use pulse_monitor.Prelude.{
  ℕ, ◌+◌, ◌≤◌, ◌≡◌, refl, ap, ◌∙◌, List, [], ◌∷◌, ◌++◌, Option, none, arith,
}
use pulse_monitor.RateLimit.Bucket.Bounds.{grants}
use pulse_monitor.RateLimit.Bucket.{Outcome, granted, cancelled, bucket_closed}
use pulse_monitor.RateLimit.Manager.Isolation.{cons_some-counts}
use pulse_monitor.RateLimit.Manager.Pace.{acts_of}
use pulse_monitor.RateLimit.Manager.Steps.{moves_at, move_for}
use pulse_monitor.RateLimit.Manager.{Act, returns}
use pulse_monitor.Result.{Result, ok, err}
use pulse_monitor.Text.{Text}

pub admitted-append : (k : Text) (a b : Visits) → admitted k (a ++ b) ≡ admitted k a + admitted k b
admitted-append k [] b = omega arith
admitted-append k ((w, t) ∷ a) b = omega (arith, admitted-append k a b)

pub acts_of-snoc :
    (h : List (ℕ × Act)) (time : ℕ) (a : Act) → acts_of (h ++ (time, a) ∷ []) ≡ acts_of h ++ a ∷ []
acts_of-snoc [] time a = refl
acts_of-snoc ((u, b) ∷ h) time a = ap (◌∷◌ b) (acts_of-snoc h time a)

grants-snoc :
    (k : Text) (bs : List Act) (a : Act)
    → grants (moves_at k (bs ++ a ∷ [])) ≡ grants (moves_at k bs) + grants (moves_at k (a ∷ []))
grants-snoc k [] a = omega arith
grants-snoc k (b ∷ bs) a = omega (
  arith,
  grants-snoc k bs a,
  (cons_some-counts (move_for k b) (moves_at k (bs ++ a ∷ []))).0,
  (cons_some-counts (move_for k b) (moves_at k bs)).0,
)

pub granted_at-snoc :
    (k : Text) (h : List (ℕ × Act)) (time : ℕ) (a : Act)
    → grants (moves_at k (acts_of (h ++ (time, a) ∷ [])))
      ≡ grants (moves_at k (acts_of h)) + grants (moves_at k (a ∷ []))
granted_at-snoc k h time a =
    ap (λ l. grants (moves_at k l)) (acts_of-snoc h time a) ∙ grants-snoc k (acts_of h) a

-- The host of a URL is no matter of the limiter.
host_or_error-with_limiter :
    (w : Outside) (a : Option Text) (url : Text) (r : Result Text Text)
    → host_or_error (with_limiter w a) url r ≡ host_or_error w url r
unfolding host_or_error
host_or_error-with_limiter w a url (err e) = refl
host_or_error-with_limiter w a url (ok []) = refl
host_or_error-with_limiter w a url (ok (c ∷ h)) = refl

domain_of-with_limiter :
    (w : Outside) (a : Option Text) (url : Text)
    → domain_of (with_limiter w a) url ≡ domain_of w url
unfolding domain_of
domain_of-with_limiter w a url = host_or_error-with_limiter w a url (w.hostname url)

-- A check that Wait has let return is let through just if Wait returned nil.
pub woken-admitted :
    (k host : Text) (w : Outside) (t : Target) (o : Outcome) (e : Text)
    → domain_of w t.url ≡ ok host
    → admitted k ((with_limiter w (wait_error o e), t) ∷ [])
      ≤ grants (moves_at k (returns host o ∷ []))
woken-admitted k host w t granted e d = rw (domain_of-with_limiter w none t.url, d) (ground arith)
woken-admitted k host w t cancelled e d = ground arith
woken-admitted k host w t bucket_closed e d = ground arith

-- A check of a URL without a host is no check of any host.
pub hostless-admitted :
    (k : Text) (w : Outside) (t : Target) {e : Text}
    → domain_of w t.url ≡ err e
    → admitted k ((with_limiter w none, t) ∷ []) ≡ 0
hostless-admitted k w t d = rw (domain_of-with_limiter w none t.url, d) refl
