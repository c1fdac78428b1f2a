-- ===== src/Dashboard/LimitedChecks/Redirects.antt =====
-- The requests that checkOne of internal/monitor/monitor.go sends, with those by which client.Do
-- follows redirects: after the tenth request of a call, net/http follows no further.
use pulse_monitor.Dashboard.HostRates.{
  Visits, is_host, count_requests, count_requests-redirects, requests_to,
}
use pulse_monitor.Monitor.Check.{
  Outside, Call, waits_for, requests, redirects, domain_of, request, limited, after_wait,
  with_domain, check_one,
}
use pulse_monitor.Monitor.Types.{Target}
use pulse_monitor.Prelude.{
  ℕ, suc, ◌+◌, ◌*◌, ◌≤◌, ◌≡◌, refl, List, [], ◌∷◌, map, length, Option, none, some, arith, All,
  if◌then◌else◌, Bool-cases, inl, inr,
}
use pulse_monitor.Result.{Result, ok, err}
use pulse_monitor.Text.{Text}

abbrev count_sent : List Call → ℕ
count_sent [] = 0
count_sent (waits_for domain ∷ cs) = count_sent cs
count_sent (requests url ∷ cs) = suc (count_sent cs)
count_sent (redirects url ∷ cs) = suc (count_sent cs)

-- The requests that the checks of the targets on the host `k` have sent, wherever they were redirected
-- to.
abbrev pub sent_for : Text → Visits → ℕ
sent_for k [] = 0
sent_for k ((w, t) ∷ vs) =
    (if is_host k (domain_of w t.url) then count_sent (check_one w t).calls else 0) + sent_for k vs

-- What net/http documents of a client without CheckRedirect: no more than ten requests in a row.
abbrev pub IsCapped : Outside × Target → Type 0
IsCapped (w, t) = length (w.get t.url).follows ≤ 9

count_sent-redirects : (us : List Text) → count_sent (map redirects us) ≡ length us
count_sent-redirects [] = refl
count_sent-redirects (u ∷ us) = omega (arith, count_sent-redirects us)

abbrev IsTenfold : List Call → Type 0
IsTenfold cs = count_sent cs ≤ 10 * count_requests cs

module _ (w : Outside) (t : Target) (h : length (w.get t.url).follows ≤ 9) where
  at_once-IsTenfold : (o : Option Text) → IsTenfold (request w t [] o).calls
  unfolding request
  at_once-IsTenfold (some e) = omega arith
  at_once-IsTenfold none =
      let us = (w.get t.url).follows in
      omega (arith, h, count_sent-redirects us, count_requests-redirects us)

  waited-IsTenfold :
      (k : Text) (o : Option Text) → IsTenfold (request w t (waits_for k ∷ []) o).calls
  unfolding request
  waited-IsTenfold k (some e) = omega arith
  waited-IsTenfold k none =
      let us = (w.get t.url).follows in
      omega (arith, h, count_sent-redirects us, count_requests-redirects us)

  after_wait-IsTenfold : (k : Text) (o : Option Text) → IsTenfold (after_wait w t k o).calls
  after_wait-IsTenfold k none = waited-IsTenfold k (w.build t.url)
  after_wait-IsTenfold k (some e) = omega arith

  limited-IsTenfold :
      (k : Text) (o : Option (Text → Option Text)) → IsTenfold (limited w t k o).calls
  unfolding limited
  limited-IsTenfold k none = at_once-IsTenfold (w.build t.url)
  limited-IsTenfold k (some wait) = after_wait-IsTenfold k (wait k)

  with_domain-IsTenfold : (r : Result Text Text) → IsTenfold (with_domain w t r).calls
  with_domain-IsTenfold (err e) = omega arith
  with_domain-IsTenfold (ok k) = limited-IsTenfold k w.limiter

  check_one-IsTenfold : IsTenfold (check_one w t).calls
  unfolding check_one
  check_one-IsTenfold = with_domain-IsTenfold (domain_of w t.url)

-- The checks of the targets on a host send at most ten requests for each call of client.Do.
pub sent_for-le : (k : Text) (vs : Visits) → All IsCapped vs → sent_for k vs ≤ 10 * requests_to k vs
sent_for-le k [] h = omega arith
sent_for-le k ((w, t) ∷ vs) h =
    let i = check_one-IsTenfold w t h.0 in
    let j = sent_for-le k vs h.1 in
    elim (Bool-cases (is_host k (domain_of w t.url))) [
      | inl e ↦ rw e (omega (arith, i, j))
      | inr e ↦ rw e (omega (arith, j))
    ]
