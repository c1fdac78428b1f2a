-- ===== src/Monitor/Check.antt =====
-- `checkOne` and `domainOf` of internal/monitor/monitor.go. What the check meets outside the program
-- is a parameter: the clock, net/url, net/http and the wait on the limiter.
pub mod Outcomes
use pulse_monitor.Monitor.Types.{Target, CheckResult}
use pulse_monitor.Prelude.{ℕ, List, [], ◌∷◌, ◌++◌, map, Option, none, some}
use pulse_monitor.Result.{Result, ok, err}
use pulse_monitor.Text.{Text, codes}

-- What `client.Do` returns, and how long it took: an error, or the status of a response; and the
-- URLs that it was redirected to and requested on the way.
pub record Reply : Type 0 where
  pub duration : ℕ
  pub answer : Result Text ℕ
  pub follows : List Text

-- `hostname` is url.Parse and then Hostname, `quote` is fmt's `%q`; `wait` and `build` return the
-- text of the error, if there is one; there is no `wait` if the pool has no limiter.
pub record Outside : Type 0 where
  pub now : ℕ
  pub hostname : Text → Result Text Text
  pub quote : Text → Text
  pub limiter : Option (Text → Option Text)
  pub build : Text → Option Text
  pub get : Text → Reply

-- The calls that a check makes on the limiter and on the network, in order: Wait, client.Do, and the
-- requests by which client.Do follows redirects.
pub data Call : Type 0 where
  waits_for requests redirects : Text → Call

pub record Visit : Type 0 where
  pub calls : List Call
  pub outcome : CheckResult

unfoldable pub host_or_error : Outside → Text → Result Text Text → Result Text Text
host_or_error w url (err e) = err e
host_or_error w url (ok []) = err (codes "no host in url " ++ w.quote url)
host_or_error w url (ok (c ∷ h)) = ok (c ∷ h)

unfoldable pub domain_of : Outside → Text → Result Text Text
unfolding host_or_error
domain_of w url = host_or_error w url (w.hostname url)

-- A result with an error and no response.
abbrev pub refused : Outside → Target → Text → Text → CheckResult
refused w t context e = record {
  target = t;
  status_code = 0;
  duration = 0;
  error = some (context ++ e);
  checked_at = w.now;
}

unfoldable pub answered : Outside → Target → ℕ → Result Text ℕ → CheckResult
answered w t d (err e) = record {
  target = t;
  status_code = 0;
  duration = d;
  error = some (codes "monitor: request failed: " ++ e);
  checked_at = w.now;
}
answered w t d (ok status) = record {
  target = t;
  status_code = status;
  duration = d;
  error = none;
  checked_at = w.now;
}

-- From http.NewRequestWithContext on.
unfoldable pub request : Outside → Target → List Call → Option Text → Visit
unfolding answered
request w t before (some e) = record {
  calls = before;
  outcome = refused w t (codes "monitor: build request: ") e;
}
request w t before none =
    let reply = w.get t.url in
    record {
      calls = before ++ requests t.url ∷ map redirects reply.follows;
      outcome = answered w t reply.duration reply.answer;
    }

abbrev pub after_wait : Outside → Target → Text → Option Text → Visit
after_wait w t domain (some e) = record {
  calls = waits_for domain ∷ [];
  outcome = refused w t (codes "monitor: rate limit wait: ") e;
}
after_wait w t domain none = request w t (waits_for domain ∷ []) (w.build t.url)

-- From the limiter on.
unfoldable pub limited : Outside → Target → Text → Option (Text → Option Text) → Visit
unfolding request
limited w t domain none = request w t [] (w.build t.url)
limited w t domain (some wait) = after_wait w t domain (wait domain)

abbrev pub with_domain : Outside → Target → Result Text Text → Visit
with_domain w t (err e) = record {
  calls = [];
  outcome = refused w t (codes "monitor: parse target url: ") e;
}
with_domain w t (ok domain) = limited w t domain w.limiter

unfoldable pub check_one : Outside → Target → Visit
unfolding domain_of limited
check_one w t = with_domain w t (domain_of w t.url)
