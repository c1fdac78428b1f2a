-- ===== src/Store/Failures.antt =====
-- The failures that RecentStats counts, against `Result.Failed`.
use pulse_monitor.Monitor.Check.{
  Outside, Call, waits_for, check_one, domain_of, with_domain, after_wait, limited, request,
  answered,
}
use pulse_monitor.Monitor.Tick.{error_text, milliseconds}
use pulse_monitor.Monitor.Types.{Target, CheckResult, is_failure, failed}
use pulse_monitor.Prelude.{ℕ, ◌≡◌, refl, List, [], ◌∷◌, Option, none, some}
use pulse_monitor.Result.{Result, ok, err}
use pulse_monitor.Store.{Row, check_row, row_failure}
use pulse_monitor.Text.{Text}

-- The row that a tick writes for a result.
unfoldable pub row_of : CheckResult → Row
unfolding check_row
row_of r =
    check_row r.target.id r.status_code (milliseconds r.duration) (error_text r.error) r.checked_at

module _ (w : Outside) (t : Target) where
  abbrev IsCounted : CheckResult → Type 0
  IsCounted r = row_failure (row_of r) ≡ failed r

  answered-IsCounted : (d : ℕ) (r : Result Text ℕ) → IsCounted (answered w t d r)
  unfolding answered row_failure row_of check_row failed is_failure
  answered-IsCounted d (err e) = refl
  answered-IsCounted d (ok status) = refl

  request-IsCounted :
      (before : List Call) (o : Option Text) → IsCounted (request w t before o).outcome
  unfolding request row_failure row_of check_row failed is_failure
  request-IsCounted before (some e) = refl
  request-IsCounted before none = answered-IsCounted (w.get t.url).duration (w.get t.url).answer

  after_wait-IsCounted : (d : Text) (o : Option Text) → IsCounted (after_wait w t d o).outcome
  unfolding row_failure row_of check_row failed is_failure
  after_wait-IsCounted d (some e) = refl
  after_wait-IsCounted d none = request-IsCounted (waits_for d ∷ []) (w.build t.url)

  limited-IsCounted :
      (d : Text) (o : Option (Text → Option Text)) → IsCounted (limited w t d o).outcome
  unfolding limited
  limited-IsCounted d none = request-IsCounted [] (w.build t.url)
  limited-IsCounted d (some wait) = after_wait-IsCounted d (wait d)

  with_domain-IsCounted : (r : Result Text Text) → IsCounted (with_domain w t r).outcome
  unfolding row_failure row_of check_row failed is_failure
  with_domain-IsCounted (err e) = refl
  with_domain-IsCounted (ok d) = limited-IsCounted d w.limiter

-- The row of every outcome of a check, whatever the clock, the network and the limiter do, passes
-- the failure filter of RecentStats exactly if the outcome has failed: the errors of a check are
-- never empty, so none of them is stored as NULL.
pub row_failure-check_one :
    (w : Outside) (t : Target)
    → row_failure (row_of (check_one w t).outcome) ≡ failed (check_one w t).outcome
unfolding check_one
row_failure-check_one w t = with_domain-IsCounted w t (domain_of w t.url)
