-- ===== src/Monitor/Types.antt =====
-- The value types of internal/monitor/monitor.go. Times and durations are in nanoseconds; an error
-- is its text, `r.Err.Error()`.
use pulse_monitor.Prelude.{ℕ, Bool, true, ◌||◌, Option, none, some, ltb, leb}
use pulse_monitor.Text.{Text}

pub record Target : Type 0 where
  pub id : Text
  pub url : Text

pub record CheckResult : Type 0 where
  pub target : Target
  pub status_code : ℕ
  pub duration : ℕ
  pub error : Option Text
  pub checked_at : ℕ

pub record Stats : Type 0 where
  pub target_id : Text
  pub total_checks : ℕ
  pub failures : ℕ
  pub p50_latency_ms : ℕ
  pub p99_latency_ms : ℕ

-- `Result.Failed`, from its two fields.
unfoldable pub is_failure : Option Text → ℕ → Bool
is_failure (some e) status = true
is_failure none status = ltb status 200 || leb 400 status

unfoldable pub failed : CheckResult → Bool
unfolding is_failure
failed r = is_failure r.error r.status_code
