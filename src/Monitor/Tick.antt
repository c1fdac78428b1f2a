-- ===== src/Monitor/Tick.antt =====
-- `tick` and `Run` of internal/monitor/monitor.go. The calls that a tick makes on the store, the
-- publisher and the log are the list of its effects, in order; what the store answers is a
-- parameter. Every store call has a deadline of its own, so it returns.
pub mod Effects
pub mod Checks
use pulse_monitor.Monitor.Types.{Target, CheckResult, Stats}
use pulse_monitor.Prelude.{ℕ, ◌/◌, Bool, List, [], ◌∷◌, ◌++◌, Option, none, some, if◌then◌else◌}
use pulse_monitor.Result.{Result, ok, err}
use pulse_monitor.Text.{Text}

-- The answers of the store during one tick; RecordCheck answers with the text of its error.
pub record Answers : Type 0 where
  pub list_targets : Result Text (List Target)
  pub record_check : CheckResult → Option Text
  pub recent_stats : Text → Result Text Stats

-- `records` has the arguments of RecordCheck: target, status, milliseconds, error text and time.
pub data Effect : Type 0 where
  publishes_check : CheckResult → Effect
  records : Text → ℕ → ℕ → Text → ℕ → Effect
  publishes_stats : Stats → Effect
  logs_list_failed : Text → Effect
  logs_record_failed logs_stats_failed : Text → Text → Effect

-- `errMsg`: empty if there is no error.
abbrev pub error_text : Option Text → Text
error_text none = []
error_text (some e) = e

abbrev pub milliseconds : ℕ → ℕ
milliseconds d = d / 1_000_000

abbrev pub recorded : CheckResult → Effect
recorded r =
    records r.target.id r.status_code (milliseconds r.duration) (error_text r.error) r.checked_at

abbrev pub log_failure : Text → Option Text → List Effect
log_failure id none = []
log_failure id (some e) = logs_record_failed id e ∷ []

abbrev pub when : Bool → List Effect → List Effect
when b es = if b then es else []

-- One round of the loop over the results.
unfoldable pub handle_result : Bool → Answers → CheckResult → List Effect
handle_result publisher s r =
    when publisher (publishes_check r ∷ [])
    ++ recorded r ∷ log_failure r.target.id (s.record_check r)

unfoldable pub handle_results : Bool → Answers → List CheckResult → List Effect
unfolding handle_result
handle_results publisher s [] = []
handle_results publisher s (r ∷ rs) = handle_result publisher s r ++ handle_results publisher s rs

-- One round of the loop over the targets.
abbrev pub stats_effect : Text → Result Text Stats → Effect
stats_effect id (ok st) = publishes_stats st
stats_effect id (err e) = logs_stats_failed id e

unfoldable pub handle_stats : Answers → List Target → List Effect
handle_stats s [] = []
handle_stats s (t ∷ ts) = stats_effect t.id (s.recent_stats t.id) ∷ handle_stats s ts

abbrev pub with_targets :
    Bool → Answers → (List Target → List CheckResult) → Result Text (List Target) → List Effect
with_targets publisher s check (err e) = logs_list_failed e ∷ []
with_targets publisher s check (ok ts) =
    handle_results publisher s (check ts) ++ when publisher (handle_stats s ts)

-- `tick` of a pool with or without a store and a publisher; `check` is its Check.
unfoldable pub tick : Bool → (List Target → List CheckResult) → Option Answers → List Effect
unfolding handle_results handle_stats
tick publisher check none = []
tick publisher check (some s) = with_targets publisher s check s.list_targets

-- `Run`: a tick at once, then one for each firing of the ticker that the loop takes before it takes
-- ctx.Done(). `firings` holds what the store answers in each of those.
unfoldable pub run_firings :
    Bool → (List Target → List CheckResult) → List (Option Answers) → List Effect
unfolding tick
run_firings publisher check [] = []
run_firings publisher check (s ∷ ss) = tick publisher check s ++ run_firings publisher check ss

unfoldable pub run :
    Bool → (List Target → List CheckResult) → Option Answers → List (Option Answers) → List Effect
unfolding tick run_firings
run publisher check first firings =
    tick publisher check first ++ run_firings publisher check firings
