-- ===== src/Store.antt =====
-- internal/store/store.go. Postgres and its driver are a parameter: what pgxpool answers to each
-- statement. The filter of RecentStats is read from the text of its query.
pub mod Database
pub mod Failures
pub mod Listing
pub mod Window
pub mod Tests
use pulse_monitor.Monitor.Types.{Target, Stats}
use pulse_monitor.Prelude.{
  ℕ, ◌-◌, ◌/◌, Bool, true, false, ◌||◌, List, [], ◌∷◌, ◌++◌, Option, none, some, ltb, leb, ◌==◌,
  if◌then◌else◌,
}
use pulse_monitor.Result.{Result, ok, err, ◌>>=◌}
use pulse_monitor.Text.{Text, codes, text_eq}

-- An error of the driver; `code` is there if the error is a PgError.
pub record DriverError : Type 0 where
  pub code : Option Text
  pub message : Text

-- The rows of a query: what Scan gives for each, and what Err gives at the end.
pub record Rows : Type 0 where
  pub scans : List (Result DriverError Target)
  pub failure : Option DriverError

-- A row of the table `checks`; there is no `error_message` if it is NULL.
pub record Row : Type 0 where
  pub target_id : Text
  pub status_code : ℕ
  pub duration_ms : ℕ
  pub error_message : Option Text
  pub checked_at : ℕ

-- A float64 that is not negative, as a quotient.
pub record Float : Type 0 where
  pub numerator : ℕ
  pub denominator : ℕ

-- `int(x)`.
abbrev pub truncate : Float → ℕ
truncate x = x.numerator / x.denominator

pub record Aggregate : Type 0 where
  pub total : ℕ
  pub failures : ℕ
  pub p50 : Float
  pub p99 : Float

-- `pool.QueryRow`, `pool.Query` and `pool.Exec` of each statement; `delete` is the number of rows
-- affected, and `aggregate` takes the target and the start of the window.
pub record Driver : Type 0 where
  pub insert : Text → Result DriverError Target
  pub select : Result DriverError Rows
  pub delete : Text → Result DriverError ℕ
  pub insert_check : Row → Option DriverError
  pub aggregate : Text → ℕ → Result DriverError Aggregate
  pub now : ℕ

-- monitor.ErrTargetExists, monitor.ErrTargetNotFound, and the wrapped errors of fmt.Errorf.
pub data StoreError : Type 0 where
  target_exists target_not_found : StoreError
  wrapped : Text → StoreError

abbrev pub wrap_error : Text → DriverError → StoreError
wrap_error context e = wrapped (context ++ codes ": " ++ e.message)

unfoldable pub has_code : Text → Option Text → Bool
has_code code none = false
has_code code (some c) = text_eq c code

abbrev pub created : Result DriverError Target → Result StoreError Target
created (ok t) = ok t
created (err e) = err (
    if has_code (codes "23505") e.code then target_exists else wrap_error (codes "create target") e)

unfoldable pub create_target : Driver → Text → Result StoreError Target
unfolding has_code
create_target d url = created (d.insert url)

-- The loop `for rows.Next()`; `targets` holds what it has appended.
unfoldable pub scan_targets :
    List Target → List (Result DriverError Target) → Result StoreError (List Target)
scan_targets targets [] = ok targets
scan_targets targets (err e ∷ rows) = err (wrap_error (codes "scan target") e)
scan_targets targets (ok t ∷ rows) = scan_targets (targets ++ t ∷ []) rows

-- `rows.Err()` after the loop.
abbrev pub check_rows : Option DriverError → List Target → Result StoreError (List Target)
check_rows none targets = ok targets
check_rows (some e) targets = err (wrap_error (codes "rows error") e)

abbrev pub listed : Result DriverError Rows → Result StoreError (List Target)
listed (err e) = err (wrap_error (codes "list targets") e)
listed (ok rows) = scan_targets [] rows.scans >>= check_rows rows.failure

unfoldable pub list_targets : Driver → Result StoreError (List Target)
unfolding scan_targets
list_targets d = listed d.select

abbrev pub deleted : Result DriverError ℕ → Option StoreError
deleted (err e) = some (wrap_error (codes "delete target") e)
deleted (ok n) = if n == 0 then some target_not_found else none

-- `DeleteTarget`: the error, if there is one.
unfoldable pub delete_target : Driver → Text → Option StoreError
delete_target d id = deleted (d.delete id)

-- `errStr`: NULL for an empty text.
abbrev pub error_column : Text → Option Text
error_column [] = none
error_column (c ∷ cs) = some (c ∷ cs)

unfoldable pub check_row : Text → ℕ → ℕ → Text → ℕ → Row
check_row id status ms message at = record {
  target_id = id;
  status_code = status;
  duration_ms = ms;
  error_message = error_column message;
  checked_at = at;
}

abbrev pub recorded_reply : Option DriverError → Option StoreError
recorded_reply none = none
recorded_reply (some e) = some (wrap_error (codes "record check") e)

unfoldable pub record_check : Driver → Text → ℕ → ℕ → Text → ℕ → Option StoreError
unfolding check_row
record_check d id status ms message at =
    recorded_reply (d.insert_check (check_row id status ms message at))

-- `recentWindow` in nanoseconds.
abbrev pub recent_window : ℕ
recent_window = 86_400_000_000_000

abbrev pub is_some : Option Text → Bool
is_some none = false
is_some (some e) = true

-- `error_message IS NOT NULL OR status_code < 200 OR status_code >= 400`.
unfoldable pub row_failure : Row → Bool
row_failure row = is_some row.error_message || ltb row.status_code 200 || leb 400 row.status_code

abbrev pub aggregated : Text → Result DriverError Aggregate → Result StoreError Stats
aggregated id (err e) = err (wrap_error (codes "recent stats") e)
aggregated id (ok a) = ok (record {
  target_id = id;
  total_checks = a.total;
  failures = a.failures;
  p50_latency_ms = truncate a.p50;
  p99_latency_ms = truncate a.p99;
})

unfoldable pub recent_stats : Driver → Text → Result StoreError Stats
recent_stats d id = aggregated id (d.aggregate id (d.now - recent_window))
