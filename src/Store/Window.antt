-- ===== src/Store/Window.antt =====
-- The statistics of a target, against the checks that `Run` of internal/monitor/monitor.go has made.
use mathlib.Core.List.Sublistᴰ as SublistD
use mathlib.Core.List.{append_assoc, Sublistᴰ}
use pulse_monitor.Monitor.Check.{Outside, check_one}
use pulse_monitor.Monitor.Tick
use pulse_monitor.Monitor.Tick.Effects.{published_checks}
use pulse_monitor.Monitor.Tick.{
  Answers, Effect, publishes_check, publishes_stats, records, logs_list_failed, logs_record_failed,
  logs_stats_failed, log_failure, stats_effect, handle_result, handle_results, handle_stats,
  with_targets, tick, run_firings,
}
use pulse_monitor.Monitor.Types.{Target, CheckResult, Stats, failed}
use pulse_monitor.Prelude.{
  ℕ, suc, ◌-◌, ◌≡◌, refl, sym, ap, ◌∙◌, subst, Bool, true, ◌&&◌, List, [], ◌∷◌, ◌++◌, map, Option,
  none, some, leb, if◌then◌else◌, All, length, arith, ◌≤◌, ◌+◌, inl, inr, Bool-cases,
}
use pulse_monitor.Result.{Result, ok, err}
use pulse_monitor.Store.Failures.{row_of, row_failure-check_one}
use pulse_monitor.Store.{
  Row, DriverError, Driver, Aggregate, check_row, row_failure, recent_window, aggregated,
  recent_stats,
}
use pulse_monitor.Text.{Text, text_eq}

abbrev pub count : {A : Type 0} → (A → Bool) → List A → ℕ
count p [] = 0
count p (x ∷ xs) = let rest = count p xs in if p x then suc rest else rest

-- The rows that RecordCheck hands to the database, whatever is answered.
abbrev pub inserts : List Effect → List Row
inserts [] = []
inserts (records id status ms message at ∷ es) = check_row id status ms message at ∷ inserts es
inserts (_ ∷ es) = inserts es

-- The calls of RecordCheck that were answered with an error.
abbrev pub record_failures : List Effect → ℕ
record_failures [] = 0
record_failures (logs_record_failed id e ∷ es) = suc (record_failures es)
record_failures (_ ∷ es) = record_failures es

-- `target_id = $1 AND checked_at >= $2`.
unfoldable pub in_window : Text → ℕ → Row → Bool
in_window id since row = text_eq row.target_id id && leb since row.checked_at

-- What an answer to the query counts, over the rows of the table.
pub record Counts (d : Driver) (rows : List Row) : Type 0 where
  pub total :
      (id : Text) (since : ℕ) (reply : Aggregate)
      → d.aggregate id since ≡ ok reply
      → reply.total ≡ count (in_window id since) rows
  pub failures :
      (id : Text) (since : ℕ) (reply : Aggregate)
      → d.aggregate id since ≡ ok reply
      → reply.failures ≡ count (λ row. in_window id since row && row_failure row) rows

-- A number that misses at most `lost` of another one.
abbrev pub IsShort : ℕ → ℕ → ℕ → Type 0
IsShort lost n total = (n ≤ total) × (total ≤ n + lost)

-- A result that checkOne gives for some target, whatever it meets outside.
abbrev pub IsOutcome : CheckResult → Type 0
IsOutcome r = (w : Outside) × (t : Target) × (r ≡ (check_one w t).outcome)

-- The checks of a target since a time.
abbrev pub is_recent : Text → ℕ → CheckResult → Bool
is_recent id since r = text_eq r.target.id id && leb since r.checked_at

IsOutcome-failure : (r : CheckResult) → IsOutcome r → row_failure (row_of r) ≡ failed r
IsOutcome-failure r (w, t, e) = rw e (row_failure-check_one w t)

in_window-row_of :
    (id : Text) (since : ℕ) (r : CheckResult) → in_window id since (row_of r) ≡ is_recent id since r
unfolding in_window row_of check_row
in_window-row_of id since r = refl

module _ (id : Text) (since : ℕ) where
  count-total :
      (rs : List CheckResult)
      → count (in_window id since) (map row_of rs) ≡ count (is_recent id since) rs
  count-total [] = refl
  count-total (r ∷ rs) = rw (in_window-row_of id since r, count-total rs)

  count-failures :
      (rs : List CheckResult)
      → All IsOutcome rs
      → count (λ row. in_window id since row && row_failure row) (map row_of rs)
        ≡ count (λ r. is_recent id since r && failed r) rs
  count-failures [] h = refl
  count-failures (r ∷ rs) h =
      rw (in_window-row_of id since r, IsOutcome-failure r h.0, count-failures rs h.1)

-- With a publisher, the rows that are inserted are those of the checks that are published.
abbrev Agrees : List Effect → Type 0
Agrees es = inserts es ≡ map row_of (published_checks es)

log_failure-Agrees :
    (id : Text) (o : Option Text) (rest : List Effect)
    → Agrees rest
    → Agrees (log_failure id o ++ rest)
log_failure-Agrees id none rest h = h
log_failure-Agrees id (some e) rest h = h

stats_effect-Agrees :
    (id : Text) (r : Result Text Stats) (rest : List Effect)
    → Agrees rest
    → Agrees (stats_effect id r ∷ rest)
stats_effect-Agrees id (ok st) rest h = h
stats_effect-Agrees id (err e) rest h = h

handle_result-Agrees :
    (s : Answers) (r : CheckResult) (rest : List Effect)
    → Agrees rest
    → Agrees (handle_result true s r ++ rest)
unfolding handle_result row_of
handle_result-Agrees s r rest h =
    ap (◌∷◌ (row_of r)) (log_failure-Agrees r.target.id (s.record_check r) rest h)

handle_results-Agrees :
    (s : Answers) (rs : List CheckResult) (rest : List Effect)
    → Agrees rest
    → Agrees (handle_results true s rs ++ rest)
unfolding handle_results
handle_results-Agrees s [] rest h = h
handle_results-Agrees s (r ∷ rs) rest h =
    subst Agrees (sym (append_assoc (handle_result true s r) (handle_results true s rs) rest)) (
      handle_result-Agrees s r (handle_results true s rs ++ rest)
        (handle_results-Agrees s rs rest h))

handle_stats-Agrees :
    (s : Answers) (ts : List Target) (rest : List Effect)
    → Agrees rest
    → Agrees (handle_stats s ts ++ rest)
unfolding handle_stats
handle_stats-Agrees s [] rest h = h
handle_stats-Agrees s (t ∷ ts) rest h =
    stats_effect-Agrees t.id (s.recent_stats t.id) (handle_stats s ts ++ rest)
      (handle_stats-Agrees s ts rest h)

with_targets-Agrees :
    (s : Answers) (check : List Target → List CheckResult) (r : Result Text (List Target))
    (rest : List Effect)
    → Agrees rest
    → Agrees (with_targets true s check r ++ rest)
with_targets-Agrees s check (err e) rest h = h
with_targets-Agrees s check (ok ts) rest h =
    subst Agrees (sym (append_assoc (handle_results true s (check ts)) (handle_stats s ts) rest)) (
      handle_results-Agrees s (check ts) (handle_stats s ts ++ rest)
        (handle_stats-Agrees s ts rest h))

tick-Agrees :
    (check : List Target → List CheckResult) (o : Option Answers) (rest : List Effect)
    → Agrees rest
    → Agrees (tick true check o ++ rest)
unfolding tick
tick-Agrees check none rest h = h
tick-Agrees check (some s) rest h = with_targets-Agrees s check s.list_targets rest h

run_firings-Agrees :
    (check : List Target → List CheckResult) (ss : List (Option Answers))
    → Agrees (run_firings true check ss)
unfolding run_firings
run_firings-Agrees check [] = refl
run_firings-Agrees check (s ∷ ss) =
    tick-Agrees check s (run_firings true check ss) (run_firings-Agrees check ss)

aggregated-eq-ok :
    (id : Text) (st : Stats) (r : Result DriverError Aggregate)
    → aggregated id r ≡ ok st
    → (a : Aggregate) × (r ≡ ok a)
      × (st.target_id ≡ id)
      × (st.total_checks ≡ a.total)
      × (st.failures ≡ a.failures)
aggregated-eq-ok id st (ok a) h = (a, refl, (cc), (cc), (cc))
aggregated-eq-ok id st (err e) h = cc

-- Rows that are missing from a list are missing from a count of it.
sublist-count :
    (p : Row → Bool) (xs ys : List Row)
    → Sublistᴰ xs ys
    → count p xs ≤ count p ys × (count p ys + length xs ≤ count p xs + length ys)
sublist-count p xs [] s = rw (SublistD.eq-nil s) (omega arith, omega arith)
sublist-count p xs (y ∷ ys) s = elim (SublistD.cases_cons s) [
  | inl t ↦
      let i = sublist-count p xs ys t in
      elim (Bool-cases (p y)) [
        | inl e ↦ rw e (omega (arith, i), omega (arith, i))
        | inr e ↦ rw e (omega (arith, i), omega (arith, i))
      ]
  | inr (r, q, t) ↦
      let i = sublist-count p r ys t in
      rw q (elim (Bool-cases (p y)) [
        | inl e ↦ rw e (omega (arith, i), omega (arith, i))
        | inr e ↦ rw e (omega (arith, i), omega (arith, i))
      ])
]

sublist-IsShort :
    (p : Row → Bool) (rows all : List Row) (lost : ℕ)
    → Sublistᴰ rows all
    → length all ≤ length rows + lost
    → IsShort lost (count p rows) (count p all)
sublist-IsShort p rows all lost s l =
    let i = sublist-count p rows all s in (i.0, omega (arith, i, l))

-- Let Run have made any number of ticks, with a publisher, whatever the store answered to each, and
-- let every result it published be one that checkOne gives. Let the table have the rows that these
-- ticks handed to RecordCheck, in order, less at most as many as RecordCheck answered with an error
-- (an INSERT that fails may have been committed or not), and let Postgres count the rows of that
-- table. If RecentStats answers, then its statistics are for the target it was asked for; their
-- total is at most the number of the target's checks that were published and that started in the
-- last 24 hours, and below it by at most the number of those errors; and so for the failed ones among
-- them.
pub recent_stats-published :
    (check : List Target → List CheckResult) (first : Option Answers)
    (firings : List (Option Answers)) (d : Driver) (id : Text) (rows : List Row) (st : Stats)
    → All IsOutcome (published_checks (Tick.run true check first firings))
    → Sublistᴰ rows (inserts (Tick.run true check first firings))
    → length (inserts (Tick.run true check first firings))
      ≤ length rows + record_failures (Tick.run true check first firings)
    → Counts d rows
    → recent_stats d id ≡ ok st
    → (st.target_id ≡ id)
      × IsShort (record_failures (Tick.run true check first firings)) st.total_checks (
          count
            (is_recent id (d.now - recent_window))
            (published_checks (Tick.run true check first firings)))
      × IsShort (record_failures (Tick.run true check first firings)) st.failures (
          count
            (λ r. is_recent id (d.now - recent_window) r && failed r)
            (published_checks (Tick.run true check first firings)))
unfolding Tick.run recent_stats
recent_stats-published check first firings d id rows st h s l c r =
    let es = Tick.run true check first firings in
    let rs = published_checks es in
    let since = d.now - recent_window in
    let lost = record_failures es in
    let e =
      tick-Agrees check first (run_firings true check firings) (run_firings-Agrees check firings) in
    let (a, q, i, t, f) = aggregated-eq-ok id st (d.aggregate id since) r in
    let bad = λ (row : Row). in_window id since row && row_failure row in
    (
      i,
      subst (IsShort lost st.total_checks)
          (ap (count (in_window id since)) e ∙ count-total id since rs)
          (subst (λ n. IsShort lost n (count (in_window id since) (inserts es)))
            (sym (c.total id since a q) ∙ sym t)
            (sublist-IsShort (in_window id since) rows (inserts es) lost s l)),
      subst (IsShort lost st.failures) (ap (count bad) e ∙ count-failures id since rs h) (
          subst (λ n. IsShort lost n (count bad (inserts es)))
            (sym (c.failures id since a q) ∙ sym f)
            (sublist-IsShort bad rows (inserts es) lost s l)),
    )
