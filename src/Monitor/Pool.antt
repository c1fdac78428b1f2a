-- ===== src/Monitor/Pool.antt =====
-- `New` and `Pool.Check` of internal/monitor/monitor.go: a goroutine for each target, behind the
-- semaphore. The state holds where each goroutine stands; a step of one of them is one event, and
-- a history is a list of events in the order in which the scheduler lets them happen.
pub mod Counting
pub mod Shift
pub mod Invariant
pub mod Bounds
pub mod Tally
pub mod Totals
pub mod Progress
pub mod Completion
use pulse_monitor.Metrics.{Add, check_started, check_finished}
use pulse_monitor.Monitor.Check.{Outside, check_one}
use pulse_monitor.Monitor.Types.{Target, CheckResult, failed}
use pulse_monitor.Prelude.Int.{ℤ, pos, pos_part, ltb_ℤ}
use pulse_monitor.Prelude.{
  ℕ, zero, suc, ◌+◌, ◌-◌, Bool, true, false, List, [], ◌∷◌, ◌++◌, map, Option, none, some, ltb,
  if◌then◌else◌,
}
use pulse_monitor.Text.{Text}

-- Before the select; in the semaphore; past CheckStarted; inside checkOne; past checkOne, with its
-- result; past CheckFinished; the result written, the deferred calls still to run; returned.
pub data Phase : Type 0 where
  queued acquired counted running : Phase
  checked finished : CheckResult → Phase
  stored left : Phase

-- One goroutine, with its element of `results`.
pub record Worker : Type 0 where
  pub target : Target
  pub phase : Phase
  pub slot : Option CheckResult

-- `capacity` and `in_use` are those of the channel `sem`; `recorded` holds the additions made to
-- the metrics, newest last, if the pool has metrics.
pub record Pool : Type 0 where
  pub capacity : ℕ
  pub in_use : ℕ
  pub has_metrics : Bool
  pub recorded : List Add
  pub workers : List Worker

-- `make(chan struct{}, maxWorkers)`, at least 1.
unfoldable pub clamp_workers : ℤ → ℕ
clamp_workers max_workers = if ltb_ℤ max_workers (pos 1) then 1 else pos_part max_workers

abbrev pub spawn : Target → Worker
spawn t = record { target = t; phase = queued; slot = none }

-- The start of Check on a pool that nothing else uses.
unfoldable pub start : ℤ → Bool → List Target → Pool
unfolding clamp_workers
start max_workers has_metrics targets = record {
  capacity = clamp_workers max_workers;
  in_use = 0;
  has_metrics = has_metrics;
  recorded = [];
  workers = map spawn targets;
}

-- What a goroutine does next. `cancels` is the case ctx.Done() of its select, with the text of
-- ctx.Err() and the time. `counts` is CheckStarted, `calls` the call of checkOne, `checks` its
-- return, with what it met outside, and `reports` CheckFinished.
pub data Event : Type 0 where
  acquires counts calls reports stores leaves : Event
  cancels : Text → ℕ → Event
  checks : Outside → Event

abbrev cancelled : Target → Text → ℕ → CheckResult
cancelled t e now = record {
  target = t;
  status_code = 0;
  duration = 0;
  error = some e;
  checked_at = now;
}

-- What an event changes: the goroutine, the places in use and the additions to the metrics.
pub record Change : Type 0 where
  pub worker : Worker
  pub used : ℕ
  pub adds : List Add

-- The goroutine's step, with the places in use and whether one is free; `none` if it is not at
-- that point.
unfoldable pub advance : Phase → Event → ℕ → Bool → Worker → Option Change
advance queued acquires used free g =
    if free
    then some (record { worker = record g { phase = acquired }; used = used + 1; adds = [] })
    else none
advance queued (cancels e now) used free g = some (record {
  worker = record g { phase = left; slot = some (cancelled g.target e now) };
  used = used;
  adds = [];
})
advance acquired counts used free g =
    some (record { worker = record g { phase = counted }; used = used; adds = check_started })
advance counted calls used free g =
    some (record { worker = record g { phase = running }; used = used; adds = [] })
advance running (checks w) used free g = some (record {
  worker = record g { phase = checked (check_one w g.target).outcome };
  used = used;
  adds = [];
})
advance (checked r) reports used free g = some (record {
  worker = record g { phase = finished r };
  used = used;
  adds = check_finished (failed r);
})
advance (finished r) stores used free g =
    some (record { worker = record g { phase = stored; slot = some r }; used = used; adds = [] })
advance stored leaves used free g =
    some (record { worker = record g { phase = left }; used = used - 1; adds = [] })
advance _ _ used free g = none

abbrev pub on_head : List Worker → Option Change → Option (List Worker × ℕ × List Add)
on_head gs none = none
on_head gs (some c) = some (c.worker ∷ gs, c.used, c.adds)

abbrev pub behind :
    Worker → Option (List Worker × ℕ × List Add) → Option (List Worker × ℕ × List Add)
behind g none = none
behind g (some (gs, used, adds)) = some (g ∷ gs, used, adds)

-- The event at the goroutine number `i`.
unfoldable pub advance_at : ℕ → Event → ℕ → Bool → List Worker → Option (List Worker × ℕ × List Add)
unfolding advance
advance_at i e used free [] = none
advance_at zero e used free (g ∷ gs) = on_head gs (advance g.phase e used free g)
advance_at (suc i) e used free (g ∷ gs) = behind g (advance_at i e used free gs)

abbrev pub install : Pool → Option (List Worker × ℕ × List Add) → Option Pool
install p none = none
install p (some (gs, used, adds)) = some (record p {
  workers = gs;
  in_use = used;
  recorded = if p.has_metrics then p.recorded ++ adds else p.recorded;
})

unfoldable pub step : ℕ × Event → Pool → Option Pool
unfolding advance_at
step (i, e) p = install p (advance_at i e p.in_use (ltb p.in_use p.capacity) p.workers)

abbrev pub and_then : Option Pool → (Pool → Option Pool) → Option Pool
and_then none k = none
and_then (some p) k = k p

unfoldable pub run : List (ℕ × Event) → Pool → Option Pool
unfolding step
run [] p = some p
run (e ∷ es) p = and_then (step e p) (run es)
