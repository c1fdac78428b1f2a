-- ===== src/Server/Cleanup.antt =====
-- What `run` has opened when it returns.
use pulse_monitor.Config.Env.{Env}
use pulse_monitor.Config.Load.{Config, ConfigError, load}
use pulse_monitor.Prelude.{
  ◌≡◌, refl, ◌∙◌, Bool, true, false, ◌&&◌, List, [], ◌∷◌, ◌++◌, Option, none, some, if◌then◌else◌,
}
use pulse_monitor.Result.{Result, ok, err}
use pulse_monitor.Server.{
  Resource, signals, connect_deadline, db_pool, limiter, shutdown_deadline, Action, opens, closes,
  shuts_down_server, First, server_ends, signalled, MonitorWait, stops, times_out, RunError,
  Outside, Run, deferring, after, end_error, after_end, after_shutdown, awaits, after_templates,
  after_migrations, connect_database, after_connect, after_config, run,
}
use pulse_monitor.Text.{Text}

abbrev pub same : Resource → Resource → Bool
same signals signals = true
same connect_deadline connect_deadline = true
same db_pool db_pool = true
same limiter limiter = true
same shutdown_deadline shutdown_deadline = true
same _ _ = false

abbrev pub Stack : Type 0
Stack = List Resource

abbrev pub behind : Resource → Option Stack → Option Stack
behind y none = none
behind y (some open_ones) = some (y ∷ open_ones)

-- `none` if it is not open.
abbrev pub pop : Resource → Stack → Option Stack
pop x [] = none
pop x (y ∷ open_ones) =
    let rest = behind y (pop x open_ones) in if same x y then some open_ones else rest

abbrev pub holds : Resource → Stack → Bool
holds x [] = false
holds x (y ∷ open_ones) = if same x y then true else holds x open_ones

-- What the monitor and the handlers use.
abbrev pub needs_both : Stack → Option Stack
needs_both open_ones =
    if holds limiter open_ones && holds db_pool open_ones then some open_ones else none

abbrev pub needs_db : Option Stack → Option Stack
needs_db none = none
needs_db (some open_ones) = if holds db_pool open_ones then some open_ones else none

-- One action on what is open; `none` if it closes what is not open, or the limiter after the
-- database, or if it starts the monitor or the server, or shuts the server down or waits for the
-- monitor, without both of them.
abbrev pub apply : Action → Stack → Option Stack
apply (opens x) open_ones = some (x ∷ open_ones)
apply (closes limiter) open_ones = needs_db (pop limiter open_ones)
apply (closes signals) open_ones = pop signals open_ones
apply (closes connect_deadline) open_ones = pop connect_deadline open_ones
apply (closes db_pool) open_ones = pop db_pool open_ones
apply (closes shutdown_deadline) open_ones = pop shutdown_deadline open_ones
apply _ open_ones = needs_both open_ones

abbrev pub and_then : Option Stack → (Stack → Option Stack) → Option Stack
and_then none k = none
and_then (some s) k = k s

abbrev pub unwind : List Action → Stack → Option Stack
unwind [] s = some s
unwind (a ∷ rest) s = and_then (apply a s) (unwind rest)

and_then_assoc :
    (o : Option Stack) (f g k : Stack → Option Stack)
    → ((t : Stack) → f t ≡ and_then (g t) k)
    → and_then o f ≡ and_then (and_then o g) k
and_then_assoc none f g k h = refl
and_then_assoc (some t) f g k h = h t

unwind-append :
    (xs ys : List Action) (s : Stack) → unwind (xs ++ ys) s ≡ and_then (unwind xs s) (unwind ys)
unwind-append [] ys s = refl
unwind-append (a ∷ xs) ys s =
    and_then_assoc (apply a s) (unwind (xs ++ ys)) (unwind xs) (unwind ys)
      (λ t. unwind-append xs ys t)

abbrev Unwinds : Run → Stack → Type 0
Unwinds r s = unwind r.actions s ≡ some s

-- A deferred call.
closed-Unwinds :
    (x : Resource) (xs : List Action) (s t : Stack)
    → unwind xs s ≡ some (x ∷ t)
    → apply (closes x) (x ∷ t) ≡ some t
    → unwind (xs ++ closes x ∷ []) s ≡ some t
closed-Unwinds x xs s t h c = unwind-append xs (closes x ∷ []) s ∙ rw h (rw c refl)

deferring-Unwinds :
    (x : Resource) (r : Run) (s : Stack)
    → Unwinds r (x ∷ s)
    → apply (closes x) (x ∷ s) ≡ some s
    → Unwinds (deferring x r) s
deferring-Unwinds x r s h c = closed-Unwinds x r.actions (x ∷ s) s h c

after_end-Unwinds :
    (w : MonitorWait) (e : Option RunError) (s : Stack)
    → Unwinds (after_end w e) (shutdown_deadline ∷ limiter ∷ db_pool ∷ s)
after_end-Unwinds stops none s = refl
after_end-Unwinds times_out none s = refl
after_end-Unwinds w (some e) s = refl

after_shutdown-Unwinds :
    (o : Outside) (e : Option Text) (s : Stack)
    → Unwinds (after_shutdown o e) (shutdown_deadline ∷ limiter ∷ db_pool ∷ s)
after_shutdown-Unwinds o none s = after_end-Unwinds o.monitor (end_error o.ended) s
after_shutdown-Unwinds o (some e) s = refl

awaits-Unwinds :
    (o : Outside) (f : First) (s : Stack) → Unwinds (awaits o f) (limiter ∷ db_pool ∷ s)
awaits-Unwinds o (server_ends end) s = refl
awaits-Unwinds o signalled s =
    deferring-Unwinds shutdown_deadline (after shuts_down_server (after_shutdown o o.shutdown))
      (limiter ∷ db_pool ∷ s) (after_shutdown-Unwinds o o.shutdown s) refl

-- With the database and the limiter open.
after_templates-Unwinds :
    (o : Outside) (e : Option Text) (s : Stack)
    → Unwinds (after_templates o e) (limiter ∷ db_pool ∷ s)
after_templates-Unwinds o none s = awaits-Unwinds o o.first s
after_templates-Unwinds o (some e) s = refl

after_migrations-Unwinds :
    (o : Outside) (e : Option Text) (s : Stack) → Unwinds (after_migrations o e) (db_pool ∷ s)
after_migrations-Unwinds o none s =
    deferring-Unwinds limiter (after_templates o o.templates) (db_pool ∷ s)
      (after_templates-Unwinds o o.templates s) refl
after_migrations-Unwinds o (some e) s = refl

after_connect-Unwinds :
    (o : Outside) (new_pool ping : Option Text) (s : Stack)
    → let c = connect_database new_pool ping in Unwinds (after_connect o c c.failure) s
unfolding connect_database
after_connect-Unwinds o (some e) ping s = refl
after_connect-Unwinds o none (some e) s = refl
after_connect-Unwinds o none none s =
    closed-Unwinds db_pool (after_migrations o o.migrate).actions (db_pool ∷ s) s
      (after_migrations-Unwinds o o.migrate s) refl

after_config-Unwinds :
    (o : Outside) (c : Result ConfigError Config) (s : Stack) → Unwinds (after_config o c) s
after_config-Unwinds o (err e) s = refl
after_config-Unwinds o (ok cfg) s =
    let c = connect_database o.new_pool o.ping in
    deferring-Unwinds signals (after_connect o c c.failure) s
      (after_connect-Unwinds o o.new_pool o.ping (signals ∷ s)) refl

-- Whatever is answered outside, run closes everything that it has opened, each once, and the limiter
-- before the database. It starts the monitor and the server, shuts the server down and waits for the
-- monitor only while the limiter and the database are open.
pub run-unwind :
    (o : Outside) (file : Option Text) (env : Env) → unwind (run o file env).actions [] ≡ some []
unfolding run
run-unwind o file env = after_config-Unwinds o (load file env).1 []
