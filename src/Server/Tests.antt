-- ===== src/Server/Tests.antt =====
-- A clean shutdown, and the ways in which the start can fail.
use pulse_monitor.Config.Env.{Env}
use pulse_monitor.Config.Load.{Config}
use pulse_monitor.Handlers.Writer.{fresh}
use pulse_monitor.Prelude.Int.{pos, negsuc}
use pulse_monitor.Prelude.{◌≡◌, ◌↔◌, refl, [], ◌∷◌, none, some}
use pulse_monitor.Server.Cleanup.{unwind, run-unwind}
use pulse_monitor.Server.Exits.{Succeeds, exit_status_iff}
use pulse_monitor.Server.{
  Outside, signalled, server_ends, serve_error, server_closed, stops, opens, closes, signals,
  connect_deadline, db_pool, limiter, shutdown_deadline, starts_monitor, starts_server,
  shuts_down_server, monitor_stopped, run, exit_status, ping_database, http_server, grace, healthz,
  database_location,
}
use pulse_monitor.Text.{Text, codes}

abbrev env : Env
env = (codes "DATABASE_URL", codes "postgres://db") ∷ []

abbrev clean : Outside
clean = record {
  new_pool = none;
  ping = none;
  migrate = none;
  templates = none;
  first = signalled;
  shutdown = none;
  ended = server_closed;
  monitor = stops;
}

run-clean : run clean none env ≡ record {
  actions =
      opens signals
      ∷ opens connect_deadline
      ∷ opens db_pool
      ∷ closes connect_deadline
      ∷ opens limiter
      ∷ starts_monitor
      ∷ starts_server
      ∷ opens shutdown_deadline
      ∷ shuts_down_server
      ∷ monitor_stopped
      ∷ closes shutdown_deadline
      ∷ closes limiter
      ∷ closes db_pool
      ∷ closes signals
      ∷ [];
  failure = none;
}
unfolding run pulse_monitor.Config.Load.load pulse_monitor.Config.Load.int_env
    pulse_monitor.Config.Env.lookup_env pulse_monitor.Config.DotEnv.load_dot_env
    pulse_monitor.Text.text_eq pulse_monitor.Config.Load.seconds_env
    pulse_monitor.Config.Load.validate pulse_monitor.Config.Env.getenv
run-clean = refl

run-errors :
    ((run (record clean { ping = some (codes "refused") }) none env).failure
      ≡ some (ping_database (codes "refused")))
    × ((run (record clean { first = server_ends (serve_error (codes "in use")) }) none env).failure
        ≡ some (http_server (codes "in use")))
    × (exit_status (run clean none []) ≡ 1)
    × ((healthz fresh).body ≡ codes "ok\n")
    × (database_location (some (record { hostname = codes "db"; path = codes "/pulse" }))
        ≡ (codes "db", codes "pulse"))
unfolding run exit_status healthz database_location pulse_monitor.Config.Load.load
    pulse_monitor.Config.Load.int_env pulse_monitor.Config.Env.lookup_env
    pulse_monitor.Config.DotEnv.load_dot_env pulse_monitor.Text.text_eq
    pulse_monitor.Config.Load.seconds_env pulse_monitor.Config.Load.validate
    pulse_monitor.Config.Env.getenv
run-errors = (refl, refl, refl, refl, refl)

run-unwind_example : unwind (run clean none env).actions [] ≡ some []
run-unwind_example = run-unwind clean none env

exit_status_example : (exit_status (run clean none env) ≡ 0) ↔ Succeeds clean none env
exit_status_example = exit_status_iff clean none env

-- The largest number of whole seconds that validate accepts without wrapping.
abbrev patient : Config
patient = record {
  port = pos 8080;
  database_url = codes "postgres://db";
  max_workers = pos 64;
  check_interval = pos 30_000_000_000;
  check_timeout = pos 9_223_372_036_000_000_000;
  domain_rps = pos 5;
}

-- The wait for the monitor is then negative.
grace-patient : grace patient ≡ negsuc 9_223_372_032_709_551_615
unfolding grace pulse_monitor.Prelude.Word.add64 pulse_monitor.Prelude.Word.wrap
    pulse_monitor.Prelude.Int.◌+ℤ◌
grace-patient = refl
