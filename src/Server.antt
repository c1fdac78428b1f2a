-- ===== src/Server.antt =====
-- cmd/server/main.go: the start of the server and its shutdown. What it does is a list of actions;
-- a deferred call stands behind everything that its function still does. What the database, the
-- templates, net/http and the monitor answer is a parameter.
pub mod Cleanup
pub mod Exits
pub mod Tests
use pulse_monitor.Config.Env.{Env}
use pulse_monitor.Config.Load.{Config, ConfigError, load}
use pulse_monitor.Handlers.Writer.{Writer, set_header, write_header, write}
use pulse_monitor.Prelude.Int.{ℤ, pos}
use pulse_monitor.Prelude.Word.{add64}
use pulse_monitor.Prelude.{
  ℕ, Bool, true, false, List, [], ◌∷◌, ◌++◌, Option, none, some, ◌==◌, if◌then◌else◌,
}
use pulse_monitor.Result.{Result, ok, err}
use pulse_monitor.Text.{Text, codes}

-- What is released by a deferred call.
pub data Resource : Type 0 where
  signals connect_deadline db_pool limiter shutdown_deadline : Resource

pub data Action : Type 0 where
  opens closes : Resource → Action
  starts_monitor starts_server shuts_down_server : Action
  monitor_stopped gave_up_on_monitor : Action

-- What ListenAndServe returns: nil, http.ErrServerClosed or another error.
pub data ServerEnd : Type 0 where
  ended_nil server_closed : ServerEnd
  serve_error : Text → ServerEnd

-- The case of the select in `run`.
pub data First : Type 0 where
  server_ends : ServerEnd → First
  signalled : First

pub data MonitorWait : Type 0 where
  stops times_out : MonitorWait

pub data RunError : Type 0 where
  config_failed : ConfigError → RunError
  create_db_pool ping_database migrations_failed init_handlers : Text → RunError
  http_server http_shutdown : Text → RunError

-- The errors that the calls outside return, if any, and how the waits end.
pub record Outside : Type 0 where
  pub new_pool : Option Text
  pub ping : Option Text
  pub migrate : Option Text
  pub templates : Option Text
  pub first : First
  pub shutdown : Option Text
  pub ended : ServerEnd
  pub monitor : MonitorWait

-- The actions of a function, and the error that it returns, if any.
pub record Run : Type 0 where
  pub actions : List Action
  pub failure : Option RunError

abbrev pub fails : RunError → Run
fails e = record { actions = []; failure = some e }

-- An action before the rest.
abbrev pub after : Action → Run → Run
after a r = record r { actions = a ∷ r.actions }

-- What is opened here is closed by a deferred call.
abbrev pub deferring : Resource → Run → Run
deferring x r = record r { actions = opens x ∷ (r.actions ++ closes x ∷ []) }

-- `if err != nil && !errors.Is(err, http.ErrServerClosed)`.
abbrev pub end_error : ServerEnd → Option RunError
end_error ended_nil = none
end_error server_closed = none
end_error (serve_error e) = some (http_server e)

abbrev pub waited : MonitorWait → Run
waited stops = record { actions = monitor_stopped ∷ []; failure = none }
waited times_out = record { actions = gave_up_on_monitor ∷ []; failure = none }

abbrev pub after_end : MonitorWait → Option RunError → Run
after_end w none = waited w
after_end w (some e) = fails e

abbrev pub after_shutdown : Outside → Option Text → Run
after_shutdown o none = after_end o.monitor (end_error o.ended)
after_shutdown o (some e) = fails (http_shutdown e)

-- From the select on.
abbrev pub awaits : Outside → First → Run
awaits o (server_ends end) = record { actions = []; failure = end_error end }
awaits o signalled =
    deferring shutdown_deadline (after shuts_down_server (after_shutdown o o.shutdown))

abbrev pub after_templates : Outside → Option Text → Run
after_templates o none = after starts_monitor (after starts_server (awaits o o.first))
after_templates o (some e) = fails (init_handlers e)

abbrev pub after_migrations : Outside → Option Text → Run
after_migrations o none = deferring limiter (after_templates o o.templates)
after_migrations o (some e) = fails (migrations_failed e)

-- `connectDatabase`: its actions, and its error; without one the pool stays open.
unfoldable pub connect_database : Option Text → Option Text → Run
connect_database (some e) ping = deferring connect_deadline (fails (create_db_pool e))
connect_database none (some e) =
    deferring connect_deadline
      (record { actions = opens db_pool ∷ closes db_pool ∷ []; failure = some (ping_database e) })
connect_database none none =
    deferring connect_deadline (record { actions = opens db_pool ∷ []; failure = none })

-- `defer pool.Close()`.
abbrev pub closing_pool : Run → Run
closing_pool r = record r { actions = r.actions ++ closes db_pool ∷ [] }

abbrev pub after_connect : Outside → Run → Option RunError → Run
after_connect o c none =
    let r = closing_pool (after_migrations o o.migrate) in
    record r { actions = c.actions ++ r.actions }
after_connect o c (some e) = c

abbrev pub after_config : Outside → Result ConfigError Config → Run
after_config o (err e) = fails (config_failed e)
after_config o (ok cfg) =
    let c = connect_database o.new_pool o.ping in deferring signals (after_connect o c c.failure)

-- `run`, on the .env file and the environment that config.Load reads.
unfoldable pub run : Outside → Option Text → Env → Run
unfolding connect_database
run o file env = after_config o (load file env).1

-- `main`: the exit status.
unfoldable pub exit_status : Run → ℕ
exit_status r = elim r.failure [ none ↦ 0 | some e ↦ 1 ]

-- `cfg.CheckTimeout + 5*time.Second`, the longest wait for the monitor.
unfoldable pub grace : Config → ℤ
grace cfg = add64 cfg.check_timeout (pos 5_000_000_000)

unfoldable pub healthz : Writer → Writer
unfolding set_header write_header write
healthz w =
    write (codes "ok\n")
      (write_header 200 (set_header (codes "Content-Type") (codes "text/plain; charset=utf-8") w))

-- What url.Parse gives of a URL.
pub record Url : Type 0 where
  pub hostname : Text
  pub path : Text

abbrev pub trim_slash : Text → Text
trim_slash [] = []
trim_slash (c ∷ s) = if c == b'/' then s else c ∷ s

-- `databaseLocation`; `none` if the URL does not parse.
unfoldable pub database_location : Option Url → Text × Text
database_location none = ([], [])
database_location (some u) = (u.hostname, trim_slash u.path)
