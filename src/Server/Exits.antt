-- ===== src/Server/Exits.antt =====
-- When `run` returns no error, and whether the monitor has stopped by then.
use pulse_monitor.Config.Env.{Env}
use pulse_monitor.Config.Load.{Config, ConfigError, load}
use pulse_monitor.Prelude.Int.{pos, ◌<ℤ◌, ◌≤ℤ◌, ◌+ℤ◌}
use pulse_monitor.Prelude.Word.{add64, wrap, IsInt64}
use pulse_monitor.Prelude.{◌≡◌, ◌↔◌, refl, Option, none, some, arith}
use pulse_monitor.Result.{Result, ok, err}
use pulse_monitor.Server.{
  ServerEnd, ended_nil, server_closed, serve_error, First, server_ends, signalled, MonitorWait,
  stops, times_out, RunError, Outside, Run, end_error, after_end, after_shutdown, awaits,
  after_templates, after_migrations, connect_database, after_connect, after_config, run,
  exit_status, grace,
}
use pulse_monitor.Text.{Text}

-- The server ended without an error.
abbrev pub EndsWell : ServerEnd → Type 0
EndsWell ended_nil = Unit
EndsWell server_closed = Unit
EndsWell (serve_error e) = ⊥

-- The select and the shutdown after it went well.
abbrev pub StopsWell : Outside → First → Type 0
StopsWell o (server_ends end) = EndsWell end
StopsWell o signalled = (o.shutdown ≡ none) × EndsWell o.ended

-- Every step of the start and of the shutdown went well.
pub record Succeeds (o : Outside) (file : Option Text) (env : Env) : Type 0 where
  pub cfg : Config
  pub loaded : (load file env).1 ≡ ok cfg
  pub pool_made : o.new_pool ≡ none
  pub pinged : o.ping ≡ none
  pub migrated : o.migrate ≡ none
  pub parsed : o.templates ≡ none
  pub stopped : StopsWell o o.first

end_error_iff : (e : ServerEnd) → (end_error e ≡ none) ↔ EndsWell e
end_error_iff ended_nil = (λ h. tt, λ h. refl)
end_error_iff server_closed = (λ h. tt, λ h. refl)
end_error_iff (serve_error e) = (λ h. cc, λ h. absurd h)

after_end_iff :
    (w : MonitorWait) (e : Option RunError) → ((after_end w e).failure ≡ none) ↔ (e ≡ none)
after_end_iff stops none = (λ h. refl, λ h. refl)
after_end_iff times_out none = (λ h. refl, λ h. refl)
after_end_iff w (some e) = (λ h. h, λ h. h)

after_shutdown_iff :
    (o : Outside) (e : Option Text)
    → ((after_shutdown o e).failure ≡ none) ↔ ((e ≡ none) × EndsWell o.ended)
after_shutdown_iff o none =
    let (f, g) = after_end_iff o.monitor (end_error o.ended) in
    let (f', g') = end_error_iff o.ended in (λ h. (refl, f' (f h)), λ h. g (g' h.1))
after_shutdown_iff o (some e) = (λ h. cc, λ h. cc (h.0))

awaits_iff : (o : Outside) (f : First) → ((awaits o f).failure ≡ none) ↔ StopsWell o f
awaits_iff o (server_ends end) = end_error_iff end
awaits_iff o signalled = after_shutdown_iff o o.shutdown

after_templates_iff :
    (o : Outside) (e : Option Text)
    → ((after_templates o e).failure ≡ none) ↔ ((e ≡ none) × StopsWell o o.first)
after_templates_iff o none = let (f, g) = awaits_iff o o.first in (λ h. (refl, f h), λ h. g h.1)
after_templates_iff o (some e) = (λ h. cc, λ h. cc (h.0))

after_migrations_iff :
    (o : Outside) (e : Option Text)
    → ((after_migrations o e).failure ≡ none)
      ↔ ((e ≡ none) × (o.templates ≡ none) × StopsWell o o.first)
after_migrations_iff o none =
    let (f, g) = after_templates_iff o o.templates in
    (λ h. let (a, b) = f h in (refl, a, b), λ h. g (h.1, h.2))
after_migrations_iff o (some e) = (λ h. cc, λ h. cc (h.0))

after_connect_iff :
    (o : Outside) (new_pool ping : Option Text)
    → let c = connect_database new_pool ping in
      ((after_connect o c c.failure).failure ≡ none) ↔ (
        (new_pool ≡ none)
        × (ping ≡ none)
        × (o.migrate ≡ none)
        × (o.templates ≡ none)
        × StopsWell o o.first)
unfolding connect_database
after_connect_iff o (some e) ping = (λ h. cc, λ h. cc (h.0))
after_connect_iff o none (some e) = (λ h. cc, λ h. cc (h.1))
after_connect_iff o none none =
    let (f, g) = after_migrations_iff o o.migrate in
    (λ h. let (a, b, c) = f h in (refl, refl, a, b, c), λ h. g (h.2, h.3, h.4))

after_config_iff :
    (o : Outside) (r : Result ConfigError Config)
    → ((after_config o r).failure ≡ none) ↔ (
        (cfg : Config) × (r ≡ ok cfg)
        × (o.new_pool ≡ none)
        × (o.ping ≡ none)
        × (o.migrate ≡ none)
        × (o.templates ≡ none)
        × StopsWell o o.first)
after_config_iff o (err e) = (λ h. cc, λ h. cc (h.1))
after_config_iff o (ok cfg) =
    let (f, g) = after_connect_iff o o.new_pool o.ping in
    (λ h. let (a, b, c, d, e) = f h in (cfg, refl, a, b, c, d, e), λ h. g (h.2, h.3, h.4, h.5, h.6))

exit_status-zero_iff : (r : Run) → (exit_status r ≡ 0) ↔ (r.failure ≡ none)
unfolding exit_status
exit_status-zero_iff r = (λ h. ground arith, λ h. rw h)

-- run returns nil, and the process exits with status 0, exactly if the configuration loads, the
-- database is connected and migrated, the templates parse, and the server ends without an error,
-- after a signal with a shutdown without an error.
pub exit_status_iff :
    (o : Outside) (file : Option Text) (env : Env)
    → (exit_status (run o file env) ≡ 0) ↔ Succeeds o file env
unfolding run
exit_status_iff o file env =
    let (f, g) = exit_status-zero_iff (run o file env) in
    let (f', g') = after_config_iff o (load file env).1 in
    (
      λ h.
          let (cfg, c, n, p, m, t, s) = f' (f h) in
          record {
            cfg = cfg;
            loaded = c;
            pool_made = n;
            pinged = p;
            migrated = m;
            parsed = t;
            stopped = s;
          },
      λ s. g (g' (s.cfg, s.loaded, s.pool_made, s.pinged, s.migrated, s.parsed, s.stopped)),
    )

-- The wait for the monitor at the shutdown is 5 seconds longer than the timeout of a check, unless
-- the sum does not fit an int64: then it is negative, and there is no wait.
grace_iff :
    (cfg : Config)
    → IsInt64 cfg.check_timeout
    → pos 0 <ℤ cfg.check_timeout
    → ((pos 0 <ℤ grace cfg) ↔ (cfg.check_timeout ≤ℤ pos 9_223_372_031_854_775_807))
unfolding grace add64 ◌+ℤ◌ wrap
grace_iff cfg i h = (λ g. ground arith, λ g. ground arith)
