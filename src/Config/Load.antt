-- ===== src/Config/Load.antt =====
-- `Load`, `validate`, `intEnv` and `secondsEnv` of internal/config/config.go. An error is a
-- constructor with the values that its message shows.
pub mod Validation
pub mod Overflow
use pulse_monitor.Config.DotEnv.{load_dot_env}
use pulse_monitor.Config.Env.{Env, lookup_env, getenv}
use pulse_monitor.Prelude.Int.{ℤ, pos, ltb_ℤ}
use pulse_monitor.Prelude.Word.{mul64}
use pulse_monitor.Prelude.{ℕ, Bool, ◌||◌, not, [], ◌∷◌, Option, none, some}
use pulse_monitor.Result.{Result, ok, err, ◌>>=◌, ◌>>◌, fail_if}
use pulse_monitor.Text.Decimal.{atoi}
use pulse_monitor.Text.{Text, codes, text_eq}

-- `time.Second`, in nanoseconds.
abbrev pub second : ℤ
second = pos 1_000_000_000

pub record Config : Type 0 where
  pub port : ℤ
  pub database_url : Text
  pub max_workers : ℤ
  pub check_interval : ℤ
  pub check_timeout : ℤ
  pub domain_rps : ℤ

abbrev pub default_port : ℤ
default_port = pos 8080

abbrev pub default_max_workers : ℤ
default_max_workers = pos 64

abbrev pub default_check_interval : ℤ
default_check_interval = pos 30_000_000_000

abbrev pub default_check_timeout : ℤ
default_check_timeout = pos 10_000_000_000

abbrev pub default_domain_rps : ℤ
default_domain_rps = pos 5

pub data ConfigError : Type 0 where
  database_url_required : ConfigError
  port_range max_workers_low interval_not_positive : ℤ → ConfigError
  timeout_not_positive domain_rps_low : ℤ → ConfigError
  not_an_integer not_seconds : Text → Text → ConfigError

-- `c.x < n`, `c.x > n` and `c.x <= n`.
unfoldable pub validate : Config → Result ConfigError (Unit {0})
validate c = do
  fail_if (text_eq c.database_url []) database_url_required
  fail_if (ltb_ℤ c.port (pos 1) || ltb_ℤ (pos 65535) c.port) (port_range c.port)
  fail_if (ltb_ℤ c.max_workers (pos 1)) (max_workers_low c.max_workers)
  fail_if (not (ltb_ℤ (pos 0) c.check_interval)) (interval_not_positive c.check_interval)
  fail_if (not (ltb_ℤ (pos 0) c.check_timeout)) (timeout_not_positive c.check_timeout)
  fail_if (ltb_ℤ c.domain_rps (pos 1)) (domain_rps_low c.domain_rps)
  ok tt

abbrev pub or_error : Option ℤ → ConfigError → Result ConfigError ℤ
or_error none e = err e
or_error (some v) e = ok v

-- The value of a variable that is set; an empty one counts as not set.
unfoldable pub int_value : Text → ℤ → Option Text → Result ConfigError ℤ
int_value key def none = ok def
int_value key def (some []) = ok def
int_value key def (some (c ∷ raw)) = or_error (atoi (c ∷ raw)) (not_an_integer key (c ∷ raw))

unfoldable pub int_env : Text → ℤ → Env → Result ConfigError ℤ
unfolding int_value
int_env key def env = int_value key def (lookup_env key env)

-- `time.Duration(v) * time.Second` wraps.
unfoldable pub seconds_value : Text → ℤ → Option Text → Result ConfigError ℤ
seconds_value key def none = ok def
seconds_value key def (some []) = ok def
seconds_value key def (some (c ∷ raw)) = do
  v ← or_error (atoi (c ∷ raw)) (not_seconds key (c ∷ raw))
  ok (mul64 v second)

unfoldable pub seconds_env : Text → ℤ → Env → Result ConfigError ℤ
unfolding seconds_value
seconds_env key def env = seconds_value key def (lookup_env key env)

-- What `Load` does once the .env file has been read.
unfoldable pub read_config : Env → Result ConfigError Config
read_config env = do
  port ← int_env (codes "PORT") default_port env
  workers ← int_env (codes "MAX_WORKERS") default_max_workers env
  interval ← seconds_env (codes "CHECK_INTERVAL_SECONDS") default_check_interval env
  timeout ← seconds_env (codes "CHECK_TIMEOUT_SECONDS") default_check_timeout env
  rps ← int_env (codes "DOMAIN_RPS") default_domain_rps env
  let cfg : Config = record {
    port = port;
    database_url = getenv (codes "DATABASE_URL") env;
    max_workers = workers;
    check_interval = interval;
    check_timeout = timeout;
    domain_rps = rps;
  }
  validate cfg
  ok cfg

-- `.env` is optional: the error of `loadDotEnv` is dropped, what it set stays.
unfoldable pub load : Option Text → Env → Env × Result ConfigError Config
unfolding read_config
load file env = let env' = (load_dot_env file env).0 in (env', read_config env')
