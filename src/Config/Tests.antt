-- ===== src/Config/Tests.antt =====
-- A .env file and the configurations that it gives.
use pulse_monitor.Config.DotEnv.Precedence.{first_offer, lines_of, load_dot_env-lookup, or_else}
use pulse_monitor.Config.DotEnv.{load_dot_env}
use pulse_monitor.Config.Env.{Env, lookup_env, getenv}
use pulse_monitor.Config.Load.Overflow.{seconds_env_wraps}
use pulse_monitor.Config.Load.Validation.{IsValid, ReadFrom, load_iff}
use pulse_monitor.Config.Load.{
  Config, validate, int_env, seconds_env, load, database_url_required, port_range,
}
use pulse_monitor.Prelude.Int.{pos, negsuc}
use pulse_monitor.Prelude.{◌≡◌, ◌↔◌, refl, [], ◌∷◌, Option, none, some, ◌+◌, arith}
use pulse_monitor.Result.{ok, err}
use pulse_monitor.Text.Decimal.{print_int}
use pulse_monitor.Text.{Text, codes, is_space}

abbrev file : Option Text
file = some (codes "# local\nPORT=9000\r\nDATABASE_URL = 'postgres://db'\nMAX_WORKERS=8\nPORT=1\n")

abbrev env : Env
env = (codes "MAX_WORKERS", codes "16") ∷ []

abbrev config : Config
config = record {
  port = pos 9000;
  database_url = codes "postgres://db";
  max_workers = pos 16;
  check_interval = pos 30_000_000_000;
  check_timeout = pos 10_000_000_000;
  domain_rps = pos 5;
}

load-file : (load file env).1 ≡ ok config
unfolding load int_env lookup_env load_dot_env pulse_monitor.Text.split_on
    pulse_monitor.Text.utf8_length pulse_monitor.Text.text_eq pulse_monitor.Text.trim_space
    pulse_monitor.Text.trim_left is_space pulse_monitor.Text.starts_with pulse_monitor.Text.cut
    pulse_monitor.Config.Env.set_env pulse_monitor.Text.Decimal.atoi seconds_env validate getenv
load-file = refl

load-errors :
    ((load none []).1 ≡ err database_url_required)
    × ((load (some (codes "DATABASE_URL=x\nPORT=-1")) []).1 ≡ err (port_range (negsuc 0)))
unfolding load int_env lookup_env load_dot_env seconds_env validate pulse_monitor.Text.text_eq
    getenv pulse_monitor.Text.split_on pulse_monitor.Text.utf8_length pulse_monitor.Text.trim_space
    pulse_monitor.Text.trim_left is_space pulse_monitor.Text.starts_with pulse_monitor.Text.cut
    pulse_monitor.Config.Env.set_env pulse_monitor.Text.Decimal.atoi
load-errors = (refl, refl)

load_dot_env-lookup_example :
    lookup_env (codes "PORT") (load_dot_env file env).0
    ≡ or_else (lookup_env (codes "PORT") env) (first_offer (codes "PORT") (lines_of file))
load_dot_env-lookup_example = load_dot_env-lookup (codes "PORT") file env

load_iff_example :
    ((load file env).1 ≡ ok config) ↔ (ReadFrom (load_dot_env file env).0 config × IsValid config)
load_iff_example = load_iff file env config

abbrev timeouts : Env
timeouts = (codes "CHECK_TIMEOUT_SECONDS", codes "45") ∷ (codes "LONG", codes "18446744074") ∷ []

timeouts-lookup : lookup_env (codes "CHECK_TIMEOUT_SECONDS") timeouts ≡ some (print_int (pos 45))
unfolding lookup_env print_int pulse_monitor.Text.text_eq
timeouts-lookup = refl

timeouts-long : lookup_env (codes "LONG") timeouts ≡ some (print_int (pos (18_446_744_074 + 0)))
unfolding lookup_env print_int pulse_monitor.Text.text_eq
timeouts-long = refl

seconds_env_wraps_example : seconds_env (codes "LONG") (pos 10) timeouts ≡ ok (pos 290_448_384)
seconds_env_wraps_example =
    seconds_env_wraps (codes "LONG") (pos 10) 0 timeouts (omega arith) timeouts-long
