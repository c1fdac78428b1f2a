-- ===== src/Config/Load/Validation.antt =====
-- `Load` against the documented ranges, and against the environment that it reads.
use pulse_monitor.Config.DotEnv.{load_dot_env}
use pulse_monitor.Config.Env.{Env, lookup_env, getenv}
use pulse_monitor.Config.Load.{
  second, Config, ConfigError, not_seconds, or_error, validate, int_env, seconds_env, int_value,
  seconds_value, read_config, load, default_port, default_max_workers, default_check_interval,
  default_check_timeout, default_domain_rps,
}
use pulse_monitor.Prelude.Int.{ℤ, pos, ◌≤ℤ◌, ◌<ℤ◌}
use pulse_monitor.Prelude.{◌≡◌, ◌≢◌, refl, ◌↔◌, ◌⊎◌, inl, inr, [], ◌∷◌, Option, none, some, arith}
use pulse_monitor.Prelude.Word.{mul64}
use pulse_monitor.Text.Decimal.{atoi}
use pulse_monitor.Result.{ok, bind-eq-ok}
use pulse_monitor.Text.Split.{text_eq_iff}
use pulse_monitor.Text.{Text, codes}

-- The ranges that the messages of `validate` state.
pub record IsValid (c : Config) : Type 0 where
  pub database_url_set : c.database_url ≢ []
  pub port_low : pos 1 ≤ℤ c.port
  pub port_high : c.port ≤ℤ pos 65535
  pub max_workers_low : pos 1 ≤ℤ c.max_workers
  pub interval_positive : pos 0 <ℤ c.check_interval
  pub timeout_positive : pos 0 <ℤ c.check_timeout
  pub domain_rps_low : pos 1 ≤ℤ c.domain_rps

-- validate accepts a configuration exactly when each field is in its documented range.
pub validate_iff : (c : Config) → (validate c ≡ ok tt) ↔ IsValid c
unfolding validate
validate_iff c = (
  λ h. ground (arith, text_eq_iff c.database_url []),
  λ h. ground (arith, text_eq_iff c.database_url []),
)

-- A variable that is not set, or set to nothing.
abbrev pub IsUnset : Option Text → Type 0
IsUnset value = (value ≡ none) ⊎ (value ≡ some [])

-- The integer that a variable gives: the default if it is unset, else what strconv.Atoi reads.
abbrev pub ReadsInt : ℤ → Option Text → ℤ → Type 0
ReadsInt def value v =
    (IsUnset value × (v ≡ def))
    ⊎ ((raw : Text) × (value ≡ some raw) × (raw ≢ []) × (atoi raw ≡ some v))

-- The same for a number of seconds, as a Duration of 64 bits.
abbrev pub ReadsSeconds : ℤ → Option Text → ℤ → Type 0
ReadsSeconds def value v =
    (IsUnset value × (v ≡ def))
    ⊎ ((raw : Text) × (n : ℤ) × (value ≡ some raw)
        × (raw ≢ [])
        × (atoi raw ≡ some n)
        × (v ≡ mul64 n second))

or_error-eq-ok : {n : ℤ} (o : Option ℤ) (e : ConfigError) → or_error o e ≡ ok n → o ≡ some n
or_error-eq-ok none e h = cc
or_error-eq-ok (some n) e h = cc

module _ (key : Text) (def v : ℤ) where
  int_value-ReadsInt : (value : Option Text) → int_value key def value ≡ ok v → ReadsInt def value v
  unfolding int_value
  int_value-ReadsInt none h = inl (inl refl, ground arith)
  int_value-ReadsInt (some []) h = inl (inr refl, ground arith)
  int_value-ReadsInt (some (c ∷ raw)) h = inr (c ∷ raw, refl, (ground arith), (ground arith))

  seconds_value-ReadsSeconds :
      (value : Option Text) → seconds_value key def value ≡ ok v → ReadsSeconds def value v
  unfolding seconds_value
  seconds_value-ReadsSeconds none h = inl (inl refl, ground arith)
  seconds_value-ReadsSeconds (some []) h = inl (inr refl, ground arith)
  seconds_value-ReadsSeconds (some (c ∷ raw)) h =
      let (n, e, f) = bind-eq-ok (or_error (atoi (c ∷ raw)) (not_seconds key (c ∷ raw))) _ h in
      inr (c ∷ raw, n, refl, (ground arith), or_error-eq-ok (atoi (c ∷ raw)) _ e, (ground arith))

  ReadsInt-int_value : (value : Option Text) → ReadsInt def value v → int_value key def value ≡ ok v
  unfolding int_value
  ReadsInt-int_value none r = ground arith
  ReadsInt-int_value (some []) r = ground arith
  ReadsInt-int_value (some (c ∷ raw)) r = ground arith

  ReadsSeconds-seconds_value :
      (value : Option Text) → ReadsSeconds def value v → seconds_value key def value ≡ ok v
  unfolding seconds_value
  ReadsSeconds-seconds_value none r = ground arith
  ReadsSeconds-seconds_value (some []) r = ground arith
  ReadsSeconds-seconds_value (some (c ∷ raw)) r = ground arith

-- Each field is what its own variable says.
pub record ReadFrom (env : Env) (c : Config) : Type 0 where
  pub port : ReadsInt default_port (lookup_env (codes "PORT") env) c.port
  pub database_url : getenv (codes "DATABASE_URL") env ≡ c.database_url
  pub max_workers :
      ReadsInt default_max_workers (lookup_env (codes "MAX_WORKERS") env) c.max_workers
  pub check_interval :
      ReadsSeconds default_check_interval
        (lookup_env (codes "CHECK_INTERVAL_SECONDS") env)
        c.check_interval
  pub check_timeout :
      ReadsSeconds default_check_timeout
        (lookup_env (codes "CHECK_TIMEOUT_SECONDS") env)
        c.check_timeout
  pub domain_rps : ReadsInt default_domain_rps (lookup_env (codes "DOMAIN_RPS") env) c.domain_rps

-- The same of the functions that read a variable.
record IsRead (env : Env) (c : Config) : Type 0 where
  port : int_env (codes "PORT") default_port env ≡ ok c.port
  database_url : getenv (codes "DATABASE_URL") env ≡ c.database_url
  max_workers : int_env (codes "MAX_WORKERS") default_max_workers env ≡ ok c.max_workers
  check_interval :
      seconds_env (codes "CHECK_INTERVAL_SECONDS") default_check_interval env ≡ ok c.check_interval
  check_timeout :
      seconds_env (codes "CHECK_TIMEOUT_SECONDS") default_check_timeout env ≡ ok c.check_timeout
  domain_rps : int_env (codes "DOMAIN_RPS") default_domain_rps env ≡ ok c.domain_rps

module _ (env : Env) (c : Config) where
  read_config_sound : read_config env ≡ ok c → IsRead env c × (validate c ≡ ok tt)
  unfolding read_config
  read_config_sound h = ground arith

  read_config_complete : IsRead env c → validate c ≡ ok tt → read_config env ≡ ok c
  unfolding read_config
  read_config_complete r v = ground arith

  IsRead-ReadFrom : IsRead env c → ReadFrom env c
  unfolding int_env seconds_env
  IsRead-ReadFrom r = record {
    port = int_value-ReadsInt _ _ _ _ r.port;
    database_url = r.database_url;
    max_workers = int_value-ReadsInt _ _ _ _ r.max_workers;
    check_interval = seconds_value-ReadsSeconds _ _ _ _ r.check_interval;
    check_timeout = seconds_value-ReadsSeconds _ _ _ _ r.check_timeout;
    domain_rps = int_value-ReadsInt _ _ _ _ r.domain_rps;
  }

  ReadFrom-IsRead : ReadFrom env c → IsRead env c
  unfolding int_env seconds_env
  ReadFrom-IsRead r = record {
    port = ReadsInt-int_value _ _ _ _ r.port;
    database_url = r.database_url;
    max_workers = ReadsInt-int_value _ _ _ _ r.max_workers;
    check_interval = ReadsSeconds-seconds_value _ _ _ _ r.check_interval;
    check_timeout = ReadsSeconds-seconds_value _ _ _ _ r.check_timeout;
    domain_rps = ReadsInt-int_value _ _ _ _ r.domain_rps;
  }

-- Load succeeds with the configuration c exactly when, in the environment that loadDotEnv leaves
-- behind, each variable gives the field of c that it sets, and every field of c is in its documented
-- range: a variable that is unset or empty gives the field's default, another one the integer that
-- strconv.Atoi reads in it, for the two durations times time.Second in 64 bits.
pub load_iff :
    (file : Option Text) (env : Env) (c : Config)
    → ((load file env).1 ≡ ok c) ↔ (ReadFrom (load_dot_env file env).0 c × IsValid c)
unfolding load
load_iff file env c = (
  λ h.
      let r = read_config_sound (load_dot_env file env).0 c h in
      (IsRead-ReadFrom (load_dot_env file env).0 c r.0, (validate_iff c).0 r.1),
  λ h.
      read_config_complete (load_dot_env file env).0 c
        (ReadFrom-IsRead (load_dot_env file env).0 c h.0) ((validate_iff c).1 h.1),
)
