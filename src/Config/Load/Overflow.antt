-- ===== src/Config/Load/Overflow.antt =====
-- The values that `intEnv` and `secondsEnv` give to a variable that holds a decimal number.
use pulse_monitor.Config.Env.{Env, lookup_env}
use pulse_monitor.Config.Load.{int_value, int_env, seconds_value, seconds_env, second}
use pulse_monitor.Prelude.Int.{ℤ, pos, ◌*ℤ◌}
use pulse_monitor.Prelude.Word.{IsInt64, mul64, wrap, wrap-eq}
use pulse_monitor.Prelude.{ℕ, ◌+◌, ◌*◌, ◌≤◌, ◌≡◌, ◌∙◌, some, arith}
use pulse_monitor.Result.{ok}
use pulse_monitor.Text.Decimal.{print_int, print_int-cons, atoi-print_int}
use pulse_monitor.Text.{Text}

int_value-print_int :
    (key : Text) (def z : ℤ) → IsInt64 z → int_value key def (some (print_int z)) ≡ ok z
unfolding int_value
int_value-print_int key def z h =
    let (c, s, e) = print_int-cons z in rw e (rw (rw e at (atoi-print_int z h)))

seconds_value-print_int :
    (key : Text) (def z : ℤ)
    → IsInt64 z
    → seconds_value key def (some (print_int z)) ≡ ok (mul64 z second)
unfolding seconds_value
seconds_value-print_int key def z h =
    let (c, s, e) = print_int-cons z in rw e (rw (rw e at (atoi-print_int z h)))

-- intEnv gives the int64 z for a variable that holds z in decimal, and secondsEnv gives z seconds
-- if z seconds, in nanoseconds, fit an int64.
env_decimal :
    (key : Text) (def z : ℤ) (env : Env)
    → lookup_env key env ≡ some (print_int z)
    → IsInt64 z
    → IsInt64 (z *ℤ second)
    → (int_env key def env ≡ ok z) × (seconds_env key def env ≡ ok (z *ℤ second))
unfolding int_env seconds_env
env_decimal key def z env e h k = (
  rw e (int_value-print_int key def z h),
  rw e (seconds_value-print_int key def z h ∙ unfold mul64 in rw (wrap-eq (z *ℤ second) k)),
)

-- The multiplication by time.Second wraps: a variable that holds 18446744074 + n seconds, for n up
-- to 9000000000, is read with no error as n seconds and 290448384 nanoseconds.
pub seconds_env_wraps :
    (key : Text) (def : ℤ) (n : ℕ) (env : Env)
    → n ≤ 9_000_000_000
    → lookup_env key env ≡ some (print_int (pos (18_446_744_074 + n)))
    → seconds_env key def env ≡ ok (pos (n * 1_000_000_000 + 290_448_384))
unfolding seconds_env mul64 wrap ◌*ℤ◌
seconds_env_wraps key def n env h e =
    rw e (seconds_value-print_int key def (pos (18_446_744_074 + n)) (omega arith) ∙ ground arith)
