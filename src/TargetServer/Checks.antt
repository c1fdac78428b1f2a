-- ===== src/TargetServer/Checks.antt =====
-- The checks of a target that the target server answers.
use pulse_monitor.Handlers.Writer.{fresh}
use pulse_monitor.Monitor.Check.Outcomes.{Reaches, check_one_lem}
use pulse_monitor.Monitor.Check.{Outside, check_one}
use pulse_monitor.Monitor.Types.{Target, failed}
use pulse_monitor.Prelude.{ℕ, ◌≡◌, refl, false, [], ◌∷◌, some, arith}
use pulse_monitor.Result.{ok}
use pulse_monitor.TargetServer.{handle}
use pulse_monitor.Text.{codes}

handle-fresh : handle fresh ≡ record {
  header = (codes "Content-Type", codes "text/plain; charset=utf-8") ∷ [];
  sent = some 200;
  sent_header = (codes "Content-Type", codes "text/plain; charset=utf-8") ∷ [];
  body = codes "ok";
}
unfolding handle
handle-fresh = refl

-- A check that reaches the target server counts as a success.
check_one-handle :
    (w : Outside) (t : Target) {status : ℕ}
    → (handle fresh).sent ≡ some status
    → Reaches w t (ok status)
    → failed (check_one w t).outcome ≡ false
unfolding handle
check_one-handle w t {status} s r =
    let e : 200 ≡ status = cc in
    (check_one_lem w t).2.1 (status, r, omega (arith, e), omega (arith, e))
