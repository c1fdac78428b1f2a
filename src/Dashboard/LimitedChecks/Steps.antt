-- ===== src/Dashboard/LimitedChecks/Steps.antt =====
-- Every turn of the checks and of the buckets keeps the accounts.
use pulse_monitor.Dashboard.LimitedChecks.Accounts.{
  IsAccounted, HasHost, after-IsAccounted, begun-IsAccounted, hostless-IsAccounted,
  woken-IsAccounted,
}
use pulse_monitor.Dashboard.LimitedChecks.{
  Waiting, Limited, Event, begins, wakes, others, wait_error, with_limiter, acted, map_limited,
  wait_at, checked, begin, wake, step,
}
use pulse_monitor.Monitor.Check.{Outside, domain_of}
use pulse_monitor.Monitor.Types.{Target}
use pulse_monitor.Prelude.Int.{ℤ}
use pulse_monitor.Prelude.{
  ℕ, ◌≡◌, refl, subst, List, take_out, All, All-take_out, Option, none, some,
}
use pulse_monitor.RateLimit.Bucket.{Outcome}
use pulse_monitor.RateLimit.Manager.{Manager, Act, enters, returns, act}
use pulse_monitor.Result.{Result, ok, err}
use pulse_monitor.Text.{Text}

module _ {rate : ℤ} where
  others-IsAccounted :
      (time : ℕ) (a : Act) (x : Limited) (o : Option Manager) {y : Limited}
      → IsAccounted rate x
      → act a x.manager ≡ o
      → acted time a x o ≡ some y
      → IsAccounted rate y
  others-IsAccounted time a x none i f e = cc
  others-IsAccounted time a x (some m) i f e =
      subst (IsAccounted rate) (cc) (after-IsAccounted time a x i f)

  begin-IsAccounted :
      (time : ℕ) (w : Outside) (t : Target) (x : Limited) (r : Result Text Text) {y : Limited}
      → IsAccounted rate x
      → domain_of w t.url ≡ r
      → begin time w t x r ≡ some y
      → IsAccounted rate y
  begin-IsAccounted time w t x (err e) i d h =
      subst (IsAccounted rate) (cc) (hostless-IsAccounted w t x i d)
  begin-IsAccounted time w t x (ok host) {y = y} i d h =
      entered-IsAccounted (act (enters host) x.manager) refl h
    where
      entered-IsAccounted :
          (o : Option Manager)
          → act (enters host) x.manager ≡ o
          → map_limited (wait_at (w, t, host)) (acted time (enters host) x o) ≡ some y
          → IsAccounted rate y
      entered-IsAccounted none f e = cc
      entered-IsAccounted (some m) f e =
          subst (IsAccounted rate) (cc) (begun-IsAccounted time w t host x i f d)

  wake-IsAccounted :
      (time : ℕ) (o : Outcome) (e : Text) (x : Limited) (p : Option (Waiting × List Waiting))
      {y : Limited}
      → IsAccounted rate x
      → ((g : Waiting) (gs : List Waiting)
          → p ≡ some (g, gs)
          → HasHost x.manager g × All (HasHost x.manager) gs)
      → wake time o e x p ≡ some y
      → IsAccounted rate y
  wake-IsAccounted time o e x none i q h = cc
  wake-IsAccounted time o e x (some ((w, t, host), rest)) {y = y} i q h =
      returned-IsAccounted (act (returns host o) x.manager) refl h
    where
      returned-IsAccounted :
          (c : Option Manager)
          → act (returns host o) x.manager ≡ c
          → map_limited
              (λ z. checked (with_limiter w (wait_error o e)) t (record z { waiting = rest }))
              (acted time (returns host o) x c)
            ≡ some y
          → IsAccounted rate y
      returned-IsAccounted none f k = cc
      returned-IsAccounted (some m) f k =
          let (d, r) = q (w, t, host) rest refl in
          subst (IsAccounted rate) (cc) (woken-IsAccounted time o e w t host rest x i f d.0 r)

  pub step-IsAccounted :
      (time : ℕ) (e : Event) (x : Limited) {y : Limited}
      → step (time, e) x ≡ some y
      → IsAccounted rate x
      → IsAccounted rate y
  unfolding step
  step-IsAccounted time (begins w t) x h i =
      begin-IsAccounted time w t x (domain_of w t.url) i refl h
  step-IsAccounted time (wakes n o e) x h i =
      wake-IsAccounted time o e x (take_out n x.waiting) i
        (λ g gs p. All-take_out (HasHost x.manager) n x.waiting p i.waited) h
  step-IsAccounted time (others a) x h i = others-IsAccounted time a x (act a x.manager) i refl h
