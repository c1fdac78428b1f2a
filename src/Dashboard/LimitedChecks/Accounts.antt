-- ===== src/Dashboard/LimitedChecks/Accounts.antt =====
-- The requests of the checks against the calls of Wait that return nil.
use pulse_monitor.Dashboard.LimitedChecks.Admissions.{
  admitted-append, acts_of-snoc, granted_at-snoc, woken-admitted, hostless-admitted,
}
use pulse_monitor.Dashboard.HostRates.{admitted, HasLimiter}
use pulse_monitor.Dashboard.LimitedChecks.{
  Waiting, Limited, opened, wait_error, with_limiter, wait_at, checked,
}
use pulse_monitor.Monitor.Check.{Outside, domain_of}
use pulse_monitor.Monitor.Types.{Target}
use pulse_monitor.Prelude.Int.{ℤ}
use pulse_monitor.Prelude.{
  All-map, inl, inr, ℕ, ◌≤◌, ◌≡◌, refl, List, [], ◌∷◌, ◌++◌, All, All-append, none, some, arith,
}
use pulse_monitor.RateLimit.Bucket.Bounds.{grants}
use pulse_monitor.RateLimit.Bucket.{Bucket, Outcome}
use pulse_monitor.RateLimit.Manager.Isolation.{run-cons, run-nil}
use pulse_monitor.RateLimit.Manager
use pulse_monitor.RateLimit.Manager.Pace.{acts_of}
use pulse_monitor.RateLimit.Manager.Steps.{moves_at, act-find, enter-inv, find-cons}
use pulse_monitor.RateLimit.Manager.{Manager, find, Act, enters, returns, new_manager, act}
use pulse_monitor.Result.{ok, err}
use pulse_monitor.Text.Split.{text_eq_refl}
use pulse_monitor.Text.{Text}

-- The host that a blocked check waits for is that of its URL, and has a bucket.
abbrev pub HasHost : Manager → Waiting → Type 0
HasHost m (w, t, host) =
    (domain_of w t.url ≡ ok host) × (b : Bucket) × (find host m.buckets ≡ some b)

abbrev granted_at : Text → Limited → ℕ
granted_at k x = grants (moves_at k (acts_of x.history))

-- The manager is where its history has brought it, and a check is let through only by a call of Wait
-- for its host that returned nil.
pub record IsAccounted (rate : ℤ) (x : Limited) : Type 0 where
  pub managed : Manager.run (acts_of x.history) (new_manager rate) ≡ some x.manager
  pub limited : All HasLimiter x.checks
  pub waited : All (HasHost x.manager) x.waiting
  pub let_through : (k : Text) → admitted k x.checks ≤ granted_at k x

pub opened-IsAccounted : (rate : ℤ) → IsAccounted rate (opened rate)
opened-IsAccounted rate = record {
  managed = unfold Manager.run in refl;
  limited = tt;
  waited = tt;
  let_through = λ k. omega arith;
}

manager_run_then :
    (b : Act) (bs : List Act) (l : Manager) {m n : Manager}
    → act b l ≡ some m
    → Manager.run bs m ≡ some n
    → Manager.run (b ∷ bs) l ≡ some n
unfolding Manager.run
manager_run_then b bs l f h = rw f h

manager_run-snoc :
    (bs : List Act) (a : Act) (l : Manager) {m n : Manager}
    → Manager.run bs l ≡ some m
    → act a m ≡ some n
    → Manager.run (bs ++ a ∷ []) l ≡ some n
manager_run-snoc [] a l r e = unfold Manager.run in rw (run-nil l r, e) refl
manager_run-snoc (b ∷ bs) a l r e =
    let (c, f, g) = run-cons b bs l r in
    manager_run_then b (bs ++ a ∷ []) l f (manager_run-snoc bs a c g e)

HasHost-act :
    (a : Act) (m : Manager) {n : Manager} (g : Waiting)
    → act a m ≡ some n
    → HasHost m g
    → HasHost n g
HasHost-act a m (w, t, host) e (d, b, f) = let (c, g, _) = act-find host a m b e f in (d, c, g)

enters-find :
    (host : Text) (m : Manager) {n : Manager}
    → act (enters host) m ≡ some n
    → (b : Bucket) × (find host n.buckets ≡ some b)
unfolding act
enters-find host m {n} e = elim (enter-inv host m {m' = n} e) [
  | inl (c, f, p) ↦ (c, rw (← p) f)
  | inr (c, f, g, p) ↦ (c, rw (← p, find-cons host host c m.buckets, text_eq_refl host) refl)
]

abbrev pub after : ℕ → Act → Limited → Manager → Limited
after time a x m = record x { manager = m; history = x.history ++ (time, a) ∷ [] }

module _ {rate : ℤ} where
  managed-snoc :
      (time : ℕ) (a : Act) (x : Limited) {m : Manager}
      → IsAccounted rate x
      → act a x.manager ≡ some m
      → Manager.run (acts_of (x.history ++ (time, a) ∷ [])) (new_manager rate) ≡ some m
  managed-snoc time a x i e =
      rw (acts_of-snoc x.history time a)
        (manager_run-snoc (acts_of x.history) a (new_manager rate) i.managed e)

  pub after-IsAccounted :
      (time : ℕ) (a : Act) (x : Limited) {m : Manager}
      → IsAccounted rate x
      → act a x.manager ≡ some m
      → IsAccounted rate (after time a x m)
  after-IsAccounted time a x i e = record {
    managed = managed-snoc time a x i e;
    limited = i.limited;
    waited = All-map (λ g. HasHost-act a x.manager g e) x.waiting i.waited;
    let_through = λ k. omega (arith, i.let_through k, granted_at-snoc k x.history time a);
  }

  pub begun-IsAccounted :
      (time : ℕ) (w : Outside) (t : Target) (host : Text) (x : Limited) {m : Manager}
      → IsAccounted rate x
      → act (enters host) x.manager ≡ some m
      → domain_of w t.url ≡ ok host
      → IsAccounted rate (wait_at (w, t, host) (after time (enters host) x m))
  begun-IsAccounted time w t host x {m = m} i e d =
      let j = after-IsAccounted time (enters host) x i e in
      record {
        managed = j.managed;
        limited = j.limited;
        waited =
            All-append (HasHost m) x.waiting ((w, t, host) ∷ []) j.waited
              (let (b, f) = enters-find host x.manager e in (d, b, f), tt);
        let_through = j.let_through;
      }

  pub hostless-IsAccounted :
      (w : Outside) (t : Target) (x : Limited) {e : Text}
      → IsAccounted rate x
      → domain_of w t.url ≡ err e
      → IsAccounted rate (checked (with_limiter w none) t x)
  hostless-IsAccounted w t x i d = record {
    managed = i.managed;
    limited = All-append HasLimiter x.checks _ i.limited ((_, refl), tt);
    waited = i.waited;
    let_through = λ k. omega (
      arith,
      i.let_through k,
      admitted-append k x.checks ((with_limiter w none, t) ∷ []),
      hostless-admitted k w t d,
    );
  }

  pub woken-IsAccounted :
      (time : ℕ) (o : Outcome) (e : Text) (w : Outside) (t : Target) (host : Text)
      (rest : List Waiting) (x : Limited) {m : Manager}
      → IsAccounted rate x
      → act (returns host o) x.manager ≡ some m
      → domain_of w t.url ≡ ok host
      → All (HasHost x.manager) rest
      → IsAccounted rate (
          checked
            (with_limiter w (wait_error o e))
            t
            (record (after time (returns host o) x m) { waiting = rest }))
  woken-IsAccounted time o e w t host rest x i f d r = record {
    managed = managed-snoc time (returns host o) x i f;
    limited = All-append HasLimiter x.checks _ i.limited ((_, refl), tt);
    waited = All-map (λ g. HasHost-act (returns host o) x.manager g f) rest r;
    let_through = λ k. omega (
      arith,
      i.let_through k,
      admitted-append k x.checks ((with_limiter w (wait_error o e), t) ∷ []),
      woken-admitted k host w t o e d,
      granted_at-snoc k x.history time (returns host o),
    );
  }
