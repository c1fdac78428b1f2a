-- ===== src/Monitor/Check/Outcomes.antt =====
-- What a check reports, and what it asked of the network for it.
use pulse_monitor.Monitor.Check.{
  Outside, Call, waits_for, domain_of, answered, request, after_wait, limited, with_domain,
  check_one,
}
use pulse_monitor.Monitor.Types.{Target, CheckResult, failed}
use pulse_monitor.Prelude.{
  ℕ, ◌≤◌, ◌<◌, ◌≡◌, ◌↔◌, refl, false, List, [], ◌∷◌, Option, none, some, arith,
}
use pulse_monitor.Result.{Result, ok, err}
use pulse_monitor.Text.{Text}

-- The limiter, if there is one, lets the host through.
abbrev pub LetsThrough : Option (Text → Option Text) → Text → Type 0
LetsThrough none domain = Unit
LetsThrough (some wait) domain = wait domain ≡ none

-- The check of `t` got this answer: the URL has a host, the limiter (if there is one) let the host
-- through, the request could be built, and the client returned the answer.
pub record Reaches (w : Outside) (t : Target) (answer : Result Text ℕ) : Type 0 where
  pub domain : Text
  pub has_host : domain_of w t.url ≡ ok domain
  pub let_through : LetsThrough w.limiter domain
  pub built : w.build t.url ≡ none
  pub replied : (w.get t.url).answer ≡ answer

module _ (w : Outside) (t : Target) where
  abbrev IsAbout : CheckResult → Type 0
  IsAbout r = (r.target ≡ t) × (r.checked_at ≡ w.now)

  answered-IsAbout : (d : ℕ) (r : Result Text ℕ) → IsAbout (answered w t d r)
  unfolding answered
  answered-IsAbout d (err e) = (refl, refl)
  answered-IsAbout d (ok status) = (refl, refl)

  request-IsAbout : (before : List Call) (o : Option Text) → IsAbout (request w t before o).outcome
  unfolding request
  request-IsAbout before (some e) = (refl, refl)
  request-IsAbout before none = answered-IsAbout (w.get t.url).duration (w.get t.url).answer

  after_wait-IsAbout : (d : Text) (o : Option Text) → IsAbout (after_wait w t d o).outcome
  after_wait-IsAbout d (some e) = (refl, refl)
  after_wait-IsAbout d none = request-IsAbout (waits_for d ∷ []) (w.build t.url)

  limited-IsAbout : (d : Text) (o : Option (Text → Option Text)) → IsAbout (limited w t d o).outcome
  unfolding limited
  limited-IsAbout d none = request-IsAbout [] (w.build t.url)
  limited-IsAbout d (some wait) = after_wait-IsAbout d (wait d)

  with_domain-IsAbout : (r : Result Text Text) → IsAbout (with_domain w t r).outcome
  with_domain-IsAbout (err e) = (refl, refl)
  with_domain-IsAbout (ok d) = limited-IsAbout d w.limiter

  -- A successful status.
  abbrev IsUp : ℕ → Type 0
  IsUp status = (200 ≤ status) × (status < 400)

  abbrev GetsUp : Type 0
  GetsUp = (status : ℕ) × ((w.get t.url).answer ≡ ok status) × IsUp status

  answered-IsUp :
      (d : ℕ) (r : Result Text ℕ)
      → failed (answered w t d r) ≡ false
      → (status : ℕ) × (r ≡ ok status) × IsUp status
  unfolding answered failed
  answered-IsUp d (err e) h = cc
  answered-IsUp d (ok status) h = (status, refl, ground arith)

  request-up :
      (before : List Call) (o : Option Text)
      → failed (request w t before o).outcome ≡ false
      → (o ≡ none) × GetsUp
  unfolding request
  request-up before (some e) h = unfold failed in cc
  request-up before none h = (refl, answered-IsUp (w.get t.url).duration (w.get t.url).answer h)

  after_wait-up :
      (d : Text) (o : Option Text)
      → failed (after_wait w t d o).outcome ≡ false
      → (o ≡ none) × (w.build t.url ≡ none) × GetsUp
  after_wait-up d (some e) h = unfold failed in cc
  after_wait-up d none h =
      let (b, g) = request-up (waits_for d ∷ []) (w.build t.url) h in (refl, b, g)

  limited-up :
      (d : Text) (o : Option (Text → Option Text))
      → failed (limited w t d o).outcome ≡ false
      → LetsThrough o d × (w.build t.url ≡ none) × GetsUp
  unfolding limited
  limited-up d none h = let (b, g) = request-up [] (w.build t.url) h in (tt, b, g)
  limited-up d (some f) h = let (l, b, g) = after_wait-up d (f d) h in (l, b, g)

  with_domain-up :
      (r : Result Text Text)
      → failed (with_domain w t r).outcome ≡ false
      → (d : Text) × (r ≡ ok d) × LetsThrough w.limiter d × (w.build t.url ≡ none) × GetsUp
  with_domain-up (err e) h = unfold failed in cc
  with_domain-up (ok d) h = let (l, b, g) = limited-up d w.limiter h in (d, refl, l, b, g)

  check_one-up :
      failed (check_one w t).outcome ≡ false
      → (status : ℕ) × Reaches w t (ok status) × (200 ≤ status) × (status < 400)
  unfolding check_one
  check_one-up h =
      let (d, e, l, b, (status, a, up)) = with_domain-up (domain_of w t.url) h in
      (
        status,
        record { domain = d; has_host = e; let_through = l; built = b; replied = a },
        up.0,
        up.1,
      )

  limited-Reaches :
      (d : Text) (o : Option (Text → Option Text)) (status : ℕ)
      → LetsThrough o d
      → w.build t.url ≡ none
      → (w.get t.url).answer ≡ ok status
      → IsUp status
      → failed (limited w t d o).outcome ≡ false
  unfolding limited request answered failed
  limited-Reaches d none status l b a up = rw (b, request, a) (ground arith)
  limited-Reaches d (some f) status l b a up = rw (l, b, request, a) (ground arith)

-- A check always reports on its own target, at the time at which it started; it counts as a success
-- exactly when it reaches the server and the answer's status is from 200 to 399.
pub check_one_lem :
    (w : Outside) (t : Target)
    → ((check_one w t).outcome.target ≡ t)
      × ((check_one w t).outcome.checked_at ≡ w.now)
      × ((failed (check_one w t).outcome ≡ false)
          ↔ ((status : ℕ) × Reaches w t (ok status) × (200 ≤ status) × (status < 400)))
check_one_lem w t =
    let (a, b) = with_domain-IsAbout w t (domain_of w t.url) in
    (
      unfold check_one in a,
      unfold check_one in b,
      (
        check_one-up w t,
        λ s.
            unfold check_one in
            rw s.1.has_host (
              limited-Reaches w t s.1.domain w.limiter s.0 s.1.let_through s.1.built s.1.replied
                (s.2, s.3)),
      ),
    )
