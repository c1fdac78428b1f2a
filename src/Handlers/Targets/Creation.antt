-- ===== src/Handlers/Targets/Creation.antt =====
-- When a target is created, and what a response other than 200 leaves behind.
use pulse_monitor.Handlers.Targets.{
  Uri, validate_target_url, Served, refuse, create_error, after_create, after_validate,
  handle_create_target,
}
use pulse_monitor.Handlers.Writer.{fresh, status_of, write_header, http_error}
use pulse_monitor.Handlers.Views.{View, Rendered, publish_target_added}
use pulse_monitor.Monitor.Types.{Target}
use pulse_monitor.Prelude.{
  ℕ, ◌≡◌, ◌≢◌, ◌<◌, ◌↔◌, ◌⊎◌, inl, inr, refl, sym, ap, ◌∙◌, Option, none, some, arith,
  if◌then◌else◌, Bool, true, false, ◌++◌, some-inj,
}
use pulse_monitor.Result.{Result, ok, err}
use pulse_monitor.Sse.Hub.{Hub}
use pulse_monitor.Store.{
  StoreError, DriverError, Driver, target_exists, wrapped, has_code, created, create_target,
}
use pulse_monitor.Text.Split.{text_eq_iff}
use pulse_monitor.Text.{Text, codes, trim_space}
use pulse_monitor.Handlers.Targets.Urls.{IsMonitorable, validate_target_url_iff}

abbrev status : Served (Unit {0}) → ℕ
status s = status_of s.response

abbrev hub_of : Served (Unit {0}) → Option Hub
hub_of s = s.hub

-- The form has a URL that can be monitored, and the database answers its insertion like this.
pub record Inserts (parse : Text → Option Uri) (d : Driver) (form : Option Text)
    (answer : Result DriverError Target) : Type 0 where
  pub raw : Text
  pub sent : form ≡ some raw
  pub monitorable : IsMonitorable parse raw
  pub inserted : d.insert (trim_space raw) ≡ answer

module _ (render : View → Rendered) (parse : Text → Option Uri) (d : Driver) (h : Option Hub) where
  -- On a database that answers like this.
  abbrev pub answers : Text → Unit {0} → Result StoreError Target × Unit {0}
  answers url s = (create_target d url, s)

  abbrev pub handled : Option Text → Served (Unit {0})
  handled form = handle_create_target render parse answers h tt fresh form

  handled-Inserts :
      (form : Option Text) (answer : Result DriverError Target)
      → Inserts parse d form answer
      → handled form ≡ after_create render h fresh (created answer, tt)
  unfolding handle_create_target create_target
  handled-Inserts form answer i =
      rw (i.sent, (validate_target_url_iff parse i.raw _).1 (refl, i.monitorable), i.inserted) refl

  validated-created :
      (raw : Text) (r : Result Text Text)
      → validate_target_url parse raw ≡ r
      → status_of (after_validate render answers h tt fresh r).response ≢ 400
      → (answer : Result DriverError Target) × Inserts parse d (some raw) answer
  unfolding http_error
  validated-created raw (err e) p n = absurd (n refl)
  validated-created raw (ok url) p n =
      let (e, m) = (validate_target_url_iff parse raw url).0 p in
      (
        d.insert (trim_space raw),
        record { raw = raw; sent = refl; monitorable = m; inserted = refl },
      )

  handled-eq :
      (form : Option Text)
      → status_of (handled form).response ≢ 400
      → (answer : Result DriverError Target) × Inserts parse d form answer
  unfolding handle_create_target
  handled-eq none n = absurd (n refl)
  handled-eq (some raw) n = validated-created raw (validate_target_url parse raw) refl n

has_code_iff : (code : Text) (o : Option Text) → (has_code code o ≡ true) ↔ (o ≡ some code)
unfolding has_code
has_code_iff code none = (λ h. cc, λ h. cc)
has_code_iff code (some c) =
    (λ h. ap some ((text_eq_iff c code).0 h), λ h. (text_eq_iff c code).1 (some-inj h))

-- What the handler makes of an error of the store that has this code or not.
status_for : (duplicate : Bool) (context : Text) → ℕ
status_for duplicate context =
    status_of (create_error (if duplicate then target_exists else wrapped context) fresh)

other_status : (a b : ℕ) → a < b → b ≢ a
other_status a b h = omega arith

status_for-cases :
    (b : Bool) (m : Text) → (status_for b m ≢ 200) × ((status_for b m ≡ 409) ↔ (b ≡ true))
unfolding status_for http_error
status_for-cases true m = (λ e. omega arith, (λ e. refl, λ e. refl))
status_for-cases false m =
    (λ e. omega arith, (λ e. absurd (other_status 409 500 (omega arith) e), λ e. cc))

abbrev pub duplicate : Text
duplicate = codes "23505"

module _ (render : View → Rendered) (h : Option Hub) where
  failed-status :
      (e : DriverError)
      → let s = status_of (after_create {S = Unit} render h fresh (created (err e), tt)).response in
        (s ≢ 200) × ((s ≡ 409) ↔ (e.code ≡ some duplicate))
  unfolding status_for http_error
  failed-status e =
      let (n, (f, g)) =
        status_for-cases (has_code duplicate e.code)
          (codes "create target" ++ codes ": " ++ e.message) in
      let (c, c') = has_code_iff duplicate e.code in (n, (λ k. c (f k), λ k. g (c' k)))

module _ (render : View → Rendered) (parse : Text → Option Uri) (d : Driver) (h : Option Hub)
    (form : Option Text) where
  abbrev pub Announces : Type 0
  Announces =
      (t : Target) × Inserts parse d form (ok t)
      × (status_of (handled render parse d h form).response ≡ 200)
      × ((handled render parse d h form).hub ≡ publish_target_added render t h)

  abbrev pub LeavesAlone : Type 0
  LeavesAlone =
      (status_of (handled render parse d h form).response ≢ 200)
      × ((handled render parse d h form).hub ≡ h)

  inserted-outcome :
      (answer : Result DriverError Target) → Inserts parse d form answer → Announces ⊎ LeavesAlone
  unfolding write_header
  inserted-outcome (ok t) i =
      let e = handled-Inserts render parse d h form (ok t) i in inl (t, i, ap status e, ap hub_of e)
  inserted-outcome (err x) i =
      let e = handled-Inserts render parse d h form (err x) i in
      inr (λ k. (failed-status render h x).0 (sym (ap status e) ∙ k), ap hub_of e)

-- HandleCreateTarget on the store answers in one of two ways. It answers 200 and gives the hub the
-- event target_added of the new row, the form having held a URL that can be monitored and the
-- database having inserted it; or it answers with another status and leaves the hub as it was.
pub handle_create_target_lem :
    (render : View → Rendered) (parse : Text → Option Uri) (d : Driver) (h : Option Hub)
    (form : Option Text)
    → Announces render parse d h form ⊎ LeavesAlone render parse d h form
unfolding handle_create_target
handle_create_target_lem render parse d h none = inr (λ k. omega arith, refl)
handle_create_target_lem render parse d h (some raw) =
    validated-outcome (validate_target_url parse raw) refl
  where
    validated-outcome :
        (r : Result Text Text)
        → validate_target_url parse raw ≡ r
        → Announces render parse d h (some raw) ⊎ LeavesAlone render parse d h (some raw)
    validated-outcome (err e) p =
        let e' : handled render parse d h (some raw) ≡ refuse h tt (http_error e 400 fresh) =
          ap (after_validate render (answers render parse d h) h tt fresh) p in
        inr (λ k. other_status 200 400 (omega arith) (sym (ap status e') ∙ k), ap hub_of e')
    validated-outcome (ok url) p =
        let (e, m) = (validate_target_url_iff parse raw url).0 p in
        inserted-outcome render parse d h (some raw) (d.insert (trim_space raw))
          (record { raw = raw; sent = refl; monitorable = m; inserted = refl })

-- HandleCreateTarget answers 409 exactly if the form holds a URL that can be monitored and the
-- database refuses it with the code 23505 of a unique violation.
pub handle_create_target_conflict :
    (render : View → Rendered) (parse : Text → Option Uri) (d : Driver) (h : Option Hub)
    (form : Option Text)
    → (status_of (handled render parse d h form).response ≡ 409)
      ↔ ((e : DriverError) × Inserts parse d form (err e) × (e.code ≡ some duplicate))
unfolding write_header
handle_create_target_conflict render parse d h form = (
  λ k.
      let (answer, i) =
        handled-eq render parse d h form (λ z. other_status 400 409 (omega arith) (sym k ∙ z)) in
      conflict-inv answer i (sym (ap status (handled-Inserts render parse d h form answer i)) ∙ k),
  λ c.
      ap status (handled-Inserts render parse d h form (err c.0) c.1)
      ∙ (failed-status render h c.0).1.1 c.2,
)
  where
    conflict-inv :
        (answer : Result DriverError Target)
        → Inserts parse d form answer
        → status_of (after_create render h fresh (created answer, tt)).response ≡ 409
        → (e : DriverError) × Inserts parse d form (err e) × (e.code ≡ some duplicate)
    conflict-inv (ok t) i k = absurd (other_status 200 409 (omega arith) (sym k))
    conflict-inv (err e) i k = (e, i, (failed-status render h e).1.0 k)
