-- ===== src/Handlers/Targets/Deletion.antt =====
-- When a target is deleted.
use pulse_monitor.Handlers.Targets.{Served, after_delete, handle_delete_target}
use pulse_monitor.Handlers.Writer.{fresh, status_of, http_error, write_header}
use pulse_monitor.Handlers.Views.{View, Rendered, publish_target_removed}
use pulse_monitor.Prelude.{
  ℕ, zero, suc, ◌<◌, sym, ◌≡◌, ◌≢◌, ◌↔◌, refl, ap, ◌∙◌, [], ◌∷◌, Option, none, arith,
}
use pulse_monitor.Result.{Result, ok, err}
use pulse_monitor.Sse.Hub.{Hub}
use pulse_monitor.Store.{DriverError, Driver, deleted, delete_target}
use pulse_monitor.Text.{Text}

-- The statement that deletes the row `id` affected `n` rows.
pub record Affects (d : Driver) (id : Text) (n : ℕ) : Type 0 where
  pub ne_nil : id ≢ []
  pub affected : d.delete id ≡ ok n

differs : {P : Type 0} (a b : ℕ) → a < b → b ≡ a → P
differs a b h e = absurd (let k : ⊥ = omega arith in k)

pub deleted-suc : (n : ℕ) → deleted (ok (suc n)) ≡ none
deleted-suc n = ground arith

module _ (render : View → Rendered) (h : Option Hub) (id : Text) where
  abbrev after : Result DriverError ℕ → Served (Unit {0})
  after r = after_delete render h fresh id (deleted r, tt)

  deleted-status :
      (r : Result DriverError ℕ)
      → ((status_of (after r).response ≡ 200)
          ↔ ((n : ℕ) × (r ≡ ok n) × (n ≢ 0) × ((after r).hub ≡ publish_target_removed render id h)))
        × ((status_of (after r).response ≡ 404) ↔ (r ≡ ok 0))
  unfolding http_error write_header
  deleted-status (err e) = (
    (λ k. differs 200 500 (omega arith) k, λ k. cc (k.1)),
    (λ k. differs 404 500 (omega arith) k, λ k. cc),
  )
  deleted-status (ok zero) = (
    (
      λ k. differs 200 404 (omega arith) k,
      λ k. absurd (k.2 (let e : zero ≡ k.0 = cc (k.1) in sym e)),
    ),
    (λ k. refl, λ k. refl),
  )
  deleted-status (ok (suc n)) =
      let e : after (ok (suc n)) ≡ after_delete render h fresh id (none, tt) =
        ap (λ r. after_delete {S = Unit} render h fresh id (r, tt)) (deleted-suc n) in
      let e200 : status_of (after (ok (suc n))).response ≡ 200 =
        ap (λ (x : Served Unit). status_of x.response) e in
      (
        (λ k. (suc n, refl, (λ z. omega arith), ap (λ s. s.hub) e), λ k. e200),
        (
          λ k. differs 200 404 (omega arith) (sym k ∙ e200),
          λ k. let z : suc n ≡ 0 = cc in absurd (let b : ⊥ = omega arith in b),
        ),
      )

-- HandleDeleteTarget on the store answers 200 exactly if the id is not empty and the database
-- deleted a row of that id, and 404 exactly if the id is not empty and it found none; with 200 the
-- hub gets the event target_removed of that id.
pub handle_delete_target_lem :
    (render : View → Rendered) (d : Driver) (h : Option Hub) (id : Text)
    → let s =
        handle_delete_target {S = Unit} render (λ id u. (delete_target d id, u)) h tt fresh id in
      ((status_of s.response ≡ 200)
        ↔ ((n : ℕ) × Affects d id n × (n ≢ 0) × (s.hub ≡ publish_target_removed render id h)))
      × ((status_of s.response ≡ 404) ↔ Affects d id 0)
unfolding handle_delete_target delete_target
handle_delete_target_lem render d h [] = (
  (λ k. differs 200 400 (omega arith) k, λ k. absurd (k.1.ne_nil refl)),
  (λ k. differs 400 404 (omega arith) (sym k), λ k. absurd (k.ne_nil refl)),
)
handle_delete_target_lem render d h (c ∷ id) =
    let ((f, g), (f', g')) = deleted-status render h (c ∷ id) (d.delete (c ∷ id)) in
    (
      (
        λ k. let (n, e, ne, hub) = f k in (n, record { ne_nil = λ z. cc; affected = e }, ne, hub),
        λ k. g (k.0, k.1.affected, k.2, k.3),
      ),
      (λ k. record { ne_nil = λ z. cc; affected = f' k }, λ k. g' k.affected),
    )
