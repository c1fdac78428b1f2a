-- ===== src/Handlers/Targets/Pages.antt =====
-- What HandleListTargets writes.
use mathlib.Core.List.{append_assoc, append-nil}
use pulse_monitor.Handlers.Targets.{
  write_rendered, target_rows, after_row, html, handle_list_targets,
}
use pulse_monitor.Handlers.Views.{View, target_row, Rendered}
use pulse_monitor.Handlers.Writer.{Writer, fresh, status_of, write}
use pulse_monitor.Monitor.Types.{Target}
use pulse_monitor.Prelude.{
  ◌≡◌, ◌≢◌, refl, sym, ap, ◌∙◌, List, [], ◌∷◌, ◌++◌, Option, none, some, arith, All, Option-cases,
  inl, inr,
}
use pulse_monitor.Result.{err}
use pulse_monitor.Store.Listing.{Lists, list_targets_iff}
use pulse_monitor.Store.{StoreError, Driver, list_targets}
use pulse_monitor.Text.{Text, codes}

write_rendered-body : (s : Text) (w : Writer) → (write_rendered s w).body ≡ w.body ++ s
unfolding write
write_rendered-body [] w = sym (append-nil w.body)
write_rendered-body (c ∷ s) w = ground arith

write_rendered-status :
    (s : Text) (w : Writer) → status_of w ≡ 200 → status_of (write_rendered s w) ≡ 200
unfolding write
write_rendered-status [] w h = h
write_rendered-status (c ∷ s) w h = ground arith

module _ (render : View → Rendered) where
  -- The row of a target, as far as it renders.
  abbrev pub row : Target → Text
  row t = (render (target_row t)).written

  abbrev pub rows : List Target → Text
  rows [] = []
  rows (t ∷ ts) = row t ++ rows ts

  abbrev pub Renders : Target → Type 0
  Renders t = (render (target_row t)).error ≡ none

  after_row-status :
      (o : Option Text) (rest : Writer → Writer) (w : Writer)
      → status_of w ≡ 200
      → ((v : Writer) → status_of v ≡ 200 → status_of (rest v) ≡ 200)
      → status_of (after_row o rest w) ≡ 200
  after_row-status none rest w h k = k w h
  after_row-status (some e) rest w h k = h

  rows_status :
      (ts : List Target) (w : Writer)
      → status_of w ≡ 200
      → status_of (target_rows render ts w) ≡ 200
  unfolding target_rows
  rows_status [] w h = h
  rows_status (t ∷ ts) w h =
      let r = render (target_row t) in
      after_row-status r.error (target_rows render ts) (write_rendered r.written w)
        (write_rendered-status r.written w h) (rows_status ts)

  rows_every :
      (ts : List Target) (w : Writer)
      → All Renders ts
      → (target_rows render ts w).body ≡ w.body ++ rows ts
  unfolding target_rows
  rows_every [] w a = sym (append-nil w.body)
  rows_every (t ∷ ts) w a =
      let v = write_rendered (row t) w in
      ap (λ o. (after_row o (target_rows render ts) v).body) a.0
      ∙ rows_every ts v a.1
      ∙ ap (λ b. b ++ rows ts) (write_rendered-body (row t) w)
      ∙ append_assoc w.body (row t) (rows ts)

  rows_until :
      (us vs : List Target) (t : Target) (w : Writer) (e : Text)
      → All Renders us
      → (render (target_row t)).error ≡ some e
      → (target_rows render (us ++ t ∷ vs) w).body ≡ w.body ++ (rows us ++ row t)
  unfolding target_rows
  rows_until [] vs t w e a f =
      let v = write_rendered (row t) w in
      ap (λ o. (after_row o (target_rows render vs) v).body) f ∙ write_rendered-body (row t) w
  rows_until (u ∷ us) vs t w e a f =
      let v = write_rendered (row u) w in
      ap (λ o. (after_row o (target_rows render (us ++ t ∷ vs)) v).body) a.0
      ∙ rows_until us vs t v e a.1 f
      ∙ ap (λ b. b ++ (rows us ++ row t)) (write_rendered-body (row u) w)
      ∙ append_assoc w.body (row u) (rows us ++ row t)
      ∙ ap (λ b. w.body ++ b) (sym (append_assoc (row u) (rows us) (row t)))

  -- Nothing is left, or a row that fails comes first.
  abbrev pub Stops : List Target → Type 0
  Stops [] = Unit {0}
  Stops (t ∷ ts) = (render (target_row t)).error ≢ none

  abbrev pub first_row : List Target → Text
  first_row [] = []
  first_row (t ∷ ts) = row t

  rows-body :
      (us rest : List Target) (w : Writer)
      → All Renders us
      → Stops rest
      → (target_rows render (us ++ rest) w).body ≡ w.body ++ (rows us ++ first_row rest)
  rows-body us [] w a f =
      ap (λ ts. (target_rows render ts w).body) (append-nil us)
      ∙ rows_every us w a
      ∙ ap (λ b. w.body ++ b) (sym (append-nil (rows us)))
  rows-body us (t ∷ vs) w a f = elim (Option-cases (render (target_row t)).error) [
    | inl none_left ↦ absurd (f none_left)
    | inr (e, g) ↦ rows_until us vs t w e a g
  ]

-- GET /targets when ListTargets gives some targets that render, followed by none or by one that fails
-- to: the answer is 200, and its body is the rows of the first ones, in order, and then what was
-- written of the row that failed, and nothing of those behind it.
pub handle_list_targets_lem :
    (render : View → Rendered) (d : Driver) (us rest : List Target)
    → Lists d (us ++ rest)
    → All (Renders render) us
    → Stops render rest
    → let w = handle_list_targets render (list_targets d) fresh in
      (status_of w ≡ 200) × (w.body ≡ rows render us ++ first_row render rest)
unfolding handle_list_targets
handle_list_targets_lem render d us rest l a f =
    let p = (list_targets_iff d (us ++ rest)).1 l in
    rw p
      (rows_status render (us ++ rest) (html fresh) refl, rows-body render us rest (html fresh) a f)

-- GET /targets answers 500 with no row if ListTargets gives an error.
pub handle_list_targets_error :
    (render : View → Rendered) (d : Driver) (e : StoreError)
    → list_targets d ≡ err e
    → let w = handle_list_targets render (list_targets d) fresh in
      (status_of w ≡ 500) × (w.body ≡ codes "Internal Server Error\n")
unfolding handle_list_targets
handle_list_targets_error render d e p = rw p (refl, refl)
