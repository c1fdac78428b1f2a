-- ===== src/Dashboard/Requests/Commits.antt =====
-- What a handler has done to the table when it comes to its call of Publish.
use pulse_monitor.Dashboard.Requests.Changes.{Change, adds, removes, apply, announce, IsSound}
use pulse_monitor.Dashboard.Requests.Goroutines.{
  Outcome, answers, changes, created_outcome, deleted_outcome, create_valid, commit,
}
use pulse_monitor.Dashboard.Requests.{Request, posts, deletes, serve}
use pulse_monitor.Handlers.Targets.Deletion.{deleted-suc}
use pulse_monitor.Handlers.Targets.{
  Uri, Served, refuse, after_create, after_validate, after_delete, handle_create_target,
  handle_delete_target, validate_target_url,
}
use pulse_monitor.Handlers.Targets.Urls.{IsMonitorable, validate_target_url_iff}
use pulse_monitor.Handlers.Writer.{fresh, status_of, write_header, http_error}
use pulse_monitor.Handlers.Views.{View, Rendered}
use pulse_monitor.Monitor.Types.{Target}
use pulse_monitor.Prelude.{
  ℕ, zero, subst, suc, ◌≡◌, refl, sym, ap, ◌∙◌, inl, inr, ◌⊎◌, Bool, true, false, [], ◌∷◌, Option,
  none, some, ◌==◌, if◌then◌else◌, Bool-cases,
}
use pulse_monitor.Result.{Result, ok, err}
use pulse_monitor.Sse.Hub.{Hub}
use pulse_monitor.Store.Database.{
  Table, IsSame, without_row, Inserts, Deletes, Database, create, delete,
}
use pulse_monitor.Store.{
  StoreError, DriverError, target_exists, wrap_error, has_code, created, create_target, deleted,
  delete_target,
}
use pulse_monitor.Text.Split.{text_eq_iff}
use pulse_monitor.Text.{Text, codes, text_eq, trim_space}

has_code-some : (o : Option Text) → has_code (codes "23505") o ≡ true → o ≡ some (codes "23505")
unfolding has_code
has_code-some none h = cc
has_code-some (some c) h = ap some ((text_eq_iff c (codes "23505")).0 h)

module _ (row_id : Text → Text) (parse : Text → Option Uri) (table table' : Table) where
  abbrev pub Makes : Change → Type 0
  Makes c = IsSame (apply row_id c table) table' × IsSound parse c

  -- A change that is to be published is made in the table. An answer without one is no 200, and leaves
  -- the table but if it is a 500.
  abbrev pub Commits : Outcome → Type 0
  Commits (answers r) =
      ((status_of r == 200) ≡ false)
      × (IsSame table table' ⊎ (((status_of r == 500) ≡ true) × ((c : Change) × Makes c)))
  Commits (changes c) = Makes c

  created-Commits :
      (url : Text) (answer : Result DriverError Target)
      → Inserts row_id url table table' answer
      → (raw : Text) × IsMonitorable parse raw × (url ≡ trim_space raw)
      → Commits (created_outcome (created answer))
  unfolding write_header http_error
  created-Commits url (ok t) i (raw, m, e) = let (u, c, n, f, s) = i in (s, (raw, m, u ∙ e))
  created-Commits url (err e) i (raw, m, p) =
      error-Commits (has_code (codes "23505") e.code) (λ b. (i.1 (has_code-some e.code b)).0)
        (elim i.0 [
          | inl s ↦ inl s
          | inr (t, (u, c, n, f, s)) ↦ inr (refl, (adds t, (s, (raw, m, u ∙ p))))
        ])
    where
      error-Commits :
          (b : Bool)
          → (b ≡ true → IsSame table table')
          → IsSame table table' ⊎ ((true ≡ true) × ((c : Change) × Makes c))
          → Commits (
              created_outcome
                (err (if b then target_exists else wrap_error (codes "create target") e)))
      error-Commits true s k = (refl, inl (s refl))
      error-Commits false s k = (refl, k)

  without_row-IsSame : (id : Text) → table id ≡ none → IsSame table (without_row id table)
  without_row-IsSame id e j = elim (Bool-cases (text_eq id j)) [
    | inl m ↦ rw m (sym (ap table (sym ((text_eq_iff id j).0 m)) ∙ e))
    | inr m ↦ rw m
  ]

  deleted-Commits :
      (id : Text) (answer : Result DriverError ℕ)
      → Deletes row_id id table table' answer
      → Commits (deleted_outcome id (deleted answer))
  unfolding write_header http_error
  deleted-Commits id (err e) i =
      (refl, elim i [ inl s ↦ inl s | inr s ↦ inr (refl, (removes id, (s, tt))) ])
  deleted-Commits id (ok zero) i =
      (refl, inl (λ j. i.1 j ∙ without_row-IsSame (row_id id) (i.0.0 refl) j))
  deleted-Commits id (ok (suc n)) i =
      subst (λ r. Commits (deleted_outcome id r)) (sym (deleted-suc n)) (i.1, tt)

module _ (db : Database) (parse : Text → Option Uri) where
  valid-Commits :
      (s : db.State) (raw : Text) (r : Result Text Text)
      → validate_target_url parse raw ≡ r
      → let (o, s') = create_valid db r s in Commits db.row_id parse (db.table s) (db.table s') o
  unfolding create_target http_error
  valid-Commits s raw (err e) v = (refl, inl (λ id. refl))
  valid-Commits s raw (ok url) v =
      let (e, m) = (validate_target_url_iff parse raw url).0 v in
      created-Commits db.row_id parse (db.table s) (db.table (db.after_insert url s)) url
        ((db.driver s).insert url) (db.insert_law url s) (raw, m, e)

  pub commit-Commits :
      (q : Request) (s : db.State)
      → let (o, s') = commit db parse q s in Commits db.row_id parse (db.table s) (db.table s') o
  unfolding commit delete_target
  commit-Commits (posts none) s = (refl, inl (λ id. refl))
  commit-Commits (posts (some raw)) s = valid-Commits s raw (validate_target_url parse raw) refl
  commit-Commits (deletes []) s = (refl, inl (λ id. refl))
  commit-Commits (deletes (c ∷ id)) s =
      deleted-Commits db.row_id parse (db.table s) (db.table (db.after_delete (c ∷ id) s)) (c ∷ id)
        ((db.driver s).delete (c ∷ id)) (db.delete_law (c ∷ id) s)

-- A handler that no other goroutine interrupts.
abbrev pub completed : {S : Type 0} → (View → Rendered) → Option Hub → Outcome × S → Served S
completed render h (answers r, s) = refuse h s r
completed render h (changes c, s) = record {
  response = write_header 200 fresh;
  hub = announce render c h;
  store = s;
}

after_create-completed :
    {S : Type 0} (render : View → Rendered) (h : Option Hub) (r : Result StoreError Target) (s : S)
    → after_create render h fresh (r, s) ≡ completed render h (created_outcome r, s)
after_create-completed render h (ok t) s = refl
after_create-completed render h (err e) s = refl

after_delete-completed :
    {S : Type 0} (render : View → Rendered) (h : Option Hub) (id : Text) (r : Option StoreError)
    (s : S)
    → after_delete render h fresh id (r, s) ≡ completed render h (deleted_outcome id r, s)
after_delete-completed render h id none s = refl
after_delete-completed render h id (some e) s = refl

module _ (db : Database) (render : View → Rendered) (parse : Text → Option Uri) where
  valid-completed :
      (h : Option Hub) (s : db.State) (r : Result Text Text)
      → after_validate render (create db) h s fresh r ≡ completed render h (create_valid db r s)
  valid-completed h s (err e) = refl
  valid-completed h s (ok url) =
      let (answer, s') = create db url s in after_create-completed render h answer s'

  pub serve-completed :
      (q : Request) (h : Option Hub) (s : db.State)
      → serve db render parse q h s ≡ completed render h (commit db parse q s)
  unfolding serve handle_create_target handle_delete_target commit
  serve-completed (posts none) h s = refl
  serve-completed (posts (some raw)) h s = valid-completed h s (validate_target_url parse raw)
  serve-completed (deletes []) h s = refl
  serve-completed (deletes (c ∷ id)) h s =
      let (answer, s') = delete db (c ∷ id) s in after_delete-completed render h (c ∷ id) answer s'
