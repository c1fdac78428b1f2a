-- ===== src/Dashboard/Requests/Races.antt =====
-- A deletion between the insertion of a target and its announcement.
use pulse_monitor.Dashboard.Requests.Changes.{adds, removes, announce_all, apply_all}
use pulse_monitor.Dashboard.Requests.Goroutines.{
  changes, commit, Shared, Turn, commits, finishes, finish, turns, idle,
}
use pulse_monitor.Dashboard.Requests.{posts, deletes}
use pulse_monitor.Handlers.Targets.{Uri, validate_target_url}
use pulse_monitor.Handlers.Views.{View, Rendered}
use pulse_monitor.Handlers.Writer.{fresh, write_header}
use pulse_monitor.Monitor.Types.{Target}
use pulse_monitor.Prelude.{ℕ, ◌≡◌, refl, ap, subst, ◌∙◌, List, [], ◌∷◌, Option, none, some}
use pulse_monitor.Result.{Result, ok, err}
use pulse_monitor.Sse.Hub.{Hub}
use pulse_monitor.Store.Database.{Table, Inserts, Deletes, Database}
use pulse_monitor.Store.{DriverError, create_target, delete_target}
use pulse_monitor.Text.Split.{text_eq_refl}
use pulse_monitor.Text.{Text}

-- The deletion runs as a whole after the store has inserted the row; then the insertion goes on.
abbrev pub overtaken : Text → Text → List Turn
overtaken raw id = commits (posts (some raw)) ∷ commits (deletes id) ∷ finishes 1 ∷ finishes 0 ∷ []

module _ (db : Database) (render : View → Rendered) (parse : Text → Option Uri) where
  pub commit-created :
      (raw url : Text) (t : Target) (s : db.State)
      → validate_target_url parse raw ≡ ok url
      → (db.driver s).insert url ≡ ok t
      → commit db parse (posts (some raw)) s ≡ (changes (adds t), db.after_insert url s)
  unfolding commit create_target
  commit-created raw url t s v e = rw (v, e) refl

  commit-deleted :
      (c : ℕ) (k : Text) (s : db.State)
      → (db.driver s).delete (c ∷ k) ≡ ok 1
      → commit db parse (deletes (c ∷ k)) s ≡ (changes (removes (c ∷ k)), db.after_delete (c ∷ k) s)
  unfolding commit delete_target
  commit-deleted c k s e = rw e refl

without-none :
    (row_id : Text → Text) (id : Text) (table table' : Table) (answer : Result DriverError ℕ)
    → answer ≡ ok 1
    → row_id id ≡ id
    → Deletes row_id id table table' answer
    → table' id ≡ none
without-none row_id id table table' (err x) e r d = cc
without-none row_id id table table' (ok n) e r d = d.1 id ∙ rw (r, text_eq_refl id) refl

insert-row_id :
    (row_id : Text → Text) (url : Text) (table table' : Table) (t : Target)
    (answer : Result DriverError Target)
    → answer ≡ ok t
    → Inserts row_id url table table' answer
    → row_id t.id ≡ t.id
insert-row_id row_id url table table' t (err x) e i = cc
insert-row_id row_id url table table' t (ok u) e i =
    let (p, c, n, f, s) = i in subst (λ (v : Target). row_id v.id ≡ v.id) {x = u} {y = t} (cc) c

module _ (db : Database) (render : View → Rendered) (parse : Text → Option Uri) (raw url : Text)
    (c : ℕ) (k : Text) (h : Option Hub) (s : db.State) where
  abbrev row : Target
  row = record { id = c ∷ k; url = url }

  overtaken-turns :
      validate_target_url parse raw ≡ ok url
      → (db.driver s).insert url ≡ ok row
      → (db.driver (db.after_insert url s)).delete (c ∷ k) ≡ ok 1
      → (y : Shared db.State) × (turns db render parse (overtaken raw (c ∷ k)) (idle [] h s)
          ≡ some y)
        × (y.pending ≡ [])
        × (y.store ≡ db.after_delete (c ∷ k) (db.after_insert url s))
        × (y.hub ≡ announce_all render (removes (c ∷ k) ∷ adds row ∷ []) h)
  unfolding turns finish
  overtaken-turns v i d = (
    record {
      store = db.after_delete (c ∷ k) (db.after_insert url s);
      hub = announce_all render (removes (c ∷ k) ∷ adds row ∷ []) h;
      responses = write_header 200 fresh ∷ write_header 200 fresh ∷ [];
      pending = [];
    },
    rw
        (
          commit-created db render parse raw url row s v i,
          commit-deleted db render parse c k (db.after_insert url s) d,
        )
        refl,
    refl,
    refl,
    refl,
  )

-- Let a form's URL be accepted, and let the database insert it as a new row and then delete that row. Two
-- goroutines, one that creates the target and one that deletes it, can take turns so that the row is not
-- in the table at the end, and the hub was given first the event of the removal and then that of the
-- addition: who replays what the tabs are told has the row, and nothing more is to be published.
pub announced_late :
    (db : Database) (render : View → Rendered) (parse : Text → Option Uri) (raw url : Text) (c : ℕ)
    (k : Text) (h : Option Hub) (s : db.State)
    → validate_target_url parse raw ≡ ok url
    → (db.driver s).insert url ≡ ok (record { id = c ∷ k; url = url })
    → (db.driver (db.after_insert url s)).delete (c ∷ k) ≡ ok 1
    → (ts : List Turn) × (y : Shared db.State) × (turns db render parse ts (idle [] h s) ≡ some y)
      × (y.pending ≡ [])
      × (db.table y.store (c ∷ k) ≡ none)
      × (y.hub
          ≡ announce_all render (removes (c ∷ k) ∷ adds (record { id = c ∷ k; url = url }) ∷ []) h)
      × (apply_all db.row_id
            (removes (c ∷ k) ∷ adds (record { id = c ∷ k; url = url }) ∷ [])
            (db.table s)
            (c ∷ k)
          ≡ some url)
announced_late db render parse raw url c k h s v i d =
    let (y, run, quiet, store, hub) = overtaken-turns db render parse raw url c k h s v i d in
    let s' = db.after_insert url s in
    (
      overtaken raw (c ∷ k),
      y,
      run,
      quiet,
      ap (λ x. db.table x (c ∷ k)) store
          ∙ without-none db.row_id (c ∷ k) (db.table s') (db.table (db.after_delete (c ∷ k) s'))
              ((db.driver s').delete (c ∷ k)) d
              (insert-row_id db.row_id url (db.table s) (db.table s')
                (record { id = c ∷ k; url = url }) ((db.driver s).insert url) i
                (db.insert_law url s))
              (db.delete_law (c ∷ k) s'),
      hub,
      rw (text_eq_refl (c ∷ k)) refl,
    )
