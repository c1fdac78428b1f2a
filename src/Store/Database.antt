-- ===== src/Store/Database.antt =====
-- The table `targets` of migrations/001_init.sql: what the store relies on of Postgres, as a
-- parameter. `id` is the primary key, `url` is unique. `id` is a UUID, which Postgres reads in several
-- spellings, and writes in one. A statement that answers with an error may have been committed, when the
-- error is that of a connection that was lost or of a context that ended after it.
use pulse_monitor.Monitor.Types.{Target}
use pulse_monitor.Prelude.{ℕ, ◌≡◌, ◌≢◌, ◌↔◌, ◌⊎◌, Option, none, some, if◌then◌else◌}
use pulse_monitor.Result.{Result, ok, err}
use pulse_monitor.Store.{DriverError, Driver, StoreError, create_target, delete_target}
use pulse_monitor.Text.{Text, codes, text_eq}

-- The URL of the row with an id.
abbrev pub Table : Type 0
Table = Text → Option Text

abbrev pub IsSame : Table → Table → Type 0
IsSame table table' = (id : Text) → table' id ≡ table id

abbrev pub with_row : Target → Table → Table
with_row t table id = if text_eq t.id id then some t.url else table id

abbrev pub without_row : Text → Table → Table
without_row k table id = if text_eq k id then none else table id

module _ (row_id : Text → Text) where
  -- The row is new, with a new id in the spelling of Postgres.
  abbrev pub IsInserted : Text → Table → Table → Target → Type 0
  IsInserted url table table' t =
      (t.url ≡ url)
      × (row_id t.id ≡ t.id)
      × (table t.id ≡ none)
      × ((id : Text) → table id ≢ some url)
      × IsSame (with_row t table) table'

  -- An answer to `INSERT INTO targets (url) VALUES ($1) RETURNING id, url`. The error for a URL that is
  -- there already is that of a statement that was not committed.
  abbrev pub Inserts : Text → Table → Table → Result DriverError Target → Type 0
  Inserts url table table' (ok t) = IsInserted url table table' t
  Inserts url table table' (err e) =
      (IsSame table table' ⊎ ((t : Target) × IsInserted url table table' t))
      × (e.code ≡ some (codes "23505")
          → IsSame table table' × ((id : Text) × (table id ≡ some url)))

  -- An answer to `DELETE FROM targets WHERE id = $1`.
  abbrev pub Deletes : Text → Table → Table → Result DriverError ℕ → Type 0
  Deletes id table table' (ok n) =
      ((n ≡ 0) ↔ (table (row_id id) ≡ none)) × IsSame (without_row (row_id id) table) table'
  Deletes id table table' (err e) =
      IsSame table table' ⊎ IsSame (without_row (row_id id) table) table'

-- `row_id` is the spelling that Postgres writes for the id that it reads in a text.
pub record Database : Type 1 where
  pub State : Type 0
  pub driver : State → Driver
  pub table : State → Table
  pub row_id : Text → Text
  pub after_insert : Text → State → State
  pub after_delete : Text → State → State
  pub insert_law :
      (url : Text) (s : State)
      → Inserts row_id url (table s) (table (after_insert url s)) ((driver s).insert url)
  pub delete_law :
      (id : Text) (s : State)
      → Deletes row_id id (table s) (table (after_delete id s)) ((driver s).delete id)

-- The store on the database, with the state that it leaves.
module _ (db : Database) where
  abbrev pub create : Text → db.State → Result StoreError Target × db.State
  create url s = (create_target (db.driver s) url, db.after_insert url s)

  abbrev pub delete : Text → db.State → Option StoreError × db.State
  delete id s = (delete_target (db.driver s) id, db.after_delete id s)
