-- ===== src/Dashboard/Requests/Goroutines.antt =====
-- The requests of internal/handlers/handlers.go as goroutines that run side by side. A handler makes
-- its call of the store, and then publishes and answers: between the two, other goroutines may run.
use pulse_monitor.Dashboard.Requests.Changes.{Change, adds, removes, announce}
use pulse_monitor.Dashboard.Requests.{Request, posts, deletes}
use pulse_monitor.Handlers.Targets.{Uri, create_error, delete_error, validate_target_url}
use pulse_monitor.Handlers.Writer.{Writer, fresh, write_header, http_error}
use pulse_monitor.Handlers.Views.{View, Rendered}
use pulse_monitor.Monitor.Types.{Target}
use pulse_monitor.Prelude.{ℕ, List, [], ◌∷◌, ◌++◌, take_out, Option, none, some}
use pulse_monitor.Result.{Result, ok, err}
use pulse_monitor.Sse.Hub.{Hub}
use pulse_monitor.Store.Database.{Database, create, delete}
use pulse_monitor.Store.{StoreError}
use pulse_monitor.Text.{Text, codes}

-- After the call of the store the handler has answered, or it has a change to publish.
pub data Outcome : Type 0 where
  answers : Writer → Outcome
  changes : Change → Outcome

abbrev pub created_outcome : Result StoreError Target → Outcome
created_outcome (err e) = answers (create_error e fresh)
created_outcome (ok t) = changes (adds t)

abbrev pub deleted_outcome : Text → Option StoreError → Outcome
deleted_outcome id (some e) = answers (delete_error e fresh)
deleted_outcome id none = changes (removes id)

module _ (db : Database) where
  abbrev pub create_valid : Result Text Text → db.State → Outcome × db.State
  create_valid (err e) s = (answers (http_error e 400 fresh), s)
  create_valid (ok url) s = let (answer, s') = create db url s in (created_outcome answer, s')

  -- A handler up to its call of Publish, or to its end if there is none.
  unfoldable pub commit : (Text → Option Uri) → Request → db.State → Outcome × db.State
  unfolding http_error validate_target_url
  commit parse (posts none) s = (answers (http_error (codes "Bad Request") 400 fresh), s)
  commit parse (posts (some raw)) s = create_valid (validate_target_url parse raw) s
  commit parse (deletes []) s = (answers (http_error (codes "Missing ID") 400 fresh), s)
  commit parse (deletes (c ∷ id)) s =
      let (answer, s') = delete db (c ∷ id) s in (deleted_outcome (c ∷ id) answer, s')

-- The store, the hub, the responses so far, and the changes that are not published yet.
pub record Shared (S : Type 0) : Type 0 where
  pub store : S
  pub hub : Option Hub
  pub responses : List Writer
  pub pending : List Change

-- No goroutine has a change to publish.
abbrev pub idle : {S : Type 0} → List Writer → Option Hub → S → Shared S
idle rs h s = record { store = s; hub = h; responses = rs; pending = [] }

-- A request goes up to its call of Publish, or the goroutine of the pending change number `i` goes
-- from there to its end.
pub data Turn : Type 0 where
  commits : Request → Turn
  finishes : ℕ → Turn

module _ {S : Type 0} where
  abbrev pub committed : Shared S → Outcome × S → Shared S
  committed x (answers r, s) = record x { store = s; responses = x.responses ++ r ∷ [] }
  committed x (changes c, s) = record x { store = s; pending = x.pending ++ c ∷ [] }

  -- The end of a handler with a change: Publish, and the header 200.
  unfoldable pub finish : (View → Rendered) → Shared S → Change × List Change → Shared S
  unfolding write_header
  finish render x (c, cs) = record x {
    hub = announce render c x.hub;
    responses = x.responses ++ write_header 200 fresh ∷ [];
    pending = cs;
  }

  abbrev pub finished :
      (View → Rendered) → Shared S → Option (Change × List Change) → Option (Shared S)
  finished render x none = none
  finished render x (some p) = some (finish render x p)

  abbrev pub and_then : Option (Shared S) → (Shared S → Option (Shared S)) → Option (Shared S)
  and_then none k = none
  and_then (some x) k = k x

module _ (db : Database) (render : View → Rendered) (parse : Text → Option Uri) where
  -- There is no such turn if the number is not that of a pending change.
  unfoldable pub turn : Turn → Shared db.State → Option (Shared db.State)
  unfolding commit finish
  turn (commits q) x = some (committed x (commit db parse q x.store))
  turn (finishes i) x = finished render x (take_out i x.pending)

  unfoldable pub turns : List Turn → Shared db.State → Option (Shared db.State)
  unfolding turn
  turns [] x = some x
  turns (t ∷ ts) x = and_then (turn t x) (turns ts)
