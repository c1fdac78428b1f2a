-- ===== src/Dashboard/Requests.antt =====
-- Requests to the handlers of the targets, one after the other, on a store and a hub.
pub mod Changes
pub mod Replay
pub mod Reorderings
pub mod Interleaving
pub mod InStep
pub mod Races
pub mod Goroutines
pub mod Commits
pub mod Tests
use pulse_monitor.Handlers.Targets.{Uri, Served, handle_create_target, handle_delete_target}
use pulse_monitor.Handlers.Writer.{Writer, fresh}
use pulse_monitor.Handlers.Views.{View, Rendered}
use pulse_monitor.Prelude.{List, [], ◌∷◌, Option}
use pulse_monitor.Sse.Hub.{Hub}
use pulse_monitor.Store.Database.{Database, create, delete}
use pulse_monitor.Text.{Text}

-- `POST /targets` with the value of the form's field, and `DELETE /targets/{id}`.
pub data Request : Type 0 where
  posts : Option Text → Request
  deletes : Text → Request

module _ (db : Database) (render : View → Rendered) (parse : Text → Option Uri) where
  unfoldable pub serve : Request → Option Hub → db.State → Served db.State
  unfolding handle_create_target handle_delete_target
  serve (posts form) h s = handle_create_target render parse (create db) h s fresh form
  serve (deletes id) h s = handle_delete_target render (delete db) h s fresh id

  abbrev pub served_then :
      Served db.State
      → (Option Hub → db.State → List Writer × Option Hub × db.State)
      → List Writer × Option Hub × db.State
  served_then d k = let (rs, h, s) = k d.hub d.store in (d.response ∷ rs, h, s)

  -- The responses, and the hub and the store at the end.
  unfoldable pub serve_all :
      List Request → Option Hub → db.State → List Writer × Option Hub × db.State
  unfolding serve
  serve_all [] h s = ([], h, s)
  serve_all (q ∷ qs) h s = served_then (serve q h s) (serve_all qs)
