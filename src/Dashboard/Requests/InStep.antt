-- ===== src/Dashboard/Requests/InStep.antt =====
-- When the events of concurrent requests are in step with the table.
use pulse_monitor.Dashboard.Requests.Changes.{Change, failed, apply_all, announce_all}
use pulse_monitor.Dashboard.Requests.Goroutines.{Shared, Turn, commits, finishes, turn, turns, idle}
use pulse_monitor.Dashboard.Requests.Interleaving.{AllowsAll, Interleaves, turns-Reaches}
use pulse_monitor.Dashboard.Requests.Reorderings.{
  about, SameByTarget, reorder_by_target, IsFirst, take_out-by-target, apply_all-about,
}
use pulse_monitor.Handlers.Targets.{Uri}
use pulse_monitor.Handlers.Views.{View, Rendered}
use pulse_monitor.Handlers.Writer.{Writer}
use pulse_monitor.Prelude.{◌≡◌, sym, ap, ◌∙◌, List, [], ◌∷◌, ◌++◌, Option, some, arith}
use pulse_monitor.Prelude.Sublists.{sublist-eq}
use pulse_monitor.Sse.Hub.{Hub}
use pulse_monitor.Store.Database.{IsSame, Database}
use pulse_monitor.Text.{Text}

module _ (db : Database) (render : View → Rendered) (parse : Text → Option Uri) where
  -- No goroutine publishes its change while an earlier change of the same target is pending.
  abbrev pub IsOrderly : List Turn → Shared db.State → Type 0
  IsOrderly [] x = Unit
  IsOrderly (commits q ∷ ts) x =
      (y : Shared db.State) → turn db render parse (commits q) x ≡ some y → IsOrderly ts y
  IsOrderly (finishes i ∷ ts) x =
      IsFirst db.row_id i x.pending
      × ((y : Shared db.State) → turn db render parse (finishes i) x ≡ some y → IsOrderly ts y)

  IsOrderly-AllowsAll :
      (ts : List Turn) (x : Shared db.State)
      → IsOrderly ts x
      → AllowsAll (reorder_by_target db.row_id) db render parse ts x
  IsOrderly-AllowsAll [] x o = tt
  IsOrderly-AllowsAll (commits q ∷ ts) x o = (tt, λ y h. IsOrderly-AllowsAll ts y (o y h))
  IsOrderly-AllowsAll (finishes i ∷ ts) x o = (
    λ c ds h. take_out-by-target db.row_id i x.pending o.0 h,
    λ y h. IsOrderly-AllowsAll ts y (o.1 y h),
  )

-- Let the goroutines of the requests to create and to delete targets take turns in any way in which none
-- publishes its change while an earlier change of the same target is pending; the changes of different
-- targets may overtake each other. Let no response with status 500 have come. Then at every moment the table
-- is what one has who replays, from the table at the start, what the hub was given and then what is still
-- pending, with the ids of deletions read as Postgres reads them: with nothing pending, the events that the
-- hub was given make the table.
pub turns-replay :
    (db : Database) (render : View → Rendered) (parse : Text → Option Uri) (ts : List Turn)
    (rs : List Writer) (h : Option Hub) (s : db.State) {y : Shared db.State}
    → turns db render parse ts (idle rs h s) ≡ some y
    → IsOrderly db render parse ts (idle rs h s)
    → failed y.responses ≡ failed rs
    → (told : List Change) × (y.hub ≡ announce_all render told h)
      × IsSame (apply_all db.row_id (told ++ y.pending) (db.table s)) (db.table y.store)
turns-replay db render parse ts rs h s {y} e o n =
    let a : Interleaves (SameByTarget db.row_id) db render parse (idle rs h s) y =
      turns-Reaches (reorder_by_target db.row_id) db render parse ts (idle rs h s) e
        (IsOrderly-AllowsAll db render parse ts (idle rs h s) o) in
    let loud = sublist-eq a.loud a.made a.within (omega (arith, a.silent, n)) in
    (
      a.told,
      a.announced,
      λ id.
          a.tracked id
          ∙ apply_all-about db.row_id a.made (db.table s) id
          ∙ ap (λ cs. apply_all db.row_id (about db.row_id id cs) (db.table s) id) (sym loud)
          ∙ ap (λ cs. apply_all db.row_id cs (db.table s) id) (a.same id)
          ∙ sym (apply_all-about db.row_id (a.told ++ y.pending) (db.table s) id),
    )
