-- ===== src/Dashboard/Requests/Changes.antt =====
-- The changes of the table `targets`, and the events that tell the tabs of them.
use mathlib.Core.List.{Sublistᴰ}
use pulse_monitor.Handlers.Targets.{Uri}
use pulse_monitor.Handlers.Targets.Urls.{IsMonitorable}
use pulse_monitor.Handlers.Writer.{Writer, status_of}
use pulse_monitor.Handlers.Views.{View, Rendered, publish_target_added, publish_target_removed}
use pulse_monitor.Monitor.Types.{Target}
use pulse_monitor.Prelude.{
  ℕ, ◌+◌, ◌≡◌, refl, ap, List, [], ◌∷◌, ◌++◌, Option, none, some, length, All, ◌==◌, if◌then◌else◌,
  ◌≤◌, arith,
}
use pulse_monitor.Sse.Hub.{Hub}
use pulse_monitor.Store.Database.{Table, IsSame, with_row, without_row}
use pulse_monitor.Text.{Text, text_eq, trim_space}

-- A change of the table.
pub data Change : Type 0 where
  adds : Target → Change
  removes : Text → Change

-- `row_id` reads the id of a request as Postgres does.
module _ (row_id : Text → Text) where
  abbrev pub apply : Change → Table → Table
  apply (adds t) = with_row t
  apply (removes id) = without_row (row_id id)

  abbrev pub apply_all : List Change → Table → Table
  apply_all [] table = table
  apply_all (c ∷ cs) table = apply_all cs (apply c table)

-- The event that tells the tabs of it.
abbrev pub announce : (View → Rendered) → Change → Option Hub → Option Hub
announce render (adds t) = publish_target_added render t
announce render (removes id) = publish_target_removed render id

abbrev pub announce_all : (View → Rendered) → List Change → Option Hub → Option Hub
announce_all render [] h = h
announce_all render (c ∷ cs) h = announce_all render cs (announce render c h)

-- The responses that say 200.
abbrev pub accepted : List Writer → ℕ
accepted [] = 0
accepted (r ∷ rs) = (if status_of r == 200 then 1 else 0) + accepted rs

-- The responses that say 500.
abbrev pub failed : List Writer → ℕ
failed [] = 0
failed (r ∷ rs) = (if status_of r == 500 then 1 else 0) + failed rs

pub failed-append : (a b : List Writer) → failed (a ++ b) ≡ failed a + failed b
failed-append [] b = omega arith
failed-append (r ∷ a) b = omega (arith, failed-append a b)

module _ (row_id : Text → Text) where
  pub apply_all-IsSame :
      (cs : List Change) (a b : Table)
      → IsSame a b
      → IsSame (apply_all row_id cs a) (apply_all row_id cs b)
  apply_all-IsSame [] a b e = e
  apply_all-IsSame (c ∷ cs) a b e =
      apply_all-IsSame cs (apply row_id c a) (apply row_id c b) (apply-IsSame c)
    where
      apply-IsSame : (c : Change) → IsSame (apply row_id c a) (apply row_id c b)
      apply-IsSame (adds t) id = ap (λ x. if text_eq t.id id then some t.url else x) (e id)
      apply-IsSame (removes k) id = ap (λ x. if text_eq (row_id k) id then none else x) (e id)

  pub apply_all-append :
      (cs ds : List Change) (t : Table)
      → apply_all row_id (cs ++ ds) t ≡ apply_all row_id ds (apply_all row_id cs t)
  apply_all-append [] ds t = refl
  apply_all-append (c ∷ cs) ds t = apply_all-append cs ds (apply row_id c t)

pub announce_all-append :
    (render : View → Rendered) (cs ds : List Change) (h : Option Hub)
    → announce_all render (cs ++ ds) h ≡ announce_all render ds (announce_all render cs h)
announce_all-append render [] ds h = refl
announce_all-append render (c ∷ cs) ds h = announce_all-append render cs ds (announce render c h)

-- A target is added only with a URL that can be monitored.
abbrev pub IsSound : (Text → Option Uri) → Change → Type 0
IsSound parse (adds t) = (raw : Text) × IsMonitorable parse raw × (t.url ≡ trim_space raw)
IsSound parse (removes id) = Unit {0}

-- What accounts for a history of requests: the changes that were made in the table, and those among them
-- that the tabs were told, one for each response with status 200. A change that the tabs were not told
-- was answered with status 500.
pub record Accounts (row_id : Text → Text) (render : View → Rendered) (parse : Text → Option Uri)
    (h h' : Option Hub) (table table' : Table) (rs : List Writer) : Type 0 where
  pub made : List Change
  pub told : List Change
  pub announced : h' ≡ announce_all render told h
  pub tracked : IsSame (apply_all row_id made table) table'
  pub within : Sublistᴰ told made
  pub counted : length told ≡ accepted rs
  pub silent : length made ≤ length told + failed rs
  pub sound : All (IsSound parse) made
