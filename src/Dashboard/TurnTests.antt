-- ===== src/Dashboard/TurnTests.antt =====
-- Goroutines of requests on a database with room for one row.
use mathlib.Core.List.{Perm}
use pulse_monitor.Dashboard.Requests.Changes.{
  Change, adds, removes, failed, announce_all, apply_all,
}
use pulse_monitor.Dashboard.Requests.Goroutines.{
  idle, Shared, Turn, commits, finishes, finish, turns,
}
use pulse_monitor.Dashboard.Requests.InStep.{IsOrderly, turns-replay}
use pulse_monitor.Dashboard.Requests.Reorderings.{IsFirst}
use pulse_monitor.Dashboard.Requests.Interleaving.{Interleaves, turns-Interleaves}
use pulse_monitor.Dashboard.Requests.Races.{announced_late}
use pulse_monitor.Dashboard.Requests.{posts, deletes}
use pulse_monitor.Handlers.Targets.{validate_target_url}
use pulse_monitor.Handlers.Writer.{fresh, write_header}
use pulse_monitor.Prelude.{◌≡◌, refl, List, [], ◌∷◌, ◌++◌, Option, none, some}
use pulse_monitor.Result.{ok}
use pulse_monitor.Store.Database.{IsSame}
use pulse_monitor.Store.{DriverError, Driver}
use pulse_monitor.Text.Split.{text_eq_refl}
use pulse_monitor.Text.{Text, codes, text_eq}
use pulse_monitor.Dashboard.Requests.Tests.{only, rows, one_row, render, parse, hub}

-- The row is deleted before its addition is published.
abbrev race : List Turn
race = commits (posts (some (codes "a"))) ∷ commits (deletes only) ∷ finishes 1 ∷ finishes 0 ∷ []

abbrev told : List Change
told = removes only ∷ adds (record { id = only; url = codes "a" }) ∷ []

abbrev raced : Shared (Option Text)
raced = record {
  store = none;
  hub = announce_all render told hub;
  responses = write_header 200 fresh ∷ write_header 200 fresh ∷ [];
  pending = [];
}

race-turns : turns one_row render parse race (idle [] hub none) ≡ some raced
unfolding turns finish text_eq pulse_monitor.Text.trim_space pulse_monitor.Text.trim_left
    pulse_monitor.Text.is_space pulse_monitor.Store.create_target pulse_monitor.Store.delete_target
race-turns = refl

-- There is no third change to publish.
race-ended : turns one_row render parse (race ++ finishes 0 ∷ []) (idle [] hub none) ≡ none
unfolding turns finish text_eq pulse_monitor.Text.trim_space pulse_monitor.Text.trim_left
    pulse_monitor.Text.is_space pulse_monitor.Store.create_target pulse_monitor.Store.delete_target
race-ended = refl

turns-Interleaves_example : Interleaves Perm one_row render parse (idle [] hub none) raced
turns-Interleaves_example =
    turns-Interleaves one_row render parse race (idle [] hub none) race-turns

accepts-a : validate_target_url parse (codes "a") ≡ ok (codes "a")
unfolding validate_target_url text_eq pulse_monitor.Text.trim_space pulse_monitor.Text.trim_left
    pulse_monitor.Text.is_space
accepts-a = refl

announced_late_example :
    (ts : List Turn) × (y : Shared (Option Text)) × (turns one_row render parse ts
        (idle [] hub none)
      ≡ some y)
    × (y.pending ≡ [])
    × (rows y.store only ≡ none)
    × (y.hub ≡ announce_all render told hub)
    × (apply_all (λ id. id) told (rows none) only ≡ some (codes "a"))
announced_late_example =
    announced_late one_row render parse (codes "a") (codes "a") 49 [] hub none accepts-a refl
      (rw (text_eq_refl only) refl)

-- The addition is published before the deletion.
abbrev queue : List Turn
queue = commits (posts (some (codes "a"))) ∷ commits (deletes only) ∷ finishes 0 ∷ finishes 0 ∷ []

abbrev queued : Shared (Option Text)
queued = record {
  store = none;
  hub = announce_all render (adds (record { id = only; url = codes "a" }) ∷ removes only ∷ []) hub;
  responses = write_header 200 fresh ∷ write_header 200 fresh ∷ [];
  pending = [];
}

queue-turns : turns one_row render parse queue (idle [] hub none) ≡ some queued
unfolding turns finish text_eq pulse_monitor.Text.trim_space pulse_monitor.Text.trim_left
    pulse_monitor.Text.is_space pulse_monitor.Store.create_target pulse_monitor.Store.delete_target
queue-turns = refl

head-IsFirst : (cs : List Change) → IsFirst (λ id. id) 0 cs
head-IsFirst [] = tt
head-IsFirst (c ∷ cs) = tt

queue-IsOrderly : IsOrderly one_row render parse queue (idle [] hub none)
queue-IsOrderly x e y f = (head-IsFirst y.pending, λ z g. (head-IsFirst z.pending, λ w h. tt))

queue-failed : failed queued.responses ≡ failed []
unfolding write_header
queue-failed = refl

turns-replay_example :
    (told : List Change) × (queued.hub ≡ announce_all render told hub)
    × IsSame (apply_all (λ id. id) (told ++ []) (rows none)) (rows none)
turns-replay_example =
    turns-replay one_row render parse queue [] hub none queue-turns queue-IsOrderly queue-failed
