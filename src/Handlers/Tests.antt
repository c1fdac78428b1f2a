-- ===== src/Handlers/Tests.antt =====
-- Requests to the handlers of the targets, with templates that print the id.
use pulse_monitor.Handlers.Targets.Creation.{Announces, LeavesAlone, handle_create_target_lem}
use pulse_monitor.Handlers.Targets.Deletion.{Affects, handle_delete_target_lem}
use pulse_monitor.Handlers.Targets.Pages.{Stops, Renders, rows, first_row, handle_list_targets_lem}
use pulse_monitor.Store.Listing.{Lists}
use pulse_monitor.Handlers.Targets.{
  Uri, validate_target_url, handle_create_target, handle_delete_target, handle_list_targets,
}
use pulse_monitor.Handlers.Views.{
  View, index_page, target_row, target_added, target_removed, check_status, stats_cell, Rendered,
  publish_target_removed,
}
use pulse_monitor.Handlers.Events.{open_stream}
use pulse_monitor.Handlers.Writer.Recovery.{apology, default_status, log_of, recover_lem}
use pulse_monitor.Handlers.Writer.{Writer, status_or, status_of, fresh, write, Outcome, recover}
use pulse_monitor.Monitor.Types.{Target}
use pulse_monitor.Prelude.{
  map, All, List, if◌then◌else◌, ◌++◌, true, false, ℕ, ◌≡◌, ◌≢◌, ◌↔◌, ◌⊎◌, refl, [], ◌∷◌, Option,
  none, some,
}
use pulse_monitor.Result.{Result, ok, err}
use pulse_monitor.Sse.Hub.{Hub}
use pulse_monitor.Store.{
  StoreError, target_exists, Driver, create_target, list_targets, delete_target,
}
use pulse_monitor.Text.{Text, codes, text_eq}

abbrev shown : View → Text
shown (index_page ts) = codes "page"
shown (target_row t) = t.id
shown (target_added t) = t.id
shown (target_removed id) = id
shown (check_status v) = v.status
shown (stats_cell v) = v.id

abbrev render : View → Rendered
render v = record { written = shown v; error = none }

-- Every URI is on https and has a host.
abbrev parse : Text → Option Uri
parse s = some (record { scheme = codes "https"; host = codes "a.test" })

abbrev site : Target
site = record { id = codes "1"; url = codes "https://a.test" }

abbrev driver : Driver
driver = record {
  insert = λ url. ok (record { id = codes "1"; url = url });
  select = ok (record { scans = ok site ∷ []; failure = none });
  delete = λ id. ok 0;
  insert_check = λ row. none;
  aggregate = λ id since. err (record { code = none; message = [] });
  now = 0;
}

abbrev in_driver : Driver → Text → Unit {0} → Result StoreError Target × Unit {0}
in_driver d url u = (create_target d url, u)

abbrev taken : Driver
taken = record driver {
  insert = λ url. err (record { code = some (codes "23505"); message = codes "duplicate" });
}

abbrev hub : Option Hub
hub = some (record { clients = 1 ∷ []; channels = λ c. record { capacity = 4; buffer = [] } })

-- Two rows, and templates of which the second one fails half-way.
abbrev second_fails : View → Rendered
second_fails (target_row t) = record {
  written = t.id;
  error = if text_eq t.id (codes "2") then some (codes "template") else none;
}
second_fails v = render v

abbrev later_two : List Target
later_two = record site { id = codes "2" } ∷ record site { id = codes "3" } ∷ []

abbrev three : List Target
three = site ∷ later_two

form-statuses :
    (validate_target_url parse (codes " https://a.test ") ≡ ok (codes "https://a.test"))
    × (status_of (handle_create_target render parse (in_driver driver) hub tt fresh none).response
        ≡ 400)
    × (status_of
          (handle_create_target render parse
            (in_driver driver)
            hub
            tt
            fresh
            (some (codes "x"))).response
        ≡ 200)
    × (status_of
          (handle_create_target render parse
            (in_driver taken)
            hub
            tt
            fresh
            (some (codes "x"))).response
        ≡ 409)
    × ((handle_list_targets render (ok three) fresh).body ≡ codes "123")
    × ((handle_list_targets second_fails (ok three) fresh).body ≡ codes "12")
    × (status_of (handle_list_targets second_fails (err target_exists) fresh) ≡ 500)
unfolding handle_create_target pulse_monitor.Text.text_eq pulse_monitor.Text.trim_space
    pulse_monitor.Text.trim_left pulse_monitor.Text.is_space create_target handle_list_targets
form-statuses = (refl, refl, refl, refl, refl, refl, refl)

abbrev listing : Driver
listing = record driver { select = ok (record { scans = map ok three; failure = none }) }

listing-Lists : Lists listing ((site ∷ []) ++ later_two)
listing-Lists = record {
  rows = record { scans = map ok three; failure = none };
  answered = refl;
  scanned = refl;
  ended = refl;
}

second-Stops : Stops second_fails (later_two)
unfolding text_eq
second-Stops e = cc

site-Renders : All (Renders second_fails) (site ∷ [])
unfolding text_eq
site-Renders = (refl, tt)

handle_list_targets_example :
    let w = handle_list_targets second_fails (list_targets listing) fresh in
    (status_of w ≡ 200)
    × (w.body ≡ rows second_fails (site ∷ []) ++ first_row second_fails (later_two))
handle_list_targets_example =
    handle_list_targets_lem second_fails listing (site ∷ []) (later_two) listing-Lists site-Renders
      second-Stops

handle_create_target_example :
    Announces render parse driver hub (some (codes " https://a.test "))
    ⊎ LeavesAlone render parse driver hub (some (codes " https://a.test "))
handle_create_target_example =
    handle_create_target_lem render parse driver hub (some (codes " https://a.test "))

handle_delete_target_example :
    let s =
      handle_delete_target {S = Unit} render
        (λ id u. (delete_target driver id, u))
        hub
        tt
        fresh
        (codes "1") in
    ((status_of s.response ≡ 200) ↔ (
      (n : ℕ) × Affects driver (codes "1") n
      × (n ≢ 0)
      × (s.hub ≡ publish_target_removed render (codes "1") hub)))
    × ((status_of s.response ≡ 404) ↔ Affects driver (codes "1") 0)
handle_delete_target_example = handle_delete_target_lem render driver hub (codes "1")

-- A handler that panics when it has sent a part of its answer.
abbrev half_way : Writer → Outcome
half_way w = record { writer = write (codes "<tr>") w; panic = some (codes "nil map") }

recover-half_way :
    ((recover half_way fresh).response.sent ≡ some 200)
    × ((recover half_way fresh).response.body ≡ codes "<tr>Internal Server Error\n")
    × ((recover (λ w. record { writer = w; panic = some [] }) fresh).response.sent ≡ some 500)
    × ((open_stream none true fresh).0.sent ≡ some 500)
    × ((open_stream hub true fresh).0.sent ≡ some 200)
unfolding recover open_stream write
recover-half_way = (refl, refl, refl, refl, refl)

recover_example :
    ((recover half_way fresh).panicked ≡ false)
    × ((recover half_way fresh).logged ≡ log_of (half_way fresh).panic)
    × (status_or 200 (recover half_way fresh).response.sent
        ≡ status_or (default_status (half_way fresh).panic) (half_way fresh).writer.sent)
    × ((recover half_way fresh).response.body
        ≡ (half_way fresh).writer.body ++ apology (half_way fresh).panic)
recover_example = recover_lem half_way fresh
