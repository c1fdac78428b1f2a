-- ===== src/Dashboard/Requests/Tests.antt =====
-- Requests on a database with room for one row.
use pulse_monitor.Dashboard.Requests.Changes.{Accounts}
use pulse_monitor.Dashboard.Requests.Replay.{serve_all-Accounts}
use pulse_monitor.Dashboard.Requests.{Request, posts, deletes, serve_all}
use pulse_monitor.Handlers.Targets.{Uri}
use pulse_monitor.Handlers.Writer.{status_of}
use pulse_monitor.Handlers.Views.{View, Rendered}
use pulse_monitor.Monitor.Types.{Target}
use pulse_monitor.Prelude.{
  ℕ, inl, ◌≡◌, refl, ap, List, [], ◌∷◌, map, Option, none, some, arith, if◌then◌else◌,
}
use pulse_monitor.Result.{Result, ok, err}
use pulse_monitor.Sse.Hub.{Hub}
use pulse_monitor.Store.Database.{Table, Inserts, Deletes, Database}
use pulse_monitor.Store.{DriverError, Driver}
use pulse_monitor.Text.Split.{text_eq_iff, text_eq_refl}
use pulse_monitor.Text.{Text, codes, text_eq}

abbrev pub only : Text
only = codes "1"

-- The URL of the row, if it is there.
abbrev pub rows : Option Text → Table
rows s id = if text_eq only id then s else none

abbrev pub full : Text → Text → DriverError
full url u = record {
  code = if text_eq u url then some (codes "23505") else none;
  message = codes "no room";
}

abbrev pub insert : Text → Option Text → Result DriverError Target
insert url none = ok (record { id = only; url = url })
insert url (some u) = err (full url u)

abbrev pub inserted : Text → Option Text → Option Text
inserted url none = some url
inserted url (some u) = some u

abbrev pub count : Text → Option Text → ℕ
count id none = 0
count id (some u) = if text_eq only id then 1 else 0

abbrev pub removed : Text → Option Text → Option Text
removed id none = none
removed id (some u) = if text_eq only id then none else some u

full-code : (url u : Text) → (full url u).code ≡ some (codes "23505") → u ≡ url
full-code url u c = ground (arith, text_eq_iff u url)

pub insert_law :
    (url : Text) (s : Option Text)
    → Inserts (λ id. id) url (rows s) (rows (inserted url s)) (insert url s)
insert_law url none =
    (refl, refl, rw (text_eq_refl only), (λ id e. ground arith), λ id. ground arith)
insert_law url (some u) = (
  inl (λ id. refl),
  λ c. ((λ id. refl), (only, rw (text_eq_refl only) (ap some (full-code url u c)))),
)

pub delete_law :
    (id : Text) (s : Option Text)
    → Deletes (λ id. id) id (rows s) (rows (removed id s)) (ok (count id s))
delete_law id none = ((λ e. ground arith, λ e. refl), λ j. ground arith)
delete_law id (some u) = (
  (λ e. ground arith, λ e. ground arith),
  λ j. ground (arith, text_eq_iff only id, text_eq_iff only j, text_eq_iff id j),
)

abbrev pub one_row : Database
one_row = record {
  State = Option Text;
  driver = λ s. record {
    insert = λ url. insert url s;
    select = err (full [] []);
    delete = λ id. ok (count id s);
    insert_check = λ row. none;
    aggregate = λ id since. err (full [] []);
    now = 0;
  };
  table = rows;
  row_id = λ id. id;
  after_insert = inserted;
  after_delete = removed;
  insert_law = insert_law;
  delete_law = delete_law;
}

abbrev pub render : View → Rendered
render v = record { written = codes "<tr>"; error = none }

-- Every URI is on https and has a host.
abbrev pub parse : Text → Option Uri
parse s = some (record { scheme = codes "https"; host = codes "a.test" })

abbrev pub hub : Option Hub
hub = some (record { clients = 1 ∷ []; channels = λ c. record { capacity = 4; buffer = [] } })

abbrev pub requests : List Request
requests =
    posts (some (codes "a"))
    ∷ posts (some (codes " a "))
    ∷ posts (some (codes "b"))
    ∷ deletes (codes "2")
    ∷ deletes only
    ∷ posts none
    ∷ []

statuses :
    map status_of (serve_all one_row render parse requests hub none).0
    ≡ 200 ∷ 409 ∷ 500 ∷ 404 ∷ 200 ∷ 400 ∷ []
unfolding serve_all text_eq pulse_monitor.Text.trim_space pulse_monitor.Text.trim_left
    pulse_monitor.Text.is_space pulse_monitor.Store.create_target pulse_monitor.Store.delete_target
statuses = refl

serve_all-Accounts_example :
    let (rs, h', s') = serve_all one_row render parse requests hub none in
    Accounts (λ id. id) render parse hub h' (rows none) (rows s') rs
serve_all-Accounts_example = serve_all-Accounts one_row render parse requests hub none
