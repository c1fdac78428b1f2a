-- ===== src/Handlers/Targets.antt =====
-- The handlers of the targets in internal/handlers/handlers.go. Each takes the operations of the
-- store, over some state of it, and gives the response, the hub and the store afterwards. net/url is
-- a parameter.
pub mod Urls
pub mod Creation
pub mod Deletion
pub mod Pages
use pulse_monitor.Handlers.Views.{
  View, index_page, target_row, Rendered, publish_target_added, publish_target_removed,
}
use pulse_monitor.Handlers.Writer.{Writer, set_header, write_header, write, http_error}
use pulse_monitor.Monitor.Types.{Target}
use pulse_monitor.Prelude.{
  ℕ, Bool, true, ◌&&◌, not, List, [], ◌∷◌, ◌++◌, Option, none, some, if◌then◌else◌,
}
use pulse_monitor.Result.{Result, ok, err}
use pulse_monitor.Sse.Hub.{Hub}
use pulse_monitor.Store.{StoreError, target_exists, target_not_found, wrapped}
use pulse_monitor.Text.{Text, codes, trim_space, text_eq}

-- What the source reads of a parsed request URI.
pub record Uri : Type 0 where
  pub scheme : Text
  pub host : Text

abbrev pub no_host : Text
no_host = codes "URL must include a valid host"

-- The checks of the parsed URL; `none` if ParseRequestURI fails.
abbrev pub check_uri : Text → Option Uri → Result Text Text
check_uri raw none = err no_host
check_uri raw (some u) =
    if text_eq u.host []
    then err no_host
    else if not (text_eq u.scheme (codes "http")) && not (text_eq u.scheme (codes "https"))
    then err (codes "URL scheme must be http or https")
    else ok raw

unfoldable pub validate_target_url : (Text → Option Uri) → Text → Result Text Text
validate_target_url parse raw_url =
    let raw = trim_space raw_url in
    if text_eq raw [] then err (codes "URL is required") else check_uri raw (parse raw)

-- What ExecuteTemplate writes: it makes no call of Write if there is nothing to write.
abbrev pub write_rendered : Text → Writer → Writer
write_rendered [] w = w
write_rendered (c ∷ s) w = write (c ∷ s) w

-- The response, with the hub and the store afterwards.
pub record Served (S : Type 0) : Type 0 where
  pub response : Writer
  pub hub : Option Hub
  pub store : S

abbrev pub internal_error : Writer → Writer
internal_error = http_error (codes "Internal Server Error") 500

abbrev pub refuse : {S : Type 0} → Option Hub → S → Writer → Served S
refuse h s r = record { response = r; hub = h; store = s }

abbrev pub create_error : StoreError → Writer → Writer
create_error target_exists =
    http_error (codes "A target with this URL is already being monitored") 409
create_error target_not_found = internal_error
create_error (wrapped e) = internal_error

abbrev pub after_create :
    {S : Type 0} → (View → Rendered) → Option Hub → Writer → Result StoreError Target × S → Served S
after_create render h w (err e, s) = refuse h s (create_error e w)
after_create render h w (ok t, s) = record {
  response = write_header 200 w;
  hub = publish_target_added render t h;
  store = s;
}

abbrev pub after_validate :
    {S : Type 0}
    → (View → Rendered)
    → (Text → S → Result StoreError Target × S)
    → Option Hub
    → S
    → Writer
    → Result Text Text
    → Served S
after_validate render create h s w (err e) = refuse h s (http_error e 400 w)
after_validate render create h s w (ok url) = after_create render h w (create url s)

-- `HandleCreateTarget`. `form` is the value of the field `url`; there is none if ParseForm fails.
unfoldable pub handle_create_target :
    {S : Type 0}
    → (View → Rendered)
    → (Text → Option Uri)
    → (Text → S → Result StoreError Target × S)
    → Option Hub
    → S
    → Writer
    → Option Text
    → Served S
unfolding validate_target_url http_error write_header
handle_create_target render parse create h s w none =
    refuse h s (http_error (codes "Bad Request") 400 w)
handle_create_target render parse create h s w (some raw) =
    after_validate render create h s w (validate_target_url parse raw)

abbrev pub delete_error : StoreError → Writer → Writer
delete_error target_not_found = http_error (codes "Target not found") 404
delete_error target_exists = internal_error
delete_error (wrapped e) = internal_error

abbrev pub after_delete :
    {S : Type 0} → (View → Rendered) → Option Hub → Writer → Text → Option StoreError × S → Served S
after_delete render h w id (some e, s) = refuse h s (delete_error e w)
after_delete render h w id (none, s) = record {
  response = write_header 200 w;
  hub = publish_target_removed render id h;
  store = s;
}

-- `HandleDeleteTarget`, from the path value `id`; `delete` returns the error of the store.
unfoldable pub handle_delete_target :
    {S : Type 0}
    → (View → Rendered)
    → (Text → S → Option StoreError × S)
    → Option Hub
    → S
    → Writer
    → Text
    → Served S
unfolding http_error write_header
handle_delete_target render delete h s w [] = refuse h s (http_error (codes "Missing ID") 400 w)
handle_delete_target render delete h s w (c ∷ id) =
    after_delete render h w (c ∷ id) (delete (c ∷ id) s)

abbrev html : Writer → Writer
html = set_header (codes "Content-Type") (codes "text/html; charset=utf-8")

-- The loop of `HandleListTargets`: it stops at the first row that does not render.
abbrev pub after_row : Option Text → (Writer → Writer) → Writer → Writer
after_row none rest w = rest w
after_row (some e) rest w = w

unfoldable pub target_rows : (View → Rendered) → List Target → Writer → Writer
unfolding write
target_rows render [] w = w
target_rows render (t ∷ ts) w =
    let r = render (target_row t) in
    after_row r.error (target_rows render ts) (write_rendered r.written w)

abbrev pub list_page : (View → Rendered) → Writer → Result StoreError (List Target) → Writer
list_page render w (err e) = internal_error w
list_page render w (ok ts) = target_rows render ts (html w)

unfoldable pub handle_list_targets :
    (View → Rendered) → Result StoreError (List Target) → Writer → Writer
unfolding target_rows http_error set_header
handle_list_targets render listed w = list_page render w listed

-- `HandleIndex`: an error of the template is only logged.
abbrev pub index : (View → Rendered) → Writer → Result StoreError (List Target) → Writer
index render w (err e) = internal_error w
index render w (ok ts) = write_rendered (render (index_page ts)).written (html w)

unfoldable pub handle_index : (View → Rendered) → Result StoreError (List Target) → Writer → Writer
unfolding write http_error set_header
handle_index render listed w = index render w listed
