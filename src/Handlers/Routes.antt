-- ===== src/Handlers/Routes.antt =====
-- `New` and `Register` of internal/handlers/handlers.go, and the patterns of cmd/server/main.go.
-- html/template and the ServeMux are parameters: what ParseFS returns, and the list of patterns.
use pulse_monitor.Prelude.{◌≡◌, refl, List, [], ◌∷◌, ◌++◌, map, Option}
use pulse_monitor.Result.{Result, ok, err}
use pulse_monitor.Sse.Hub.{Hub}
use pulse_monitor.Text.{Text, codes}

-- `S` is the store, `T` the parsed templates.
pub record Handlers (S T : Type 0) : Type 0 where
  pub store : S
  pub templates : T
  pub hub : Option Hub

-- `New`, from what template.ParseFS returns.
unfoldable pub new : {S T : Type 0} → S → Option Hub → Result Text T → Result Text (Handlers S T)
new store hub (err e) = err (codes "parse templates: " ++ e)
new store hub (ok t) = ok (record { store = store; templates = t; hub = hub })

pub data Endpoint : Type 0 where
  index_endpoint events_endpoint list_endpoint create_endpoint delete_endpoint : Endpoint
  static_endpoint healthz_endpoint metrics_endpoint : Endpoint

pub record Route : Type 0 where
  pub path : Text
  pub endpoint : Endpoint

-- `mux.Handle`, with a pattern that is registered once.
abbrev pub handle : Text → Endpoint → List Route → List Route
handle p e mux = mux ++ record { path = p; endpoint = e } ∷ []

-- `Register`.
unfoldable pub register : List Route → List Route
register mux = handle (codes "GET /static/") static_endpoint (
    handle (codes "DELETE /targets/{id}") delete_endpoint (
      handle (codes "POST /targets") create_endpoint (
        handle (codes "GET /targets") list_endpoint (
          handle (codes "GET /events") events_endpoint
            (handle (codes "GET /{$}") index_endpoint mux)))))

-- The routes of the server.
unfoldable pub server_routes : List Route
unfolding register
server_routes = register (
    handle (codes "GET /metrics") metrics_endpoint
      (handle (codes "GET /healthz") healthz_endpoint []))

routes-server :
    map (λ (r : Route). r.endpoint) server_routes
    ≡ healthz_endpoint ∷ metrics_endpoint ∷ index_endpoint ∷ events_endpoint ∷ list_endpoint
      ∷ create_endpoint ∷ delete_endpoint ∷ static_endpoint ∷ []
unfolding server_routes
routes-server = refl

new-fails :
    {S T : Type 0} (s : S) (h : Option Hub)
    → new {T = T} s h (err (codes "x")) ≡ err (codes "parse templates: x")
unfolding new
new-fails s h = refl
