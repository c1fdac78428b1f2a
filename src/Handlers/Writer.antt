-- ===== src/Handlers/Writer.antt =====
-- What internal/handlers uses of net/http's ResponseWriter: the status is sent once, with the first
-- WriteHeader or Write; header fields set after that are not sent. And `Recover` of
-- internal/handlers/middleware.go, over a handler that returns or panics.
pub mod Recovery
use pulse_monitor.Prelude.{
  ℕ, Bool, true, false, List, [], ◌∷◌, ◌++◌, Option, none, some, if◌then◌else◌,
}
use pulse_monitor.Text.{Text, codes, text_eq}

-- `sent` is the status that went out with the headers `sent_header`.
pub record Writer : Type 0 where
  pub header : List (Text × Text)
  pub sent : Option ℕ
  pub sent_header : List (Text × Text)
  pub body : Text

abbrev pub fresh : Writer
fresh = record { header = []; sent = none; sent_header = []; body = [] }

-- The status that the client gets: an explicit one, or 200 when the handler is done.
abbrev pub status_or : ℕ → Option ℕ → ℕ
status_or default none = default
status_or default (some status) = status

abbrev pub status_of : Writer → ℕ
status_of w = status_or 200 w.sent

abbrev pub remove_field : Text → List (Text × Text) → List (Text × Text)
remove_field k [] = []
remove_field k ((j, v) ∷ fs) =
    let rest = remove_field k fs in if text_eq j k then rest else (j, v) ∷ rest

-- `w.Header().Set(k, v)`.
unfoldable pub set_header : Text → Text → Writer → Writer
set_header k v w = record w { header = (k, v) ∷ remove_field k w.header }

-- A second WriteHeader is superfluous.
abbrev pub send : ℕ → Option ℕ → Writer → Writer
send status none w = record w { sent = some status; sent_header = w.header }
send status (some earlier) w = w

unfoldable pub write_header : ℕ → Writer → Writer
write_header status w = send status w.sent w

unfoldable pub write : Text → Writer → Writer
unfolding write_header
write s w = let w' = write_header 200 w in record w' { body = w'.body ++ s }

-- http.Error.
unfoldable pub http_error : Text → ℕ → Writer → Writer
unfolding set_header write_header write
http_error message status w = write (message ++ b'\n' ∷ []) (
    write_header status (
      set_header (codes "X-Content-Type-Options") (codes "nosniff") (
        set_header (codes "Content-Type") (codes "text/plain; charset=utf-8")
          (record w { header = remove_field (codes "Content-Length") w.header }))))

-- What a handler leaves: the writer, and the value that it panicked with, if it did.
pub record Outcome : Type 0 where
  pub writer : Writer
  pub panic : Option Text

-- What the server sees of a handler: the writer, what was logged, and whether it panicked.
pub record Handled : Type 0 where
  pub response : Writer
  pub logged : List Text
  pub panicked : Bool

abbrev pub recovered : Writer → Option Text → Handled
recovered w none = record { response = w; logged = []; panicked = false }
recovered w (some value) = record {
  response = http_error (codes "Internal Server Error") 500 w;
  logged = value ∷ [];
  panicked = false;
}

-- `Recover(next).ServeHTTP`, where `next` is the handler's effect on the writer.
unfoldable pub recover : (Writer → Outcome) → Writer → Handled
unfolding http_error
recover next w = let o = next w in recovered o.writer o.panic
