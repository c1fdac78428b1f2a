-- ===== src/Handlers/Writer/Recovery.antt =====
-- What a client gets from a handler behind `Recover`.
use mathlib.Core.List.{append-nil}
use pulse_monitor.Handlers.Writer.{Writer, status_or, http_error, Outcome, recovered, recover}
use pulse_monitor.Prelude.{ℕ, ◌≡◌, refl, sym, false, List, [], ◌∷◌, ◌++◌, Option, none, some, arith}
use pulse_monitor.Text.{Text, codes}

-- The body that `Recover` adds.
abbrev pub apology : Option Text → Text
apology none = []
apology (some value) = codes "Internal Server Error\n"

-- The status that the server sends if the handler has sent none.
abbrev pub default_status : Option Text → ℕ
default_status none = 200
default_status (some value) = 500

abbrev pub log_of : Option Text → List Text
log_of none = []
log_of (some value) = value ∷ []

http_error-sent :
    (w : Writer) (message : Text) (status : ℕ)
    → status_or 200 (http_error message status w).sent ≡ status_or status w.sent
unfolding http_error
http_error-sent w message status = ground arith

http_error-body :
    (w : Writer) (message : Text) (status : ℕ)
    → (http_error message status w).body ≡ w.body ++ (message ++ b'\n' ∷ [])
unfolding http_error
http_error-body w message status = ground arith

recovered_lem :
    (w : Writer) (panic : Option Text)
    → ((recovered w panic).panicked ≡ false)
      × ((recovered w panic).logged ≡ log_of panic)
      × (status_or 200 (recovered w panic).response.sent ≡ status_or (default_status panic) w.sent)
      × ((recovered w panic).response.body ≡ w.body ++ apology panic)
recovered_lem w none = (refl, refl, refl, sym (append-nil w.body))
recovered_lem w (some value) = (refl, refl, http_error-sent w _ 500, http_error-body w _ 500)

-- Behind Recover no handler panics, and a panic is logged. The client gets the status that the
-- handler has sent before; if it has sent none, it gets 500 after a panic and 200 otherwise. After a
-- panic the error message follows whatever the handler has written.
pub recover_lem :
    (next : Writer → Outcome) (w : Writer)
    → ((recover next w).panicked ≡ false)
      × ((recover next w).logged ≡ log_of (next w).panic)
      × (status_or 200 (recover next w).response.sent
          ≡ status_or (default_status (next w).panic) (next w).writer.sent)
      × ((recover next w).response.body ≡ (next w).writer.body ++ apology (next w).panic)
unfolding recover
recover_lem next w = recovered_lem (next w).writer (next w).panic
