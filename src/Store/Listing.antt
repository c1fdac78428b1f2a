-- ===== src/Store/Listing.antt =====
-- What ListTargets returns.
use mathlib.Core.List.{append_assoc, append-nil}
use pulse_monitor.Monitor.Types.{Target}
use pulse_monitor.Prelude.{
  ◌≡◌, ◌↔◌, refl, sym, ap, ◌∙◌, List, [], ◌∷◌, ◌++◌, map, Option, none, some,
}
use pulse_monitor.Result.{Result, ok, err, bind-eq-ok}
use pulse_monitor.Store.{DriverError, Rows, Driver, scan_targets, check_rows, listed, list_targets}

scan_targets-scanned : (acc ts : List Target) → scan_targets acc (map ok ts) ≡ ok (acc ++ ts)
unfolding scan_targets
scan_targets-scanned acc [] = ap ok (sym (append-nil acc))
scan_targets-scanned acc (t ∷ ts) =
    scan_targets-scanned (acc ++ t ∷ []) ts ∙ ap ok (append_assoc acc (t ∷ []) ts)

scan_targets-ok :
    (acc : List Target) (rows : List (Result DriverError Target)) {ts : List Target}
    → scan_targets acc rows ≡ ok ts
    → (us : List Target) × (rows ≡ map ok us) × (ts ≡ acc ++ us)
unfolding scan_targets
scan_targets-ok acc [] {ts = ts} h =
    ([], refl, (let e : acc ≡ ts = cc in sym e ∙ sym (append-nil acc)))
scan_targets-ok acc (err e ∷ rows) h = cc
scan_targets-ok acc (ok t ∷ rows) h =
    let (us, e, f) = scan_targets-ok (acc ++ t ∷ []) rows h in
    (t ∷ us, ap (λ r. ok t ∷ r) e, f ∙ append_assoc acc (t ∷ []) us)

-- The reply from which ListTargets can read these targets: the query was answered, each of its rows
-- scans to the target in its place, and no error came at the end.
pub record Lists (d : Driver) (ts : List Target) : Type 0 where
  pub rows : Rows
  pub answered : d.select ≡ ok rows
  pub scanned : rows.scans ≡ map ok ts
  pub ended : rows.failure ≡ none

check_rows-ok :
    (o : Option DriverError) {us ts : List Target}
    → check_rows o us ≡ ok ts
    → (o ≡ none) × (us ≡ ts)
check_rows-ok none h = (refl, cc)
check_rows-ok (some e) h = cc

listed-ok :
    (r : Result DriverError Rows) {ts : List Target}
    → listed r ≡ ok ts
    → (rows : Rows) × (r ≡ ok rows) × (rows.scans ≡ map ok ts) × (rows.failure ≡ none)
listed-ok (err e) h = cc
listed-ok (ok rows) h =
    let (ts', e, f) = bind-eq-ok (scan_targets [] rows.scans) (check_rows rows.failure) h in
    let (us, a, b) = scan_targets-ok [] rows.scans e in
    let (g, k) = check_rows-ok rows.failure f in (rows, refl, a ∙ ap (map ok) (sym b ∙ k), g)

-- ListTargets returns a list of targets exactly if the query was answered with these targets, in
-- order and without an error in any row or at the end: it never returns a part of a list.
pub list_targets_iff : (d : Driver) (ts : List Target) → (list_targets d ≡ ok ts) ↔ Lists d ts
unfolding list_targets
list_targets_iff d ts = (
  λ h.
      let (rows, e, f, g) = listed-ok d.select h in
      record { rows = rows; answered = e; scanned = f; ended = g },
  λ l. rw (l.answered, l.scanned, scan_targets-scanned [] ts, l.ended) refl,
)
