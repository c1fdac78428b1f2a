-- ===== src/Metrics/Scrape.antt =====
-- The text of GET /metrics, as the load test reads it.
use mathlib.Core.List.{append_assoc, append-nil}
use pulse_monitor.Metrics.{Metrics, body, line, or_next, read_lines, read_metric}
use pulse_monitor.Prelude.Int.{ℤ, pos, negsuc}
use pulse_monitor.Prelude.Word.{IsInt64}
use pulse_monitor.Prelude.{
  ℕ, suc, ◌≡◌, refl, ◌∙◌, ap, List, [], ◌∷◌, ◌++◌, All-append, some, arith, if◌then◌else◌, none,
}
use pulse_monitor.Text.Decimal.{
  print_nat, print_int, is_digit, print_nat-AllDigits, print_int-cons, atoi-print_int, AllDigits,
}
use pulse_monitor.Text.Split.{Lacks, split_on-append, fields_pair}
use pulse_monitor.Text.Trim.{NoSpace}
use pulse_monitor.Text.{Text, codes, is_space, text_eq, split_on, fields}

-- The characters of a number are neither spaces nor newlines.
digits-NoSpace : (s : Text) → AllDigits s → NoSpace s
unfolding is_digit is_space
digits-NoSpace [] h = tt
digits-NoSpace (c ∷ s) h = (ground arith, digits-NoSpace s h.1)

print_int-NoSpace : (z : ℤ) → NoSpace (print_int z)
unfolding print_int
print_int-NoSpace (pos n) = digits-NoSpace (print_nat n) (print_nat-AllDigits n)
print_int-NoSpace (negsuc n) =
    (unfold is_space in refl, digits-NoSpace (print_nat (suc n)) (print_nat-AllDigits (suc n)))

NoSpace-Lacks : (s : Text) → NoSpace s → Lacks b'\n' s
unfolding is_space
NoSpace-Lacks [] h = tt
NoSpace-Lacks (c ∷ s) h = (ground arith, NoSpace-Lacks s h.1)

-- A line, without its newline.
abbrev entry : Text → ℤ → Text
entry name value = name ++ b' ' ∷ print_int value

fields-entry :
    (c : ℕ) (a : Text) (value : ℤ)
    → NoSpace (c ∷ a)
    → fields (entry (c ∷ a) value) ≡ (c ∷ a) ∷ print_int value ∷ []
fields-entry c a value h =
    let (d, s, e) = print_int-cons value in
    rw e (fields_pair c d a s h (rw e at (print_int-NoSpace value)))

split_on-line :
    (name rest : Text) (value : ℤ)
    → Lacks b'\n' name
    → split_on b'\n' (line name value ++ rest) ≡ entry name value ∷ split_on b'\n' rest
split_on-line name rest value h =
    rw
      (
        append_assoc name (b' ' ∷ (print_int value ++ b'\n' ∷ [])) rest,
        append_assoc (print_int value) (b'\n' ∷ []) rest,
      )
      (rw (← append_assoc name (b' ' ∷ print_int value) (b'\n' ∷ rest)) (
        split_on-append b'\n' (entry name value) rest (
          All-append _ name (b' ' ∷ print_int value) h
            (refl, NoSpace-Lacks (print_int value) (print_int-NoSpace value)))))

read_lines-entry :
    (wanted : Text) (c : ℕ) (a : Text) (value : ℤ) (ls : List Text)
    → NoSpace (c ∷ a)
    → read_lines wanted (entry (c ∷ a) value ∷ ls)
      ≡ or_next
          (if text_eq (c ∷ a) wanted then some (print_int value) else none)
          (read_lines wanted ls)
unfolding read_lines
read_lines-entry wanted c a value ls h = rw (fields-entry c a value h)

abbrev pub name_total : Text
name_total = codes "checks_total"

abbrev pub name_in_flight : Text
name_in_flight = codes "checks_in_flight"

abbrev pub name_failures : Text
name_failures = codes "checks_failures"

abbrev name_uptime : Text
name_uptime = codes "uptime_seconds"

total-NoSpace : NoSpace name_total
unfolding is_space
total-NoSpace = ground arith

in_flight-NoSpace : NoSpace name_in_flight
unfolding is_space
in_flight-NoSpace = ground arith

failures-NoSpace : NoSpace name_failures
unfolding is_space
failures-NoSpace = ground arith

uptime-NoSpace : NoSpace name_uptime
unfolding is_space
uptime-NoSpace = ground arith

split_on-step :
    (name rest : Text) (value : ℤ) {ls : List Text}
    → NoSpace name
    → split_on b'\n' rest ≡ ls
    → split_on b'\n' (line name value ++ rest) ≡ entry name value ∷ ls
split_on-step name rest value h e =
    split_on-line name rest value (NoSpace-Lacks name h) ∙ ap (◌∷◌ (entry name value)) e

split_on-last :
    (name : Text) (value : ℤ)
    → Lacks b'\n' name
    → split_on b'\n' (line name value) ≡ entry name value ∷ [] ∷ []
split_on-last name value h =
    rw (← append-nil (line name value)) (split_on-line name [] value h ∙ unfold split_on in refl)

split_on-body :
    (m : Metrics) (uptime : ℤ)
    → split_on b'\n' (body m uptime)
      ≡ entry name_total m.checks_total
        ∷ entry name_in_flight m.checks_in_flight
        ∷ entry name_failures m.checks_failed
        ∷ entry name_uptime uptime
        ∷ []
        ∷ []
unfolding body
split_on-body m uptime = split_on-step name_total _ m.checks_total total-NoSpace (
    split_on-step name_in_flight _ m.checks_in_flight in_flight-NoSpace (
      split_on-step name_failures _ m.checks_failed failures-NoSpace
        (split_on-last name_uptime uptime (NoSpace-Lacks name_uptime uptime-NoSpace))))

-- The load test reads from the text of GET /metrics, answered with status 200, the exact value of
-- each of the three counters.
pub read_metric-body :
    (m : Metrics) (uptime : ℤ)
    → IsInt64 m.checks_total
    → IsInt64 m.checks_in_flight
    → IsInt64 m.checks_failed
    → (read_metric 200 (body m uptime) name_total ≡ some m.checks_total)
      × (read_metric 200 (body m uptime) name_in_flight ≡ some m.checks_in_flight)
      × (read_metric 200 (body m uptime) name_failures ≡ some m.checks_failed)
unfolding read_metric text_eq
read_metric-body m uptime t f x =
    rw
      (
        split_on-body m uptime,
        fields-entry b'c' (codes "hecks_total") m.checks_total total-NoSpace,
        fields-entry b'c' (codes "hecks_in_flight") m.checks_in_flight in_flight-NoSpace,
        fields-entry b'c' (codes "hecks_failures") m.checks_failed failures-NoSpace,
      )
      (
        atoi-print_int m.checks_total t,
        atoi-print_int m.checks_in_flight f,
        atoi-print_int m.checks_failed x,
      )
