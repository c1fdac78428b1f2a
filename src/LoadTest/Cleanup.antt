-- ===== src/LoadTest/Cleanup.antt =====
-- What the statements of run in cmd/loadtest/main.go do to the URLs in the table `targets`.
use mathlib.Core.List.{append-nil}
use pulse_monitor.LoadTest.Polling.{Float, Sample, WaitError, last_sample}
use pulse_monitor.LoadTest.{
  Statement, clears, seeds, reads_latencies, RunError, configuration, connect_database,
  ping_database, clear_stale, seed_targets, waiting, no_samples, no_advance, query_latencies,
  cleanup, Latencies, Run, fails, ended, asking, unless, Setup, after_query, report, after_samples,
  after_baseline, seed_urls, prefix_of, run,
}
use pulse_monitor.Prelude.Int.{ℤ, pos, ltb_ℤ}
use pulse_monitor.Prelude.Word.{sub64}
use pulse_monitor.Prelude.{
  ℕ, zero, suc, ◌+◌, ◌≡◌, refl, sym, subst, ap, ◌∙◌, Bool, true, not, List, [], ◌∷◌, ◌++◌, Option,
  none, some, arith, if◌then◌else◌, Bool-cases, inl, inr,
}
use pulse_monitor.Result.{Result, ok, err}
use pulse_monitor.Text.Decimal.{print_nat}
use pulse_monitor.Text.{Text}

abbrev pub keep : (Text → Bool) → List Text → List Text
keep p [] = []
keep p (u ∷ us) = let rest = keep p us in if p u then u ∷ rest else rest

keep-append : (p : Text → Bool) (us vs : List Text) → keep p (us ++ vs) ≡ keep p us ++ keep p vs
keep-append p [] vs = refl
keep-append p (u ∷ us) vs = ground (arith, keep-append p us vs)

keep_idem : (p : Text → Bool) (us : List Text) → keep p (keep p us) ≡ keep p us
keep_idem p [] = refl
keep_idem p (u ∷ us) = ground (arith, keep_idem p us)

-- What follows the first two statements.
module _ {F : Type 0} (float : Float F) where
  abbrev after_seeds : Setup F → Run F
  after_seeds s = unless seed_targets s.seed (after_baseline float s s.baseline)

  abbrev after_clear : Setup F → Run F
  after_clear s =
      unless clear_stale s.clear
        (asking (seeds (seed_urls (prefix_of s.options) 0 s.options.targets)) (after_seeds s))

-- `like p u` is what Postgres says of `u LIKE p || '%'`.
module _ (like : Text → Text → Bool) where
  abbrev pub perform : Statement → List Text → List Text
  perform (clears p) us = keep (λ u. not (like p u)) us
  perform (seeds vs) us = us ++ vs
  perform (reads_latencies p) us = us

  abbrev pub perform_all : List Statement → List Text → List Text
  perform_all [] us = us
  perform_all (q ∷ qs) us = perform_all qs (perform q us)

  -- The URLs that are not the load test's.
  abbrev pub others : Text → List Text → List Text
  others p us = keep (λ u. not (like p u)) us

  module _ (p : Text) (own : (i : ℕ) → like p (p ++ print_nat i) ≡ true) where
    seed_urls-others : (i n : ℕ) → others p (seed_urls p i n) ≡ []
    unfolding seed_urls
    seed_urls-others i zero = refl
    seed_urls-others i (suc n) = rw (own i) (seed_urls-others (i + 1) n)

    seeds-others :
        (i n : ℕ) (us : List Text) → others p (perform (seeds (seed_urls p i n)) us) ≡ others p us
    seeds-others i n us =
        keep-append (λ u. not (like p u)) us (seed_urls p i n)
        ∙ ap (λ vs. others p us ++ vs) (seed_urls-others i n)
        ∙ append-nil (others p us)

  module _ (F : Type 0) (p : Text) where
    abbrev IsClean : Run F → Type 0
    IsClean r =
        (us : List Text)
        → (others p (perform_all r.statements us) ≡ others p us)
          × (r.failure ≡ none → perform_all r.statements us ≡ others p us)

    fails-IsClean : (e : RunError) → IsClean (fails e)
    fails-IsClean e us = (refl, λ h. cc)

    unless-IsClean :
        (context : Text → RunError) (o : Option Text) (r : Run F)
        → IsClean r
        → IsClean (unless context o r)
    unless-IsClean context none r h = h
    unless-IsClean context (some e) r h = fails-IsClean (context e)

    asking-IsClean :
        (q : Statement) (r : Run F)
        → ((us : List Text) → others p (perform q us) ≡ others p us)
        → IsClean r
        → IsClean (asking q r)
    asking-IsClean q r k h us = let (a, b) = h (perform q us) in (a ∙ k us, λ e. b e ∙ k us)

    cleaned-IsClean : (o : Option Text) → IsClean (asking (clears p) (unless cleanup o ended))
    cleaned-IsClean none us = (keep_idem (λ u. not (like p u)) us, λ h. refl)
    cleaned-IsClean (some e) us = (keep_idem (λ u. not (like p u)) us, λ h. cc)

  module _ {F : Type 0} (float : Float F) (s : Setup F) where
    abbrev prefix : Text
    prefix = prefix_of s.options

    after_query-IsClean :
        (baseline : ℤ) (x : Sample F) (xs : List (Sample F)) (r : Result Text (Latencies F))
        → IsClean F prefix (after_query float s baseline x xs r)
    after_query-IsClean baseline x xs (err e) = fails-IsClean F prefix (query_latencies e)
    after_query-IsClean baseline x xs (ok l) = cleaned-IsClean F prefix s.cleanup_error

    report-IsClean :
        (baseline : ℤ) (x : Sample F) (xs : List (Sample F))
        → IsClean F prefix (report float s baseline x xs)
    report-IsClean baseline x xs =
        asking-IsClean F prefix (reads_latencies prefix)
          (after_query float s baseline x xs s.latencies) (λ us. refl)
          (after_query-IsClean baseline x xs s.latencies)

    after_samples-IsClean :
        (baseline : ℤ) (xs : List (Sample F)) → IsClean F prefix (after_samples float s baseline xs)
    after_samples-IsClean baseline [] = fails-IsClean F prefix no_samples
    after_samples-IsClean baseline (x ∷ xs) =
        let r = report float s baseline x xs in
        elim (Bool-cases (ltb_ℤ (pos 0) (sub64 (last_sample float x xs).total baseline))) [
          | inl e ↦
              subst (λ b. IsClean F prefix (if b then r else fails no_advance)) (sym e)
                (report-IsClean baseline x xs)
          | inr e ↦
              subst (λ b. IsClean F prefix (if b then r else fails no_advance)) (sym e)
                (fails-IsClean F prefix no_advance)
        ]

    after_baseline-IsClean : (r : Result WaitError ℤ) → IsClean F prefix (after_baseline float s r)
    after_baseline-IsClean (err e) = fails-IsClean F prefix (waiting e)
    after_baseline-IsClean (ok baseline) = after_samples-IsClean baseline s.samples

-- Let every URL that the load test seeds match its prefix, as LIKE reads the prefix. However a run
-- of the load test goes, the URLs in the table that do not match the prefix are the same after its
-- statements as before, in the same order. If the run ends without an error, they are all that is
-- left: none of the seeded URLs and none that an earlier run has left behind.
pub run-others :
    {F : Type 0} (float : Float F) (like : Text → Text → Bool) (s : Setup F) (us : List Text)
    → ((i : ℕ) → like (prefix_of s.options) (prefix_of s.options ++ print_nat i) ≡ true)
    → (others like (prefix_of s.options) (perform_all like (run float s).statements us)
        ≡ others like (prefix_of s.options) us)
      × ((run float s).failure ≡ none
          → perform_all like (run float s).statements us ≡ others like (prefix_of s.options) us)
unfolding run
run-others {F} float like s us own =
    let p = prefix_of s.options in
    let n = s.options.targets in
    let seeded =
      unless-IsClean like F p seed_targets s.seed _
        (after_baseline-IsClean like float s s.baseline) in
    let cleared =
      asking-IsClean like F p (seeds (seed_urls p 0 n)) (after_seeds float s)
        (seeds-others like p own 0 n) seeded in
    let pinged =
      asking-IsClean like F p (clears p) (after_clear float s) (keep_idem (λ u. not (like p u)))
        (unless-IsClean like F p clear_stale s.clear _ cleared) in
    unless-IsClean like F p configuration s.config _
      (unless-IsClean like F p connect_database s.new_pool _
        (unless-IsClean like F p ping_database s.ping _ pinged))
      us
