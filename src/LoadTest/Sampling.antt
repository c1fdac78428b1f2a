-- ===== src/LoadTest/Sampling.antt =====
-- What `sampleMetrics` returns.
use mathlib.Core.List.{append_assoc, append-nil, map-append}
use pulse_monitor.LoadTest.Polling.{
  Float, Poll, Sample, rate_after, not_negative, sampled, add_sample, or_before, sample_rounds,
  sample_metrics,
}
use pulse_monitor.Prelude.Int.{ℤ}
use pulse_monitor.Prelude.{
  ℕ, ◌≡◌, refl, sym, ap, ◌∙◌, false, List, [], ◌∷◌, ◌++◌, map, Option, none, some, arith, some-inj,
  All, All-append, Bool-cases, inl, inr, ltb, if◌then◌else◌,
}

-- The rounds up to the first one whose test finds the deadline reached; `none` if there is none.
abbrev pub cons_poll : Poll → Option (List Poll) → Option (List Poll)
cons_poll p none = none
cons_poll p (some ps) = some (p ∷ ps)

abbrev pub until_deadline : ℕ → List Poll → Option (List Poll)
until_deadline deadline [] = none
until_deadline deadline (p ∷ ps) =
    if ltb p.tested_at deadline then cons_poll p (until_deadline deadline ps) else some (p ∷ [])

-- The total of each round whose read was good, with the time of the read.
abbrev pub reading : Poll → Option ℤ → List (ℕ × ℤ)
reading p none = []
reading p (some total) = (p.read_at, total) ∷ []

abbrev pub readings : List Poll → List (ℕ × ℤ)
readings [] = []
readings (p ∷ ps) = reading p p.total ++ readings ps

module _ {F : Type 0} (float : Float F) (zero : float.less float.nought float.nought ≡ false) where
  abbrev pub IsRate : Sample F → Type 0
  IsRate s = float.less s.rate float.nought ≡ false

  not_negative-rate : (r : F) → float.less (not_negative float r) float.nought ≡ false
  not_negative-rate r = ground (arith, zero)

  rate_after-IsRate :
      (before : Option (Sample F)) (total : ℤ) (now : ℕ)
      → float.less (rate_after float before total now) float.nought ≡ false
  rate_after-IsRate none total now = zero
  rate_after-IsRate (some s) total now = not_negative-rate _

  abbrev pub pairs : List (Sample F) → List (ℕ × ℤ)
  pairs = map (λ (x : Sample F). (x.at, x.total))

  -- What a round adds to the samples.
  abbrev Adds : List (Sample F) → Option (Sample F) → Poll → Option ℤ → Type 0
  Adds samples s p total =
      (pairs (add_sample float samples s) ≡ pairs samples ++ reading p total)
      × All IsRate (add_sample float samples s)

  sampled-Adds :
      (before : Option (Sample F)) (samples : List (Sample F)) (p : Poll) (total : Option ℤ)
      → All IsRate samples
      → Adds samples (sampled float before p total) p total
  sampled-Adds before samples p none a = (sym (append-nil _), a)
  sampled-Adds before samples p (some total) a = (
    map-append (λ (x : Sample F). (x.at, x.total)) samples _,
    All-append IsRate samples _ a (rate_after-IsRate before total p.read_at, tt),
  )

  -- The samples are the good readings, and no rate is negative.
  abbrev Ends : List (ℕ × ℤ) → Option (List (Sample F)) → Type 0
  Ends rs o = (out : List (Sample F)) × (o ≡ some out) × (pairs out ≡ rs) × All IsRate out

  cons_poll-inv :
      (p : Poll) (o : Option (List Poll)) {polled : List Poll}
      → cons_poll p o ≡ some polled
      → (ps : List Poll) × (o ≡ some ps) × (polled ≡ p ∷ ps)
  cons_poll-inv p none h = cc
  cons_poll-inv p (some ps) h = (ps, refl, sym (some-inj h))

  sample_rounds-Ends :
      (deadline : ℕ) (ps : List Poll) (before : Option (Sample F)) (samples : List (Sample F))
      {polled : List Poll}
      → until_deadline deadline ps ≡ some polled
      → All IsRate samples
      → Ends (pairs samples ++ readings polled) (sample_rounds float deadline before samples ps)
  unfolding sample_rounds
  sample_rounds-Ends deadline [] before samples h a = cc
  sample_rounds-Ends deadline (p ∷ ps) before samples {polled} h a =
      let s = sampled float before p p.total in
      let (m, a') = sampled-Adds before samples p p.total a in
      elim (Bool-cases (ltb p.tested_at deadline)) [
        | inl more ↦
            let (rest, e, q) = cons_poll-inv p (until_deadline deadline ps) (rw more at h) in
            let (out, o, r, b) =
              sample_rounds-Ends deadline ps (or_before float s before) (add_sample float samples s)
                e a' in
            rw more (
              out,
              o,
              r
                  ∙ ap (λ x. x ++ readings rest) m
                  ∙ append_assoc (pairs samples) (reading p p.total) (readings rest)
                  ∙ ap (λ x. pairs samples ++ readings x) (sym q),
              b,
            )
        | inr done ↦
            let q : p ∷ [] ≡ polled = some-inj (rw done at h) in
            rw done (
              add_sample float samples s,
              refl,
              m
                  ∙ ap (λ x. pairs samples ++ x) (sym (append-nil (reading p p.total)))
                  ∙ ap (λ x. pairs samples ++ readings x) q,
              a',
            )
      ]

-- If some round finds the deadline reached, sampleMetrics returns after the first such round, with
-- one sample for every read until then that gave a total: in order, with that total and the time of
-- the read, and with a rate that is not below 0.
pub sample_metrics_lem :
    {F : Type 0} (float : Float F) (deadline : ℕ) (ps : List Poll) {polled : List Poll}
    → float.less float.nought float.nought ≡ false
    → until_deadline deadline ps ≡ some polled
    → (out : List (Sample F)) × (sample_metrics float deadline ps ≡ some out)
      × (map (λ (s : Sample F). (s.at, s.total)) out ≡ readings polled)
      × All (λ (s : Sample F). float.less s.rate float.nought ≡ false) out
unfolding sample_metrics
sample_metrics_lem float deadline ps z h = sample_rounds-Ends float z deadline ps none [] h tt
