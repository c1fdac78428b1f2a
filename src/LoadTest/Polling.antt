-- ===== src/LoadTest/Polling.antt =====
-- cmd/loadtest/main.go: the polling of GET /metrics and the rates of the samples. `read_metric` is in
-- Metrics. The arithmetic of float64 is a parameter; times are in nanoseconds.
use pulse_monitor.Prelude.Int.{ℤ, pos, negsuc, ltb_ℤ}
use pulse_monitor.Prelude.Word.{sub64}
use pulse_monitor.Prelude.{
  ℕ, ◌-◌, Bool, false, List, [], ◌∷◌, ◌++◌, Option, none, some, ltb, ◌==◌, if◌then◌else◌,
}
use pulse_monitor.Result.{Result, ok, err}

-- What the source uses of float64: 0, 100, the largest value, conversions, Duration.Seconds, + * / and <.
pub record Float (F : Type 0) : Type 0 where
  pub nought : F
  pub hundred : F
  pub max_float : F
  pub of_int : ℤ → F
  pub seconds : ℕ → F
  pub plus : F → F → F
  pub times : F → F → F
  pub over : F → F → F
  pub less : F → F → Bool

-- One round of polling: what readMetric gives, if no error, and the clock after the read and at the
-- test of the deadline.
pub record Poll : Type 0 where
  pub total : Option ℤ
  pub read_at : ℕ
  pub tested_at : ℕ

pub record Sample (F : Type 0) : Type 0 where
  pub at : ℕ
  pub total : ℤ
  pub rate : F

abbrev pub zero_total : ℤ → Bool
zero_total (pos n) = n == 0
zero_total (negsuc n) = false

module _ {F : Type 0} (float : Float F) where
  -- `pct`.
  unfoldable pub pct : ℤ → ℤ → F
  pct n total =
      if zero_total total
      then float.nought
      else float.over (float.times float.hundred (float.of_int n)) (float.of_int total)

  -- A negative rate would mean that the app restarted.
  abbrev pub not_negative : F → F
  not_negative r = if float.less r float.nought then float.nought else r

  -- `s.rate`, from the sample before, if there is one.
  abbrev pub rate_after : Option (Sample F) → ℤ → ℕ → F
  rate_after none total now = float.nought
  rate_after (some before) total now =
      not_negative
        (float.over (float.of_int (sub64 total before.total)) (float.seconds (now - before.at)))

  -- The sample of a round, and the list with it.
  abbrev pub sampled : Option (Sample F) → Poll → Option ℤ → Option (Sample F)
  sampled before p none = none
  sampled before p (some total) =
      some (record { at = p.read_at; total = total; rate = rate_after before total p.read_at })

  abbrev pub add_sample : List (Sample F) → Option (Sample F) → List (Sample F)
  add_sample samples none = samples
  add_sample samples (some s) = samples ++ s ∷ []

  abbrev pub or_before : Option (Sample F) → Option (Sample F) → Option (Sample F)
  or_before none before = before
  or_before (some s) before = some s

  -- The loop of `sampleMetrics`; `none` if the rounds end before the deadline.
  unfoldable pub sample_rounds :
      ℕ → Option (Sample F) → List (Sample F) → List Poll → Option (List (Sample F))
  sample_rounds deadline before samples [] = none
  sample_rounds deadline before samples (p ∷ ps) =
      let s = sampled before p p.total in
      let rest = sample_rounds deadline (or_before s before) (add_sample samples s) ps in
      if ltb p.tested_at deadline then rest else some (add_sample samples s)

  -- `sampleMetrics`, from the deadline and the rounds.
  unfoldable pub sample_metrics : ℕ → List Poll → Option (List (Sample F))
  unfolding sample_rounds
  sample_metrics deadline ps = sample_rounds deadline none [] ps

  -- The loop over the samples that finds the burst rates.
  pub record Bursts : Type 0 where
    pub burst_min : F
    pub burst_max : F
    pub burst_sum : F

  unfoldable pub burst : Bursts → List (Sample F) → Bursts
  burst b [] = b
  burst b (s ∷ ss) =
      burst
        (record {
          burst_min = if float.less s.rate b.burst_min then s.rate else b.burst_min;
          burst_max = if float.less b.burst_max s.rate then s.rate else b.burst_max;
          burst_sum = float.plus b.burst_sum s.rate;
        })
        ss

  unfoldable pub bursts : List (Sample F) → Bursts
  unfolding burst
  bursts ss =
      burst
        (record { burst_min = float.max_float; burst_max = float.nought; burst_sum = float.nought })
        ss

  abbrev pub last_sample : Sample F → List (Sample F) → Sample F
  last_sample s [] = s
  last_sample s (u ∷ us) = last_sample u us

  -- `sustained`, from the baseline, the first sample and those after it.
  unfoldable pub sustained : ℤ → Sample F → List (Sample F) → F
  sustained baseline s ss =
      let last = last_sample s ss in
      float.over (float.of_int (sub64 last.total baseline)) (float.seconds (last.at - s.at))

-- `err == nil && total > 0`.
abbrev pub counted : Option ℤ → Bool
counted none = false
counted (some total) = ltb_ℤ (pos 0) total

abbrev pub total_or_zero : Option ℤ → ℤ
total_or_zero none = pos 0
total_or_zero (some total) = total

pub data WaitError : Type 0 where
  no_checks_recorded : WaitError

-- The loop of `waitForChecks`, whose context is never done: the baseline, or the error that there was
-- no check before the deadline; `none` if the rounds end first.
unfoldable pub wait_for_checks : ℕ → List Poll → Option (Result WaitError ℤ)
wait_for_checks deadline [] = none
wait_for_checks deadline (p ∷ ps) =
    let rest = wait_for_checks deadline ps in
    if counted p.total
    then some (ok (total_or_zero p.total))
    else if ltb deadline p.tested_at
    then some (err no_checks_recorded)
    else rest
