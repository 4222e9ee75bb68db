-- ===== src/Rfc2544/FrameLoss/Safety.antt =====
-- The frame loss sweep ends, and no trial of it runs above the ceiling.
use trex_cli.Prelude.{
  ℕ, zero, suc, ◌+◌, ◌-◌, ◌≤◌, ◌<◌, Bool, true, false, List, [], if◌then◌else◌, ◌==◌, arith, All,
  All-append, Returns,
}
use trex_cli.Rfc2544.{trial_record, round_rate}
use trex_cli.Rfc2544.Rounding.{round_rate-sub-lt}
use trex_cli.Rfc2544.FrameLoss.{
  FrameLossSettings, LossRecord, FrameLossResult, LossRun, LossTrials, perform, attempt, result,
  loss_loop, measure_frame_loss,
}

-- Every trial of the list ran at the ceiling or below.
pub RatesBelow : {D : Type 0} → ℕ → List (LossRecord D) → Type 0
RatesBelow {D} c trials = All (λ (r : LossRecord D). r.rate ≤ c) trials

module _ {D W : Type 0} (t : LossTrials D W) (c : ℕ) where
  perform-RatesBelow :
      (rate duration : ℕ) (retry : Bool) (s : LossRun D W)
      → rate ≤ c
      → RatesBelow c s.history
      → RatesBelow c (perform t rate duration retry s).1.history
  unfolding perform trial_record RatesBelow
  perform-RatesBelow rate duration retry s le h = All-append _ s.history _ h (le, tt)

  attempt-RatesBelow :
      (rate duration : ℕ) (s : LossRun D W)
      → rate ≤ c
      → RatesBelow c s.history
      → RatesBelow c (attempt t rate duration s).1.history
  unfolding attempt
  attempt-RatesBelow rate duration s le h = ground (
    arith,
    perform-RatesBelow rate duration false s,
    perform-RatesBelow rate duration true (perform t rate duration false s).1,
  )

  abbrev pub ResultBelow : FrameLossResult D × W → Type 0
  ResultBelow r = RatesBelow c r.0.trials

  loss_loop-RatesBelow :
      (settings : FrameLossSettings) (fuel rate consecutive : ℕ) (s : LossRun D W)
      → 0 < settings.step_percent
      → rate < fuel
      → rate ≤ c
      → RatesBelow c s.history
      → Returns ResultBelow (loss_loop t settings fuel rate consecutive s)
  unfolding loss_loop result
  loss_loop-RatesBelow settings zero rate consecutive s p lt le h = elim lt [ ]
  loss_loop-RatesBelow settings (suc fuel) rate consecutive s p lt le h =
      let (o, s1) = attempt t rate settings.trial_seconds s in
      let next = round_rate (rate - settings.step_percent) 1 settings.step_percent in
      ground (
        arith,
        attempt-RatesBelow rate settings.trial_seconds s,
        round_rate-sub-lt rate settings.step_percent p,
        loss_loop-RatesBelow settings fuel next (if o.loss_frames == 0 then consecutive + 1 else 0)
            s1 p,
      )

-- With a positive step, the sweep returns a result, and every trial of it, retries included, ran
-- at the ceiling or below.
pub measure_frame_loss-RatesBelow :
    {D W : Type 0} (t : LossTrials D W) (settings : FrameLossSettings) (ceiling : ℕ) (w : W)
    → 0 < settings.step_percent
    → Returns (ResultBelow t ceiling) (measure_frame_loss t settings ceiling w)
unfolding measure_frame_loss RatesBelow
measure_frame_loss-RatesBelow t settings ceiling w p =
    loss_loop-RatesBelow t ceiling settings (ceiling + 1) ceiling 0
      (record { world = w; history = [] }) p (omega arith) (omega arith) tt
