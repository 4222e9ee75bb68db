-- ===== src/Rfc2544/FrameLoss.antt =====
-- `measure_frame_loss` (src/trex_cli/rfc2544.py): trials at falling rates, until enough of them in
-- a row lose nothing. The trial and the callback are the caller's, as in `Search`.
pub mod Safety
pub mod Outcome
use trex_cli.Prelude.{
  ℕ, zero, suc, ◌+◌, ◌-◌, ◌*◌, Bool, true, false, Option, none, some, List, [], ◌∷◌, ◌++◌, leb,
  ◌==◌, if◌then◌else◌,
}
use trex_cli.Rfc2544.{TrialObservation, TrialRecord, trial_record, Phase, PhaseName, round_rate}

pub record FrameLossSettings : Type 0 where
  pub step_percent : ℕ
  pub trial_seconds : ℕ
  pub consecutive_zero_loss : ℕ

-- A record of a trial with "lossPercent": `None`, or the fraction of a numerator and a denominator.
pub record LossRecord (D : Type 0) : Type 0 where
  pub trial : TrialRecord D
  pub open trial use *
  pub loss_percent : Option (ℕ × ℕ)

pub record FrameLossResult (D : Type 0) : Type 0 where
  pub frame_size : ℕ
  pub valid : Bool
  pub stopped_after_consecutive_zero_loss : Bool
  pub trials : List (LossRecord D)

pub record LossRun (D : Type 0) (W : Type 0) : Type 0 where
  pub world : W
  pub history : List (LossRecord D)

pub record LossTrials (D : Type 0) (W : Type 0) : Type 0 where
  pub frame_size : ℕ
  pub trial : ℕ → ℕ → ℕ → W → TrialObservation D × W
  pub on_observation : Option (LossRecord D → W → W)

-- `None if tx_frames <= 0 else loss_frames * 100 / tx_frames`
unfoldable pub loss_percent : {D : Type 0} → TrialObservation D → Option (ℕ × ℕ)
loss_percent o = if o.tx_frames == 0 then none else some (o.loss_frames * 100, o.tx_frames)

unfoldable pub notify : {D W : Type 0} → Option (LossRecord D → W → W) → LossRecord D → W → W
notify none r w = w
notify (some f) r w = f r w

module _ {D W : Type 0} (t : LossTrials D W) where
  -- one call of the trial, its record appended to the history and reported
  unfoldable pub perform : ℕ → ℕ → Bool → LossRun D W → TrialObservation D × LossRun D W
  perform rate duration retry s =
      let (o, w) = t.trial t.frame_size rate duration s.world in
      let name : PhaseName = record { phase = Phase.frame_loss; sample = 0; retry = retry } in
      let r : LossRecord D = record {
        trial = trial_record rate duration name o;
        loss_percent = loss_percent o;
      } in
      (o, record { world = notify t.on_observation r w; history = s.history ++ r ∷ [] })

  -- a trial at one rate, and a retry if it is not valid
  unfoldable pub attempt : ℕ → ℕ → LossRun D W → TrialObservation D × LossRun D W
  attempt rate duration s =
      let (first, s1) = perform rate duration false s in
      let again = perform rate duration true s1 in if first.valid then (first, s1) else again

  -- each `return FrameLossResult(frame_size, valid, stopped, history)`
  unfoldable pub result : Bool → Bool → LossRun D W → FrameLossResult D × W
  result valid stopped s = (
    record {
      frame_size = t.frame_size;
      valid = valid;
      stopped_after_consecutive_zero_loss = stopped;
      trials = s.history;
    },
    s.world,
  )

  module _ (settings : FrameLossSettings) where
    -- `while rate > 0`; `none` means that the fuel ran out. A rate below 0 ends the loop as 0 does,
    -- so the subtraction may stop at 0.
    unfoldable pub loss_loop : ℕ → ℕ → ℕ → LossRun D W → Option (FrameLossResult D × W)
    loss_loop zero rate consecutive s = none
    loss_loop (suc fuel) rate consecutive s =
        let (o, s1) = attempt rate settings.trial_seconds s in
        let zeros = if o.loss_frames == 0 then consecutive + 1 else 0 in
        let enough = leb settings.consecutive_zero_loss zeros in
        let next =
          loss_loop fuel (round_rate (rate - settings.step_percent) 1 settings.step_percent) zeros
            s1 in
        if rate == 0
        then some (result true false s)
        else if o.valid
        then (if o.loss_frames == 0
            then (if enough then some (result true true s1) else next)
            else next)
        else some (result false false s1)

    -- The fuel is one more than the ceiling.
    unfoldable pub measure_frame_loss : ℕ → W → Option (FrameLossResult D × W)
    measure_frame_loss ceiling_percent w =
        loss_loop (ceiling_percent + 1) ceiling_percent 0 (record { world = w; history = [] })
