-- ===== src/Rfc2544.antt =====
-- rfc2544.py (src/trex_cli/rfc2544.py): the observations, the records of trials, the settings and
-- the rounding that the searches below share. A rate, a resolution and a duration are natural
-- numbers of a fixed-point unit, and the arithmetic on them is exact; the program uses floats.
-- `details` is opaque data of a type `D`.
pub mod Rounding
pub mod Search
pub mod FrameLoss
pub mod BackToBack
mod Examples
use trex_cli.Prelude.{
  ℕ, ◌+◌, ◌-◌, ◌*◌, ◌/◌, ◌%◌, Bool, true, false, Option, none, some, List, ltb, ◌==◌, if◌then◌else◌,
}

pub record TrialObservation (D : Type 0) : Type 0 where
  pub valid : Bool
  pub loss_frames : ℕ
  pub tx_frames : ℕ
  pub rx_frames : ℕ
  pub target_rate_reached : Bool
  pub details : D

pub data Phase : Type 0 where
  search confirmation frame_loss : Phase

-- The phase of a record is the text "<phase>", "<phase>-sample-<sample + 1>" if `sample` is not 0,
-- with "-retry" at its end for a retry.
pub record PhaseName : Type 0 where
  pub phase : Phase
  pub sample : ℕ
  pub retry : Bool

pub record TrialRecord (D : Type 0) : Type 0 where
  pub phase : PhaseName
  pub rate : ℕ
  pub duration : ℕ
  pub valid : Bool
  pub loss_frames : ℕ
  pub tx_frames : ℕ
  pub rx_frames : ℕ
  pub target_rate_reached : Bool
  pub details : D

-- `_trial_record`
unfoldable pub trial_record : {D : Type 0} → ℕ → ℕ → PhaseName → TrialObservation D → TrialRecord D
trial_record rate duration phase observation = record {
  phase = phase;
  rate = rate;
  duration = duration;
  valid = observation.valid;
  loss_frames = observation.loss_frames;
  tx_frames = observation.tx_frames;
  rx_frames = observation.rx_frames;
  target_rate_reached = observation.target_rate_reached;
  details = observation.details;
}

pub record SearchSettings : Type 0 where
  pub resolution : ℕ
  pub trial_seconds : ℕ
  pub confirmation_seconds : ℕ
  pub confirmations : ℕ
  pub search_samples : ℕ

pub record FrameSearchResult (D : Type 0) : Type 0 where
  pub frame_size : ℕ
  pub throughput : Option ℕ
  pub valid : Bool
  pub trials : List (TrialRecord D)

-- Python's `round` at the fraction `n / d`: to the nearest integer, a half to the even one.
unfoldable pub round_half_even : ℕ → ℕ → ℕ
round_half_even n d =
    let q = n / d in
    let r = n % d in
    if ltb (2 * r) d then q else if ltb d (2 * r) then q + 1 else if q % 2 == 0 then q else q + 1

-- `_round_rate` at the value `num / den`
unfoldable pub round_rate : ℕ → ℕ → ℕ → ℕ
unfolding round_half_even
round_rate num den resolution = round_half_even num (den * resolution) * resolution
