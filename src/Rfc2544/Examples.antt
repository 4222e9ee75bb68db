-- ===== src/Rfc2544/Examples.antt =====
-- Simulated devices, runs of rfc2544.py against them, and its theorems at these inputs.
use trex_cli.Prelude.{
  ℕ, ◌+◌, ◌≡◌, refl, true, Option, none, some, List, arith, leb, ◌==◌, if◌then◌else◌, Returns,
}
use trex_cli.Rfc2544.{TrialObservation, SearchSettings, FrameSearchResult, round_rate}
use trex_cli.Rfc2544.Search.{
  observe, select, take_samples, sample_count, sample_once, perform, bisect, settle, descend,
  conclude, confirm, result, Trials, search_frame,
}
use trex_cli.Rfc2544.Search.Capacity.{HasCapacity}
use trex_cli.Rfc2544.Search.Accuracy.{Measured, search_frame-Measured}
use trex_cli.Rfc2544.Search.Safety.{RatesBelow, search_frame-RatesBelow}
use trex_cli.Rfc2544.Search.Evidence.{Evident, search_frame-Evident}
use trex_cli.Rfc2544.FrameLoss.{FrameLossSettings, LossTrials, measure_frame_loss}
use trex_cli.Rfc2544.FrameLoss.Safety.{ResultBelow, measure_frame_loss-RatesBelow}
use trex_cli.Rfc2544.FrameLoss.Outcome.{Accounts, measure_frame_loss-Accounts}
use trex_cli.Rfc2544.BackToBack.{BackToBackSettings, BurstTrials, Gives}
use trex_cli.Rfc2544.BackToBack.Report.{measure_back_to_back, prerequisites_valid}
use trex_cli.Rfc2544.BackToBack.Outcome.{MeasuredAs, measure_back_to_back-Judged}
use trex_cli.Rfc2544.BackToBack.Capacity.{
  Forwards, FindsCapacity, measure_back_to_back-FindsCapacity,
}

-- A device that loses one frame of a hundred above a rate of 700; the world counts the trials.
abbrev observe_at : ℕ → TrialObservation ℕ
observe_at rate = record {
  valid = true;
  loss_frames = if leb rate 700 then 0 else 1;
  tx_frames = 100;
  rx_frames = if leb rate 700 then 100 else 99;
  target_rate_reached = true;
  details = 0;
}

abbrev device : Trials ℕ ℕ
device = record {
  frame_size = 64;
  trial = λ size rate duration w. (observe_at rate, w + 1);
  on_observation = none;
}

-- `settings_for("strict", 100)` in tenths of a percent and seconds
abbrev strict : SearchSettings
strict = record {
  resolution = 1;
  trial_seconds = 10;
  confirmation_seconds = 60;
  confirmations = 3;
  search_samples = 3;
}

lossless_device : (rate : ℕ) → ((if leb rate 700 then 0 else 1) == 0) ≡ leb rate 700
lossless_device rate = ground arith

device-HasCapacity : HasCapacity device 700
device-HasCapacity = record {
  valid = λ size rate duration w. refl;
  lossless_iff = λ size rate duration w. lossless_device rate;
}

search_frame-Measured_example : Returns (Measured 700 1 1000) (search_frame device strict 1000 0)
search_frame-Measured_example =
    search_frame-Measured device 700 device-HasCapacity strict (omega arith) (omega arith) 1000 0

search_frame-RatesBelow_example :
    Returns (λ r. RatesBelow 1000 r.0.trials) (search_frame device strict 1000 0)
search_frame-RatesBelow_example = search_frame-RatesBelow device strict 1000 0 (omega arith)

search_frame-Evident_example : Returns (Evident strict) (search_frame device strict 1000 0)
search_frame-Evident_example = search_frame-Evident device strict 1000 0 (omega arith) (omega arith)

abbrev throughput_of : {D W : Type 0} → Option (FrameSearchResult D × W) → Option ℕ
throughput_of none = none
throughput_of (some (r, w)) = r.throughput

search_frame_runs : throughput_of (search_frame device strict 1000 0) ≡ some 700
unfolding search_frame observe select take_samples sample_count sample_once perform bisect
    round_rate settle descend conclude confirm result
search_frame_runs = refl

-- A burst buffer of 90 frames.
abbrev buffer : BurstTrials ℕ ℕ
buffer = record {
  frame_size = 64;
  trial = λ size burst w. (
    record {
      valid = true;
      tx_frames = burst;
      rx_frames = if leb burst 90 then burst else 90;
      details = 0;
    },
    w + 1,
  );
}

abbrev burst_settings : BackToBackSettings
burst_settings = record { repetitions = 2; minimum_step_frames = 4; maximum_burst_frames = 200 }

buffer-Forwards : Forwards buffer 90
buffer-Forwards = record {
  valid = λ size burst w. refl;
  received = λ size burst w. ground arith;
  lossless_iff = λ size burst w. ground arith;
}

abbrev no_deviation : List ℕ → ℕ
no_deviation bursts = 0

measure_back_to_back-Judged_example :
    Returns
      (λ r. MeasuredAs burst_settings (prerequisites_valid 1000 400) r.0)
      (measure_back_to_back no_deviation buffer burst_settings 1000 400 0)
measure_back_to_back-Judged_example =
    measure_back_to_back-Judged buffer burst_settings (omega arith) no_deviation 1000 400 0

measure_back_to_back-FindsCapacity_example :
    Returns
      (λ r. Gives (FindsCapacity 90 burst_settings) r.0)
      (measure_back_to_back no_deviation buffer burst_settings 1000 400 0)
measure_back_to_back-FindsCapacity_example =
    measure_back_to_back-FindsCapacity buffer 90 buffer-Forwards burst_settings (omega arith)
      (omega arith) (omega arith) no_deviation 1000 400 0 (omega arith) (omega arith)

abbrev loss_device : LossTrials ℕ ℕ
loss_device = record {
  frame_size = 64;
  trial = λ size rate duration w. (observe_at rate, w + 1);
  on_observation = none;
}

-- `frame_loss_settings_for("strict", 100)` in tenths of a percent and seconds
abbrev loss_settings : FrameLossSettings
loss_settings = record { step_percent = 100; trial_seconds = 60; consecutive_zero_loss = 2 }

measure_frame_loss-RatesBelow_example :
    Returns (ResultBelow loss_device 1000) (measure_frame_loss loss_device loss_settings 1000 0)
measure_frame_loss-RatesBelow_example =
    measure_frame_loss-RatesBelow loss_device loss_settings 1000 0 (omega arith)

measure_frame_loss-Accounts_example :
    Returns (Accounts 2) (measure_frame_loss loss_device loss_settings 1000 0)
measure_frame_loss-Accounts_example =
    measure_frame_loss-Accounts loss_device loss_settings 1000 0 (omega arith) (omega arith)
