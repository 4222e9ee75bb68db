-- ===== src/Rfc2544/FrameLoss/Outcome.antt =====
-- What the recorded trials say for the result of `measure_frame_loss`.
use trex_cli.Prelude.{
  ℕ, zero, suc, ◌+◌, ◌-◌, ◌≤◌, ◌<◌, ◌≡◌, refl, Bool, true, false, List, [], ◌∷◌, ◌++◌,
  if◌then◌else◌, ◌==◌, arith, Returns,
}
use trex_cli.Rfc2544.{trial_record, round_rate}
use trex_cli.Rfc2544.Rounding.{round_rate-sub-lt}
use trex_cli.Rfc2544.FrameLoss.{
  FrameLossSettings, LossRecord, FrameLossResult, LossRun, LossTrials, perform, attempt, result,
  loss_loop, measure_frame_loss,
}

-- How many rates in a row lost nothing, read off the records alone: an invalid trial does not
-- count, and a valid one with loss starts anew.
abbrev extend : ℕ → Bool → ℕ → ℕ
extend k valid loss = if valid then (if loss == 0 then k + 1 else 0) else k

unfoldable pub streak : {D : Type 0} → ℕ → List (LossRecord D) → ℕ
streak k [] = k
streak k (r ∷ rs) = streak (extend k r.valid r.loss_frames) rs

unfoldable pub last_valid : {D : Type 0} → Bool → List (LossRecord D) → Bool
last_valid b [] = b
last_valid b (r ∷ rs) = last_valid r.valid rs

streak-snoc :
    {D : Type 0} (k : ℕ) (rs : List (LossRecord D)) (r : LossRecord D)
    → streak k (rs ++ r ∷ []) ≡ extend (streak k rs) r.valid r.loss_frames
unfolding streak
streak-snoc k [] r = refl
streak-snoc k (x ∷ xs) r = streak-snoc (extend k x.valid x.loss_frames) xs r

last_valid-snoc :
    {D : Type 0} (b : Bool) (rs : List (LossRecord D)) (r : LossRecord D)
    → last_valid b (rs ++ r ∷ []) ≡ r.valid
unfolding last_valid
last_valid-snoc b [] r = refl
last_valid-snoc b (x ∷ xs) r = last_valid-snoc x.valid xs r

-- A sweep that stopped early has seen enough rates in a row without loss; one that went down to
-- rate 0 has not; an invalid one follows a trial that was not valid.
abbrev pub AccountsFor : {D : Type 0} → ℕ → Bool → Bool → List (LossRecord D) → Type 0
AccountsFor limit true true trials = limit ≤ streak 0 trials
AccountsFor limit true false trials = streak 0 trials < limit
AccountsFor limit false true trials = ⊥
AccountsFor limit false false trials = last_valid true trials ≡ false

abbrev pub Accounts : {D W : Type 0} → ℕ → FrameLossResult D × W → Type 0
Accounts limit (r, w) = AccountsFor limit r.valid r.stopped_after_consecutive_zero_loss r.trials

module _ {D W : Type 0} (t : LossTrials D W) where
  streak_of : LossRun D W → ℕ
  streak_of s = streak 0 s.history

  perform-streak :
      (rate duration : ℕ) (retry : Bool) (s : LossRun D W)
      → let (o, s1) = perform t rate duration retry s in
        (streak_of s1 ≡ extend (streak_of s) o.valid o.loss_frames)
        × (last_valid true s1.history ≡ o.valid)
  unfolding perform trial_record streak_of
  perform-streak rate duration retry s =
      (streak-snoc 0 s.history _, last_valid-snoc true s.history _)

  attempt-streak :
      (rate duration : ℕ) (s : LossRun D W)
      → let (o, s1) = attempt t rate duration s in
        (streak_of s1 ≡ extend (streak_of s) o.valid o.loss_frames)
        × (last_valid true s1.history ≡ o.valid)
  unfolding attempt
  attempt-streak rate duration s = ground (
    arith,
    perform-streak rate duration false s,
    perform-streak rate duration true (perform t rate duration false s).1,
  )

  module _ (settings : FrameLossSettings) (p : 0 < settings.step_percent) where
    loss_loop-Accounts :
        (fuel rate consecutive : ℕ) (s : LossRun D W)
        → rate < fuel
        → consecutive ≡ streak_of s
        → consecutive < settings.consecutive_zero_loss
        → Returns
            (Accounts settings.consecutive_zero_loss)
            (loss_loop t settings fuel rate consecutive s)
    unfolding loss_loop result streak_of
    loss_loop-Accounts zero rate consecutive s lt e few = elim lt [ ]
    loss_loop-Accounts (suc fuel) rate consecutive s lt e few =
        let (o, s1) = attempt t rate settings.trial_seconds s in
        let next = round_rate (rate - settings.step_percent) 1 settings.step_percent in
        ground (
          arith,
          attempt-streak rate settings.trial_seconds s,
          round_rate-sub-lt rate settings.step_percent p,
          loss_loop-Accounts fuel next (if o.loss_frames == 0 then consecutive + 1 else 0) s1,
        )

-- With a positive step and a positive limit of rates without loss, the sweep returns a result. If
-- it stopped early it is valid, and the limit is reached by the rates without loss in a row at the
-- end of its records; if it is valid and went down to rate 0 the limit is not reached; if it is
-- not valid it did not stop early and its last trial was not valid.
pub measure_frame_loss-Accounts :
    {D W : Type 0} (t : LossTrials D W) (settings : FrameLossSettings) (ceiling : ℕ) (w : W)
    → 0 < settings.step_percent
    → 0 < settings.consecutive_zero_loss
    → Returns (Accounts settings.consecutive_zero_loss) (measure_frame_loss t settings ceiling w)
unfolding measure_frame_loss
measure_frame_loss-Accounts t settings ceiling w p few =
    loss_loop-Accounts t settings p (ceiling + 1) ceiling 0 (record { world = w; history = [] })
      (omega arith) (unfold streak_of streak in refl) few
