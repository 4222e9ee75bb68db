-- ===== src/Rfc2544/BackToBack/Safety.antt =====
-- The binary searches for the longest burst end, and no burst is longer than the configured one.
use native.Mathlib.Nat.{div-mul-le_self}
use trex_cli.Prelude.{ℕ, zero, suc, ◌+◌, ◌-◌, ◌*◌, ◌≤◌, ◌<◌, List, arith, All, All-append, Returns}
use trex_cli.Rfc2544.BackToBack.{
  BurstPhase, BurstRecord, burst_record, BurstRun, BurstTrials, Ended, broken, narrowed,
  candidate_burst, perform, narrow,
}

-- The next burst is strictly inside a wide interval.
pub candidate_burst_between :
    (low high step : ℕ)
    → 0 < step
    → step < high - low
    → (low < candidate_burst low high step) × (candidate_burst low high step < high)
unfolding candidate_burst
candidate_burst_between low high step p wide =
    ground (arith, div-mul-le_self (low + high) (2 * step))

-- Every burst of the list is at most `c` frames long.
unfoldable pub BurstsBelow : {D : Type 0} → ℕ → List (BurstRecord D) → Type 0
BurstsBelow {D} c trials = All (λ (r : BurstRecord D). r.burst_frames ≤ c) trials

module _ {D W : Type 0} (t : BurstTrials D W) (c : ℕ) where
  pub perform-BurstsBelow :
      (burst : ℕ) (p : BurstPhase) (s : BurstRun D W)
      → burst ≤ c
      → BurstsBelow c s.trials
      → BurstsBelow c (perform t burst p s).1.trials
  unfolding perform burst_record BurstsBelow
  perform-BurstsBelow burst p s le h = All-append _ s.trials _ h (le, tt)

  abbrev pub EndBelow : Ended × BurstRun D W → Type 0
  EndBelow (broken low, s) = BurstsBelow c s.trials
  EndBelow (narrowed low, s) = (low ≤ c) × BurstsBelow c s.trials

  pub narrow-EndBelow :
      (fuel step low high : ℕ) (s : BurstRun D W)
      → 0 < step
      → high - low < fuel
      → low ≤ c
      → high ≤ c
      → BurstsBelow c s.trials
      → Returns EndBelow (narrow t fuel step low high s)
  unfolding narrow
  narrow-EndBelow zero step low high s p lt l h below = elim lt [ ]
  narrow-EndBelow (suc fuel) step low high s p lt l h below =
      let candidate = candidate_burst low high step in
      let s1 = (perform t candidate BurstPhase.binary_search s).1 in
      ground (
        arith,
        candidate_burst_between low high step p,
        perform-BurstsBelow candidate BurstPhase.binary_search s,
        narrow-EndBelow fuel step candidate high s1 p,
        narrow-EndBelow fuel step low candidate s1 p,
      )
