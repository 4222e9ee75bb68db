-- ===== src/Rfc2544/Search.antt =====
-- `search_frame` (src/trex_cli/rfc2544.py). The trial function is the engine's: it takes the frame
-- size, the rate and the duration, and acts on a world `W` of the caller's. `on_observation`, if it
-- is given, acts on the world too. A trial that raises ends the search with its exception, and is
-- not modelled.
pub mod Safety
pub mod Total
pub mod Capacity
pub mod Accuracy
pub mod History
pub mod Evidence
use trex_cli.Prelude.{
  ℕ, zero, suc, ◌+◌, ◌-◌, Bool, true, false, Option, none, some, List, [], ◌∷◌, ◌++◌, ltb, leb,
  ◌==◌, if◌then◌else◌, ◌||◌, match_option,
}
use trex_cli.Rfc2544.{
  TrialObservation, TrialRecord, trial_record, Phase, PhaseName, SearchSettings, FrameSearchResult,
  round_rate,
}

-- What a running search changes: the caller's world, and the history of trials.
pub record Run (D : Type 0) (W : Type 0) : Type 0 where
  pub world : W
  pub history : List (TrialRecord D)

-- How the confirmations of one candidate end: no valid trial, a lossy one, or all free of loss.
pub data Confirmation : Type 0 where
  unobserved refuted confirmed : Confirmation

-- How the binary search ends: without a valid trial, or at a rate.
pub data Bisection : Type 0 where
  aborted : Bisection
  found : ℕ → Bisection

pub record Trials (D : Type 0) (W : Type 0) : Type 0 where
  pub frame_size : ℕ
  pub trial : ℕ → ℕ → ℕ → W → TrialObservation D × W
  pub on_observation : Option (TrialRecord D → W → W)

-- `samples = settings.search_samples if phase == "search" else 1`
unfoldable pub sample_count : SearchSettings → Phase → ℕ
sample_count settings Phase.search = settings.search_samples
sample_count settings _ = 1

module _ {D : Type 0} where
  -- `next((sample for sample in valid if sample.loss_frames == 0), valid[-1])`
  unfoldable pub first_lossless :
      TrialObservation D → List (TrialObservation D) → TrialObservation D
  first_lossless last [] = last
  first_lossless last (o ∷ os) = if o.loss_frames == 0 then o else first_lossless last os

  unfoldable pub last_of : TrialObservation D → List (TrialObservation D) → TrialObservation D
  last_of o [] = o
  last_of o (p ∷ ps) = last_of p ps

  -- the end of `observe`: which of the valid observations stands for all
  unfoldable pub select : Phase → List (TrialObservation D) → Option (TrialObservation D)
  unfolding first_lossless last_of
  select phase [] = none
  select Phase.search (o ∷ os) = some (first_lossless (last_of o os) (o ∷ os))
  select _ (o ∷ os) = some (last_of o os)

unfoldable pub notify : {D W : Type 0} → Option (TrialRecord D → W → W) → TrialRecord D → W → W
notify none r w = w
notify (some f) r w = f r w

module _ {D W : Type 0} (t : Trials D W) where
  -- one call of the trial, its record appended to the history and reported
  unfoldable pub perform : ℕ → ℕ → PhaseName → Run D W → TrialObservation D × Run D W
  perform rate duration phase s =
      let (o, w) = t.trial t.frame_size rate duration s.world in
      let r = trial_record rate duration phase o in
      (o, record { world = notify t.on_observation r w; history = s.history ++ r ∷ [] })

  -- one round of the sampling loop: a trial, and a retry if it is not valid
  unfoldable pub sample_once : ℕ → ℕ → Phase → ℕ → Run D W → Option (TrialObservation D) × Run D W
  sample_once rate duration phase sample s =
      let (first, s1) =
        perform rate duration (record { phase = phase; sample = sample; retry = false }) s in
      let (second, s2) =
        perform rate duration (record { phase = phase; sample = sample; retry = true }) s1 in
      if first.valid
      then (some first, s1)
      else (if second.valid then (some second, s2) else (none, s2))

  -- `for sample in range(samples)`; the valid observations in order
  unfoldable pub take_samples :
      ℕ → ℕ → Phase → ℕ → ℕ → Run D W → List (TrialObservation D) × Run D W
  take_samples rate duration phase zero sample s = ([], s)
  take_samples rate duration phase (suc left) sample s =
      let (o, s1) = sample_once rate duration phase sample s in
      let (os, s2) = take_samples rate duration phase left (sample + 1) s1 in
      (match_option o os (λ v. v ∷ os), s2)

  module _ (settings : SearchSettings) where
    unfoldable pub observe : ℕ → ℕ → Phase → Run D W → Option (TrialObservation D) × Run D W
    observe rate duration phase s =
        let (valid, s1) = take_samples rate duration phase (sample_count settings phase) 0 s in
        (select phase valid, s1)

    -- the binary search; `none` means that the fuel ran out
    unfoldable pub bisect : ℕ → ℕ → ℕ → Run D W → Option (Bisection × Run D W)
    bisect zero low high s = none
    bisect (suc fuel) low high s =
        let candidate = round_rate (low + high) 2 settings.resolution in
        let (o, s1) = observe candidate settings.trial_seconds Phase.search s in
        let upper = bisect fuel candidate high s1 in
        let lower = bisect fuel low candidate s1 in
        if ltb settings.resolution (high - low)
        then (if leb candidate low || leb high candidate
            then some (found low, s)
            else match_option o (some (aborted, s1))
                λ v. if v.loss_frames == 0 then upper else lower)
        else some (found low, s)

    -- `for _ in range(settings.confirmations)`
    unfoldable pub confirm : ℕ → ℕ → Run D W → Confirmation × Run D W
    confirm zero candidate s = (confirmed, s)
    confirm (suc left) candidate s =
        let (o, s1) = observe candidate settings.confirmation_seconds Phase.confirmation s in
        let rest = confirm left candidate s1 in
        match_option o (unobserved, s1) λ v. if v.loss_frames == 0 then rest else (refuted, s1)

    -- each `return FrameSearchResult(frame_size, throughput, valid, history)`
    unfoldable pub result : Option ℕ → Bool → Run D W → FrameSearchResult D × W
    result throughput valid s = (
      record {
        frame_size = t.frame_size;
        throughput = throughput;
        valid = valid;
        trials = s.history;
      },
      s.world,
    )

    -- what a candidate's confirmations lead to
    unfoldable pub conclude :
        ℕ
        → Confirmation × Run D W
        → (Run D W → Option (FrameSearchResult D × W))
        → Option (FrameSearchResult D × W)
    conclude candidate (unobserved, s) next = some (result none false s)
    conclude candidate (refuted, s) next = next s
    conclude candidate (confirmed, s) next = some (result (some candidate) true s)

    -- `while candidate > 0` and the return below it. A rate below 0 ends the loop as 0 does, so the
    -- subtraction may stop at 0.
    unfoldable pub descend : ℕ → ℕ → Run D W → Option (FrameSearchResult D × W)
    descend zero candidate s = none
    descend (suc fuel) candidate s =
        let next =
          conclude candidate (confirm settings.confirmations candidate s)
            (descend fuel (round_rate (candidate - settings.resolution) 1 settings.resolution)) in
        if candidate == 0 then some (result (some 0) true s) else next

    -- the part of `search_frame` behind the binary search
    unfoldable pub settle : ℕ → Bisection × Run D W → Option (FrameSearchResult D × W)
    settle fuel (aborted, s) = some (result none false s)
    settle fuel (found candidate, s) = descend fuel candidate s

    -- The fuel of both loops is one more than the ceiling.
    unfoldable pub search_frame : ℕ → W → Option (FrameSearchResult D × W)
    search_frame ceiling_percent w =
        let fuel = ceiling_percent + 1 in
        let start : Run D W = record { world = w; history = [] } in
        let (o, s) = observe ceiling_percent settings.trial_seconds Phase.search start in
        let direct = settle fuel (found ceiling_percent, s) in
        let searched = match_option (bisect fuel 0 ceiling_percent s) none (settle fuel) in
        match_option o (some (result none false s))
          λ v. if v.loss_frames == 0 then direct else searched
