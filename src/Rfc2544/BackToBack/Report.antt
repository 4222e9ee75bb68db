-- ===== src/Rfc2544/BackToBack/Report.antt =====
-- The end of `measure_back_to_back` (src/trex_cli/rfc2544.py): its statistics and its result.
-- `statistics.pstdev` is a parameter.
use trex_cli.Prelude.{
  ℕ, ◌+◌, ◌-◌, ◌*◌, Bool, ◌&&◌, Option, none, some, List, [], ◌∷◌, length, ltb, ◌==◌, if◌then◌else◌,
  match_option,
}
use trex_cli.Rfc2544.BackToBack.{
  BackToBackSettings, BackToBackResult, BurstTrials, Tally, Computed, statistics_error, computed,
  repeat_all,
}

unfoldable pub sum : List ℕ → ℕ
sum [] = 0
sum (x ∷ xs) = x + sum xs

-- `statistics.fmean`, which raises on an empty list, as a fraction
unfoldable pub fmean : List ℕ → Computed (ℕ × ℕ)
fmean [] = statistics_error
fmean (x ∷ xs) = computed (sum (x ∷ xs), length (x ∷ xs))

unfoldable pub present : Computed (ℕ × ℕ) → Computed (Option (ℕ × ℕ))
present statistics_error = statistics_error
present (computed average) = computed (some average)

-- `fmean(longest) if complete else None`
unfoldable pub average_of : Bool → List ℕ → Computed (Option (ℕ × ℕ))
average_of complete longest = if complete then present (fmean longest) else computed none

-- `min` and `max` of a list, which raise on an empty one
unfoldable pub min_of : List ℕ → Option ℕ
min_of [] = none
min_of (x ∷ []) = some x
min_of (x ∷ y ∷ ys) = elim (min_of (y ∷ ys)) [
  | none ↦ none
  | some m ↦ some (if ltb m x then m else x)
]

unfoldable pub max_of : List ℕ → Option ℕ
max_of [] = none
max_of (x ∷ []) = some x
max_of (x ∷ y ∷ ys) = elim (max_of (y ∷ ys)) [
  | none ↦ none
  | some m ↦ some (if ltb x m then m else x)
]

-- `theoretical_fps > 0 and 0 <= throughput_fps < theoretical_fps`
unfoldable pub prerequisites_valid : ℕ → ℕ → Bool
prerequisites_valid theoretical_fps throughput_fps =
    ltb 0 theoretical_fps && ltb throughput_fps theoretical_fps

-- average / theoretical_fps
unfoldable pub implied_seconds : ℕ → Option (ℕ × ℕ) → Option (ℕ × ℕ)
implied_seconds theoretical none = none
implied_seconds theoretical (some (num, den)) = some (num, den * theoretical)

-- implied * (1 - throughput_fps / theoretical_fps)
unfoldable pub corrected_seconds : ℕ → ℕ → Option (ℕ × ℕ) → Option (ℕ × ℕ)
corrected_seconds theoretical throughput none = none
corrected_seconds theoretical throughput (some (num, den)) =
    some (num * (theoretical - throughput), den * theoretical)

module _ {D W S : Type 0} (pstdev : List ℕ → S) (t : BurstTrials D W) where
  -- the result, once the average is known
  unfoldable pub fill :
      Bool → ℕ → ℕ → Tally D W → Computed (Option (ℕ × ℕ)) → Computed (BackToBackResult D S)
  fill complete theoretical throughput k statistics_error = statistics_error
  fill complete theoretical throughput k (computed average) =
      let implied = implied_seconds theoretical average in
      computed (record {
        frame_size = t.frame_size;
        valid = complete;
        longest_zero_loss_bursts = k.longest;
        average_frames = average;
        minimum_frames = if complete then min_of k.longest else none;
        maximum_frames = if complete then max_of k.longest else none;
        standard_deviation_frames = if complete then some (pstdev k.longest) else none;
        implied_buffer_seconds = implied;
        corrected_buffer_seconds = corrected_seconds theoretical throughput implied;
        searches = k.searches;
      })

  -- the end of `measure_back_to_back`
  unfoldable pub report : BackToBackSettings → ℕ → ℕ → Tally D W → Computed (BackToBackResult D S)
  report settings theoretical throughput k =
      let complete = k.all_valid && length k.longest == settings.repetitions in
      fill complete theoretical throughput k (average_of complete k.longest)

  unfoldable pub measure_back_to_back :
      BackToBackSettings → ℕ → ℕ → W → Option (Computed (BackToBackResult D S) × W)
  measure_back_to_back settings theoretical throughput w =
      let prerequisites = prerequisites_valid theoretical throughput in
      let start : Tally D W = record {
        world = w;
        searches = [];
        longest = [];
        all_valid = prerequisites;
      } in
      match_option (repeat_all t settings prerequisites settings.repetitions 1 start) none
        λ k. some (report settings theoretical throughput k, k.world)
