-- ===== src/Rfc2544/BackToBack.antt =====
-- `measure_back_to_back` (src/trex_cli/rfc2544.py): for each repetition, a binary search for the
-- longest burst that a device forwards without loss, and one more trial of that burst.
-- Frame rates are natural numbers of one unit, and a computed float is a fraction, a pair of a
-- numerator and a denominator.
pub mod Report
pub mod Safety
pub mod Entries
pub mod Outcome
pub mod Capacity
use trex_cli.Prelude.{
  ℕ, zero, suc, ◌+◌, ◌-◌, ◌*◌, ◌/◌, ◌%◌, ◌^◌, ◌≤◌, ◌<◌, ◌≡◌, refl, sym, ap, ◌∙◌, ◌↔◌, ◌⊎◌, inl, inr,
  Bool, true, false, ◌&&◌, ◌||◌, not, Option, none, some, List, [], ◌∷◌, ◌++◌, map, arith, length,
  All, Member, ltb, leb, ◌==◌, if◌then◌else◌, Bool-cases, Option-cases, lower_char, every, split,
  join, concat, prepend, to_bytes, from_bytes, All-append, Returns, Returns-bind, length-append,
  match_option, ◌≢◌,
}

pub record BurstObservation (D : Type 0) : Type 0 where
  pub valid : Bool
  pub tx_frames : ℕ
  pub rx_frames : ℕ
  pub details : D

pub record BackToBackSettings : Type 0 where
  pub repetitions : ℕ
  pub minimum_step_frames : ℕ
  pub maximum_burst_frames : ℕ

pub data BurstPhase : Type 0 where
  upper_bound binary_search loss_verification : BurstPhase

pub record BurstRecord (D : Type 0) : Type 0 where
  pub phase : BurstPhase
  pub burst_frames : ℕ
  pub valid : Bool
  pub tx_frames : ℕ
  pub rx_frames : ℕ
  pub loss_frames : ℕ
  pub details : D

-- `_burst_record`; `max(tx - rx, 0)` is the subtraction that stops at 0
unfoldable pub burst_record : {D : Type 0} → ℕ → BurstPhase → BurstObservation D → BurstRecord D
burst_record burst_frames phase o = record {
  phase = phase;
  burst_frames = burst_frames;
  valid = o.valid;
  tx_frames = o.tx_frames;
  rx_frames = o.rx_frames;
  loss_frames = o.tx_frames - o.rx_frames;
  details = o.details;
}

-- One entry of `searches`. `verification` is none where the source's entry has no such key.
pub record BurstSearch (D : Type 0) : Type 0 where
  pub repetition : ℕ
  pub valid : Bool
  pub longest : Option ℕ
  pub trials : List (BurstRecord D)
  pub verification : Option (BurstRecord D)

pub record BackToBackResult (D : Type 0) (S : Type 0) : Type 0 where
  pub frame_size : ℕ
  pub valid : Bool
  pub longest_zero_loss_bursts : List ℕ
  pub average_frames : Option (ℕ × ℕ)
  pub minimum_frames : Option ℕ
  pub maximum_frames : Option ℕ
  pub standard_deviation_frames : Option S
  pub implied_buffer_seconds : Option (ℕ × ℕ)
  pub corrected_buffer_seconds : Option (ℕ × ℕ)
  pub searches : List (BurstSearch D)

-- A value, or the `StatisticsError` that the caller gets instead.
pub data Computed (A : Type 0) : Type 0 where
  statistics_error : Computed A
  computed : A → Computed A

-- The caller gets a value with this property.
abbrev pub Gives : {A : Type 0} → (A → Type 0) → Computed A → Type 0
Gives Q statistics_error = ⊥
Gives Q (computed a) = Q a

-- What one repetition changes: the caller's world, and its trials.
pub record BurstRun (D : Type 0) (W : Type 0) : Type 0 where
  pub world : W
  pub trials : List (BurstRecord D)

pub record BurstTrials (D : Type 0) (W : Type 0) : Type 0 where
  pub frame_size : ℕ
  pub trial : ℕ → ℕ → W → BurstObservation D × W

-- The loop variables of `measure_back_to_back`.
pub record Tally (D : Type 0) (W : Type 0) : Type 0 where
  pub world : W
  pub searches : List (BurstSearch D)
  pub longest : List ℕ
  pub all_valid : Bool

-- How the binary search ends: with an invalid trial, or by its test, at `low`.
pub data Ended : Type 0 where
  broken : ℕ → Ended
  narrowed : ℕ → Ended

-- the next burst to try
unfoldable pub candidate_burst : ℕ → ℕ → ℕ → ℕ
candidate_burst low high step =
    let candidate = (low + high) / (2 * step) * step in
    if leb candidate low then low + step else candidate

module _ {D W : Type 0} (t : BurstTrials D W) where
  unfoldable pub perform : ℕ → BurstPhase → BurstRun D W → BurstObservation D × BurstRun D W
  perform burst phase s =
      let (o, w) = t.trial t.frame_size burst s.world in
      (o, record { world = w; trials = s.trials ++ burst_record burst phase o ∷ [] })

  -- `while high - low > step`; `none` means that the fuel ran out
  unfoldable pub narrow : ℕ → ℕ → ℕ → ℕ → BurstRun D W → Option (Ended × BurstRun D W)
  narrow zero step low high s = none
  narrow (suc fuel) step low high s =
      let candidate = candidate_burst low high step in
      let (o, s1) = perform candidate BurstPhase.binary_search s in
      let upper = narrow fuel step candidate high s1 in
      let lower = narrow fuel step low candidate s1 in
      if ltb step (high - low)
      then (if o.valid
          then (if o.rx_frames == o.tx_frames then upper else lower)
          else some (broken low, s1))
      else some (narrowed low, s)

  -- a repetition that fails: `all_repetitions_valid = False` and an entry that is not valid
  unfoldable pub give_up : ℕ → Tally D W → BurstRun D W → Tally D W
  give_up repetition k s = record {
    world = s.world;
    searches =
        k.searches
        ++ record {
          repetition = repetition;
          valid = false;
          longest = none;
          trials = s.trials;
          verification = none;
        }
          ∷ [];
    longest = k.longest;
    all_valid = false;
  }

  -- the verification of the burst `low`, and the entry of the repetition
  unfoldable pub verify : ℕ → ℕ → Tally D W → BurstRun D W → Tally D W
  verify repetition low k s =
      let (o, w) = t.trial t.frame_size low s.world in
      let verified = o.valid && o.rx_frames == o.tx_frames in
      record {
        world = w;
        searches =
            k.searches
            ++ record {
              repetition = repetition;
              valid = verified;
              longest = if verified then some low else none;
              trials = s.trials;
              verification = some (burst_record low BurstPhase.loss_verification o);
            }
              ∷ [];
        longest = if verified then k.longest ++ low ∷ [] else k.longest;
        all_valid = k.all_valid && verified;
      }

  -- what follows the binary search
  unfoldable pub settle : Bool → ℕ → Tally D W → Option (Ended × BurstRun D W) → Option (Tally D W)
  settle prerequisites repetition k none = none
  settle prerequisites repetition k (some (broken low, s)) = some (give_up repetition k s)
  settle prerequisites repetition k (some (narrowed low, s)) =
      if not prerequisites || low == 0
      then some (give_up repetition k s)
      else some (verify repetition low k s)

  module _ (settings : BackToBackSettings) (prerequisites : Bool) where
    -- one round of `for repetition in range(1, settings.repetitions + 1)`; the fuel of the binary
    -- search is one more than the longest burst
    unfoldable pub repeat_once : ℕ → Tally D W → Option (Tally D W)
    repeat_once repetition k =
        let limit = settings.maximum_burst_frames in
        let start : BurstRun D W = record { world = k.world; trials = [] } in
        let (o, s) = perform limit BurstPhase.upper_bound start in
        if not o.valid || leb o.tx_frames o.rx_frames
        then some (give_up repetition k s)
        else settle prerequisites repetition k
            (narrow (limit + 1) settings.minimum_step_frames 0 limit s)

    unfoldable pub repeat_all : ℕ → ℕ → Tally D W → Option (Tally D W)
    repeat_all zero repetition k = some k
    repeat_all (suc left) repetition k =
        match_option (repeat_once repetition k) none (repeat_all left (repetition + 1))
