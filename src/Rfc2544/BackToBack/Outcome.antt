-- ===== src/Rfc2544/BackToBack/Outcome.antt =====
-- The entries of `searches` justify the result of `measure_back_to_back` (src/trex_cli/rfc2544.py).
use trex_cli.Prelude.{
  ℕ, zero, suc, ◌+◌, ◌<◌, ◌≡◌, refl, ◌⊎◌, inl, inr, Bool, true, false, ◌&&◌, Option, none, some,
  List, [], ◌∷◌, arith, length, ◌==◌, Bool-cases, Returns, Returns-bind,
}
use trex_cli.Rfc2544.BackToBack.{
  BackToBackSettings, BackToBackResult, BurstPhase, BurstRun, BurstTrials, Tally, perform, narrow,
  repeat_once, repeat_all, Computed, statistics_error, computed, BurstSearch,
}
use trex_cli.Rfc2544.BackToBack.Report.{
  prerequisites_valid, report, measure_back_to_back, fill, average_of, present, fmean, sum,
}
use trex_cli.Rfc2544.BackToBack.Safety.{BurstsBelow, perform-BurstsBelow, narrow-EndBelow}
use trex_cli.Rfc2544.BackToBack.Entries.{
  Justified, EntriesOk, all_ok, collect, give_up-Justified, length-collect, settle-Justified,
}

-- The result, read off its own entries.
pub record Judged {D S : Type 0} (settings : BackToBackSettings) (prerequisites : Bool)
    (r : BackToBackResult D S) : Type 0 where
  pub verdict : r.valid ≡ (prerequisites && all_ok r.searches)
  pub bursts : r.longest_zero_loss_bursts ≡ collect r.searches
  pub entries : EntriesOk settings.maximum_burst_frames r.searches
  pub repetitions : length r.searches ≡ settings.repetitions

-- A StatisticsError comes exactly when the frame rates fit and there is no repetition.
abbrev pub MeasuredAs :
    {D S : Type 0} → BackToBackSettings → Bool → Computed (BackToBackResult D S) → Type 0
MeasuredAs settings prerequisites statistics_error =
    (settings.repetitions ≡ 0) × (prerequisites ≡ true)
MeasuredAs settings prerequisites (computed r) =
    Judged settings prerequisites r × ((prerequisites ≡ false) ⊎ (0 < settings.repetitions))

-- The average is missing when the result is not valid, and an error when it is valid and empty.
data AverageOf (complete : Bool) (longest : List ℕ) : Computed (Option (ℕ × ℕ)) → Type 0 where
  failed : complete ≡ true → length longest ≡ 0 → AverageOf complete longest statistics_error
  given :
      (average : Option (ℕ × ℕ))
      → (complete ≡ false) ⊎ (0 < length longest)
      → AverageOf complete longest (computed average)

average_of-cases :
    (complete : Bool) (longest : List ℕ) → AverageOf complete longest (average_of complete longest)
unfolding average_of present fmean
average_of-cases false longest = given none (inl refl)
average_of-cases true [] = failed refl refl
average_of-cases true (b ∷ bs) = given (some (sum (b ∷ bs), length (b ∷ bs))) (inr (omega arith))

all_ok-false :
    {D : Type 0} (searches : List (BurstSearch D)) → all_ok searches ≡ false → 0 < length searches
unfolding all_ok
all_ok-false [] h = absurd (cc h)
all_ok-false (e ∷ es) h = omega arith

module _ {D W : Type 0} (t : BurstTrials D W) (settings : BackToBackSettings)
    (p : 0 < settings.minimum_step_frames) where
  abbrev pub TallyOk : Bool → ℕ → Tally D W → Type 0
  TallyOk = Justified t settings.maximum_burst_frames

  repeat_once-Justified :
      (prerequisites : Bool) (done repetition : ℕ) (k : Tally D W)
      → TallyOk prerequisites done k
      → Returns
          (TallyOk prerequisites (suc done))
          (repeat_once t settings prerequisites repetition k)
  unfolding repeat_once
  repeat_once-Justified prerequisites done repetition k h =
      let c = settings.maximum_burst_frames in
      let start : BurstRun D W = record { world = k.world; trials = [] } in
      let s = (perform t c BurstPhase.upper_bound start).1 in
      let below =
        perform-BurstsBelow t c c BurstPhase.upper_bound start (omega arith)
          (unfold BurstsBelow in tt) in
      let ended =
        narrow-EndBelow t c (c + 1) settings.minimum_step_frames 0 c s p (omega arith) (omega arith)
          (omega arith) below in
      ground (
        arith,
        give_up-Justified t c prerequisites done repetition k s h below,
        settle-Justified t c prerequisites done repetition k
            (narrow t (c + 1) settings.minimum_step_frames 0 c s) h ended,
      )

  repeat_all-Justified :
      (prerequisites : Bool) (left done repetition total : ℕ) (k : Tally D W)
      → done + left ≡ total
      → TallyOk prerequisites done k
      → Returns
          (TallyOk prerequisites total)
          (repeat_all t settings prerequisites left repetition k)
  unfolding repeat_all
  repeat_all-Justified prerequisites zero done repetition total k e h =
      let all : done ≡ total = omega arith in rw (← all) h
  repeat_all-Justified prerequisites (suc left) done repetition total k e h =
      Returns-bind (TallyOk prerequisites (suc done)) _
        (repeat_once t settings prerequisites repetition k) _
        (repeat_once-Justified prerequisites done repetition k h)
        λ k' h'.
          repeat_all-Justified prerequisites left (suc done) (repetition + 1) total k' (omega arith)
            h'

  start-Justified :
      (prerequisites : Bool) (w : W)
      → TallyOk prerequisites 0
          (record { world = w; searches = []; longest = []; all_valid = prerequisites })
  unfolding EntriesOk collect all_ok
  start-Justified prerequisites w = record {
    entries = tt;
    collected = refl;
    valid = ground arith;
    counted = refl;
  }

  some_round :
      (prerequisites complete : Bool) (k : Tally D W)
      → TallyOk prerequisites settings.repetitions k
      → complete ≡ (prerequisites && all_ok k.searches)
      → (complete ≡ true → length k.longest ≡ settings.repetitions)
      → (complete ≡ false) ⊎ (0 < length k.longest)
      → (prerequisites ≡ false) ⊎ (0 < settings.repetitions)
  some_round false complete k h verdict all why = inl refl
  some_round true complete k h verdict all why = elim (Bool-cases (all_ok k.searches)) [
    | inr bad ↦ inr (omega (arith, all_ok-false k.searches bad, h.counted))
    | inl ok ↦ elim why [
      | inl e ↦ absurd (ground (arith, verdict, e, ok))
      | inr l ↦ inr (omega (arith, all (ground (arith, verdict, ok)), l))
    ]
  ]

  verdict_of :
      (prerequisites : Bool) (k : Tally D W)
      → TallyOk prerequisites settings.repetitions k
      → (k.all_valid && length k.longest == settings.repetitions)
        ≡ (prerequisites && all_ok k.searches)
  verdict_of prerequisites k h = elim (Bool-cases (all_ok k.searches)) [
    | inl ok ↦
        let e : length k.longest ≡ length k.searches =
          rw h.collected (length-collect settings.maximum_burst_frames k.searches h.entries ok) in
        ground (arith, h.valid, h.counted)
    | inr bad ↦ ground (arith, h.valid)
  ]

  fill-MeasuredAs :
      {S : Type 0} (pstdev : List ℕ → S) (theoretical throughput : ℕ)
      (prerequisites complete : Bool) (k : Tally D W)
      → TallyOk prerequisites settings.repetitions k
      → complete ≡ (prerequisites && all_ok k.searches)
      → (complete ≡ true → length k.longest ≡ settings.repetitions)
      → (o : Computed (Option (ℕ × ℕ))) → AverageOf complete k.longest o
      → MeasuredAs settings prerequisites (fill pstdev t complete theoretical throughput k o)
  unfolding fill
  fill-MeasuredAs pstdev theoretical throughput prerequisites complete k h verdict all o
        (failed e z) =
      (omega (arith, all e, z), ground (arith, e, verdict))
  fill-MeasuredAs pstdev theoretical throughput prerequisites complete k h verdict all o
        (given average why) =
      (
        record {
          verdict = verdict;
          bursts = h.collected;
          entries = h.entries;
          repetitions = h.counted;
        },
        some_round prerequisites complete k h verdict all why,
      )

  report-MeasuredAs :
      {S : Type 0} (pstdev : List ℕ → S) (theoretical throughput : ℕ) (prerequisites : Bool)
      (k : Tally D W)
      → TallyOk prerequisites settings.repetitions k
      → MeasuredAs settings prerequisites (report pstdev t settings theoretical throughput k)
  unfolding report
  report-MeasuredAs pstdev theoretical throughput prerequisites k h =
      let complete = k.all_valid && length k.longest == settings.repetitions in
      fill-MeasuredAs pstdev theoretical throughput prerequisites complete k h
        (verdict_of prerequisites k h) (λ (e : complete ≡ true). ground (arith, e))
        (average_of complete k.longest) (average_of-cases complete k.longest)

  -- With a positive step, for any trial function, the measurement ends. It raises StatisticsError
  -- only if the frame rates fit and there are no repetitions, and otherwise it returns a result; it
  -- returns one only if they do not fit or there is a repetition. The result has one entry for each
  -- repetition, and each entry's bursts are at most the configured maximum. An entry
  -- is valid exactly when it names a burst, and then that burst has at least one frame and its
  -- verification trial was valid and lost nothing. The bursts of the result are those of its
  -- entries, and it is valid exactly when the frame rates fit and all entries are valid.
  pub measure_back_to_back-Judged :
      {S : Type 0} (pstdev : List ℕ → S) (theoretical throughput : ℕ) (w : W)
      → Returns
          (λ r. MeasuredAs settings (prerequisites_valid theoretical throughput) r.0)
          (measure_back_to_back pstdev t settings theoretical throughput w)
  unfolding measure_back_to_back
  measure_back_to_back-Judged pstdev theoretical throughput w =
      let prerequisites = prerequisites_valid theoretical throughput in
      let start : Tally D W = record {
        world = w;
        searches = [];
        longest = [];
        all_valid = prerequisites;
      } in
      Returns-bind (TallyOk prerequisites settings.repetitions) _
        (repeat_all t settings prerequisites settings.repetitions 1 start) _
        (repeat_all-Justified prerequisites settings.repetitions 0 1 settings.repetitions start
          (omega arith) (start-Justified prerequisites w))
        λ k h. report-MeasuredAs pstdev theoretical throughput prerequisites k h
