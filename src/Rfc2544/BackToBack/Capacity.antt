-- ===== src/Rfc2544/BackToBack/Capacity.antt =====
-- `measure_back_to_back` against a device that forwards bursts up to a capacity without loss.
use trex_cli.Prelude.{
  ℕ, zero, suc, ◌+◌, ◌-◌, ◌≤◌, ◌<◌, ◌≡◌, refl, true, ◌&&◌, Option, none, some, List, [], ◌∷◌, arith,
  length, All, leb, ◌==◌, All-append, Returns, Returns-bind, length-append,
}
use trex_cli.Rfc2544.BackToBack.{
  BackToBackSettings, BackToBackResult, BurstPhase, BurstRun, BurstTrials, Tally, Ended, broken,
  narrowed, candidate_burst, perform, narrow, verify, settle, repeat_once, repeat_all, computed,
  Gives,
}
use trex_cli.Rfc2544.BackToBack.Report.{
  prerequisites_valid, report, measure_back_to_back, fill, average_of, present, fmean, sum,
}
use trex_cli.Rfc2544.BackToBack.Safety.{candidate_burst_between}

-- Every trial is valid, receives no more than it sends, and as much exactly up to the capacity.
pub record Forwards {D W : Type 0} (t : BurstTrials D W) (capacity : ℕ) : Type 0 where
  pub valid : (size burst : ℕ) (w : W) → (t.trial size burst w).0.valid ≡ true
  pub received :
      (size burst : ℕ) (w : W)
      → (t.trial size burst w).0.rx_frames ≤ (t.trial size burst w).0.tx_frames
  pub lossless_iff :
      (size burst : ℕ) (w : W)
      → ((t.trial size burst w).0.rx_frames == (t.trial size burst w).0.tx_frames)
        ≡ leb burst capacity

prerequisites_hold :
    (theoretical throughput : ℕ)
    → throughput < theoretical
    → prerequisites_valid theoretical throughput ≡ true
unfolding prerequisites_valid
prerequisites_hold theoretical throughput h = ground arith

abbrev pub NearCapacity : ℕ → ℕ → ℕ → Type 0
NearCapacity capacity step b = (b ≤ capacity) × (capacity < b + step)

abbrev pub FindsCapacity : {D S : Type 0} → ℕ → BackToBackSettings → BackToBackResult D S → Type 0
FindsCapacity capacity settings r =
    (r.valid ≡ true)
    × (length r.longest_zero_loss_bursts ≡ settings.repetitions)
    × All (NearCapacity capacity settings.minimum_step_frames) r.longest_zero_loss_bursts

average_of-some :
    (bursts : List ℕ)
    → 0 < length bursts
    → average_of true bursts ≡ computed (some (sum bursts, length bursts))
unfolding average_of present fmean
average_of-some [] h = elim h [ ]
average_of-some (b ∷ bs) h = refl

module _ {D W : Type 0} (t : BurstTrials D W) (capacity : ℕ) (ideal : Forwards t capacity)
    (settings : BackToBackSettings) (p : 0 < settings.minimum_step_frames)
    (wide : settings.minimum_step_frames ≤ capacity)
    (high_enough : capacity < settings.maximum_burst_frames) where
  abbrev Near : ℕ → Type 0
  Near = NearCapacity capacity settings.minimum_step_frames

  abbrev Narrowed : Option (Ended × BurstRun D W) → Type 0
  Narrowed none = ⊥
  Narrowed (some (broken low, s)) = ⊥
  Narrowed (some (narrowed low, s)) = Near low

  narrow-Narrowed :
      (fuel low high : ℕ) (s : BurstRun D W)
      → high - low < fuel
      → low ≤ capacity
      → capacity < high
      → Narrowed (narrow t fuel settings.minimum_step_frames low high s)
  unfolding narrow perform
  narrow-Narrowed zero low high s lt l h = elim lt [ ]
  narrow-Narrowed (suc fuel) low high s lt l h =
      let step = settings.minimum_step_frames in
      let candidate = candidate_burst low high step in
      let s1 = (perform t candidate BurstPhase.binary_search s).1 in
      ground (
        arith,
        candidate_burst_between low high step p,
        ideal.valid t.frame_size candidate s.world,
        ideal.lossless_iff t.frame_size candidate s.world,
        narrow-Narrowed fuel candidate high s1,
        narrow-Narrowed fuel low candidate s1,
      )

  -- all repetitions so far found a burst near the capacity
  record Steady (done : ℕ) (k : Tally D W) : Type 0 where
    pub near : All Near k.longest
    pub counted : length k.longest ≡ done
    pub valid : k.all_valid ≡ true

  verify-Steady :
      (done repetition low : ℕ) (k : Tally D W) (s : BurstRun D W)
      → Steady done k
      → Near low
      → Steady (suc done) (verify t repetition low k s)
  unfolding verify
  verify-Steady done repetition low k s h n =
      let ok : ((t.trial t.frame_size low s.world).0.valid
            && (t.trial t.frame_size low s.world).0.rx_frames
              == (t.trial t.frame_size low s.world).0.tx_frames)
          ≡ true =
        ground (
          arith,
          ideal.valid t.frame_size low s.world,
          ideal.lossless_iff t.frame_size low s.world,
        ) in
      record {
        near = rw ok (All-append Near k.longest (low ∷ []) h.near (n, tt));
        counted = rw ok (omega (arith, length-append k.longest (low ∷ []), h.counted));
        valid = rw (h.valid, ok);
      }

  settle-Steady :
      (done repetition : ℕ) (k : Tally D W) (o : Option (Ended × BurstRun D W))
      → Steady done k
      → Narrowed o
      → Returns (Steady (suc done)) (settle t true repetition k o)
  unfolding settle
  settle-Steady done repetition k none h n = n
  settle-Steady done repetition k (some (broken low, s)) h n = absurd n
  settle-Steady done repetition k (some (narrowed low, s)) h n =
      ground (arith, verify-Steady done repetition low k s h n)

  repeat_once-Steady :
      (done repetition : ℕ) (k : Tally D W)
      → Steady done k
      → Returns (Steady (suc done)) (repeat_once t settings true repetition k)
  unfolding repeat_once perform
  repeat_once-Steady done repetition k h =
      let c = settings.maximum_burst_frames in
      let start : BurstRun D W = record { world = k.world; trials = [] } in
      let s = (perform t c BurstPhase.upper_bound start).1 in
      let o = narrow t (c + 1) settings.minimum_step_frames 0 c s in
      ground (
        arith,
        ideal.valid t.frame_size c k.world,
        ideal.received t.frame_size c k.world,
        ideal.lossless_iff t.frame_size c k.world,
        settle-Steady done repetition k o h
            (narrow-Narrowed (c + 1) 0 c s (omega arith) (omega arith) high_enough),
      )

  repeat_all-Steady :
      (left done repetition total : ℕ) (k : Tally D W)
      → done + left ≡ total
      → Steady done k
      → Returns (Steady total) (repeat_all t settings true left repetition k)
  unfolding repeat_all
  repeat_all-Steady zero done repetition total k e h =
      let all : done ≡ total = omega arith in rw (← all) h
  repeat_all-Steady (suc left) done repetition total k e h =
      Returns-bind (Steady (suc done)) _ (repeat_once t settings true repetition k) _
        (repeat_once-Steady done repetition k h)
        λ k' h'. repeat_all-Steady left (suc done) (repetition + 1) total k' (omega arith) h'

  -- the end of the measurement, with at least one burst
  report-FindsCapacity :
      {S : Type 0} (pstdev : List ℕ → S) (theoretical throughput : ℕ) (k : Tally D W)
      → 0 < settings.repetitions
      → Steady settings.repetitions k
      → Gives (FindsCapacity capacity settings) (report pstdev t settings theoretical throughput k)
  unfolding report fill
  report-FindsCapacity pstdev theoretical throughput k some_round h =
      let complete : (k.all_valid && length k.longest == settings.repetitions) ≡ true =
        ground (arith, h.valid, h.counted) in
      let bursts : 0 < length k.longest = omega (arith, h.counted, some_round) in
      rw (complete, average_of-some k.longest bursts) (refl, h.counted, h.near)

  -- Against a device whose trials are all valid, receive no more than they send, and receive as much
  -- exactly for bursts up to a capacity, where the step and the number of repetitions are positive,
  -- the capacity is at least the step and less than the longest burst, and the frame rates fit: the
  -- measurement returns a result and raises no error, and the result is valid and has a burst for
  -- each repetition, at most the capacity and less than one step below it.
  pub measure_back_to_back-FindsCapacity :
      {S : Type 0} (pstdev : List ℕ → S) (theoretical throughput : ℕ) (w : W)
      → throughput < theoretical
      → 0 < settings.repetitions
      → Returns
          (λ r. Gives (FindsCapacity capacity settings) r.0)
          (measure_back_to_back pstdev t settings theoretical throughput w)
  unfolding measure_back_to_back
  measure_back_to_back-FindsCapacity pstdev theoretical throughput w fits some_round =
      let start : Tally D W = record { world = w; searches = []; longest = []; all_valid = true } in
      rw (prerequisites_hold theoretical throughput fits) (
        Returns-bind (Steady settings.repetitions) _
          (repeat_all t settings true settings.repetitions 1 start) _
          (repeat_all-Steady settings.repetitions 0 1 settings.repetitions start (omega arith)
            (record { near = tt; counted = refl; valid = refl }))
          λ k h. report-FindsCapacity pstdev theoretical throughput k some_round h)
