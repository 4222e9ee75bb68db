-- ===== src/Rfc2544/Search/Capacity.antt =====
-- What `observe` returns from a device that loses frames exactly above a capacity.
use trex_cli.Prelude.{
  ℕ, zero, suc, ◌+◌, ◌<◌, ◌≡◌, true, Option, none, some, List, [], ◌∷◌, leb, ◌==◌, arith, All,
  match_option,
}
use trex_cli.Rfc2544.{TrialObservation, Phase, SearchSettings}
use trex_cli.Rfc2544.Search.{
  Run, Trials, first_lossless, last_of, select, sample_count, perform, sample_once, take_samples,
  observe,
}

-- Every trial is valid, and loses frames exactly above the capacity.
pub record HasCapacity {D W : Type 0} (t : Trials D W) (capacity : ℕ) : Type 0 where
  pub valid : (size rate duration : ℕ) (w : W) → (t.trial size rate duration w).0.valid ≡ true
  pub lossless_iff :
      (size rate duration : ℕ) (w : W)
      → ((t.trial size rate duration w).0.loss_frames == 0) ≡ leb rate capacity

module _ {D W : Type 0} (t : Trials D W) (capacity : ℕ) (ideal : HasCapacity t capacity) where
  abbrev pub Tells : ℕ → TrialObservation D → Type 0
  Tells rate o = (o.loss_frames == 0) ≡ leb rate capacity

  abbrev pub Answers : ℕ → Option (TrialObservation D) → Type 0
  Answers rate none = ⊥
  Answers rate (some o) = Tells rate o

  abbrev AllTell : ℕ → List (TrialObservation D) → Type 0
  AllTell rate [] = ⊥
  AllTell rate (o ∷ os) = Tells rate o × All (Tells rate) os

  sample_once-Answers :
      (rate duration : ℕ) (p : Phase) (n : ℕ) (s : Run D W)
      → Answers rate (sample_once t rate duration p n s).0
  unfolding sample_once perform
  sample_once-Answers rate duration p n s = ground (
    arith,
    ideal.valid t.frame_size rate duration s.world,
    ideal.lossless_iff t.frame_size rate duration s.world,
  )

  keep_answer :
      (rate : ℕ) (o : Option (TrialObservation D)) (os : List (TrialObservation D))
      → Answers rate o
      → All (Tells rate) os
      → AllTell rate (match_option o os (λ v. v ∷ os))
  keep_answer rate none os a h = absurd a
  keep_answer rate (some v) os a h = (a, h)

  weaken : (rate : ℕ) (os : List (TrialObservation D)) → AllTell rate os → All (Tells rate) os
  weaken rate [] h = absurd h
  weaken rate (o ∷ os) h = h

  take_samples-Tells :
      (rate duration : ℕ) (p : Phase) (left n : ℕ) (s : Run D W)
      → All (Tells rate) (take_samples t rate duration p left n s).0
  unfolding take_samples
  take_samples-Tells rate duration p zero n s = tt
  take_samples-Tells rate duration p (suc left) n s =
      let (o, s1) = sample_once t rate duration p n s in
      weaken rate _ (
        keep_answer rate o (take_samples t rate duration p left (n + 1) s1).0
          (sample_once-Answers rate duration p n s)
          (take_samples-Tells rate duration p left (n + 1) s1))

  take_samples-AllTell :
      (rate duration : ℕ) (p : Phase) (left n : ℕ) (s : Run D W)
      → 0 < left
      → AllTell rate (take_samples t rate duration p left n s).0
  unfolding take_samples
  take_samples-AllTell rate duration p zero n s h = absurd (omega arith)
  take_samples-AllTell rate duration p (suc left) n s h =
      let (o, s1) = sample_once t rate duration p n s in
      keep_answer rate o (take_samples t rate duration p left (n + 1) s1).0
        (sample_once-Answers rate duration p n s)
        (take_samples-Tells rate duration p left (n + 1) s1)

  last_of-Tells :
      (rate : ℕ) (o : TrialObservation D) (os : List (TrialObservation D))
      → Tells rate o
      → All (Tells rate) os
      → Tells rate (last_of o os)
  unfolding last_of
  last_of-Tells rate o [] a h = a
  last_of-Tells rate o (p ∷ ps) a h = last_of-Tells rate p ps h.0 h.1

  first_lossless-Tells :
      (rate : ℕ) (o : TrialObservation D) (os : List (TrialObservation D))
      → Tells rate o
      → All (Tells rate) os
      → Tells rate (first_lossless o os)
  unfolding first_lossless
  first_lossless-Tells rate o [] a h = a
  first_lossless-Tells rate o (p ∷ ps) a h =
      ground (arith, first_lossless-Tells rate o ps a h.1, h.0)

  select-Answers :
      (rate : ℕ) (p : Phase) (os : List (TrialObservation D))
      → AllTell rate os
      → Answers rate (select p os)
  unfolding select
  select-Answers rate p [] h = absurd h
  select-Answers rate Phase.search (o ∷ os) h =
      first_lossless-Tells rate (last_of o os) (o ∷ os) (last_of-Tells rate o os h.0 h.1) h
  select-Answers rate Phase.confirmation (o ∷ os) h = last_of-Tells rate o os h.0 h.1
  select-Answers rate Phase.frame_loss (o ∷ os) h = last_of-Tells rate o os h.0 h.1

  module _ (settings : SearchSettings) (sampled : 0 < settings.search_samples) where
    sample_count_pos : (p : Phase) → 0 < sample_count settings p
    unfolding sample_count
    sample_count_pos Phase.search = sampled
    sample_count_pos Phase.confirmation = omega arith
    sample_count_pos Phase.frame_loss = omega arith

    pub observe-Answers :
        (rate duration : ℕ) (p : Phase) (s : Run D W)
        → Answers rate (observe t settings rate duration p s).0
    unfolding observe
    observe-Answers rate duration p s =
        select-Answers rate p _
          (take_samples-AllTell rate duration p (sample_count settings p) 0 s (sample_count_pos p))
