-- ===== src/Rfc2544/Search/Evidence.antt =====
-- What the recorded history says for the result of `search_frame`.
use trex_cli.Prelude.{
  ℕ, zero, suc, ◌+◌, ◌-◌, ◌≤◌, ◌<◌, ◌≡◌, refl, Bool, true, false, Option, none, some, List, [], ◌∷◌,
  arith, match_option, Ends,
}
use trex_cli.Rfc2544.{
  TrialObservation, TrialRecord, Phase, SearchSettings, FrameSearchResult, round_rate,
}
use trex_cli.Rfc2544.Search.Total.{search_frame-Done}
use trex_cli.Prelude.{Returns, Ends-Returns}
use trex_cli.Rfc2544.Search.{
  Run, Trials, Bisection, aborted, found, Confirmation, unobserved, refuted, confirmed, select,
  last_of, sample_count, sample_once, take_samples, observe, bisect, confirm, result, conclude,
  descend, settle, search_frame,
}
use trex_cli.Rfc2544.Search.History.{
  backing, last_valid, backing_of, Backs, sample_once-last_valid, sample_once-backing,
  sample_once-Backs,
}

module _ {D W : Type 0} (t : Trials D W) where
  -- With no valid observation among at least one sample, the last trial was not valid.
  take_samples-last_valid :
      (rate duration : ℕ) (p : Phase) (left n : ℕ) (s : Run D W)
      → 0 < left
      → (take_samples t rate duration p left n s).0 ≡ []
      → last_valid (take_samples t rate duration p left n s).1.history ≡ false
  unfolding take_samples
  take_samples-last_valid rate duration p zero n s l h = elim l [ ]
  take_samples-last_valid rate duration p (suc zero) n s l h =
      ground (arith, sample_once-last_valid t rate duration p n s)
  take_samples-last_valid rate duration p (suc (suc left)) n s l h = ground (
    arith,
    take_samples-last_valid rate duration p (suc left) (n + 1)
        (sample_once t rate duration p n s).1,
  )

  select-none : (p : Phase) (os : List (TrialObservation D)) → select p os ≡ none → os ≡ []
  unfolding select
  select-none p [] h = refl
  select-none Phase.search (o ∷ os) h = cc
  select-none Phase.confirmation (o ∷ os) h = cc
  select-none Phase.frame_loss (o ∷ os) h = cc

  module _ (settings : SearchSettings) (sampled : 0 < settings.search_samples) where
    sample_count_pos : (p : Phase) → 0 < sample_count settings p
    unfolding sample_count
    sample_count_pos Phase.search = sampled
    sample_count_pos Phase.confirmation = omega arith
    sample_count_pos Phase.frame_loss = omega arith

    observe-last_valid :
        (rate duration : ℕ) (p : Phase) (s : Run D W)
        → (observe t settings rate duration p s).0 ≡ none
        → last_valid (observe t settings rate duration p s).1.history ≡ false
    unfolding observe
    observe-last_valid rate duration p s h =
        take_samples-last_valid rate duration p (sample_count settings p) 0 s (sample_count_pos p)
          (select-none p _ h)

  module _ (rate duration : ℕ) where
    take_samples-backing :
        (r d : ℕ) (p : Phase) (left n : ℕ) (s : Run D W)
        → backing_of t rate duration s
          ≤ backing_of t rate duration (take_samples t r d p left n s).1
    unfolding take_samples
    take_samples-backing r d p zero n s = omega arith
    take_samples-backing r d p (suc left) n s = omega (
      arith,
      sample_once-backing t rate duration r d p n s,
      take_samples-backing r d p left (n + 1) (sample_once t r d p n s).1,
    )

    module _ (settings : SearchSettings) where
      observe-backing :
          (r d : ℕ) (p : Phase) (s : Run D W)
          → backing_of t rate duration s ≤ backing_of t rate duration (observe t settings r d p s).1
      unfolding observe
      observe-backing r d p s = take_samples-backing r d p (sample_count settings p) 0 s

      observe-Backs :
          (s : Run D W)
          → Backs t rate duration
              (observe t settings rate duration Phase.confirmation s).0
              (backing_of t rate duration s)
              (backing_of t rate duration (observe t settings rate duration Phase.confirmation s).1)
      unfolding observe sample_count take_samples select last_of
      observe-Backs s = ground (arith, sample_once-Backs t rate duration 0 s)

-- A throughput above 0 was confirmed as often as the settings ask; an invalid result has no
-- throughput, and follows a trial that was not valid.
abbrev pub EvidentFor :
    {D : Type 0} → SearchSettings → Option ℕ → Bool → List (TrialRecord D) → Type 0
EvidentFor settings none valid trials = (valid ≡ false) × (last_valid trials ≡ false)
EvidentFor settings (some rate) valid trials =
    (valid ≡ true)
    × (0 < rate → settings.confirmations ≤ backing rate settings.confirmation_seconds trials)

abbrev pub Evident : {D W : Type 0} → SearchSettings → FrameSearchResult D × W → Type 0
Evident settings (r, w) = EvidentFor settings r.throughput r.valid r.trials

module _ {D W : Type 0} (t : Trials D W) (settings : SearchSettings)
    (sampled : 0 < settings.search_samples) where
  abbrev Confirmed : ℕ → ℕ → ℕ → Confirmation × Run D W → Type 0
  Confirmed candidate left before (unobserved, s) = last_valid s.history ≡ false
  Confirmed candidate left before (refuted, s) = Unit
  Confirmed candidate left before (confirmed, s) =
      before + left ≤ backing_of t candidate settings.confirmation_seconds s

  confirm-Confirmed :
      (left candidate : ℕ) (s : Run D W)
      → Confirmed candidate left
          (backing_of t candidate settings.confirmation_seconds s)
          (confirm t settings left candidate s)
  unfolding confirm
  confirm-Confirmed zero candidate s = omega arith
  confirm-Confirmed (suc left) candidate s =
      let d = settings.confirmation_seconds in
      let s1 = (observe t settings candidate d Phase.confirmation s).1 in
      ground (
        arith,
        observe-Backs t candidate d settings s,
        observe-last_valid t settings sampled candidate d Phase.confirmation s,
        confirm-Confirmed left candidate s1,
      )

  descend-Evident :
      (fuel candidate : ℕ) (s : Run D W)
      → Ends (Evident settings) (descend t settings fuel candidate s)
  unfolding descend conclude result backing_of
  descend-Evident zero candidate s = tt
  descend-Evident (suc fuel) candidate s =
      let s1 = (confirm t settings settings.confirmations candidate s).1 in
      let next = round_rate (candidate - settings.resolution) 1 settings.resolution in
      ground
        (arith, confirm-Confirmed settings.confirmations candidate s, descend-Evident fuel next s1)

  abbrev Aborts : Option (Bisection × Run D W) → Type 0
  Aborts none = Unit
  Aborts (some (aborted, s)) = last_valid s.history ≡ false
  Aborts (some (found rate, s)) = Unit

  bisect-Aborts : (fuel low high : ℕ) (s : Run D W) → Aborts (bisect t settings fuel low high s)
  unfolding bisect
  bisect-Aborts zero low high s = tt
  bisect-Aborts (suc fuel) low high s =
      let candidate = round_rate (low + high) 2 settings.resolution in
      let s1 = (observe t settings candidate settings.trial_seconds Phase.search s).1 in
      ground (
        arith,
        observe-last_valid t settings sampled candidate settings.trial_seconds Phase.search s,
        bisect-Aborts fuel candidate high s1,
        bisect-Aborts fuel low candidate s1,
      )

  searched-Evident :
      (fuel : ℕ) (o : Option (Bisection × Run D W))
      → Aborts o
      → Ends (Evident settings) (match_option o none (settle t settings fuel))
  unfolding settle result
  searched-Evident fuel none a = tt
  searched-Evident fuel (some (aborted, s)) a = (refl, a)
  searched-Evident fuel (some (found rate, s)) a = descend-Evident fuel rate s

  search-Evident :
      (ceiling : ℕ) (w : W) → Ends (Evident settings) (search_frame t settings ceiling w)
  unfolding search_frame settle result
  search-Evident ceiling w =
      let start : Run D W = record { world = w; history = [] } in
      let s1 = (observe t settings ceiling settings.trial_seconds Phase.search start).1 in
      ground (
        arith,
        observe-last_valid t settings sampled ceiling settings.trial_seconds Phase.search start,
        descend-Evident (ceiling + 1) ceiling s1,
        searched-Evident (ceiling + 1) (bisect t settings (ceiling + 1) 0 ceiling s1)
            (bisect-Aborts (ceiling + 1) 0 ceiling s1),
      )

-- With at least one search sample and a positive resolution, for any trial function, the search
-- returns a result. If it has a throughput it is valid, and a throughput above 0 stands in the
-- records with at least as many valid confirmation trials without loss as the settings ask. If it
-- has none it is not valid, and the last record is of a trial that was not valid.
pub search_frame-Evident :
    {D W : Type 0} (t : Trials D W) (settings : SearchSettings) (ceiling : ℕ) (w : W)
    → 0 < settings.search_samples
    → 0 < settings.resolution
    → Returns (Evident settings) (search_frame t settings ceiling w)
search_frame-Evident t settings ceiling w sampled r =
    Ends-Returns _ (search_frame t settings ceiling w) (search_frame-Done t settings ceiling w r)
      (search-Evident t settings sampled ceiling w)
