-- ===== src/Rfc2544/Search/Safety.antt =====
-- No trial of `search_frame` runs above the ceiling.
use trex_cli.Prelude.{
  ℕ, zero, suc, ◌+◌, ◌-◌, ◌≤◌, ◌<◌, true, false, Option, none, some, List, [], arith, All,
  All-append, Ends, match_option,
}
use trex_cli.Rfc2544.{
  TrialRecord, trial_record, Phase, PhaseName, SearchSettings, FrameSearchResult, round_rate,
}
use trex_cli.Rfc2544.Rounding.{round_rate-sub-lt}
use trex_cli.Rfc2544.Search.Total.{search_frame-Done}
use trex_cli.Prelude.{Returns, Ends-Returns}
use trex_cli.Rfc2544.Search.{
  Run, Trials, Bisection, aborted, found, perform, sample_count, sample_once, take_samples, observe,
  bisect, confirm, result, conclude, descend, settle, search_frame,
}

-- Every trial of the list ran at the ceiling or below.
pub RatesBelow : {D : Type 0} → ℕ → List (TrialRecord D) → Type 0
RatesBelow {D} c trials = All (λ (r : TrialRecord D). r.rate ≤ c) trials

module _ {D W : Type 0} (t : Trials D W) (c : ℕ) where
  perform-RatesBelow :
      (rate duration : ℕ) (p : PhaseName) (s : Run D W)
      → rate ≤ c
      → RatesBelow c s.history
      → RatesBelow c (perform t rate duration p s).1.history
  unfolding perform trial_record RatesBelow
  perform-RatesBelow rate duration p s le h = All-append _ s.history _ h (le, tt)

  sample_once-RatesBelow :
      (rate duration : ℕ) (p : Phase) (n : ℕ) (s : Run D W)
      → rate ≤ c
      → RatesBelow c s.history
      → RatesBelow c (sample_once t rate duration p n s).1.history
  unfolding sample_once
  sample_once-RatesBelow rate duration p n s le h =
      let first : PhaseName = record { phase = p; sample = n; retry = false } in
      let again : PhaseName = record { phase = p; sample = n; retry = true } in
      let s1 = (perform t rate duration first s).1 in
      ground
        (arith, perform-RatesBelow rate duration first s, perform-RatesBelow rate duration again s1)

  take_samples-RatesBelow :
      (rate duration : ℕ) (p : Phase) (left n : ℕ) (s : Run D W)
      → rate ≤ c
      → RatesBelow c s.history
      → RatesBelow c (take_samples t rate duration p left n s).1.history
  unfolding take_samples
  take_samples-RatesBelow rate duration p zero n s le h = h
  take_samples-RatesBelow rate duration p (suc left) n s le h =
      take_samples-RatesBelow rate duration p left (n + 1) _ le
        (sample_once-RatesBelow rate duration p n s le h)

  -- where a search stands, if it returned
  abbrev FoundBelow : Option (Bisection × Run D W) → Type 0
  FoundBelow none = Unit
  FoundBelow (some (aborted, s)) = RatesBelow c s.history
  FoundBelow (some (found rate, s)) = (rate ≤ c) × RatesBelow c s.history

  abbrev ResultBelow : Option (FrameSearchResult D × W) → Type 0
  ResultBelow = Ends (λ (r : FrameSearchResult D × W). RatesBelow c r.0.trials)

  module _ (settings : SearchSettings) where
    observe-RatesBelow :
        (rate duration : ℕ) (p : Phase) (s : Run D W)
        → rate ≤ c
        → RatesBelow c s.history
        → RatesBelow c (observe t settings rate duration p s).1.history
    unfolding observe
    observe-RatesBelow rate duration p s =
        take_samples-RatesBelow rate duration p (sample_count settings p) 0 s

    bisect-RatesBelow :
        (fuel low high : ℕ) (s : Run D W)
        → low ≤ c
        → high ≤ c
        → RatesBelow c s.history
        → FoundBelow (bisect t settings fuel low high s)
    unfolding bisect
    bisect-RatesBelow zero low high s l h below = tt
    bisect-RatesBelow (suc fuel) low high s l h below =
        let candidate = round_rate (low + high) 2 settings.resolution in
        let s1 = (observe t settings candidate settings.trial_seconds Phase.search s).1 in
        ground (
          arith,
          observe-RatesBelow candidate settings.trial_seconds Phase.search s,
          bisect-RatesBelow fuel candidate high s1,
          bisect-RatesBelow fuel low candidate s1,
        )

    confirm-RatesBelow :
        (left candidate : ℕ) (s : Run D W)
        → candidate ≤ c
        → RatesBelow c s.history
        → RatesBelow c (confirm t settings left candidate s).1.history
    unfolding confirm
    confirm-RatesBelow zero candidate s le h = h
    confirm-RatesBelow (suc left) candidate s le h =
        let s1 =
          (observe t settings candidate settings.confirmation_seconds Phase.confirmation s).1 in
        ground (
          arith,
          observe-RatesBelow candidate settings.confirmation_seconds Phase.confirmation s,
          confirm-RatesBelow left candidate s1,
        )

    descend-RatesBelow :
        (fuel candidate : ℕ) (s : Run D W)
        → 0 < settings.resolution
        → candidate ≤ c
        → RatesBelow c s.history
        → ResultBelow (descend t settings fuel candidate s)
    unfolding descend conclude result
    descend-RatesBelow zero candidate s r le h = tt
    descend-RatesBelow (suc fuel) candidate s r le h =
        let s1 = (confirm t settings settings.confirmations candidate s).1 in
        let next = round_rate (candidate - settings.resolution) 1 settings.resolution in
        ground (
          arith,
          confirm-RatesBelow settings.confirmations candidate s,
          round_rate-sub-lt candidate settings.resolution r,
          descend-RatesBelow fuel next s1 r,
        )

    settle-RatesBelow :
        (fuel : ℕ) (b : Bisection × Run D W)
        → 0 < settings.resolution
        → FoundBelow (some b)
        → ResultBelow (settle t settings fuel b)
    unfolding settle result
    settle-RatesBelow fuel (aborted, s) r h = h
    settle-RatesBelow fuel (found candidate, s) r h = descend-RatesBelow fuel candidate s r h.0 h.1

    searched-RatesBelow :
        (fuel : ℕ) (o : Option (Bisection × Run D W))
        → 0 < settings.resolution
        → FoundBelow o
        → ResultBelow (match_option o none (settle t settings fuel))
    searched-RatesBelow fuel none r h = tt
    searched-RatesBelow fuel (some b) r h = settle-RatesBelow fuel b r h

module _ {D W : Type 0} (t : Trials D W) (settings : SearchSettings) (ceiling : ℕ) (w : W) where
  empty-RatesBelow : RatesBelow {D = D} ceiling []
  unfolding RatesBelow
  empty-RatesBelow = tt

  search-RatesBelow :
      0 < settings.resolution → ResultBelow t ceiling (search_frame t settings ceiling w)
  unfolding search_frame result
  search-RatesBelow r =
      let start : Run D W = record { world = w; history = [] } in
      let s1 = (observe t settings ceiling settings.trial_seconds Phase.search start).1 in
      ground (
        arith,
        empty-RatesBelow,
        observe-RatesBelow t ceiling settings ceiling settings.trial_seconds Phase.search start,
        settle-RatesBelow t ceiling settings (ceiling + 1) (found ceiling, s1) r,
        bisect-RatesBelow t ceiling settings (ceiling + 1) 0 ceiling s1,
        searched-RatesBelow t ceiling settings (ceiling + 1)
            (bisect t settings (ceiling + 1) 0 ceiling s1) r,
      )

-- With a positive resolution, for any trial function, the search returns a result, and every trial
-- of it, samples, retries and confirmations included, ran at the ceiling or below.
pub search_frame-RatesBelow :
    {D W : Type 0} (t : Trials D W) (settings : SearchSettings) (ceiling : ℕ) (w : W)
    → 0 < settings.resolution
    → Returns (λ r. RatesBelow ceiling r.0.trials) (search_frame t settings ceiling w)
search_frame-RatesBelow t settings ceiling w r =
    Ends-Returns _ (search_frame t settings ceiling w) (search_frame-Done t settings ceiling w r)
      (search-RatesBelow t settings ceiling w r)
