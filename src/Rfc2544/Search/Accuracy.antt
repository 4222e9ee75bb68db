-- ===== src/Rfc2544/Search/Accuracy.antt =====
-- `search_frame` against a device that loses frames exactly above a capacity.
use trex_cli.Prelude.{
  ℕ, zero, suc, ◌+◌, ◌-◌, ◌≤◌, ◌<◌, ◌≡◌, refl, ◌⊎◌, inr, true, Option, none, some, [], arith,
  match_option, Returns,
}
use trex_cli.Rfc2544.{Phase, SearchSettings, FrameSearchResult, round_rate}
use trex_cli.Rfc2544.Rounding.{round_rate_error}
use trex_cli.Rfc2544.Search.{
  Run, Trials, Bisection, aborted, found, Confirmation, confirmed, observe, bisect, confirm, result,
  conclude, descend, settle, search_frame,
}
use trex_cli.Rfc2544.Search.Capacity.{HasCapacity, observe-Answers}

-- Where the rounded midpoint of a wide interval stands.
midpoint_between :
    (low high resolution : ℕ)
    → 0 < resolution
    → resolution < high - low
    → (low < round_rate (low + high) 2 resolution) × (round_rate (low + high) 2 resolution < high)
midpoint_between low high resolution r wide =
    omega (arith, round_rate_error (low + high) 2 resolution (omega arith) r)

-- The reported throughput: not above the capacity or the ceiling, and the ceiling itself or less
-- than one resolution below the capacity.
abbrev pub Measures : ℕ → ℕ → ℕ → Option ℕ → Type 0
Measures capacity resolution ceiling none = ⊥
Measures capacity resolution ceiling (some rate) =
    (rate ≤ capacity) × (rate ≤ ceiling) × ((rate ≡ ceiling) ⊎ (capacity < rate + resolution))

abbrev pub Measured : {D W : Type 0} → ℕ → ℕ → ℕ → FrameSearchResult D × W → Type 0
Measured capacity resolution ceiling (result, w) =
    (result.valid ≡ true) × Measures capacity resolution ceiling result.throughput

module _ {D W : Type 0} (t : Trials D W) (capacity : ℕ) (ideal : HasCapacity t capacity)
    (settings : SearchSettings) (sampled : 0 < settings.search_samples)
    (r : 0 < settings.resolution) where
  -- The binary search ends within one resolution below the capacity.
  abbrev Near : Option (Bisection × Run D W) → Type 0
  Near none = ⊥
  Near (some (aborted, s)) = ⊥
  Near (some (found rate, s)) = (rate ≤ capacity) × (capacity < rate + settings.resolution)

  abbrev Confirms : Confirmation × Run D W → Type 0
  Confirms (c, s) = c ≡ confirmed

  confirm-Confirms :
      (left candidate : ℕ) (s : Run D W)
      → candidate ≤ capacity
      → Confirms (confirm t settings left candidate s)
  unfolding confirm
  confirm-Confirms zero candidate s le = refl
  confirm-Confirms (suc left) candidate s le =
      let s1 =
        (observe t settings candidate settings.confirmation_seconds Phase.confirmation s).1 in
      ground (
        arith,
        observe-Answers t capacity ideal settings sampled candidate settings.confirmation_seconds
            Phase.confirmation s,
        confirm-Confirms left candidate s1 le,
      )

  bisect-Near :
      (fuel low high : ℕ) (s : Run D W)
      → high - low < fuel
      → low ≤ capacity
      → capacity < high
      → Near (bisect t settings fuel low high s)
  unfolding bisect
  bisect-Near zero low high s lt l h = elim lt [ ]
  bisect-Near (suc fuel) low high s lt l h =
      let candidate = round_rate (low + high) 2 settings.resolution in
      let s1 = (observe t settings candidate settings.trial_seconds Phase.search s).1 in
      ground (
        arith,
        midpoint_between low high settings.resolution r,
        observe-Answers t capacity ideal settings sampled candidate settings.trial_seconds
            Phase.search s,
        bisect-Near fuel candidate high s1,
        bisect-Near fuel low candidate s1,
      )

  descend-Measured :
      (fuel ceiling candidate : ℕ) (s : Run D W)
      → 0 < fuel
      → Measures capacity settings.resolution ceiling (some candidate)
      → Returns
          (Measured capacity settings.resolution ceiling)
          (descend t settings fuel candidate s)
  unfolding descend conclude result
  descend-Measured zero ceiling candidate s f h = elim f [ ]
  descend-Measured (suc fuel) ceiling candidate s f h =
      ground (arith, confirm-Confirms settings.confirmations candidate s h.0)

  settle-Measured :
      (fuel ceiling : ℕ) (s : Run D W)
      → 0 < fuel
      → ceiling ≤ capacity
      → Returns
          (Measured capacity settings.resolution ceiling)
          (settle t settings fuel (found ceiling, s))
  unfolding settle
  settle-Measured fuel ceiling s f le = descend-Measured fuel ceiling ceiling s f (omega arith)

  searched-Measured :
      (fuel ceiling : ℕ) (o : Option (Bisection × Run D W))
      → 0 < fuel
      → Near o
      → capacity < ceiling
      → Returns
          (Measured capacity settings.resolution ceiling)
          (match_option o none (settle t settings fuel))
  unfolding settle
  searched-Measured fuel ceiling none f n lt = absurd n
  searched-Measured fuel ceiling (some (aborted, s)) f n lt = absurd n
  searched-Measured fuel ceiling (some (found rate, s)) f n lt =
      descend-Measured fuel ceiling rate s f (n.0, omega arith, inr n.1)

  -- With at least one search sample and a positive resolution, against a device whose trials are
  -- all valid and lose frames exactly above a capacity, the search returns a valid result. Its
  -- throughput is at most the capacity and the ceiling, and it is the ceiling or less than one
  -- resolution below the capacity.
  pub search_frame-Measured :
      (ceiling : ℕ) (w : W)
      → Returns (Measured capacity settings.resolution ceiling) (search_frame t settings ceiling w)
  unfolding search_frame
  search_frame-Measured ceiling w =
      let start : Run D W = record { world = w; history = [] } in
      let s1 = (observe t settings ceiling settings.trial_seconds Phase.search start).1 in
      ground (
        arith,
        observe-Answers t capacity ideal settings sampled ceiling settings.trial_seconds
            Phase.search start,
        settle-Measured (ceiling + 1) ceiling s1,
        bisect-Near (ceiling + 1) 0 ceiling s1,
        searched-Measured (ceiling + 1) ceiling (bisect t settings (ceiling + 1) 0 ceiling s1),
      )
