-- ===== src/Rfc2544/Search/Total.antt =====
-- The loops of `search_frame` end: their fuel is enough.
use trex_cli.Prelude.{
  ℕ, zero, suc, ◌+◌, ◌-◌, ◌≤◌, ◌<◌, Option, none, some, [], arith, match_option, Returns,
}
use trex_cli.Rfc2544.{Phase, SearchSettings, round_rate}
use trex_cli.Rfc2544.Rounding.{round_rate-sub-lt}
use trex_cli.Rfc2544.Search.{
  Run, Trials, Bisection, aborted, found, observe, bisect, confirm, conclude, descend, settle,
  search_frame,
}

abbrev pub Done {ℓ} : {A : Type ℓ} → Option A → Type 0
Done = Returns (λ _. Unit)

-- The rate that a binary search ends at, if it returned one.
abbrev Below : {D W : Type 0} → ℕ → Option (Bisection × Run D W) → Type 0
Below c none = ⊥
Below c (some (aborted, s)) = Unit
Below c (some (found rate, s)) = rate ≤ c

module _ {D W : Type 0} (t : Trials D W) (settings : SearchSettings) where
  -- Each round leaves a strictly smaller interval.
  bisect-Below :
      (c fuel low high : ℕ) (s : Run D W)
      → high - low < fuel
      → low ≤ c
      → high ≤ c
      → Below c (bisect t settings fuel low high s)
  unfolding bisect
  bisect-Below c zero low high s lt l h = elim lt [ ]
  bisect-Below c (suc fuel) low high s lt l h =
      let candidate = round_rate (low + high) 2 settings.resolution in
      let s1 = (observe t settings candidate settings.trial_seconds Phase.search s).1 in
      ground (arith, bisect-Below c fuel candidate high s1, bisect-Below c fuel low candidate s1)

  -- Each candidate is smaller than the one before.
  descend-Done :
      (fuel candidate : ℕ) (s : Run D W)
      → 0 < settings.resolution
      → candidate < fuel
      → Done (descend t settings fuel candidate s)
  unfolding descend conclude
  descend-Done zero candidate s r lt = elim lt [ ]
  descend-Done (suc fuel) candidate s r lt =
      let s1 = (confirm t settings settings.confirmations candidate s).1 in
      let next = round_rate (candidate - settings.resolution) 1 settings.resolution in
      ground (arith, round_rate-sub-lt candidate settings.resolution r, descend-Done fuel next s1 r)

  searched-Done :
      (c : ℕ) (o : Option (Bisection × Run D W))
      → 0 < settings.resolution
      → Below c o
      → Done (match_option o none (settle t settings (c + 1)))
  unfolding settle
  searched-Done c none r h = h
  searched-Done c (some (aborted, s)) r h = tt
  searched-Done c (some (found rate, s)) r h = descend-Done (c + 1) rate s r (omega arith)

  pub search_frame-Done :
      (ceiling : ℕ) (w : W) → 0 < settings.resolution → Done (search_frame t settings ceiling w)
  unfolding search_frame settle
  search_frame-Done ceiling w r =
      let start : Run D W = record { world = w; history = [] } in
      let s1 = (observe t settings ceiling settings.trial_seconds Phase.search start).1 in
      ground (
        arith,
        descend-Done (ceiling + 1) ceiling s1 r,
        bisect-Below ceiling (ceiling + 1) 0 ceiling s1,
        searched-Done ceiling (bisect t settings (ceiling + 1) 0 ceiling s1) r,
      )
