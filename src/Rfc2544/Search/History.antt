-- ===== src/Rfc2544/Search/History.antt =====
-- Measures of the recorded history, and what one round of sampling does to them.
use trex_cli.Prelude.{
  ℕ, ◌+◌, ◌≤◌, ◌≡◌, refl, Bool, true, false, ◌&&◌, Option, none, some, List, [], ◌∷◌, ◌++◌, ◌==◌,
  if◌then◌else◌, arith,
}
use trex_cli.Rfc2544.{TrialObservation, TrialRecord, trial_record, Phase, PhaseName}
use trex_cli.Rfc2544.Search.{Run, Trials, perform, sample_once}

abbrev is_confirmation : Phase → Bool
is_confirmation Phase.confirmation = true
is_confirmation _ = false

-- A valid confirmation trial without loss, at the rate and for the duration.
abbrev backs : ℕ → ℕ → Phase → ℕ → ℕ → Bool → ℕ → Bool
backs rate duration p r d valid loss =
    is_confirmation p && r == rate && d == duration && valid && loss == 0

-- How many trials of a history back the rate.
unfoldable pub backing : {D : Type 0} → ℕ → ℕ → List (TrialRecord D) → ℕ
backing rate duration [] = 0
backing rate duration (r ∷ rs) =
    backing rate duration rs
    + (if backs rate duration r.phase.phase r.rate r.duration r.valid r.loss_frames then 1 else 0)

-- Whether the last trial of a history was valid.
unfoldable pub last_valid : {D : Type 0} → List (TrialRecord D) → Bool
last_valid [] = true
last_valid (r ∷ []) = r.valid
last_valid (r ∷ r' ∷ rs) = last_valid (r' ∷ rs)

backing-snoc :
    {D : Type 0} (rate duration : ℕ) (rs : List (TrialRecord D)) (r : TrialRecord D)
    → backing rate duration (rs ++ r ∷ [])
      ≡ backing rate duration rs
        + (if backs rate duration r.phase.phase r.rate r.duration r.valid r.loss_frames
            then 1
            else 0)
unfolding backing
backing-snoc rate duration [] r = refl
backing-snoc rate duration (x ∷ xs) r = omega (arith, backing-snoc rate duration xs r)

last_valid-snoc :
    {D : Type 0} (rs : List (TrialRecord D)) (r : TrialRecord D)
    → last_valid (rs ++ r ∷ []) ≡ r.valid
unfolding last_valid
last_valid-snoc [] r = refl
last_valid-snoc (x ∷ []) r = refl
last_valid-snoc (x ∷ y ∷ ys) r = last_valid-snoc (y ∷ ys) r

module _ {D W : Type 0} (t : Trials D W) where
  perform-last_valid :
      (rate duration : ℕ) (p : PhaseName) (s : Run D W)
      → last_valid (perform t rate duration p s).1.history ≡ (perform t rate duration p s).0.valid
  unfolding perform trial_record
  perform-last_valid rate duration p s = last_valid-snoc s.history _

  pub sample_once-last_valid :
      (rate duration : ℕ) (p : Phase) (n : ℕ) (s : Run D W)
      → (sample_once t rate duration p n s).0 ≡ none
      → last_valid (sample_once t rate duration p n s).1.history ≡ false
  unfolding sample_once
  sample_once-last_valid rate duration p n s h =
      let first : PhaseName = record { phase = p; sample = n; retry = false } in
      let again : PhaseName = record { phase = p; sample = n; retry = true } in
      let s1 = (perform t rate duration first s).1 in
      ground (arith, perform-last_valid rate duration again s1)

  module _ (rate duration : ℕ) where
    unfoldable pub backing_of : Run D W → ℕ
    backing_of s = backing rate duration s.history

    perform-backing :
        (r d : ℕ) (p : PhaseName) (s : Run D W)
        → backing_of (perform t r d p s).1
          ≡ backing_of s
            + (if backs rate duration p.phase r d
                  (perform t r d p s).0.valid
                  (perform t r d p s).0.loss_frames
                then 1
                else 0)
    unfolding perform trial_record backing_of
    perform-backing r d p s = backing-snoc rate duration s.history _

    pub sample_once-backing :
        (r d : ℕ) (p : Phase) (n : ℕ) (s : Run D W)
        → backing_of s ≤ backing_of (sample_once t r d p n s).1
    unfolding sample_once
    sample_once-backing r d p n s =
        let first : PhaseName = record { phase = p; sample = n; retry = false } in
        let again : PhaseName = record { phase = p; sample = n; retry = true } in
        let s1 = (perform t r d first s).1 in
        ground (arith, perform-backing r d first s, perform-backing r d again s1)

    abbrev pub Backs : Option (TrialObservation D) → ℕ → ℕ → Type 0
    Backs none a b = Unit
    Backs (some o) a b = o.loss_frames ≡ 0 → a + 1 ≤ b

    pub sample_once-Backs :
        (n : ℕ) (s : Run D W)
        → Backs
            (sample_once t rate duration Phase.confirmation n s).0
            (backing_of s)
            (backing_of (sample_once t rate duration Phase.confirmation n s).1)
    unfolding sample_once
    sample_once-Backs n s =
        let first : PhaseName = record { phase = Phase.confirmation; sample = n; retry = false } in
        let again : PhaseName = record { phase = Phase.confirmation; sample = n; retry = true } in
        let s1 = (perform t rate duration first s).1 in
        ground
          (arith, perform-backing rate duration first s, perform-backing rate duration again s1)
