-- ===== src/Rfc2544/BackToBack/Entries.antt =====
-- The entries of `searches` that `measure_back_to_back` of src/trex_cli/rfc2544.py makes.
use trex_cli.Prelude.{
  ℕ, suc, ◌≤◌, ◌<◌, ◌≡◌, refl, ◌∙◌, Bool, true, false, ◌&&◌, Option, none, some, List, [], ◌∷◌,
  ◌++◌, if◌then◌else◌, ◌==◌, arith, All, All-append, Returns, length, length-append, match_option,
}
use trex_cli.Rfc2544.BackToBack.{
  BurstObservation, BurstPhase, BurstRecord, burst_record, BurstSearch, BurstRun, BurstTrials,
  Tally, Ended, broken, narrowed, give_up, verify, settle,
}
use trex_cli.Rfc2544.BackToBack.Safety.{BurstsBelow, EndBelow}

-- The bursts of the entries that found one, in order.
unfoldable pub collect : {D : Type 0} → List (BurstSearch D) → List ℕ
collect [] = []
collect (e ∷ es) = match_option e.longest (collect es) (λ b. b ∷ collect es)

-- Whether all entries are valid.
unfoldable pub all_ok : {D : Type 0} → List (BurstSearch D) → Bool
all_ok [] = true
all_ok (e ∷ es) = e.valid && all_ok es

-- An entry is valid exactly when it gives a burst, and then its verification is a valid trial of
-- that burst, of 1 to `c` frames, without loss.
abbrev pub Verified : {D : Type 0} → ℕ → Bool → Option ℕ → Option (BurstRecord D) → Type 0
Verified c true (some b) (some v) =
    (0 < b) × (b ≤ c) × (v.burst_frames ≡ b) × (v.valid ≡ true) × (v.rx_frames ≡ v.tx_frames)
Verified c false none (some v) = v.burst_frames ≤ c
Verified c false none none = Unit
Verified c _ _ _ = ⊥

abbrev pub EntryOk : {D : Type 0} → ℕ → BurstSearch D → Type 0
EntryOk c e = BurstsBelow c e.trials × Verified c e.valid e.longest e.verification

unfoldable pub EntriesOk : {D : Type 0} → ℕ → List (BurstSearch D) → Type 0
EntriesOk {D} c es = All (λ (e : BurstSearch D). EntryOk c e) es

module _ {D : Type 0} where
  EntriesOk-snoc :
      (c : ℕ) (es : List (BurstSearch D)) (e : BurstSearch D)
      → EntriesOk c es
      → EntryOk c e
      → EntriesOk c (es ++ e ∷ [])
  unfolding EntriesOk
  EntriesOk-snoc c es e h k = All-append _ es _ h (k, tt)

  collect-snoc :
      (es : List (BurstSearch D)) (e : BurstSearch D)
      → collect (es ++ e ∷ []) ≡ match_option e.longest (collect es) (λ b. collect es ++ b ∷ [])
  unfolding collect
  collect-snoc [] e = ground arith
  collect-snoc (x ∷ xs) e = ground (arith, collect-snoc xs e)

  all_ok-snoc :
      (es : List (BurstSearch D)) (e : BurstSearch D)
      → all_ok (es ++ e ∷ []) ≡ (all_ok es && e.valid)
  unfolding all_ok
  all_ok-snoc [] e = ground arith
  all_ok-snoc (x ∷ xs) e = ground (arith, all_ok-snoc xs e)

  -- If all entries are valid each gives a burst.
  pub length-collect :
      (c : ℕ) (es : List (BurstSearch D))
      → EntriesOk c es
      → all_ok es ≡ true
      → length (collect es) ≡ length es
  unfolding collect all_ok EntriesOk
  length-collect c [] h k = refl
  length-collect c (e ∷ es) h k = ground (arith, length-collect c es h.1)

-- The entry that `verify` makes is as `Verified` says, on each outcome of the trial.
entry_of_trial :
    {D : Type 0} {c : ℕ} (o : BurstObservation D) (low : ℕ)
    → 0 < low
    → low ≤ c
    → let verified = o.valid && o.rx_frames == o.tx_frames in
      Verified c verified
        (if verified then some low else none)
        (some (burst_record low BurstPhase.loss_verification o))
unfolding burst_record
entry_of_trial o low pos le = ground arith

verified_longest :
    (bs : List ℕ) (low : ℕ) (verified : Bool)
    → (if verified then bs ++ low ∷ [] else bs)
      ≡ match_option (if verified then some low else none) bs (λ b. bs ++ b ∷ [])
verified_longest bs low true = refl
verified_longest bs low false = refl

module _ {D W : Type 0} (t : BurstTrials D W) (c : ℕ) (prerequisites : Bool) where
  pub record Justified (done : ℕ) (k : Tally D W) : Type 0 where
    pub entries : EntriesOk c k.searches
    pub collected : k.longest ≡ collect k.searches
    pub valid : k.all_valid ≡ (prerequisites && all_ok k.searches)
    pub counted : length k.searches ≡ done

  -- One more entry, with the burst and the flag that go with it.
  snoc-Justified :
      (done : ℕ) (k k' : Tally D W) (e : BurstSearch D)
      → Justified done k
      → EntryOk c e
      → k'.searches ≡ k.searches ++ e ∷ []
      → k'.longest ≡ match_option e.longest k.longest (λ b. k.longest ++ b ∷ [])
      → k'.all_valid ≡ (k.all_valid && e.valid)
      → Justified (suc done) k'
  snoc-Justified done k k' e h ok searches longest valid = record {
    entries = rw searches (EntriesOk-snoc c k.searches e h.entries ok);
    collected = longest ∙ (rw (h.collected, searches, collect-snoc k.searches e));
    valid = rw (searches, valid, h.valid, all_ok-snoc k.searches e) (ground arith);
    counted = rw searches (omega (arith, length-append k.searches (e ∷ []), h.counted));
  }

  pub give_up-Justified :
      (done repetition : ℕ) (k : Tally D W) (s : BurstRun D W)
      → Justified done k
      → BurstsBelow c s.trials
      → Justified (suc done) (give_up t repetition k s)
  unfolding give_up
  give_up-Justified done repetition k s h below =
      snoc-Justified done k _ _ h (below, tt) refl refl (ground arith)

  verify-Justified :
      (done repetition low : ℕ) (k : Tally D W) (s : BurstRun D W)
      → Justified done k
      → 0 < low
      → low ≤ c
      → BurstsBelow c s.trials
      → Justified (suc done) (verify t repetition low k s)
  unfolding verify burst_record
  verify-Justified done repetition low k s h pos le below =
      let (o, w) = t.trial t.frame_size low s.world in
      snoc-Justified done k _ _ h (below, entry_of_trial o low pos le) refl
        (verified_longest k.longest low (o.valid && o.rx_frames == o.tx_frames)) refl

  pub settle-Justified :
      (done repetition : ℕ) (k : Tally D W) (o : Option (Ended × BurstRun D W))
      → Justified done k
      → Returns (EndBelow t c) o
      → Returns (Justified (suc done)) (settle t prerequisites repetition k o)
  unfolding settle
  settle-Justified done repetition k none h e = e
  settle-Justified done repetition k (some (broken low, s)) h e =
      give_up-Justified done repetition k s h e
  settle-Justified done repetition k (some (narrowed low, s)) h e = ground (
    arith,
    give_up-Justified done repetition k s h e.1,
    λ (pos : 0 < low). verify-Justified done repetition low k s h pos e.0 e.1,
  )
