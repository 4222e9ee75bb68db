-- ===== src/Jobs/Ordering.antt =====
-- The rows that `_events_after_sync` of src/trex_cli/storage.py reads, in their order, and their
-- snapshots.
use trex_cli.Prelude.{
  ℕ, zero, suc, ◌+◌, ◌-◌, ◌≡◌, refl, ap, ◌∙◌, inl, inr, false, ◌&&◌, List, [], ◌∷◌, map, arith, All,
  ltb, leb, ◌==◌, if◌then◌else◌, Bool-cases,
}
use trex_cli.Jobs.{JobSnapshot, JobEvent, Database}
use trex_cli.Jobs.Store.{find_job}
use trex_cli.Jobs.Log.{log_of, countdown, revision_of}
use trex_cli.Jobs.Events.{IsLogged}
use trex_cli.Jobs.Observation.{newer_events, place, order_by_revision, rows_after}

-- The revisions that follow this one, so many.
unfoldable pub next_revisions : ℕ → ℕ → List ℕ
next_revisions a zero = []
next_revisions a (suc n) = suc a ∷ next_revisions (suc a) n

-- The revisions above a bound, and an insertion into a list of revisions.
unfoldable above : ℕ → List ℕ → List ℕ
above bound [] = []
above bound (v ∷ vs) = let rest = above bound vs in if ltb bound v then v ∷ rest else rest

unfoldable place_key : ℕ → List ℕ → List ℕ
place_key r [] = r ∷ []
place_key r (q ∷ qs) = let rest = place_key r qs in if leb r q then r ∷ q ∷ qs else q ∷ rest

unfoldable order_keys : List ℕ → List ℕ
order_keys [] = []
order_keys (r ∷ rs) = place_key r (order_keys rs)

abbrev pub keys : List (ℕ × JobSnapshot) → List ℕ
keys rows = map (λ r. r.0) rows

keys-place :
    (r : ℕ × JobSnapshot) (qs : List (ℕ × JobSnapshot))
    → keys (place r qs) ≡ place_key r.0 (keys qs)
unfolding place place_key
keys-place r [] = refl
keys-place r (q ∷ qs) = ground (arith, keys-place r qs)

keys-order_by_revision :
    (rs : List (ℕ × JobSnapshot)) → keys (order_by_revision rs) ≡ order_keys (keys rs)
unfolding order_by_revision order_keys
keys-order_by_revision [] = refl
keys-order_by_revision (r ∷ rs) =
    keys-place r (order_by_revision rs) ∙ ap (place_key r.0) (keys-order_by_revision rs)

keys-newer_events :
    (id revision : ℕ) (es : List JobEvent)
    → keys (newer_events id revision es) ≡ above revision (log_of id es)
unfolding newer_events above log_of
keys-newer_events id revision [] = refl
keys-newer_events id revision (e ∷ es) = ground (arith, keys-newer_events id revision es)

place_key-next_revisions :
    (a k v : ℕ) → v ≡ suc (a + k) → place_key v (next_revisions a k) ≡ next_revisions a (suc k)
unfolding place_key next_revisions
place_key-next_revisions a zero v h = let same : v ≡ suc a = omega arith in ap (λ w. w ∷ []) same
place_key-next_revisions a (suc k) v h =
    let behind : leb v (suc a) ≡ false = ground arith in
    rw behind (ap (λ r. suc a ∷ r) (place_key-next_revisions (suc a) k v (omega arith)))

order_keys-countdown :
    (n bound : ℕ) → order_keys (above bound (countdown n)) ≡ next_revisions bound (n - bound)
unfolding order_keys above countdown next_revisions
order_keys-countdown zero bound =
    let nothing : 0 ≡ 0 - bound = omega arith in ap (next_revisions bound) nothing
order_keys-countdown (suc n) bound = elim (Bool-cases (ltb bound (suc n))) [
  | inl e ↦
      let top : suc n ≡ suc (bound + (n - bound)) = ground arith in
      let count : suc (n - bound) ≡ suc n - bound = ground arith in
      rw e (
        ap (place_key (suc n)) (order_keys-countdown n bound)
        ∙ (place_key-next_revisions bound (n - bound) (suc n) top
            ∙ ap (next_revisions bound) count))
  | inr e ↦
      let count : n - bound ≡ suc n - bound = ground arith in
      rw e (order_keys-countdown n bound ∙ ap (next_revisions bound) count)
]

-- The rows behind a revision are those of the revisions that follow, up to the job's.
pub rows_after-keys :
    (id revision : ℕ) (db : Database)
    → IsLogged db
    → keys (rows_after id revision db)
      ≡ next_revisions revision (revision_of (find_job id db.jobs) - revision)
unfolding rows_after
rows_after-keys id revision db inv =
    keys-order_by_revision (newer_events id revision db.job_events)
    ∙ (ap order_keys (keys-newer_events id revision db.job_events)
        ∙ (ap (λ l. order_keys (above revision l)) (inv.logged id)
            ∙ order_keys-countdown (revision_of (find_job id db.jobs)) revision))

-- A row's snapshot has the row's revision.
abbrev pub Recorded : List JobEvent → Type 0
Recorded es = All (λ e. e.snapshot.revision ≡ e.revision) es

abbrev RowsMatch : List (ℕ × JobSnapshot) → Type 0
RowsMatch rows = All (λ r. r.1.revision ≡ r.0) rows

abbrev pub revisions : List JobSnapshot → List ℕ
revisions ss = map (λ s. s.revision) ss

newer_events-RowsMatch :
    (id revision : ℕ) (es : List JobEvent) → Recorded es → RowsMatch (newer_events id revision es)
unfolding newer_events
newer_events-RowsMatch id revision [] h = tt
newer_events-RowsMatch id revision (e ∷ es) h =
    elim (Bool-cases (e.job_id == id && ltb revision e.revision)) [
      | inl mine ↦ rw mine (h.0, newer_events-RowsMatch id revision es h.1)
      | inr other ↦ rw other (newer_events-RowsMatch id revision es h.1)
    ]

place-RowsMatch :
    (r : ℕ × JobSnapshot) (qs : List (ℕ × JobSnapshot))
    → r.1.revision ≡ r.0
    → RowsMatch qs
    → RowsMatch (place r qs)
unfolding place
place-RowsMatch r [] h k = (h, tt)
place-RowsMatch r (q ∷ qs) h k = elim (Bool-cases (leb r.0 q.0)) [
  | inl first ↦ rw first (h, k)
  | inr later ↦ rw later (k.0, place-RowsMatch r qs h k.1)
]

order-RowsMatch : (rs : List (ℕ × JobSnapshot)) → RowsMatch rs → RowsMatch (order_by_revision rs)
unfolding order_by_revision
order-RowsMatch [] h = tt
order-RowsMatch (r ∷ rs) h = place-RowsMatch r (order_by_revision rs) h.0 (order-RowsMatch rs h.1)

revisions-keys :
    (rs : List (ℕ × JobSnapshot)) → RowsMatch rs → revisions (map (λ r. r.1) rs) ≡ keys rs
revisions-keys [] h = refl
revisions-keys (r ∷ rs) h = rw (h.0, revisions-keys rs h.1) refl

-- A log that is complete, with the revisions of its snapshots.
abbrev pub Followed : Database → Type 0
Followed db = IsLogged db × Recorded db.job_events

pub events_after-revisions :
    (id cursor : ℕ) (db : Database)
    → Followed db
    → revisions (map (λ r. r.1) (rows_after id cursor db))
      ≡ next_revisions cursor (revision_of (find_job id db.jobs) - cursor)
unfolding rows_after
events_after-revisions id cursor db (logged, recorded) =
    revisions-keys (order_by_revision (newer_events id cursor db.job_events))
      (order-RowsMatch _ (newer_events-RowsMatch id cursor db.job_events recorded))
    ∙ rows_after-keys id cursor db logged
