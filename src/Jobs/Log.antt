-- ===== src/Jobs/Log.antt =====
-- The event log of src/trex_cli/storage.py: `job_events` beside the revisions of `jobs`.
use trex_cli.Prelude.{
  ℕ, zero, suc, ◌≡◌, refl, sym, ap, ◌∙◌, inl, inr, true, false, Option, none, some, List, [], ◌∷◌,
  map, arith, Bool-cases, ◌==◌, if◌then◌else◌,
}
use trex_cli.Jobs.{JobSnapshot, Job, JobEvent, EventType}
use trex_cli.Jobs.Store.{find_job, has_job, set_snapshot, at_revision, set_cancel, rowcount}
use trex_cli.Jobs.Effects.{set_snapshot-keeps}
use trex_cli.Jobs.Writes.{event}

-- The revisions of the events of a job, the latest insertion first.
unfoldable pub log_of : ℕ → List JobEvent → List ℕ
log_of id [] = []
log_of id (e ∷ es) = let rest = log_of id es in if e.job_id == id then e.revision ∷ rest else rest

unfoldable pub countdown : ℕ → List ℕ
countdown zero = []
countdown (suc n) = suc n ∷ countdown n

suc-countdown : (n : ℕ) → (suc n ∷ countdown n) ≡ countdown (suc n)
unfolding countdown
suc-countdown n = refl

abbrev pub revision_of : Option Job → ℕ
revision_of none = 0
revision_of (some r) = r.revision

-- Different rows have different jobs.
abbrev pub Distinct : List Job → Type 0
Distinct [] = Unit
Distinct (r ∷ rs) = (has_job r.job_id rs ≡ false) × Distinct rs

-- The log of a job and its row.
abbrev pub Logged : ℕ → List Job → List JobEvent → Type 0
Logged id jobs events = log_of id events ≡ countdown (revision_of (find_job id jobs))

pub has_job-rowcount :
    (id revision : ℕ) (jobs : List Job) → has_job id jobs ≡ false → rowcount id revision jobs ≡ 0
unfolding has_job rowcount at_revision
has_job-rowcount id revision [] h = refl
has_job-rowcount id revision (r ∷ rs) h = ground (arith, has_job-rowcount id revision rs)

-- the one row with a revision is the row of the job
mine_revision :
    (id revision : ℕ) (r : Job) (rs : List Job)
    → Distinct (r ∷ rs)
    → rowcount id revision (r ∷ rs) ≡ 1
    → (r.job_id == id) ≡ true
    → r.revision ≡ revision
unfolding rowcount at_revision
mine_revision id revision r rs d one mine =
    let same : r.job_id ≡ id = ground arith in
    let none_else : rowcount id revision rs ≡ 0 =
      has_job-rowcount id revision rs (ap (λ x. has_job x rs) (sym same) ∙ d.0) in
    ground (arith, none_else)

rowcount-revision :
    (id revision : ℕ) (jobs : List Job)
    → Distinct jobs
    → rowcount id revision jobs ≡ 1
    → revision_of (find_job id jobs) ≡ revision
unfolding rowcount find_job at_revision
rowcount-revision id revision [] d one = absurd (omega arith)
rowcount-revision id revision (r ∷ rs) d one = elim (Bool-cases (r.job_id == id)) [
  | inl mine ↦ rw mine (mine_revision id revision r rs d one mine)
  | inr other ↦ rw other (rowcount-revision id revision rs d.1 (ground arith))
]

other_rows :
    (id revision : ℕ) (r : Job) (rs : List Job)
    → (r.job_id == id) ≡ false
    → rowcount id revision (r ∷ rs) ≡ 1
    → rowcount id revision rs ≡ 1
unfolding rowcount at_revision
other_rows id revision r rs other one = ground arith

mine_set :
    (u : JobSnapshot) (revision : ℕ) (resolved : Option ℕ) (r : Job)
    → (r.job_id == u.job_id) ≡ true
    → r.revision ≡ revision
    → (set_snapshot u revision resolved r).revision ≡ u.revision
unfolding set_snapshot at_revision
mine_set u revision resolved r mine same = ground arith

-- one more entry, of the next revision
pub next_entry :
    (id new revision : ℕ) (log : List ℕ) (before now : ℕ)
    → new ≡ suc revision
    → log ≡ countdown before
    → before ≡ revision
    → now ≡ new
    → (new ∷ log) ≡ countdown now
next_entry id new revision log before now next h same set =
    ap (λ x. new ∷ x) (h ∙ ap countdown same)
    ∙ (ap (λ x. x ∷ countdown revision) next
        ∙ (suc-countdown revision ∙ ap countdown (sym (set ∙ next))))

set_snapshot_mine :
    (u : JobSnapshot) (revision : ℕ) (resolved : Option ℕ) (jobs : List Job)
    → Distinct jobs
    → rowcount u.job_id revision jobs ≡ 1
    → revision_of (find_job u.job_id (map (set_snapshot u revision resolved) jobs)) ≡ u.revision
unfolding rowcount find_job
set_snapshot_mine u revision resolved [] d one = absurd (omega arith)
set_snapshot_mine u revision resolved (r ∷ rs) d one =
    simp (set_snapshot-keeps u revision resolved r) (elim (Bool-cases (r.job_id == u.job_id)) [
      | inl mine ↦
          rw mine
            (mine_set u revision resolved r mine (mine_revision u.job_id revision r rs d one mine))
      | inr other ↦ rw other (
          set_snapshot_mine u revision resolved rs d.1
            (other_rows u.job_id revision r rs other one))
    ])

set_snapshot_other :
    (u : JobSnapshot) (revision : ℕ) (resolved : Option ℕ) (id : ℕ) (jobs : List Job)
    → (u.job_id == id) ≡ false
    → revision_of (find_job id (map (set_snapshot u revision resolved) jobs))
      ≡ revision_of (find_job id jobs)
unfolding find_job set_snapshot at_revision
set_snapshot_other u revision resolved id [] other = refl
set_snapshot_other u revision resolved id (r ∷ rs) other =
    ground (arith, set_snapshot_other u revision resolved id rs other)

pub set_cancel_mine :
    (id : ℕ) (u : JobSnapshot) (jobs : List Job)
    → has_job id jobs ≡ true
    → revision_of (find_job id (map (set_cancel id u) jobs)) ≡ u.revision
unfolding find_job set_cancel has_job
set_cancel_mine id u [] there = absurd (cc there)
set_cancel_mine id u (r ∷ rs) there = ground (arith, set_cancel_mine id u rs)

pub set_cancel_other :
    (job : ℕ) (u : JobSnapshot) (id : ℕ) (jobs : List Job)
    → (job == id) ≡ false
    → revision_of (find_job id (map (set_cancel job u) jobs)) ≡ revision_of (find_job id jobs)
unfolding find_job set_cancel
set_cancel_other job u id [] other = refl
set_cancel_other job u id (r ∷ rs) other = ground (arith, set_cancel_other job u id rs other)

has_job-map :
    (f : Job → Job)
    → ((r : Job) → (f r).job_id ≡ r.job_id)
    → (id : ℕ) (jobs : List Job) → has_job id (map f jobs) ≡ has_job id jobs
unfolding has_job
has_job-map f keeps id [] = refl
has_job-map f keeps id (r ∷ rs) = rw (keeps r, has_job-map f keeps id rs) refl

pub map-Distinct :
    (f : Job → Job)
    → ((r : Job) → (f r).job_id ≡ r.job_id)
    → (jobs : List Job) → Distinct jobs
    → Distinct (map f jobs)
map-Distinct f keeps [] d = tt
map-Distinct f keeps (r ∷ rs) d = (
  has_job-map f keeps (f r).job_id rs ∙ (ap (λ x. has_job x rs) (keeps r) ∙ d.0),
  map-Distinct f keeps rs d.1,
)

-- A write of the next revision with its event.
pub write-Logged :
    (u : JobSnapshot) (revision : ℕ) (resolved : Option ℕ) (type : EventType) (id : ℕ)
    (jobs : List Job) (events : List JobEvent)
    → Distinct jobs
    → rowcount u.job_id revision jobs ≡ 1
    → u.revision ≡ suc revision
    → Logged id jobs events
    → Logged id (map (set_snapshot u revision resolved) jobs) (event u.job_id type u ∷ events)
unfolding log_of
write-Logged u revision resolved type id jobs events d one next h =
    elim (Bool-cases (u.job_id == id)) [
      | inr other ↦ rw (other, set_snapshot_other u revision resolved id jobs other) h
      | inl mine ↦
          let same : id ≡ u.job_id = ground arith in
          rw mine (
            next_entry id u.revision revision (log_of id events) (revision_of (find_job id jobs)) _
              next h
              (ap (λ x. revision_of (find_job x jobs)) same
                ∙ rowcount-revision u.job_id revision jobs d one)
              (ap (λ x. revision_of (find_job x (map (set_snapshot u revision resolved) jobs))) same
                ∙ set_snapshot_mine u revision resolved jobs d one))
    ]
