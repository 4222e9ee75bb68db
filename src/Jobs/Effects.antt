-- ===== src/Jobs/Effects.antt =====
-- What the database calls of src/trex_cli/storage.py, as the agent makes them, do to the row of any
-- one job.
use trex_cli.Prelude.{
  ℕ, ◌≡◌, refl, sym, ap, ◌∙◌, ◌⊎◌, inl, inr, false, ◌&&◌, Option, none, some, List, [], ◌∷◌, map,
  arith, Bool-cases, ◌==◌,
}
use trex_cli.Jobs.{terminal, JobSnapshot, Job, Database, succeeded}
use trex_cli.Jobs.Store.{
  find_job, find_key, has_job, set_snapshot, set_cancel, cancel_snapshot, new_row, insert_event,
  update_snapshot, insert_job, create_job, request_cancel, cancel_found, with_value,
}
use trex_cli.Jobs.Transition.{
  Request, updated_snapshot, same_state, check, write_checked, written, attempt,
}
use trex_cli.Jobs.System.{accepted_snapshot, after}
use trex_cli.Jobs.Advance.{
  Agrees, Moves, Moves-refl, map_row, find_job-map, HasId, find_job-HasId, SeenIn, SeenIn-some,
  set_snapshot-Advances, set_cancel-Advances,
}
use trex_cli.Jobs.Agreement.{set_snapshot-Agrees, set_cancel-Agrees, new_row-Agrees}

-- What one attempt does to the table of jobs.
pub attempt_jobs :
    (req : Request) (s : JobSnapshot) (db : Database)
    → ((after db (attempt req s db)).jobs ≡ db.jobs)
      ⊎ (((after db (attempt req s db)).jobs
            ≡ map (set_snapshot (updated_snapshot req s) s.revision req.resolved_spec_json) db.jobs)
          × ((terminal s.state ≡ false)
              × ((same_state req.state succeeded && s.cancel_requested) ≡ false)))
unfolding attempt write_checked written check update_snapshot insert_event after
attempt_jobs req s db = ground arith

pub submit_jobs :
    (s : JobSnapshot) (principal key document : ℕ) (retry_of : Option ℕ) (db : Database)
    → ((after db (create_job s principal key document retry_of db)).jobs ≡ db.jobs)
      ⊎ (((after db (create_job s principal key document retry_of db)).jobs
            ≡ new_row s principal key document retry_of ∷ db.jobs)
          × ((has_job s.job_id db.jobs ≡ false) × (find_key principal key db.jobs ≡ none)))
unfolding create_job insert_job insert_event with_value after
submit_jobs s principal key document retry_of db = ground arith

pub cancel_jobs :
    (id request : ℕ) (o : Option Job) (db : Database)
    → ((after db (cancel_found id request o db)).jobs ≡ db.jobs)
      ⊎ ((r : Job) × ((o ≡ some r)
            × (((after db (cancel_found id request o db)).jobs
                  ≡ map (set_cancel id (cancel_snapshot r.snapshot)) db.jobs)
                × (terminal r.snapshot.state ≡ false))))
unfolding cancel_found insert_event with_value after
cancel_jobs id request none db = inl refl
cancel_jobs id request (some r) db = elim (Bool-cases (terminal r.snapshot.state)) [
  | inl e ↦ inl (ground arith)
  | inr live ↦
      let cases : ((after db (cancel_found id request (some r) db)).jobs ≡ db.jobs)
          ⊎ ((after db (cancel_found id request (some r) db)).jobs
              ≡ map (set_cancel id (cancel_snapshot r.snapshot)) db.jobs) =
        ground arith in
      elim cases [ inl same ↦ inl same | inr now ↦ inr (r, (refl, (now, live))) ]
]

-- What a change of the table does to the row of a job.
abbrev pub RowAgrees : Option Job → Type 0
RowAgrees none = Unit
RowAgrees (some r) = Agrees r

abbrev pub Effect : Option Job → Option Job → Type 0
Effect old now = RowAgrees old → Moves old now × RowAgrees now

set_snapshot-Effect :
    (req : Request) (s : JobSnapshot) (id : ℕ) (jobs : List Job)
    → terminal s.state ≡ false
    → (same_state req.state succeeded && s.cancel_requested) ≡ false
    → SeenIn s (find_job s.job_id jobs)
    → (o : Option Job) → find_job id jobs ≡ o
    → HasId id o
    → Effect o (map_row (set_snapshot (updated_snapshot req s) s.revision req.resolved_spec_json) o)
set_snapshot-Effect req s id jobs live possible seen none e h = λ k. (tt, tt)
set_snapshot-Effect req s id jobs live possible seen (some r) e h = λ k. (
  set_snapshot-Advances req s r live (λ same.
      SeenIn-some s (find_job s.job_id jobs) r (ap (λ x. find_job x jobs) (sym same ∙ h) ∙ e) seen),
  set_snapshot-Agrees req s r possible k,
)

set_cancel-Effect :
    (id : ℕ) (r : Job) (job : ℕ) (o : Option Job)
    → terminal r.snapshot.state ≡ false
    → HasId job o
    → (job ≡ id → o ≡ some r)
    → Effect o (map_row (set_cancel id (cancel_snapshot r.snapshot)) o)
set_cancel-Effect id r job none live h found = λ k. (tt, tt)
set_cancel-Effect id r job (some q) live h found =
    let seen : q.job_id ≡ id → r.snapshot ≡ q.snapshot = λ same. sym (cc (found (sym h ∙ same))) in
    λ k. (
      set_cancel-Advances id r.snapshot q live seen k,
      set_cancel-Agrees id r.snapshot q live seen k,
    )

pub set_snapshot-keeps :
    (s : JobSnapshot) (expected : ℕ) (resolved : Option ℕ) (r : Job)
    → (set_snapshot s expected resolved r).job_id ≡ r.job_id
unfolding set_snapshot
set_snapshot-keeps s expected resolved r = ground arith

pub set_cancel-keeps : (id : ℕ) (s : JobSnapshot) (r : Job) → (set_cancel id s r).job_id ≡ r.job_id
unfolding set_cancel
set_cancel-keeps id s r = ground arith

-- a row with a new id
pub has_job-found : (id : ℕ) (jobs : List Job) → has_job id jobs ≡ false → find_job id jobs ≡ none
unfolding has_job find_job
has_job-found id [] h = refl
has_job-found id (r ∷ rs) h = ground (arith, has_job-found id rs)

pub Effect-refl : (o : Option Job) → Effect o o
Effect-refl o = λ k. (Moves-refl o, k)

new_row-Effect :
    (id kind digest principal key document : ℕ) (retry_of : Option ℕ) (now : ℕ) (job : ℕ)
    (jobs : List Job)
    → has_job id jobs ≡ false
    → Effect (find_job job jobs) (
        find_job job (
          new_row (accepted_snapshot id kind digest retry_of now) principal key document retry_of
          ∷ jobs))
unfolding find_job new_row accepted_snapshot
new_row-Effect id kind digest principal key document retry_of now job jobs fresh =
    elim (Bool-cases (id == job)) [
      | inl e ↦
          let same : job ≡ id = ground arith in
          let absent : find_job job jobs ≡ none =
            ap (λ x. find_job x jobs) same ∙ has_job-found id jobs fresh in
          rw (e, absent)
            (λ k. (tt, new_row-Agrees id kind digest principal key document retry_of now))
      | inr e ↦ rw e (Effect-refl (find_job job jobs))
    ]

-- Each action on the row of any job.
pub write-Effect :
    (req : Request) (s : JobSnapshot) (db : Database) (id : ℕ)
    → SeenIn s (find_job s.job_id db.jobs)
    → Effect (find_job id db.jobs) (find_job id (after db (attempt req s db)).jobs)
write-Effect req s db id seen = elim (attempt_jobs req s db) [
  | inl same ↦ rw same (Effect-refl (find_job id db.jobs))
  | inr (now, (live, possible)) ↦
      rw
        (
          now,
          find_job-map (set_snapshot (updated_snapshot req s) s.revision req.resolved_spec_json)
              (set_snapshot-keeps (updated_snapshot req s) s.revision req.resolved_spec_json) id
              db.jobs,
        )
        (set_snapshot-Effect req s id db.jobs live possible seen (find_job id db.jobs) refl
          (find_job-HasId id db.jobs))
]

pub cancel-Effect :
    (job request : ℕ) (db : Database) (id : ℕ)
    → Effect (find_job id db.jobs) (find_job id (after db (request_cancel job request db)).jobs)
unfolding request_cancel
cancel-Effect job request db id = elim (cancel_jobs job request (find_job job db.jobs) db) [
  | inl same ↦ rw same (Effect-refl (find_job id db.jobs))
  | inr (r, (found, (now, live))) ↦
      rw
        (
          now,
          find_job-map (set_cancel job (cancel_snapshot r.snapshot))
              (set_cancel-keeps job (cancel_snapshot r.snapshot)) id db.jobs,
        )
        (set_cancel-Effect job r id (find_job id db.jobs) live (find_job-HasId id db.jobs)
          (λ same. ap (λ x. find_job x db.jobs) same ∙ found))
]

pub submit-Effect :
    (id kind principal key digest document : ℕ) (retry_of : Option ℕ) (now : ℕ) (db : Database)
    (job : ℕ)
    → Effect (find_job job db.jobs) (
        find_job job (
          (after db (
            create_job
              (accepted_snapshot id kind digest retry_of now)
              principal
              key
              document
              retry_of
              db)).jobs))
unfolding accepted_snapshot
submit-Effect id kind principal key digest document retry_of now db job =
    elim (submit_jobs (accepted_snapshot id kind digest retry_of now) principal key document
      retry_of db) [
        | inl same ↦ rw same (Effect-refl (find_job job db.jobs))
        | inr (changed, (fresh, new)) ↦
            rw changed
              (new_row-Effect id kind digest principal key document retry_of now job db.jobs fresh)
      ]
