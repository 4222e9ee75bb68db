-- ===== src/Jobs/Written.antt =====
-- What `_transition` of src/trex_cli/jobs.py does to the database when it writes.
use trex_cli.Prelude.{ℕ, ◌+◌, ◌≡◌, ◌⊎◌, Option, none, some, ◌∷◌}
use trex_cli.Jobs.{JobSnapshot, JobEvent, EventType, Database, Result, ok, transition_event}
use trex_cli.Jobs.Store.{get_snapshot, find_job}
use trex_cli.Jobs.Transition.{Request}

-- A field after an update: the new value, or the old one if there is none.
abbrev pub Replaces : {A : Type 0} → Option A → Option A → Option A → Type 0
Replaces none old now = now ≡ old
Replaces (some v) old now = now ≡ some v

-- A snapshot against the one that was read: the state, the next revision, and the fields that the
-- request gives; the time of the start stays when there is one.
pub record Updates (req : Request) (old now : JobSnapshot) : Type 0 where
  pub state : now.state ≡ req.state
  pub revision : now.revision ≡ old.revision + 1
  pub phase : Replaces req.phase old.phase now.phase
  pub progress : Replaces req.progress old.progress now.progress
  pub result : Replaces req.result old.result now.result
  pub problem : Replaces req.problem old.problem now.problem
  pub resolved : Replaces req.resolved_spec_digest old.resolved_spec_digest now.resolved_spec_digest
  pub started : Replaces old.started_at req.started_at now.started_at
  pub finished : Replaces req.finished_at old.finished_at now.finished_at
  pub job_id : now.job_id ≡ old.job_id
  pub digest : now.submitted_spec_digest ≡ old.submitted_spec_digest
  pub retry : now.retry_of ≡ old.retry_of
  pub cancel : now.cancel_requested ≡ old.cancel_requested

abbrev event_of : ℕ → EventType → JobSnapshot → JobEvent
event_of id type s = record { job_id = id; revision = s.revision; event_type = type; snapshot = s }

-- The answer and the database that a write leaves: the job has the snapshot that was returned, no
-- other job has changed, and there is one more event.
pub record Written (req : Request) (id : ℕ) (old : JobSnapshot) (before : Database)
    (answer : Result (Option JobSnapshot)) (now : Database) : Type 0 where
  pub snapshot : JobSnapshot
  pub answered : answer ≡ ok (some snapshot)
  pub updates : Updates req old snapshot
  pub stored : get_snapshot id now ≡ ok snapshot
  pub others : (other : ℕ) → (other ≡ id) ⊎ (find_job other now.jobs ≡ find_job other before.jobs)
  pub events :
      now.job_events
      ≡ record {
        job_id = id;
        revision = snapshot.revision;
        event_type = transition_event req.event_type;
        snapshot = snapshot;
      }
        ∷ before.job_events
  pub requests : now.cancel_requests ≡ before.cancel_requests
