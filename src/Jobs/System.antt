-- ===== src/Jobs/System.antt =====
-- The agent's tasks on one database: what `TestJobs` of src/trex_cli/jobs.py does to jobs, as a
-- sequence of transactions of any tasks in any order. A task that makes a transition reads the
-- snapshot in one transaction and writes in a later one.
use trex_cli.Prelude.{ℕ, false, Option, none, some, List, [], ◌∷◌, ◌==◌, if◌then◌else◌}
use trex_cli.Jobs.{accepted, JobSnapshot, Database, Result, raised, ok}
use trex_cli.Jobs.Store.{get_snapshot, create_job, request_cancel}
use trex_cli.Jobs.Transition.{Request, attempt}

-- The database, and what each task has read, the latest first.
pub record Agent : Type 0 where
  pub database : Database
  pub reads : List (ℕ × JobSnapshot)

-- `submit` names the job, its kind, the principal, the key, the digest, the document, the job to
-- retry and the time; `cancel` a job and a request; `read` and `write` the task.
pub data Action : Type 0 where
  submit : ℕ → ℕ → ℕ → ℕ → ℕ → ℕ → Option ℕ → ℕ → Action
  cancel : ℕ → ℕ → Action
  read : ℕ → ℕ → Action
  write : ℕ → Request → Action

-- the phase "accepted"
abbrev pub accepted_phase : ℕ
accepted_phase = 0

-- the snapshot of `TestJobs.submit`
unfoldable pub accepted_snapshot : ℕ → ℕ → ℕ → Option ℕ → ℕ → JobSnapshot
accepted_snapshot id kind digest retry_of now = record {
  job_id = id;
  revision = 1;
  state = accepted;
  kind = kind;
  submitted_spec_digest = digest;
  resolved_spec_digest = none;
  retry_of = retry_of;
  submitted_at = now;
  phase = some accepted_phase;
  progress = some (0, none);
  cancel_requested = false;
  result = none;
  problem = none;
  started_at = none;
  finished_at = none;
}

unfoldable pub last_read : ℕ → List (ℕ × JobSnapshot) → Option JobSnapshot
last_read task [] = none
last_read task (r ∷ rs) = let rest = last_read task rs in if r.0 == task then some r.1 else rest

-- the database after a transaction, which an error rolls back
unfoldable pub after : {A : Type 0} → Database → Result (A × Database) → Database
after db (raised e) = db
after db (ok answer) = answer.1

-- what a task has read, for its later write
unfoldable pub note_read : ℕ → Result JobSnapshot → Agent → Agent
note_read task (raised e) a = a
note_read task (ok snapshot) a = record a { reads = (task, snapshot) ∷ a.reads }

unfoldable pub write_read : Request → Option JobSnapshot → Agent → Agent
write_read req none a = a
write_read req (some current) a = record a {
  database = after a.database (attempt req current a.database);
}

unfoldable pub step : Action → Agent → Agent
step (submit id kind principal key digest document retry_of now) a = record a {
  database = after a.database (
      create_job (accepted_snapshot id kind digest retry_of now) principal key document retry_of
        a.database);
}
step (cancel id request) a = record a {
  database = after a.database (request_cancel id request a.database);
}
step (read task id) a = note_read task (get_snapshot id a.database) a
step (write task req) a = write_read req (last_read task a.reads) a

unfoldable pub run : List Action → Agent → Agent
run [] a = a
run (x ∷ xs) a = run xs (step x a)
