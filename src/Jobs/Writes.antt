-- ===== src/Jobs/Writes.antt =====
-- The tables `jobs` and `job_events` of src/trex_cli/storage.py after one call that writes them.
use trex_cli.Prelude.{ℕ, ◌≡◌, ◌⊎◌, false, Option, some, ◌∷◌, map, arith}
use trex_cli.Jobs.{
  JobSnapshot, Job, JobEvent, Database, EventType, job_accepted, cancel_requested, transition_event,
}
use trex_cli.Jobs.Store.{
  has_job, set_snapshot, set_cancel, cancel_snapshot, new_row, create_job, insert_job, insert_event,
  with_value, update_snapshot, rowcount, cancel_found,
}
use trex_cli.Jobs.Transition.{Request, updated_snapshot, attempt, check, write_checked, written}
use trex_cli.Jobs.System.{after}

-- The row of an INSERT of an event.
abbrev pub event : ℕ → EventType → JobSnapshot → JobEvent
event id type s = record { job_id = id; revision = s.revision; event_type = type; snapshot = s }

-- The tables after a write: unchanged, or one row and one event changed together.
pub attempt_tables :
    (req : Request) (s : JobSnapshot) (db : Database)
    → (after db (attempt req s db) ≡ db)
      ⊎ (((after db (attempt req s db)).jobs
            ≡ map (set_snapshot (updated_snapshot req s) s.revision req.resolved_spec_json) db.jobs)
          × ((rowcount (updated_snapshot req s).job_id s.revision db.jobs ≡ 1)
              × ((after db (attempt req s db)).job_events
                  ≡ event
                      (updated_snapshot req s).job_id
                      (transition_event req.event_type)
                      (updated_snapshot req s)
                    ∷ db.job_events)))
unfolding attempt write_checked written check update_snapshot insert_event after
attempt_tables req s db = ground arith

pub submit_tables :
    (s : JobSnapshot) (principal key document : ℕ) (retry_of : Option ℕ) (db : Database)
    → (after db (create_job s principal key document retry_of db) ≡ db)
      ⊎ (((after db (create_job s principal key document retry_of db)).jobs
            ≡ new_row s principal key document retry_of ∷ db.jobs)
          × ((has_job s.job_id db.jobs ≡ false)
              × ((after db (create_job s principal key document retry_of db)).job_events
                  ≡ event s.job_id job_accepted s ∷ db.job_events)))
unfolding create_job insert_job insert_event with_value after
submit_tables s principal key document retry_of db = ground arith

pub cancel_tables :
    (id request : ℕ) (r : Job) (db : Database)
    → (after db (cancel_found id request (some r) db) ≡ db)
      ⊎ (((after db (cancel_found id request (some r) db)).jobs
            ≡ map (set_cancel id (cancel_snapshot r.snapshot)) db.jobs)
          × ((after db (cancel_found id request (some r) db)).job_events
              ≡ event id cancel_requested (cancel_snapshot r.snapshot) ∷ db.job_events))
unfolding cancel_found insert_event with_value after
cancel_tables id request r db = ground arith
