-- ===== src/Jobs/Events.antt =====
-- The event log of src/trex_cli/storage.py under any interleaving of tasks.
use trex_cli.Prelude.{
  ℕ, suc, ◌≡◌, refl, ap, ◌∙◌, inl, inr, true, false, Option, none, some, List, [], ◌∷◌, map, arith,
  Bool-cases, ◌==◌,
}
use trex_cli.Jobs.{
  JobSnapshot, Job, Database, Result, raised, ok, job_accepted, cancel_requested, transition_event,
}
use trex_cli.Jobs.Store.{
  find_job, has_job, set_snapshot, set_cancel, cancel_snapshot, new_row, create_job, cancel_found,
  request_cancel, get_snapshot,
}
use trex_cli.Jobs.Transition.{Request, updated_snapshot, attempt}
use trex_cli.Jobs.System.{
  accepted_snapshot, after, Agent, Action, submit, cancel, read, write, step, run, last_read,
  note_read, write_read,
}
use trex_cli.Jobs.Effects.{RowAgrees, set_snapshot-keeps, set_cancel-keeps, has_job-found}
use trex_cli.Jobs.Soundness.{Sound, step-Sound}
use trex_cli.Jobs.Writes.{event, attempt_tables, submit_tables, cancel_tables}
use trex_cli.Jobs.Log.{
  log_of, revision_of, Distinct, Logged, write-Logged, map-Distinct, set_cancel_mine,
  set_cancel_other, next_entry,
}

-- Every job has one row, and its events have the revisions from 1 to that of the row, inserted in
-- this order.
pub record IsLogged (db : Database) : Type 0 where
  pub distinct : Distinct db.jobs
  pub logged : (id : ℕ) → Logged id db.jobs db.job_events

next_revision :
    (req : Request) (s : JobSnapshot) → (updated_snapshot req s).revision ≡ suc s.revision
unfolding updated_snapshot
next_revision req s = omega arith

next_cancel :
    (r : Job)
    → r.revision ≡ r.snapshot.revision
    → (cancel_snapshot r.snapshot).revision ≡ suc r.revision
unfolding cancel_snapshot
next_cancel r agrees = omega arith

found_there :
    (id : ℕ) (jobs : List Job) (r : Job) → find_job id jobs ≡ some r → has_job id jobs ≡ true
unfolding find_job has_job
found_there id [] r found = absurd (cc found)
found_there id (q ∷ qs) r found = ground (arith, found_there id qs r)

write-IsLogged :
    (req : Request) (s : JobSnapshot) (db : Database)
    → IsLogged db
    → IsLogged (after db (attempt req s db))
write-IsLogged req s db inv = elim (attempt_tables req s db) [
  | inl same ↦ rw same inv
  | inr (jobs, (one, events)) ↦
      let u = updated_snapshot req s in
      record {
        distinct = rw jobs (
            map-Distinct (set_snapshot u s.revision req.resolved_spec_json)
              (set_snapshot-keeps u s.revision req.resolved_spec_json) db.jobs inv.distinct);
        logged = λ id.
            rw (jobs, events)
              (write-Logged u s.revision req.resolved_spec_json (transition_event req.event_type) id
                db.jobs db.job_events inv.distinct one (next_revision req s) (inv.logged id));
      }
]

cancel-Logged :
    (job : ℕ) (r : Job) (id : ℕ) (db : Database)
    → find_job job db.jobs ≡ some r
    → r.revision ≡ r.snapshot.revision
    → Logged id db.jobs db.job_events
    → Logged id
        (map (set_cancel job (cancel_snapshot r.snapshot)) db.jobs)
        (event job cancel_requested (cancel_snapshot r.snapshot) ∷ db.job_events)
unfolding log_of
cancel-Logged job r id db found agrees h = elim (Bool-cases (job == id)) [
  | inr other ↦ rw (other, set_cancel_other job (cancel_snapshot r.snapshot) id db.jobs other) h
  | inl mine ↦
      let u = cancel_snapshot r.snapshot in
      let same : id ≡ job = ground arith in
      rw mine (
        next_entry id u.revision r.revision (log_of id db.job_events)
          (revision_of (find_job id db.jobs)) _ (next_cancel r agrees) h
          (ap (λ x. revision_of (find_job x db.jobs)) same ∙ ap revision_of found)
          (ap (λ x. revision_of (find_job x (map (set_cancel job u) db.jobs))) same
            ∙ set_cancel_mine job u db.jobs (found_there job db.jobs r found)))
]

cancel-IsLogged :
    (job request : ℕ) (o : Option Job) (db : Database)
    → find_job job db.jobs ≡ o
    → RowAgrees o
    → IsLogged db
    → IsLogged (after db (cancel_found job request o db))
unfolding cancel_found after
cancel-IsLogged job request none db found agrees inv = inv
cancel-IsLogged job request (some r) db found agrees inv = elim (cancel_tables job request r db) [
  | inl same ↦ rw same inv
  | inr (jobs, events) ↦
      let u = cancel_snapshot r.snapshot in
      record {
        distinct =
            rw jobs (map-Distinct (set_cancel job u) (set_cancel-keeps job u) db.jobs inv.distinct);
        logged = λ id.
            rw (jobs, events) (cancel-Logged job r id db found agrees.revision (inv.logged id));
      }
]

submit-Logged :
    (id kind digest principal key document : ℕ) (retry_of : Option ℕ) (now : ℕ) (job : ℕ)
    (db : Database)
    → has_job id db.jobs ≡ false
    → Logged job db.jobs db.job_events
    → Logged job
        (new_row (accepted_snapshot id kind digest retry_of now) principal key document retry_of
          ∷ db.jobs)
        (event id job_accepted (accepted_snapshot id kind digest retry_of now) ∷ db.job_events)
unfolding log_of find_job new_row accepted_snapshot
submit-Logged id kind digest principal key document retry_of now job db fresh h =
    elim (Bool-cases (id == job)) [
      | inr other ↦ rw other h
      | inl mine ↦
          let same : job ≡ id = ground arith in
          rw mine (
            next_entry job 1 0 (log_of job db.job_events) (revision_of (find_job job db.jobs)) 1
              refl h
              (ap (λ x. revision_of (find_job x db.jobs)) same
                ∙ ap revision_of (has_job-found id db.jobs fresh))
              refl)
    ]

submit-IsLogged :
    (id kind principal key digest document : ℕ) (retry_of : Option ℕ) (now : ℕ) (db : Database)
    → IsLogged db
    → IsLogged (
        after db (
          create_job
            (accepted_snapshot id kind digest retry_of now)
            principal
            key
            document
            retry_of
            db))
unfolding accepted_snapshot new_row
submit-IsLogged id kind principal key digest document retry_of now db inv =
    elim (submit_tables (accepted_snapshot id kind digest retry_of now) principal key document
      retry_of db) [
        | inl same ↦ rw same inv
        | inr (jobs, (fresh, events)) ↦ record {
          distinct = rw jobs (fresh, inv.distinct);
          logged = λ job.
              rw (jobs, events)
                (submit-Logged id kind digest principal key document retry_of now job db fresh
                  (inv.logged job));
        }
      ]

note_read-IsLogged :
    (task : ℕ) (o : Result JobSnapshot) (a : Agent)
    → IsLogged a.database
    → IsLogged (note_read task o a).database
unfolding note_read
note_read-IsLogged task (raised e) a inv = inv
note_read-IsLogged task (ok s) a inv = inv

write_read-IsLogged :
    (req : Request) (o : Option JobSnapshot) (a : Agent)
    → IsLogged a.database
    → IsLogged (write_read req o a).database
unfolding write_read
write_read-IsLogged req none a inv = inv
write_read-IsLogged req (some s) a inv = write-IsLogged req s a.database inv

step-IsLogged :
    (x : Action) (a : Agent) → Sound a → IsLogged a.database → IsLogged (step x a).database
unfolding step request_cancel
step-IsLogged (submit id kind principal key digest document retry_of now) a sound inv =
    submit-IsLogged id kind principal key digest document retry_of now a.database inv
step-IsLogged (cancel id request) a sound inv =
    cancel-IsLogged id request (find_job id a.database.jobs) a.database refl (sound.rows id) inv
step-IsLogged (read task id) a sound inv =
    note_read-IsLogged task (get_snapshot id a.database) a inv
step-IsLogged (write task req) a sound inv = write_read-IsLogged req (last_read task a.reads) a inv

-- From a sound state, every sequence of actions keeps the log complete: every job has one row, and
-- its events have the revisions 1, 2, up to the revision of the row, each once and in this order.
pub run-IsLogged :
    (xs : List Action) (a : Agent) → Sound a → IsLogged a.database → IsLogged (run xs a).database
unfolding run
run-IsLogged [] a sound inv = inv
run-IsLogged (x ∷ xs) a sound inv =
    run-IsLogged xs (step x a) (step-Sound x a sound) (step-IsLogged x a sound inv)
