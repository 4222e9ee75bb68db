-- ===== src/Jobs/Stream.antt =====
-- `TestJobs.observe` of src/trex_cli/jobs.py beside the tasks that change the jobs.
use trex_cli.Prelude.{ℕ, refl, inl, inr, Option, none, some, List, [], ◌∷◌, All}
use trex_cli.Jobs.{JobSnapshot, Job, Database, Result, raised, ok}
use trex_cli.Jobs.Store.{find_job, cancel_found, request_cancel, get_snapshot}
use trex_cli.Jobs.Transition.{Request, attempt}
use trex_cli.Jobs.System.{
  Agent, Action, submit, cancel, read, write, accepted_snapshot, last_read, after, note_read,
  write_read, step, run,
}
use trex_cli.Jobs.Soundness.{Sound, run-Sound}
use trex_cli.Jobs.Writes.{attempt_tables, submit_tables, cancel_tables}
use trex_cli.Jobs.Events.{run-IsLogged}
use trex_cli.Jobs.Observation.{polls}
use trex_cli.Jobs.Ordering.{Recorded, Followed}
use trex_cli.Jobs.Turns.{StreamOf, polls-StreamOf}

attempt-Recorded :
    (req : Request) (s : JobSnapshot) (db : Database)
    → Recorded db.job_events
    → Recorded (after db (attempt req s db)).job_events
attempt-Recorded req s db h = elim (attempt_tables req s db) [
  | inl same ↦ rw same h
  | inr (_, (_, events)) ↦ rw events (refl, h)
]

cancel_found-Recorded :
    (id request : ℕ) (o : Option Job) (db : Database)
    → Recorded db.job_events
    → Recorded (after db (cancel_found id request o db)).job_events
unfolding cancel_found after
cancel_found-Recorded id request none db h = h
cancel_found-Recorded id request (some r) db h = elim (cancel_tables id request r db) [
  | inl same ↦ rw same h
  | inr (_, events) ↦ rw events (refl, h)
]

note_read-Recorded :
    (task : ℕ) (o : Result JobSnapshot) (a : Agent)
    → Recorded a.database.job_events
    → Recorded (note_read task o a).database.job_events
unfolding note_read
note_read-Recorded task (raised e) a h = h
note_read-Recorded task (ok s) a h = h

write_read-Recorded :
    (req : Request) (o : Option JobSnapshot) (a : Agent)
    → Recorded a.database.job_events
    → Recorded (write_read req o a).database.job_events
unfolding write_read
write_read-Recorded req none a h = h
write_read-Recorded req (some s) a h = attempt-Recorded req s a.database h

step-Recorded :
    (x : Action) (a : Agent)
    → Recorded a.database.job_events
    → Recorded (step x a).database.job_events
unfolding step request_cancel
step-Recorded (submit id kind principal key digest document retry_of now) a h =
    elim (submit_tables (accepted_snapshot id kind digest retry_of now) principal key document
      retry_of a.database) [ inl same ↦ rw same h | inr (_, (_, events)) ↦ rw events (refl, h) ]
step-Recorded (cancel id request) a h =
    cancel_found-Recorded id request (find_job id a.database.jobs) a.database h
step-Recorded (read task id) a h = note_read-Recorded task (get_snapshot id a.database) a h
step-Recorded (write task req) a h = write_read-Recorded req (last_read task a.reads) a h

pub run-Recorded :
    (xs : List Action) (a : Agent)
    → Recorded a.database.job_events
    → Recorded (run xs a).database.job_events
unfolding run
run-Recorded [] a h = h
run-Recorded (x ∷ xs) a h = run-Recorded xs (step x a) (step-Recorded x a h)

-- The databases that the two reads of each turn meet, each after these actions of any tasks.
unfoldable pub polled : List (List Action × List Action) → Agent → List (Database × Database)
polled [] a = []
polled ((xs, ys) ∷ rest) a =
    ((run xs a).database, (run ys (run xs a)).database) ∷ polled rest (run ys (run xs a))

polled-Followed :
    (turns : List (List Action × List Action)) (a : Agent)
    → Sound a
    → Followed a.database
    → All (λ t. Followed t.0) (polled turns a)
unfolding polled
polled-Followed [] a sound h = tt
polled-Followed ((xs, ys) ∷ rest) a sound h =
    let b = run xs a in
    let sound1 = run-Sound xs a sound in
    let h1 : Followed b.database = (run-IsLogged xs a sound h.0, run-Recorded xs a h.1) in
    let h2 : Followed (run ys b).database =
      (run-IsLogged ys b sound1 h1.0, run-Recorded ys b h1.1) in
    (h1, polled-Followed rest (run ys b) (run-Sound ys b sound1) h2)

-- From a sound state with a complete log, whatever any tasks do before each of the two reads of each
-- turn: the loop of `observe`, from any revision on, yields exactly the revisions from there to its
-- cursor, in order. If it still goes on, none of these is terminal, and the cursor has reached the
-- revision of the job at every turn's first read. If it has returned, the last of them is terminal
-- and no other one is, or none is and a turn's second read met the job terminal with a revision not
-- after the cursor. If it has raised, the error is NOT_FOUND, and a turn met no such job.
pub polls-run :
    (id cursor : ℕ) (turns : List (List Action × List Action)) (a : Agent)
    → Sound a
    → Followed a.database
    → StreamOf id cursor (polled turns a) (polls id cursor (polled turns a))
polls-run id cursor turns a sound h =
    polls-StreamOf id cursor (polled turns a) (polled-Followed turns a sound h)
