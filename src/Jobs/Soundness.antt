-- ===== src/Jobs/Soundness.antt =====
-- The invariant of the agent's tasks on one database (src/trex_cli/jobs.py and
-- src/trex_cli/storage.py), and how a job's row moves under any interleaving.
use trex_cli.Prelude.{
  ℕ, ◌≡◌, refl, sym, ap, ◌∙◌, inl, inr, Option, none, some, List, [], ◌∷◌, arith, Bool-cases, ◌==◌,
}
use trex_cli.Jobs.{JobSnapshot, Job}
use trex_cli.Jobs.Store.{find_job, get_snapshot, snapshot_of}
use trex_cli.Jobs.Transition.{Request}
use trex_cli.Jobs.System.{
  Agent, Action, submit, cancel, read, write, step, run, last_read, note_read, write_read,
}
use trex_cli.Jobs.Advance.{
  Agrees, Moves, Moves-refl, Moves-trans, HasId, find_job-HasId, SeenIn, SeenIn-Moves,
}
use trex_cli.Jobs.Effects.{
  RowAgrees, Effect, Effect-refl, write-Effect, cancel-Effect, submit-Effect,
}

-- The state of an agent that only its actions have made: rows agree with their snapshots, and
-- what the tasks have read is not ahead of the rows.
abbrev pub ReadIn : List Job → Option JobSnapshot → Type 0
ReadIn jobs none = Unit
ReadIn jobs (some s) = SeenIn s (find_job s.job_id jobs)

pub record Sound (a : Agent) : Type 0 where
  pub rows : (id : ℕ) → RowAgrees (find_job id a.database.jobs)
  pub reads : (task : ℕ) → ReadIn a.database.jobs (last_read task a.reads)

-- What a task reads is not ahead of the row.
found-SeenIn :
    (id : ℕ) (jobs : List Job) (r : Job)
    → find_job id jobs ≡ some r
    → HasId id (some r)
    → Agrees r
    → SeenIn r.snapshot (find_job r.snapshot.job_id jobs)
found-SeenIn id jobs r e h agrees =
    let key : r.snapshot.job_id ≡ id = sym agrees.job_id ∙ h in
    rw (ap (λ x. find_job x jobs) key ∙ e) (omega arith, λ _. refl)

note_read-ReadIn :
    (reader id : ℕ) (a : Agent) (o : Option Job) (task : ℕ)
    → Sound a
    → find_job id a.database.jobs ≡ o
    → HasId id o
    → RowAgrees o
    → ReadIn
        (note_read reader (snapshot_of o) a).database.jobs
        (last_read task (note_read reader (snapshot_of o) a).reads)
unfolding note_read snapshot_of last_read
note_read-ReadIn reader id a none task sound e h k = sound.reads task
note_read-ReadIn reader id a (some r) task sound e h k = elim (Bool-cases (reader == task)) [
  | inl mine ↦ rw mine (found-SeenIn id a.database.jobs r e h k)
  | inr other ↦ rw other (sound.reads task)
]

note_read-jobs :
    (reader : ℕ) (o : Option Job) (a : Agent)
    → (note_read reader (snapshot_of o) a).database ≡ a.database
unfolding note_read snapshot_of
note_read-jobs reader none a = refl
note_read-jobs reader (some r) a = refl

write_read-Effect :
    (req : Request) (o : Option JobSnapshot) (a : Agent) (id : ℕ)
    → ReadIn a.database.jobs o
    → Effect (find_job id a.database.jobs) (find_job id (write_read req o a).database.jobs)
unfolding write_read
write_read-Effect req none a id seen = Effect-refl (find_job id a.database.jobs)
write_read-Effect req (some s) a id seen = write-Effect req s a.database id seen

write_read-reads :
    (req : Request) (o : Option JobSnapshot) (a : Agent) → (write_read req o a).reads ≡ a.reads
unfolding write_read
write_read-reads req none a = refl
write_read-reads req (some s) a = refl

step-Effect :
    (x : Action) (a : Agent) (id : ℕ)
    → Sound a
    → Effect (find_job id a.database.jobs) (find_job id (step x a).database.jobs)
unfolding step get_snapshot
step-Effect (submit job kind principal key digest document retry_of now) a id sound =
    submit-Effect job kind principal key digest document retry_of now a.database id
step-Effect (cancel job request) a id sound = cancel-Effect job request a.database id
step-Effect (read task job) a id sound =
    rw (note_read-jobs task (find_job job a.database.jobs) a)
      (Effect-refl (find_job id a.database.jobs))
step-Effect (write task req) a id sound =
    write_read-Effect req (last_read task a.reads) a id (sound.reads task)

-- Reads that are not ahead of the rows stay so when the rows advance.
ReadIn-Moves :
    (before now : List Job) (o : Option JobSnapshot)
    → ((id : ℕ) → Moves (find_job id before) (find_job id now))
    → ReadIn before o
    → ReadIn now o
ReadIn-Moves before now none moves h = tt
ReadIn-Moves before now (some s) moves h =
    SeenIn-Moves s (find_job s.job_id before) (find_job s.job_id now) (moves s.job_id) h

step-reads :
    (x : Action) (a : Agent) (task : ℕ)
    → Sound a
    → ((id : ℕ) → Moves (find_job id a.database.jobs) (find_job id (step x a).database.jobs))
    → ReadIn (step x a).database.jobs (last_read task (step x a).reads)
unfolding step get_snapshot
step-reads (submit job kind principal key digest document retry_of now) a task sound moves =
    ReadIn-Moves a.database.jobs _ (last_read task a.reads) moves (sound.reads task)
step-reads (cancel job request) a task sound moves =
    ReadIn-Moves a.database.jobs _ (last_read task a.reads) moves (sound.reads task)
step-reads (read reader job) a task sound moves =
    note_read-ReadIn reader job a (find_job job a.database.jobs) task sound refl
      (find_job-HasId job a.database.jobs) (sound.rows job)
step-reads (write writer req) a task sound moves =
    rw (write_read-reads req (last_read writer a.reads) a) (
      ReadIn-Moves a.database.jobs (write_read req (last_read writer a.reads) a).database.jobs
        (last_read task a.reads) moves (sound.reads task))

step-Moves :
    (x : Action) (a : Agent)
    → Sound a
    → (id : ℕ) → Moves (find_job id a.database.jobs) (find_job id (step x a).database.jobs)
step-Moves x a sound id = (step-Effect x a id sound (sound.rows id)).0

pub step-Sound : (x : Action) (a : Agent) → Sound a → Sound (step x a)
step-Sound x a sound = record {
  rows = λ id. (step-Effect x a id sound (sound.rows id)).1;
  reads = λ task. step-reads x a task sound (step-Moves x a sound);
}

-- Every sequence of actions keeps the state sound: each job's columns agree with its snapshot, no
-- SUCCEEDED job has a cancel request, and what a task has read is the snapshot of its row or has
-- an earlier revision.
pub run-Sound : (xs : List Action) (a : Agent) → Sound a → Sound (run xs a)
unfolding run
run-Sound [] a sound = sound
run-Sound (x ∷ xs) a sound = run-Sound xs (step x a) (step-Sound x a sound)

pub run-Moves :
    (xs : List Action) (a : Agent) (id : ℕ)
    → Sound a
    → Moves (find_job id a.database.jobs) (find_job id (run xs a).database.jobs)
unfolding run
run-Moves [] a id sound = Moves-refl (find_job id a.database.jobs)
run-Moves (x ∷ xs) a id sound =
    Moves-trans (find_job id a.database.jobs) (find_job id (step x a).database.jobs)
      (find_job id (run xs (step x a)).database.jobs) (step-Moves x a sound id)
      (run-Moves xs (step x a) id (step-Sound x a sound))
