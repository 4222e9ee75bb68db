-- ===== src/Jobs/Examples.antt =====
-- Runs of the job store on concrete inputs (src/trex_cli/jobs.py), and the theorems of Jobs at these
-- inputs.
use trex_cli.Prelude.{
  ℕ, ◌-◌, ◌≡◌, refl, true, Option, none, some, List, [], ◌∷◌, ◌==◌, if◌then◌else◌,
}
use trex_cli.Jobs.{
  JobState, Job, validating, succeeded, failed, cancelled, accepted, terminal, Database,
}
use trex_cli.Jobs.Store.{
  find_job, has_job, create_job, find_key, check_retry, insert_job, insert_event, has_event,
  with_value, new_row, request_cancel, cancel_found, has_request, cancel_snapshot, set_cancel,
  snapshot_of, get_snapshot, update_snapshot, rowcount, at_revision, set_snapshot, coalesce,
}
use trex_cli.Jobs.Transition.{
  Request, transition, attempts, attempt, check, write_checked, written, updated_snapshot,
  is_expected, one_of, same_state, state_index,
}
use trex_cli.Jobs.System.{
  Agent, Action, submit, cancel, read, write, run, last_read, step, note_read, write_read, after,
  accepted_snapshot,
}
use trex_cli.Jobs.Soundness.{Sound, run-Sound}
use trex_cli.Jobs.Lifecycle.{CancelHolds, run-CancelHolds, LaterJob, run-LaterJob, run-final}
use trex_cli.Jobs.Outcome.{Answers, transition-Answers}
use trex_cli.Jobs.Written.{Written}
use trex_cli.Jobs.Log.{log_of, countdown, revision_of}
use trex_cli.Jobs.Observation.{
  poll, polls, poll_events, then_turns, idle_end, yield_events, events_after, rows_after,
  newer_events, order_by_revision, place, returns,
}
use trex_cli.Jobs.Ordering.{Followed}
use trex_cli.Jobs.Following.{Consecutive, poll-Consecutive}
use trex_cli.Jobs.Turns.{StreamOf}
use trex_cli.Jobs.Stream.{polled, polls-run, run-Recorded}
use trex_cli.Jobs.Events.{IsLogged, run-IsLogged}
use trex_cli.Jobs.Idempotence.{Replays, create_job-Replays}

-- a transition to a state that may come from any of some states
abbrev to : JobState → Option (List JobState) → Request
to state expected = record {
  state = state;
  event_type = 0;
  expected_states = expected;
  phase = some 1;
  progress = none;
  result = none;
  problem = none;
  resolved_spec_digest = none;
  resolved_spec_json = none;
  started_at = none;
  finished_at = some 9;
}

abbrev empty : Agent
empty = record {
  database = record { jobs = []; job_events = []; cancel_requests = [] };
  reads = [];
}

-- Job 5 is accepted and validated; a cancel request comes between a read and its write.
abbrev to_cancel : List Action
to_cancel =
    submit 5 0 1 2 77 88 none 9
    ∷ read 1 5
    ∷ write 1 (to validating (some (accepted ∷ [])))
    ∷ read 1 5
    ∷ cancel 5 3
    ∷ []

-- The write is refused, also after a new read, and the job ends CANCELLED; what another task read
-- before does not change it.
abbrev to_end : List Action
to_end =
    write 1 (to succeeded none)
    ∷ read 1 5
    ∷ write 1 (to succeeded none)
    ∷ read 2 5
    ∷ write 1 (to cancelled none)
    ∷ write 2 (to failed none)
    ∷ []

abbrev pub requested : Agent
requested = run to_cancel empty

abbrev summary : Option Job → ℕ × JobState
summary none = (0, accepted)
summary (some r) = (r.revision, r.state)

to_end-run : summary (find_job 5 (run to_end requested).database.jobs) ≡ (4, cancelled)
unfolding run step note_read write_read after accepted_snapshot last_read create_job find_key
    check_retry insert_job has_job insert_event has_event with_value new_row request_cancel
    cancel_found has_request cancel_snapshot set_cancel snapshot_of get_snapshot attempt check
    write_checked written update_snapshot rowcount at_revision set_snapshot coalesce
    updated_snapshot terminal is_expected one_of same_state state_index find_job
to_end-run = refl

empty-Sound : Sound empty
unfolding find_job last_read
empty-Sound = record { rows = λ id. tt; reads = λ task. tt }

empty-IsLogged : IsLogged empty.database
unfolding log_of countdown find_job
empty-IsLogged = record { distinct = tt; logged = λ id. refl }

run-Sound_example : Sound requested
run-Sound_example = run-Sound to_cancel empty empty-Sound

abbrev requested_job : Job
requested_job = record {
  job_id = 5;
  principal = 1;
  idempotency_key = 2;
  spec_digest = 77;
  document = 88;
  resolved_spec = none;
  kind = 0;
  state = validating;
  revision = 3;
  snapshot = record {
    job_id = 5;
    revision = 3;
    state = validating;
    kind = 0;
    retry_of = none;
    submitted_at = 9;
    submitted_spec_digest = 77;
    resolved_spec_digest = none;
    phase = some 1;
    progress = some (0, none);
    cancel_requested = true;
    result = none;
    problem = none;
    started_at = none;
    finished_at = some 9;
  };
  retry_of = none;
  accepted_at = 9;
}

to_cancel-run : find_job 5 requested.database.jobs ≡ some requested_job
unfolding run step note_read write_read after accepted_snapshot last_read create_job find_key
    check_retry insert_job has_job insert_event has_event with_value new_row request_cancel
    cancel_found has_request cancel_snapshot set_cancel snapshot_of get_snapshot attempt check
    write_checked written update_snapshot rowcount at_revision set_snapshot coalesce
    updated_snapshot terminal is_expected one_of same_state state_index find_job
to_cancel-run = refl

run-CancelHolds_example : CancelHolds (find_job 5 (run to_end requested).database.jobs)
run-CancelHolds_example =
    run-CancelHolds to_end requested 5 requested_job (run-Sound to_cancel empty empty-Sound)
      to_cancel-run refl

run-LaterJob_example : LaterJob requested_job (find_job 5 (run to_end requested).database.jobs)
run-LaterJob_example =
    run-LaterJob to_end requested 5 requested_job (run-Sound to_cancel empty empty-Sound)
      to_cancel-run

abbrev ended : Agent
ended = run to_end requested

abbrev ended_job : Job
ended_job = record requested_job {
  state = cancelled;
  revision = 4;
  snapshot = record requested_job.snapshot { state = cancelled; revision = 4 };
}

ended-found : find_job 5 ended.database.jobs ≡ some ended_job
unfolding run step note_read write_read after accepted_snapshot last_read create_job find_key
    check_retry insert_job has_job insert_event has_event with_value new_row request_cancel
    cancel_found has_request cancel_snapshot set_cancel snapshot_of get_snapshot attempt check
    write_checked written update_snapshot rowcount at_revision set_snapshot coalesce
    updated_snapshot terminal is_expected one_of same_state state_index find_job
ended-found = refl

ended-terminal : terminal ended_job.snapshot.state ≡ true
unfolding terminal
ended-terminal = refl

-- task 2 still has what it read before the job ended
run-final_example :
    find_job 5 (run (write 2 (to failed none) ∷ cancel 5 4 ∷ []) ended).database.jobs
    ≡ some ended_job
run-final_example =
    run-final (write 2 (to failed none) ∷ cancel 5 4 ∷ []) ended 5 ended_job
      (run-Sound to_end requested (run-Sound to_cancel empty empty-Sound)) ended-found
      ended-terminal

key-found : find_key 1 2 requested.database.jobs ≡ some requested_job
unfolding run step note_read write_read after accepted_snapshot last_read create_job find_key
    check_retry insert_job has_job insert_event has_event with_value new_row request_cancel
    cancel_found has_request cancel_snapshot set_cancel snapshot_of get_snapshot attempt check
    write_checked written update_snapshot rowcount at_revision set_snapshot coalesce
    updated_snapshot terminal is_expected one_of same_state state_index find_job
key-found = refl

create_job-Replays_example :
    Replays requested_job 77 ended.database
      (create_job (accepted_snapshot 6 0 77 none 12) 1 2 88 none ended.database)
unfolding accepted_snapshot
create_job-Replays_example =
    create_job-Replays to_end requested 1 2 requested_job (accepted_snapshot 6 0 77 none 12) 88 none
      (run-Sound to_cancel empty empty-Sound)
      (run-IsLogged to_cancel empty empty-Sound empty-IsLogged) key-found

-- another task cancels the job before the first write
abbrev cancel_first : ℕ → Database → Database
cancel_first n db = if n == 5 then after db (request_cancel 5 9 db) else db

transition-Answers_example :
    Answers
      (to failed none)
      (transition attempts cancel_first 5 (to failed none) requested.database).0
      (transition attempts cancel_first 5 (to failed none) requested.database).1
transition-Answers_example =
    transition-Answers attempts cancel_first 5 (to failed none) requested.database

expected : is_expected (some (validating ∷ [])) requested_job.snapshot.state ≡ true
unfolding is_expected one_of same_state state_index
expected = refl

run-IsLogged_example : IsLogged requested.database
run-IsLogged_example = run-IsLogged to_cancel empty empty-Sound empty-IsLogged

requested-Followed : Followed requested.database
requested-Followed =
    (run-IsLogged to_cancel empty empty-Sound empty-IsLogged, run-Recorded to_cancel empty tt)

poll-Consecutive_example :
    Consecutive 1
      (revision_of (find_job 5 requested.database.jobs) - 1)
      (get_snapshot 5 requested.database)
      (get_snapshot 5 ended.database)
      (poll 5 1 requested.database ended.database)
poll-Consecutive_example = poll-Consecutive 5 1 requested.database ended.database requested-Followed

-- The job ends between the two reads of a turn that finds no events: the loop goes on, and the next
-- turn yields the last revision and returns.
ended_between :
    polls 5 3 ((requested.database, ended.database) ∷ (ended.database, ended.database) ∷ [])
    ≡ (ended_job.snapshot ∷ [], (4, returns))
unfolding run step note_read write_read after accepted_snapshot last_read create_job find_key
    check_retry insert_job has_job insert_event has_event with_value new_row request_cancel
    cancel_found has_request cancel_snapshot set_cancel snapshot_of get_snapshot attempt check
    write_checked written update_snapshot rowcount at_revision set_snapshot coalesce
    updated_snapshot terminal is_expected one_of same_state state_index find_job polls poll
    poll_events then_turns idle_end yield_events events_after rows_after newer_events
    order_by_revision place
ended_between = refl

polls-run_example :
    StreamOf 5 0
      (polled ((to_cancel, []) ∷ ([], to_end) ∷ ([], []) ∷ []) empty)
      (polls 5 0 (polled ((to_cancel, []) ∷ ([], to_end) ∷ ([], []) ∷ []) empty))
polls-run_example =
    polls-run 5 0 ((to_cancel, []) ∷ ([], to_end) ∷ ([], []) ∷ []) empty empty-Sound
      (empty-IsLogged, tt)
