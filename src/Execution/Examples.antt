-- ===== src/Execution/Examples.antt =====
-- Executions of one job (src/trex_cli/jobs.py), and the theorems of Execution at them.
use trex_cli.Prelude.{ℕ, ◌≡◌, refl, true, false, Option, none, some, List, [], ◌∷◌}
use trex_cli.PortLeases.{Lease, available, leased, quarantined, release_row, release_ports}
use trex_cli.Jobs.{preparing, terminal, JobSnapshot, Job, Database}
use trex_cli.Jobs.Store.{
  find_job, get_snapshot, snapshot_of, rowcount, at_revision, set_snapshot, coalesce,
  update_snapshot, insert_event, has_event,
}
use trex_cli.Execution.{
  Stop, interrupted, exception, Interruption, goes_on, EngineCall, prepare, warmup, run_test, stop,
  cleanup, Marker, Execution,
}
use trex_cli.Execution.Body.{
  fail, lease_kept, enter_phase, with_handle, cancel_phase, cancel_steps, release_without_handle,
  finish_cancel, cancel_if, unless_cancelled, complete, collect, run_prepared, prepared,
  execute_body, caught, tolerate, release_all, clean_up, execute, execute_with_deadline, timed,
  state_request,
}
use trex_cli.Execution.Awaits.{
  and_then, ended_by, finally_do, has_marker, delete_marker, save_marker, effect_at, await_call,
  answer_of, call_engine, await_result, await_snapshot, await_transition, await_save, await_delete,
  await_release, await_other,
}
use trex_cli.Jobs.Transition.{
  state_index, same_state, one_of, is_expected, updated_snapshot, check, written, write_checked,
  attempt, is_conflict, end_attempt, try_read, transition,
}
use trex_cli.Execution.Guard.{dirty_after, dirty}
use trex_cli.Execution.Ending.{Secured}
use trex_cli.Execution.Preparing.{execute-Secured}
use trex_cli.Execution.Release.{NotHeld, execute-NotHeld}

-- job 1, which is PREPARING on ports 1 and 2
abbrev snapshot : JobSnapshot
snapshot = record {
  job_id = 1;
  revision = 4;
  state = preparing;
  kind = 0;
  submitted_spec_digest = 7;
  resolved_spec_digest = some 8;
  retry_of = none;
  submitted_at = 0;
  phase = none;
  progress = none;
  cancel_requested = false;
  result = none;
  problem = none;
  started_at = none;
  finished_at = none;
}

abbrev job : Job
job = record {
  job_id = 1;
  principal = 1;
  idempotency_key = 1;
  spec_digest = 7;
  document = 5;
  resolved_spec = some 6;
  kind = 0;
  state = preparing;
  revision = 4;
  snapshot = snapshot;
  retry_of = none;
  accepted_at = 0;
}

abbrev table : List Lease
table =
    record { port = 1; job = some 1; generation = 3; status = leased }
    ∷ record { port = 2; job = some 1; generation = 3; status = leased }
    ∷ record { port = 3; job = none; generation = 1; status = available }
    ∷ []

abbrev start : Execution
start = record {
  database = record { jobs = job ∷ []; job_events = []; cancel_requests = [] };
  leases = table;
  markers = [];
  calls = [];
  awaits = 0;
  handle = false;
  cleanup_confirmed = true;
}

abbrev marker : Marker
marker = record {
  marker_id = 9;
  job_id = 1;
  session_id = 2;
  logical_ports = 1 ∷ 2 ∷ [];
  fence = (1, 3) ∷ (2, 3) ∷ [];
  hard_deadline = 60000;
}

-- An engine whose cleanup raises an error.
abbrev broken : List (EngineCall × Option Stop) → EngineCall → Option Stop
broken calls cleanup = some exception
broken calls prepare = none
broken calls warmup = none
broken calls run_test = none
broken calls stop = none

abbrev never : ℕ → Interruption
never n = goes_on

abbrev alone : ℕ → ℕ → Database → Database
alone n k db = db

abbrev succeed : Option Stop × (Option Stop × (Option Stop × Option Stop))
succeed = (none, (none, (none, none)))

broken_quarantines :
    (execute broken never alone 5 marker 11 12 succeed start).1.leases
    ≡ record { port = 1; job = none; generation = 3; status = quarantined }
      ∷ record { port = 2; job = none; generation = 3; status = quarantined }
      ∷ record { port = 3; job = none; generation = 1; status = available }
      ∷ []
unfolding fail lease_kept enter_phase with_handle cancel_phase cancel_steps release_without_handle
    finish_cancel cancel_if unless_cancelled complete collect run_prepared prepared execute_body
    caught tolerate release_all clean_up execute state_request and_then ended_by finally_do
    has_marker delete_marker save_marker effect_at await_call answer_of call_engine await_result
    await_snapshot await_transition await_save await_delete await_release await_other find_job
    get_snapshot snapshot_of rowcount at_revision set_snapshot coalesce update_snapshot insert_event
    has_event state_index same_state one_of is_expected updated_snapshot check written write_checked
    attempt is_conflict end_attempt try_read transition terminal release_row release_ports
broken_quarantines = refl

not_interrupted :
    (calls : List (EngineCall × Option Stop)) (c : EngineCall)
    → broken calls c ≡ some interrupted
    → ⊥
not_interrupted calls cleanup h = cc h
not_interrupted calls prepare h = cc h
not_interrupted calls warmup h = cc h
not_interrupted calls run_test h = cc h
not_interrupted calls stop h = cc h

execute-Secured_example :
    Secured 1 table (execute broken never alone 5 marker 11 12 succeed start).1
unfolding dirty
execute-Secured_example = execute-Secured broken never alone 5 marker 11 12 succeed start refl

execute-NotHeld_example :
    NotHeld 1 (execute broken never alone 5 marker 11 12 succeed start).1.leases
execute-NotHeld_example =
    execute-NotHeld broken never alone 5 marker 11 12 succeed start (λ n. refl) not_interrupted

-- An engine whose run raises an error, and whose forced stop the deadline cancels.
abbrev late : List (EngineCall × Option Stop) → EngineCall → Option Stop
late calls cleanup = none
late calls prepare = none
late calls warmup = none
late calls run_test = some exception
late calls stop = some interrupted

-- The engine may still have something of the test, and its ports are available.
deadline_in_cleanup :
    (dirty (execute_with_deadline late never alone 5 marker 11 12 succeed true start).1.calls
      ≡ true)
    × ((execute_with_deadline late never alone 5 marker 11 12 succeed true start).1.leases
        ≡ record { port = 1; job = none; generation = 3; status = available }
          ∷ record { port = 2; job = none; generation = 3; status = available }
          ∷ record { port = 3; job = none; generation = 1; status = available }
          ∷ [])
unfolding dirty dirty_after execute_with_deadline timed fail lease_kept enter_phase with_handle
    cancel_phase cancel_steps release_without_handle finish_cancel cancel_if unless_cancelled
    complete collect run_prepared prepared execute_body caught tolerate release_all clean_up execute
    state_request and_then ended_by finally_do has_marker delete_marker save_marker effect_at
    await_call answer_of call_engine await_result await_snapshot await_transition await_save
    await_delete await_release await_other find_job get_snapshot snapshot_of rowcount at_revision
    set_snapshot coalesce update_snapshot insert_event has_event state_index same_state one_of
    is_expected updated_snapshot check written write_checked attempt is_conflict end_attempt
    try_read transition terminal release_row release_ports
deadline_in_cleanup = (refl, refl)
