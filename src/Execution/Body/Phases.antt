-- ===== src/Execution/Body/Phases.antt =====
-- `_phase`, `_cancelled`, `_finish_cancel`, `_fail` and `_remote_hard_duration` of src/trex_cli/jobs.py.
use trex_cli.Prelude.{ℕ, ◌+◌, Bool, false, Option, none, some, List, [], ◌∷◌, ltb, if◌then◌else◌}
use trex_cli.Policy.{
  JobDocument, stateless, pcap_replay, stateful_replay, udp_workload, packet_storm,
  rfc2544_throughput, rfc2544_suite,
}
use trex_cli.Jobs.{
  JobState, draining, collecting, cancelled, failed, terminal, JobSnapshot, Database,
}
use trex_cli.Jobs.Transition.{Request, same_state}
use trex_cli.Execution.{
  Stop, trex_error, Await, value, stops, Interruption, EngineCall, stop, cleanup, Execution,
}
use trex_cli.Execution.Awaits.{
  and_then, finally_do, call_engine, await_snapshot, await_transition, await_release,
}

-- `_remote_hard_duration`, in milliseconds
unfoldable pub capped : ℕ → Option ℕ → ℕ → ℕ
capped remaining none extra = remaining
capped remaining (some duration) extra =
    if ltb (duration + extra) remaining then duration + extra else remaining

unfoldable pub remote_hard_duration : JobDocument → ℕ → ℕ
remote_hard_duration (stateless d) remaining = capped remaining d.duration 5000
remote_hard_duration (stateful_replay d) remaining = capped remaining (some d.duration) 30000
remote_hard_duration (udp_workload d) remaining = capped remaining (some d.duration) 5000
remote_hard_duration (packet_storm d) remaining = capped remaining (some d.duration) 5000
remote_hard_duration (pcap_replay d) remaining = remaining
remote_hard_duration (rfc2544_throughput d) remaining = remaining
remote_hard_duration (rfc2544_suite d) remaining = remaining

-- The phases, each with its event.
abbrev pub warming_up_phase : ℕ
warming_up_phase = 1

abbrev pub run_phase : ℕ
run_phase = 2

abbrev pub draining_phase : ℕ
draining_phase = 3

abbrev pub collecting_phase : ℕ
collecting_phase = 4

abbrev pub completed_phase : ℕ
completed_phase = 5

abbrev pub failed_phase : ℕ
failed_phase = 6

abbrev pub cancelling_drain_phase : ℕ
cancelling_drain_phase = 7

abbrev pub cancelling_collect_phase : ℕ
cancelling_collect_phase = 8

abbrev pub cancelled_phase : ℕ
cancelled_phase = 9

-- A transition to a state that names only its phase.
unfoldable pub state_request : JobState → ℕ → Option (List JobState) → Request
state_request state name expected = record {
  state = state;
  event_type = name;
  expected_states = expected;
  phase = some name;
  progress = none;
  result = none;
  problem = none;
  resolved_spec_digest = none;
  resolved_spec_json = none;
  started_at = none;
  finished_at = none;
}

module _ (engine : List (EngineCall × Option Stop) → EngineCall → Option Stop)
    (interrupts : ℕ → Interruption) (others : ℕ → ℕ → Database → Database) (now : ℕ) where
  -- `_fail`, with any expected states
  unfoldable pub fail : ℕ → ℕ → Execution → Await Unit × Execution
  fail id problem x =
      and_then
        (await_transition engine interrupts others id
          (record (state_request failed failed_phase none) {
            problem = some problem;
            finished_at = some now;
          })
          x)
        (λ u y. (value tt, y))

  -- `LEASE_LOST` where the transition returned None
  unfoldable pub lease_kept : Option JobSnapshot → Execution → Await Unit × Execution
  lease_kept none x = (stops trex_error, x)
  lease_kept (some s) x = (value tt, x)

  -- `_phase`
  unfoldable pub enter_phase : ℕ → JobState → ℕ → Option ℕ → Execution → Await Unit × Execution
  enter_phase id state name started x =
      and_then (await_snapshot engine interrupts others id x) (λ current y.
        and_then
          (await_transition engine interrupts others id
            (record (state_request state name (some (current.state ∷ []))) { started_at = started })
            y)
          lease_kept)

  -- `if handle is not None: await ...`
  unfoldable pub with_handle : EngineCall → Execution → Await Unit × Execution
  with_handle c x = if x.handle then call_engine engine interrupts others c x else (value tt, x)

  -- the steps of `_finish_cancel` to a state, unless the job is in it
  unfoldable pub cancel_phase :
      ℕ → JobState → ℕ → EngineCall → JobSnapshot → Execution → Await Unit × Execution
  cancel_phase id state name c current x =
      if same_state current.state state
      then (value tt, x)
      else and_then
          (await_transition engine interrupts others id
            (state_request state name (some (current.state ∷ []))) x)
          (λ u y. with_handle c y)

  unfoldable pub cancel_steps : ℕ → JobSnapshot → Execution → Await Unit × Execution
  cancel_steps id current x =
      if terminal current.state
      then (value tt, x)
      else and_then (cancel_phase id draining cancelling_drain_phase stop current x) (λ u y.
        and_then (await_snapshot engine interrupts others id y) (λ again z.
          and_then (cancel_phase id collecting cancelling_collect_phase cleanup again z) (λ v w.
            and_then
              (await_transition engine interrupts others id
                (record (state_request cancelled cancelled_phase (some (collecting ∷ []))) {
                  finished_at = some now;
                })
                w)
              (λ s q. (value tt, q)))))

  unfoldable pub release_without_handle : ℕ → Execution → Await Unit × Execution
  release_without_handle id x =
      if x.handle then (value tt, x) else await_release engine interrupts others id false x

  -- `_finish_cancel`
  unfoldable pub finish_cancel : ℕ → Execution → Await Unit × Execution
  finish_cancel id x =
      finally_do (and_then (await_snapshot engine interrupts others id x) (cancel_steps id))
        (release_without_handle id)

  unfoldable pub cancel_if :
      ℕ → Bool → (Execution → Await Unit × Execution) → Execution → Await Unit × Execution
  cancel_if id requested next x = if requested then finish_cancel id x else next x

  -- `if await self._cancelled(job_id, handle): return`
  unfoldable pub unless_cancelled :
      ℕ → (Execution → Await Unit × Execution) → Execution → Await Unit × Execution
  unless_cancelled id next x =
      and_then (await_snapshot engine interrupts others id x)
        (λ current y. cancel_if id current.cancel_requested next y)
