-- ===== src/Execution/Awaits.antt =====
-- The awaits of `_execute` in src/trex_cli/jobs.py: calls of the engine, of the database and of
-- `_transition`, which other tasks and a cancellation may come between. Other tasks change the jobs
-- here, not the leases and the markers: the calls that they make of those tables are for their own
-- jobs, and an acquire or a confirmation of this job's ports by another task is left out.
use trex_cli.Prelude.{
  ℕ, ◌+◌, Bool, false, ◌||◌, Option, none, some, List, [], ◌∷◌, ◌==◌, if◌then◌else◌,
}
use trex_cli.PortLeases.{release_ports}
use trex_cli.Jobs.{JobSnapshot, Database, Result, ok, raised}
use trex_cli.Jobs.Store.{get_snapshot}
use trex_cli.Jobs.Transition.{Request, transition, attempts}
use trex_cli.Execution.{
  Stop, interrupted, trex_error, Await, value, stops, Interruption, goes_on, before_effect,
  after_effect, EngineCall, Marker, Execution,
}

-- one await after another
unfoldable pub and_then :
    {A B : Type 0}
    → Await A × Execution
    → (A → Execution → Await B × Execution)
    → Await B × Execution
and_then (value a, x) next = next a x
and_then (stops s, x) next = (stops s, x)

-- `try: ... finally: last`
unfoldable pub ended_by : {A : Type 0} → Await A → Await Unit × Execution → Await A × Execution
ended_by body (value u, x) = (body, x)
ended_by body (stops s, x) = (stops s, x)

unfoldable pub finally_do :
    {A : Type 0} → Await A × Execution → (Execution → Await Unit × Execution) → Await A × Execution
finally_do (body, x) last = ended_by body (last x)

unfoldable pub has_marker : ℕ → List Marker → Bool
has_marker job [] = false
has_marker job (k ∷ ks) = k.job_id == job || has_marker job ks

-- `_save_execution_marker_sync`: the row of the job, or a new one
unfoldable pub save_marker : Marker → List Marker → List Marker
save_marker marker [] = marker ∷ []
save_marker marker (k ∷ ks) =
    let rest = save_marker marker ks in if k.job_id == marker.job_id then marker ∷ ks else k ∷ rest

-- `_delete_execution_marker_sync`
unfoldable pub delete_marker : ℕ → List Marker → List Marker
delete_marker job [] = []
delete_marker job (k ∷ ks) =
    let rest = delete_marker job ks in if k.job_id == job then rest else k ∷ rest

module _ (engine : List (EngineCall × Option Stop) → EngineCall → Option Stop)
    (interrupts : ℕ → Interruption) (others : ℕ → ℕ → Database → Database) where
  unfoldable pub effect_at :
      {A : Type 0}
      → Interruption
      → (Execution → Await A × Execution)
      → Execution
      → Await A × Execution
  effect_at goes_on effect x = effect x
  effect_at before_effect effect x = (stops interrupted, x)
  effect_at after_effect effect x = (stops interrupted, (effect x).1)

  -- an await of the database: other tasks may have used the jobs before it
  unfoldable pub await_call :
      {A : Type 0} → (Execution → Await A × Execution) → Execution → Await A × Execution
  await_call effect x =
      effect_at (interrupts x.awaits) effect
        (record x { awaits = x.awaits + 1; database = others x.awaits 0 x.database })

  unfoldable pub answer_of : Option Stop → Await Unit
  answer_of none = value tt
  answer_of (some s) = stops s

  -- an await of the engine
  unfoldable pub call_engine : EngineCall → Execution → Await Unit × Execution
  call_engine c x =
      (answer_of (engine x.calls c), record x { calls = (c, engine x.calls c) ∷ x.calls })

  unfoldable pub await_result : {A : Type 0} → Result A → Await A
  await_result (raised e) = stops trex_error
  await_result (ok a) = value a

  unfoldable pub await_snapshot : ℕ → Execution → Await JobSnapshot × Execution
  await_snapshot id x = await_call (λ y. (await_result (get_snapshot id y.database), y)) x

  -- `_transition`; between its reads and writes other tasks may use the jobs, too, differently in
  -- each transition: `others` has the number of the await, and then 0 before its effect, and
  -- one more than the gap's number inside the transition
  unfoldable pub await_transition : ℕ → Request → Execution → Await (Option JobSnapshot) × Execution
  await_transition id request x =
      await_call
        (λ y.
          let done =
            transition attempts (λ left. others x.awaits (left + 1)) id request y.database in
          (await_result done.0, record y { database = done.1 }))
        x

  unfoldable pub await_save : Marker → Execution → Await Unit × Execution
  await_save marker x =
      await_call (λ y. (value tt, record y { markers = save_marker marker y.markers })) x

  unfoldable pub await_delete : ℕ → Execution → Await Unit × Execution
  await_delete id x =
      await_call (λ y. (value tt, record y { markers = delete_marker id y.markers })) x

  unfoldable pub await_release : ℕ → Bool → Execution → Await Unit × Execution
  await_release id quarantine x =
      await_call (λ y. (value tt, record y { leases = release_ports id quarantine y.leases })) x

  -- an await of the agent's own that reads or writes none of these tables
  unfoldable pub await_other : Option Stop → Execution → Await Unit × Execution
  await_other answer x = await_call (λ y. (answer_of answer, y)) x
