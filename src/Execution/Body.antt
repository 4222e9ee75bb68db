-- ===== src/Execution/Body.antt =====
-- `_execute` and `_execute_with_deadline` of src/trex_cli/jobs.py; Phases has the coroutines that they await.
-- The answers of the agent's calls that use none of the tables here (the document, the
-- calibrations, the artifacts) are parameters; the engine's progress reports are transitions like
-- those of other tasks.
mod Phases
unfoldable pub use Phases.*
use trex_cli.Prelude.{
  ℕ, Bool, true, false, ◌&&◌, not, Option, none, some, List, [], ◌∷◌, if◌then◌else◌,
}
use trex_cli.Jobs.{draining, collecting, succeeded, warming_up, running, Database}
use trex_cli.Execution.{
  Stop, interrupted, trex_error, exception, Await, value, stops, Interruption, EngineCall, prepare,
  warmup, run_test, stop, cleanup, Marker, Execution,
}
use trex_cli.Execution.Awaits.{
  and_then, finally_do, call_engine, await_snapshot, await_transition, await_save, await_delete,
  await_release, await_other,
}

module _ (engine : List (EngineCall × Option Stop) → EngineCall → Option Stop)
    (interrupts : ℕ → Interruption) (others : ℕ → ℕ → Database → Database) (now : ℕ) where
  -- the result bundle, and SUCCEEDED: `answers` are those of `_resolved_json`, of
  -- `_record_calibrations` and of `build_result_bundle`
  unfoldable pub complete :
      ℕ → ℕ → Option Stop × (Option Stop × Option Stop) → Execution → Await Unit × Execution
  complete id result (resolved, (calibrated, built)) x =
      and_then (await_snapshot engine interrupts others id x) (λ current y.
        and_then (await_other engine interrupts others resolved y) (λ u1 z.
          and_then (await_other engine interrupts others calibrated z) (λ u2 v.
            and_then (await_other engine interrupts others built v) (λ u3 w.
              unless_cancelled engine interrupts others now id
                (λ q.
                  and_then
                    (await_transition engine interrupts others id
                      (record (state_request succeeded completed_phase (some (collecting ∷ []))) {
                        progress = some (1, some 1);
                        result = some result;
                        finished_at = some now;
                      })
                      q)
                    (λ s r. (value tt, r)))
                w))))

  -- from the end of the measurement on
  unfoldable pub collect :
      ℕ → ℕ → Option Stop × (Option Stop × Option Stop) → Execution → Await Unit × Execution
  collect id result answers x =
      and_then (enter_phase engine interrupts others now id draining draining_phase none x) (λ u1 y.
        and_then (call_engine engine interrupts others stop y) (λ u2 z.
          and_then (enter_phase engine interrupts others now id collecting collecting_phase none z)
            (λ u3 v. and_then (call_engine engine interrupts others cleanup v) (λ u4 w.
              and_then
                (await_delete engine interrupts others id (record w { cleanup_confirmed = true }))
                (λ u5 q. complete id result answers (record q { handle = false }))))))

  -- from the prepared engine on
  unfoldable pub run_prepared :
      ℕ → ℕ → Option Stop × (Option Stop × Option Stop) → Execution → Await Unit × Execution
  run_prepared id result answers x =
      and_then
        (enter_phase engine interrupts others now id warming_up warming_up_phase (some now) x)
        (λ u1 y. and_then (call_engine engine interrupts others warmup y) (λ u2 z.
          unless_cancelled engine interrupts others now id
            (λ v.
              and_then (enter_phase engine interrupts others now id running run_phase none v)
                (λ u3 w. and_then (call_engine engine interrupts others run_test w) (λ u4 q.
                  unless_cancelled engine interrupts others now id (collect id result answers) q)))
            z))

  -- the end of `prepare`: an error confirms that it rolled back, a cancellation does not
  unfoldable pub prepared : Await Unit × Execution → Await Unit × Execution
  prepared (value u, x) = (value tt, record x { handle = true; cleanup_confirmed = false })
  prepared (stops interrupted, x) = (stops interrupted, x)
  prepared (stops trex_error, x) = (stops trex_error, record x { cleanup_confirmed = true })
  prepared (stops exception, x) = (stops exception, record x { cleanup_confirmed = true })

  -- the `try` of `_execute`: `document` is the answer of `_document`
  unfoldable pub execute_body :
      Marker
      → ℕ
      → Option Stop × (Option Stop × (Option Stop × Option Stop))
      → Execution
      → Await Unit × Execution
  execute_body marker result (document, answers) x =
      and_then (await_other engine interrupts others document x) (λ u1 y.
        and_then (await_save engine interrupts others marker y) (λ u2 z.
          and_then
            (prepared (
              call_engine engine interrupts others prepare
                (record z { cleanup_confirmed = false })))
            (λ u3 w. run_prepared marker.job_id result answers w)))

  -- its `except` clauses
  unfoldable pub caught : ℕ → ℕ → Await Unit × Execution → Await Unit × Execution
  caught id problem (value u, x) = (value u, x)
  caught id problem (stops interrupted, x) = (stops interrupted, x)
  caught id problem (stops trex_error, x) = fail engine interrupts others now id problem x
  caught id problem (stops exception, x) = fail engine interrupts others now id problem x

  -- `try: ... except Exception: pass`, and whether it was done
  unfoldable pub tolerate :
      Await Unit × Execution → (Bool → Execution → Await Unit × Execution) → Await Unit × Execution
  tolerate (value u, x) next = next true x
  tolerate (stops interrupted, x) next = (stops interrupted, x)
  tolerate (stops trex_error, x) next = next false x
  tolerate (stops exception, x) next = next false x

  unfoldable pub release_all : ℕ → Execution → Await Unit × Execution
  release_all id x =
      and_then
        (if x.cleanup_confirmed then await_delete engine interrupts others id x else (value tt, x))
        (λ u y. await_release engine interrupts others id (not y.cleanup_confirmed) y)

  -- its `finally`
  unfoldable pub clean_up : ℕ → Execution → Await Unit × Execution
  clean_up id x =
      let forced = tolerate (call_engine engine interrupts others stop x) (λ stopped y.
        tolerate (call_engine engine interrupts others cleanup y)
          (λ cleaned z. release_all id (record z { cleanup_confirmed = stopped && cleaned }))) in
      if x.handle then forced else release_all id x

  -- `_execute`
  unfoldable pub execute :
      Marker
      → ℕ
      → ℕ
      → Option Stop × (Option Stop × (Option Stop × Option Stop))
      → Execution
      → Await Unit × Execution
  execute marker result problem answers x =
      finally_do
        (caught marker.job_id problem (
          execute_body marker result answers
            (record x { handle = false; cleanup_confirmed = true })))
        (clean_up marker.job_id)

  -- the `except TimeoutError` of `_execute_with_deadline`: whether the deadline has passed
  unfoldable pub timed : ℕ → ℕ → Bool → Await Unit × Execution → Await Unit × Execution
  timed id problem passed (value u, x) = (value u, x)
  timed id problem passed (stops trex_error, x) = (stops trex_error, x)
  timed id problem passed (stops exception, x) = (stops exception, x)
  timed id problem false (stops interrupted, x) = (stops interrupted, x)
  timed id problem true (stops interrupted, x) =
      and_then (fail engine interrupts others now id problem x)
        (λ u y. await_release engine interrupts others id false y)

  -- `_execute_with_deadline`, which cancels `_execute` at its deadline
  unfoldable pub execute_with_deadline :
      Marker
      → ℕ
      → ℕ
      → Option Stop × (Option Stop × (Option Stop × Option Stop))
      → Bool
      → Execution
      → Await Unit × Execution
  execute_with_deadline marker result problem answers passed x =
      timed marker.job_id problem passed (execute marker result problem answers x)
