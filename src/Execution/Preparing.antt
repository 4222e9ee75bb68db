-- ===== src/Execution/Preparing.antt =====
-- `_execute` of src/trex_cli/jobs.py whole: what it leaves in the engine.
use trex_cli.Prelude.{ℕ, ◌≡◌, refl, inl, true, false, Option, none, some, List, ◌∷◌}
use trex_cli.PortLeases.{Lease}
use trex_cli.Jobs.{Database}
use trex_cli.Execution.{
  Stop, interrupted, trex_error, exception, Await, value, Interruption, goes_on, before_effect,
  after_effect, EngineCall, prepare, Marker, Execution,
}
use trex_cli.Execution.Awaits.{
  await_call, save_marker, and_then, await_save, effect_at, has_marker, answer_of, call_engine,
}
use trex_cli.Execution.Body.{run_prepared, execute, execute_body, prepared}
use trex_cli.Execution.Guard.{
  await_other-keeps, dirty_after, finally-keeps, Guarded, dirty, and_then-leads,
}
use trex_cli.Execution.Outcome.{has_marker-save, run_prepared-Handled}
use trex_cli.Execution.Ending.{Secured, clean_up-Secured, caught-Guarded}

-- Before `prepare`: the engine has nothing of the test, and no port has been released.
abbrev Fresh : List Lease → Execution → Type 0
Fresh rows x = (dirty x.calls ≡ false) × (x.leases ≡ rows)

Fresh-Guarded : (id : ℕ) (rows : List Lease) (x : Execution) → Fresh rows x → Guarded id rows x
Fresh-Guarded id rows x (clean, same) = (λ d. absurd (cc (d, clean)), (λ c. clean, inl same))

module _ (engine : List (EngineCall × Option Stop) → EngineCall → Option Stop)
    (interrupts : ℕ → Interruption) (others : ℕ → ℕ → Database → Database) (now : ℕ)
    (rows : List Lease) where
  -- `prepare` with each of its ends, for a job that has its marker
  prepared_end :
      (id result : ℕ) (answers : Option Stop × (Option Stop × Option Stop)) (answer : Option Stop)
      (x : Execution)
      → Fresh rows x
      → has_marker id x.markers ≡ true
      → x.cleanup_confirmed ≡ false
      → Guarded id rows
          (and_then
            (prepared engine interrupts others now (
              answer_of engine interrupts others answer,
              record x { calls = (prepare, answer) ∷ x.calls },
            ))
            (λ u w. run_prepared engine interrupts others now id result answers w)).1
  unfolding prepared answer_of and_then dirty dirty_after
  prepared_end id result answers none x (clean, same) marked unconfirmed =
      (run_prepared-Handled engine interrupts others now id rows result answers _
        (((λ d. marked), (λ c. absurd (cc c), inl same)), λ c. absurd (cc c))).0
  prepared_end id result answers (some interrupted) x (clean, same) marked unconfirmed =
      (λ d. marked, (λ c. absurd (cc (c, unconfirmed)), inl same))
  prepared_end id result answers (some trex_error) x (clean, same) marked unconfirmed =
      (λ d. marked, (λ c. clean, inl same))
  prepared_end id result answers (some exception) x (clean, same) marked unconfirmed =
      (λ d. marked, (λ c. clean, inl same))

  -- the marker is saved, or the task is cancelled before anything is prepared
  saved_then :
      (i : Interruption) (marker : Marker) (x : Execution)
      (next : Unit → Execution → Await Unit × Execution)
      → Fresh rows x
      → ((y : Execution)
          → Fresh rows y
          → has_marker marker.job_id y.markers ≡ true
          → Guarded marker.job_id rows (next tt y).1)
      → Guarded marker.job_id rows
          (and_then
            (effect_at engine interrupts others i
              (λ y. (value tt, record y { markers = save_marker marker y.markers }))
              x)
            next).1
  unfolding effect_at and_then
  saved_then goes_on marker x next h k =
      k (record x { markers = save_marker marker x.markers }) h (has_marker-save marker x.markers)
  saved_then before_effect marker x next h k = Fresh-Guarded marker.job_id rows x h
  saved_then after_effect marker x next h k =
      Fresh-Guarded marker.job_id rows (record x { markers = save_marker marker x.markers }) h

  body-Guarded :
      (marker : Marker) (result : ℕ)
      (answers : Option Stop × (Option Stop × (Option Stop × Option Stop))) (x : Execution)
      → Fresh rows x
      → Guarded marker.job_id rows
          (execute_body engine interrupts others now marker result answers x).1
  unfolding execute_body await_save await_call call_engine
  body-Guarded marker result (document, answers) x h =
      and_then-leads (Fresh rows) (Guarded marker.job_id rows) _ _
        (await_other-keeps engine interrupts others (Fresh rows) (λ y db n p. p) document x h)
        (λ u1 y hy. saved_then (interrupts y.awaits) marker _ _ hy (λ z hz marked.
          prepared_end marker.job_id result answers (engine z.calls prepare)
            (record z { cleanup_confirmed = false }) hz marked refl))
        (λ y hy. Fresh-Guarded marker.job_id rows y hy)

-- Whatever the engine answers, whatever other tasks do to the jobs, and wherever the task is
-- cancelled, also in the cleanup: from a state in which the engine has nothing of the test,
-- `_execute` ends in one in which it has nothing of it again, that is, it was not prepared, the
-- prepare raised an error, or a later cleanup returned, or else the job has its marker, and all
-- ports are leased as before or those of the job are in quarantine.
pub execute-Secured :
    (engine : List (EngineCall × Option Stop) → EngineCall → Option Stop)
    (interrupts : ℕ → Interruption) (others : ℕ → ℕ → Database → Database) (now : ℕ)
    (marker : Marker) (result problem : ℕ)
    (answers : Option Stop × (Option Stop × (Option Stop × Option Stop))) (x : Execution)
    → dirty x.calls ≡ false
    → Secured marker.job_id x.leases
        (execute engine interrupts others now marker result problem answers x).1
unfolding execute
execute-Secured engine interrupts others now marker result problem answers x clean =
    finally-keeps (Secured marker.job_id x.leases) _ _ (
      clean_up-Secured engine interrupts others now marker.job_id x.leases _ (
        caught-Guarded engine interrupts others now marker.job_id x.leases problem _ (
          body-Guarded engine interrupts others now x.leases marker result answers
            (record x { handle = false; cleanup_confirmed = true }) (clean, refl))))
