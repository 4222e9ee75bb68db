-- ===== src/Execution/Release.antt =====
-- The ports of a job after `_execute` of src/trex_cli/jobs.py, where the task is not cancelled.
use trex_cli.Prelude.{
  ℕ, ◌+◌, ◌≡◌, refl, Bool, true, false, not, Option, none, some, List, [], ◌∷◌, arith, All,
  if◌then◌else◌,
}
use trex_cli.PortLeases.{Lease, release_row, release_ports}
use trex_cli.Jobs.{Database}
use trex_cli.Execution.{
  Stop, interrupted, trex_error, exception, Await, value, Interruption, goes_on, EngineCall, stop,
  cleanup, Marker, Execution,
}
use trex_cli.Execution.Awaits.{
  delete_marker, and_then, effect_at, await_call, answer_of, call_engine, await_delete,
  await_release,
}
use trex_cli.Execution.Body.{release_all, tolerate, clean_up, execute}
use trex_cli.Execution.Guard.{if-keeps, finally-keeps}

-- No port is leased to the job.
abbrev pub NotHeld : ℕ → List Lease → Type 0
NotHeld id rows = All (λ r. (r.job ≡ some id) → ⊥) rows

release_row-NotHeld :
    (id : ℕ) (quarantine : Bool) (r : Lease) → ((release_row id quarantine r).job ≡ some id) → ⊥
unfolding release_row
release_row-NotHeld id quarantine r h = ground arith

release_ports-NotHeld :
    (id : ℕ) (quarantine : Bool) (rows : List Lease) → NotHeld id (release_ports id quarantine rows)
unfolding release_ports
release_ports-NotHeld id quarantine [] = tt
release_ports-NotHeld id quarantine (r ∷ rows) =
    (release_row-NotHeld id quarantine r, release_ports-NotHeld id quarantine rows)

-- An await that returns.
abbrev Returns : Await Unit × Execution → Type 0
Returns r = (y : Execution) × (r ≡ (value tt, y))

if-Returns :
    (b : Bool) (r s : Await Unit × Execution) → Returns r → Returns s → Returns (if b then r else s)
if-Returns true r s h k = h
if-Returns false r s h k = k

module _ (engine : List (EngineCall × Option Stop) → EngineCall → Option Stop)
    (interrupts : ℕ → Interruption) (others : ℕ → ℕ → Database → Database) (now id : ℕ)
    (calm : (n : ℕ) → interrupts n ≡ goes_on)
    (kept : (calls : List (EngineCall × Option Stop)) (c : EngineCall)
      → engine calls c ≡ some interrupted
      → ⊥) where
  delete-Returns : (x : Execution) → Returns (await_delete engine interrupts others id x)
  unfolding await_delete await_call effect_at
  delete-Returns x = (
    record x {
      awaits = x.awaits + 1;
      database = others x.awaits 0 x.database;
      markers = delete_marker id x.markers;
    },
    rw (calm x.awaits) refl,
  )

  release_leases :
      (quarantine : Bool) (x : Execution)
      → (await_release engine interrupts others id quarantine x).1.leases
        ≡ release_ports id quarantine x.leases
  unfolding await_release await_call effect_at
  release_leases quarantine x = rw (calm x.awaits) refl

  release_all-NotHeld :
      (x : Execution) → NotHeld id (release_all engine interrupts others now id x).1.leases
  unfolding release_all and_then
  release_all-NotHeld x =
      let (y, e) = if-Returns x.cleanup_confirmed _ _ (delete-Returns x) (x, refl) in
      rw e (
        rw (release_leases (not y.cleanup_confirmed) y)
          (release_ports-NotHeld id (not y.cleanup_confirmed) y.leases))

  tolerated_either :
      (Q : Execution → Type 0) (answer : Option Stop) (x : Execution)
      (next : Bool → Execution → Await Unit × Execution)
      → ((answer ≡ some interrupted) → ⊥)
      → ((b : Bool) → Q (next b x).1)
      → Q
          (tolerate engine interrupts others now
            (answer_of engine interrupts others answer, x)
            next).1
  unfolding tolerate answer_of
  tolerated_either Q none x next k h = h true
  tolerated_either Q (some interrupted) x next k h = absurd (k refl)
  tolerated_either Q (some trex_error) x next k h = h false
  tolerated_either Q (some exception) x next k h = h false

  clean_up-NotHeld :
      (x : Execution) → NotHeld id (clean_up engine interrupts others now id x).1.leases
  unfolding clean_up call_engine
  clean_up-NotHeld x =
      if-keeps (λ y. NotHeld id y.leases) x.handle _ _
        (λ e.
          tolerated_either (λ y. NotHeld id y.leases) (engine x.calls stop) _ _ (kept x.calls stop)
            (λ stopped.
              tolerated_either (λ y. NotHeld id y.leases) _ _ _ (kept _ cleanup)
                (λ done. release_all-NotHeld _)))
        (λ e. release_all-NotHeld x)

-- Where the task is not cancelled: whatever the engine answers, with an error or without, and
-- whatever other tasks do to the jobs, no port is leased to the job when `_execute` has ended.
pub execute-NotHeld :
    (engine : List (EngineCall × Option Stop) → EngineCall → Option Stop)
    (interrupts : ℕ → Interruption) (others : ℕ → ℕ → Database → Database) (now : ℕ)
    (marker : Marker) (result problem : ℕ)
    (answers : Option Stop × (Option Stop × (Option Stop × Option Stop))) (x : Execution)
    → ((n : ℕ) → interrupts n ≡ goes_on)
    → ((calls : List (EngineCall × Option Stop)) (c : EngineCall)
        → engine calls c ≡ some interrupted
        → ⊥)
    → NotHeld marker.job_id
        (execute engine interrupts others now marker result problem answers x).1.leases
unfolding execute
execute-NotHeld engine interrupts others now marker result problem answers x calm kept =
    finally-keeps (λ y. NotHeld marker.job_id y.leases) _ _
      (clean_up-NotHeld engine interrupts others now marker.job_id calm kept _)
