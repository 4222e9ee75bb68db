-- ===== src/Execution.antt =====
-- The execution of a job: `TestJobs._execute` of src/trex_cli/jobs.py with what it calls, and the table
-- `execution_markers` of src/trex_cli/storage.py. The engine, what other tasks do to the jobs, and
-- when the task is cancelled are parameters, of which nothing is assumed.
pub mod Awaits
pub mod Body
pub mod Guard
pub mod Safety
pub mod Outcome
pub mod Ending
pub mod Preparing
pub mod Release
mod Examples
use trex_cli.Prelude.{
  ℕ, zero, suc, ◌+◌, ◌-◌, ◌*◌, ◌/◌, ◌%◌, ◌^◌, ◌≤◌, ◌<◌, ◌≡◌, refl, sym, ap, ◌∙◌, ◌↔◌, ◌⊎◌, inl, inr,
  Bool, true, false, ◌&&◌, ◌||◌, not, Option, none, some, List, [], ◌∷◌, ◌++◌, map, arith, length,
  All, Member, ltb, leb, ◌==◌, if◌then◌else◌, Bool-cases, Option-cases, lower_char, every, split,
  join, concat, prepend, to_bytes, from_bytes,
}
use trex_cli.PortLeases.{Lease}
use trex_cli.Jobs.{Database}

-- What ends a coroutine early: `asyncio.CancelledError`, a `TrexCliError`, or another `Exception`.
pub data Stop : Type 0 where
  interrupted trex_error exception : Stop

pub data Await (A : Type 0) : Type 0 where
  value : A → Await A
  stops : Stop → Await A

-- Whether the task is cancelled at an await: the call that it awaits may have its effect anyway.
pub data Interruption : Type 0 where
  goes_on before_effect after_effect : Interruption

pub data EngineCall : Type 0 where
  prepare warmup run_test stop cleanup : EngineCall

-- `ExecutionMarker`
pub record Marker : Type 0 where
  pub marker_id : ℕ
  pub job_id : ℕ
  pub session_id : ℕ
  pub logical_ports : List ℕ
  pub fence : List (ℕ × ℕ)
  pub hard_deadline : ℕ

-- The database's three tables, what the engine was called for and how each call ended, the latest
-- first, the awaits so far, and the locals of `_execute`: whether there is a handle, and
-- `cleanup_confirmed`.
pub record Execution : Type 0 where
  pub database : Database
  pub leases : List Lease
  pub markers : List Marker
  pub calls : List (EngineCall × Option Stop)
  pub awaits : ℕ
  pub handle : Bool
  pub cleanup_confirmed : Bool
