-- ===== src/Jobs.antt =====
-- The jobs of the agent: the snapshot of a job (`JobState` of src/trex_cli/models.py, `JobSnapshot`)
-- and the tables `jobs`, `job_events` and `cancel_requests` of src/trex_cli/storage.py. A text or a
-- document that the code only stores and compares is a number.
pub mod Store
pub mod Transition
pub mod System
pub mod Advance
pub mod Agreement
pub mod Effects
pub mod Soundness
pub mod Lifecycle
pub mod Keys
pub mod Idempotence
pub mod Outcome
pub mod Writes
pub mod Log
pub mod Events
pub mod Observation
pub mod Ordering
pub mod Following
pub mod Turns
pub mod Stream
pub mod Rows
pub mod Written
mod Examples
use trex_cli.Prelude.{ℕ, Bool, true, false, Option, List}

pub data JobState : Type 0 where
  accepted validating waiting_for_ports preparing warming_up running draining collecting : JobState
  succeeded failed cancelled : JobState

-- `JobState.terminal`
unfoldable pub terminal : JobState → Bool
terminal succeeded = true
terminal failed = true
terminal cancelled = true
terminal _ = false

pub record JobSnapshot : Type 0 where
  pub job_id : ℕ
  pub revision : ℕ
  pub state : JobState
  pub kind : ℕ
  pub submitted_spec_digest : ℕ
  pub resolved_spec_digest : Option ℕ
  pub retry_of : Option ℕ
  pub submitted_at : ℕ
  pub phase : Option ℕ
  pub progress : Option (ℕ × Option ℕ)
  pub cancel_requested : Bool
  pub result : Option ℕ
  pub problem : Option ℕ
  pub started_at : Option ℕ
  pub finished_at : Option ℕ

-- A row of `jobs`: `state` and `revision` are columns beside the encoded snapshot. `retain_until`,
-- which no call here reads, is left out.
pub record Job : Type 0 where
  pub job_id : ℕ
  pub principal : ℕ
  pub idempotency_key : ℕ
  pub spec_digest : ℕ
  pub document : ℕ
  pub resolved_spec : Option ℕ
  pub kind : ℕ
  pub state : JobState
  pub revision : ℕ
  pub snapshot : JobSnapshot
  pub retry_of : Option ℕ
  pub accepted_at : ℕ

pub data EventType : Type 0 where
  job_accepted cancel_requested : EventType
  transition_event : ℕ → EventType

-- A row of `job_events`, without its details and time.
pub record JobEvent : Type 0 where
  pub job_id : ℕ
  pub revision : ℕ
  pub event_type : EventType
  pub snapshot : JobSnapshot

-- The database: the events with the latest insertion first; `(job_id, request_id)` is the key of a
-- row of `cancel_requests`, whose other columns nothing reads.
pub record Database : Type 0 where
  pub jobs : List Job
  pub job_events : List JobEvent
  pub cancel_requests : List (ℕ × ℕ)

-- What the calls raise. `integrity_error` is the database's own, for an INSERT of a key that a
-- table has.
pub data Error : Type 0 where
  not_found idempotency_conflict revision_conflict invalid_document integrity_error : Error

pub data Result {ℓ} (A : Type ℓ) : Type ℓ where
  raised : Error → Result A
  ok : A → Result A
