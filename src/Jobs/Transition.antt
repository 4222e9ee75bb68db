-- ===== src/Jobs/Transition.antt =====
-- `TestJobs._transition` of src/trex_cli/jobs.py: an attempt, which is the checks of the snapshot that was
-- read, the snapshot to write, and the write, which asks for the revision that was read.
use trex_cli.Prelude.{
  ℕ, zero, suc, ◌+◌, ◌*◌, Bool, true, false, ◌&&◌, ◌||◌, not, Option, none, some, List, [], ◌∷◌,
  ◌==◌, if◌then◌else◌,
}
use trex_cli.Jobs.{
  JobState, accepted, validating, waiting_for_ports, preparing, warming_up, running, draining,
  collecting, succeeded, failed, cancelled, terminal, JobSnapshot, Database, Result, ok, raised,
  transition_event, Error, revision_conflict,
}
use trex_cli.Jobs.Store.{update_snapshot, coalesce, get_snapshot}

-- The arguments of `_transition` beside the job.
pub record Request : Type 0 where
  pub state : JobState
  pub event_type : ℕ
  pub expected_states : Option (List JobState)
  pub phase : Option ℕ
  pub progress : Option (ℕ × Option ℕ)
  pub result : Option ℕ
  pub problem : Option ℕ
  pub resolved_spec_digest : Option ℕ
  pub resolved_spec_json : Option ℕ
  pub started_at : Option ℕ
  pub finished_at : Option ℕ

unfoldable pub state_index : JobState → ℕ
state_index accepted = 0
state_index validating = 1
state_index waiting_for_ports = 2
state_index preparing = 3
state_index warming_up = 4
state_index running = 5
state_index draining = 6
state_index collecting = 7
state_index succeeded = 8
state_index failed = 9
state_index cancelled = 10

-- equality of members of the enumeration
unfoldable pub same_state : JobState → JobState → Bool
same_state s t = state_index s == state_index t

unfoldable pub one_of : List JobState → JobState → Bool
one_of [] s = false
one_of (t ∷ ts) s = same_state s t || one_of ts s

unfoldable pub is_expected : Option (List JobState) → JobState → Bool
is_expected none s = true
is_expected (some states) s = one_of states s

-- `current.model_copy(update=updates)`
unfoldable pub updated_snapshot : Request → JobSnapshot → JobSnapshot
updated_snapshot req current = record current {
  revision = current.revision + 1;
  state = req.state;
  phase = coalesce req.phase current.phase;
  progress = coalesce req.progress current.progress;
  result = coalesce req.result current.result;
  problem = coalesce req.problem current.problem;
  resolved_spec_digest = coalesce req.resolved_spec_digest current.resolved_spec_digest;
  started_at = coalesce current.started_at req.started_at;
  finished_at = coalesce req.finished_at current.finished_at;
}

-- The checks: return this at once, or write.
pub data Check : Type 0 where
  returns : Option JobSnapshot → Check
  writes : JobSnapshot → Check

unfoldable pub check : Request → JobSnapshot → Check
check req current =
    if terminal current.state
    then returns (some current)
    else if not (is_expected req.expected_states current.state)
    then returns none
    else if same_state req.state succeeded && current.cancel_requested
    then returns none
    else writes (updated_snapshot req current)

unfoldable pub written : JobSnapshot → Result Database → Result (Option JobSnapshot × Database)
written updated (raised e) = raised e
written updated (ok db) = ok (some updated, db)

-- the attempt with the snapshot that was read
unfoldable pub write_checked :
    Request → JobSnapshot → Check → Database → Result (Option JobSnapshot × Database)
write_checked req current (returns answer) db = ok (answer, db)
write_checked req current (writes updated) db = written updated (
    update_snapshot updated current.revision (transition_event req.event_type)
      req.resolved_spec_json db)

unfoldable pub attempt : Request → JobSnapshot → Database → Result (Option JobSnapshot × Database)
attempt req current db = write_checked req current (check req current) db

-- the end of an attempt: only RevisionConflict is caught
unfoldable pub is_conflict : Error → Bool
is_conflict revision_conflict = true
is_conflict _ = false

unfoldable pub end_attempt :
    Result (Option JobSnapshot × Database)
    → Database
    → Result (Option JobSnapshot) × Database
    → Result (Option JobSnapshot) × Database
end_attempt (raised e) db next = if is_conflict e then next else (raised e, db)
end_attempt (ok answer) db next = (ok answer.0, answer.1)

-- the attempt with what `get_snapshot` gave; `now` is the database when the attempt writes
unfoldable pub try_read :
    Request
    → Result JobSnapshot
    → Database
    → Database
    → Result (Option JobSnapshot) × Database
    → Result (Option JobSnapshot) × Database
try_read req (raised e) db now next = (raised e, db)
try_read req (ok current) db now next = end_attempt (attempt req current now) now next

-- `_transition` of a job with `n` attempts left. Other tasks may use the database between the read
-- and the write of an attempt, and after a write that was refused: `gap` is what they do to it, at
-- these two points of the attempt after which `n` are left, `2 * n + 1` and `2 * n`.
unfoldable pub transition :
    ℕ → (ℕ → Database → Database) → ℕ → Request → Database → Result (Option JobSnapshot) × Database
transition zero gap id req db = (ok none, db)
transition (suc n) gap id req db =
    let now = gap (2 * n + 1) db in
    let next = transition n gap id req (gap (2 * n) now) in
    try_read req (get_snapshot id db) db now next

-- `range(3)`
abbrev pub attempts : ℕ
attempts = 3
