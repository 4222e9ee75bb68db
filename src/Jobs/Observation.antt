-- ===== src/Jobs/Observation.antt =====
-- `events_after` of src/trex_cli/storage.py and `TestJobs.observe` of src/trex_cli/jobs.py, which follows the
-- events of a job. `observe` is a function of the databases that its turns meet, one for each of the
-- two reads of a turn.
use trex_cli.Prelude.{
  ℕ, ◌&&◌, Option, none, some, List, [], ◌∷◌, ◌++◌, map, ltb, leb, ◌==◌, if◌then◌else◌,
}
use trex_cli.Jobs.{terminal, JobSnapshot, JobEvent, Database, Result, raised, ok, not_found, Error}
use trex_cli.Jobs.Store.{has_job, get_snapshot}

-- `SELECT ... WHERE job_id = ? AND revision > ?`: the revision and the snapshot of each row
unfoldable pub newer_events : ℕ → ℕ → List JobEvent → List (ℕ × JobSnapshot)
newer_events id revision [] = []
newer_events id revision (e ∷ es) =
    let rest = newer_events id revision es in
    if e.job_id == id && ltb revision e.revision then (e.revision, e.snapshot) ∷ rest else rest

-- `ORDER BY revision`
unfoldable pub place : ℕ × JobSnapshot → List (ℕ × JobSnapshot) → List (ℕ × JobSnapshot)
place r [] = r ∷ []
place r (q ∷ qs) = let rest = place r qs in if leb r.0 q.0 then r ∷ q ∷ qs else q ∷ rest

unfoldable pub order_by_revision : List (ℕ × JobSnapshot) → List (ℕ × JobSnapshot)
order_by_revision [] = []
order_by_revision (r ∷ rs) = place r (order_by_revision rs)

unfoldable pub rows_after : ℕ → ℕ → Database → List (ℕ × JobSnapshot)
rows_after id revision db = order_by_revision (newer_events id revision db.job_events)

-- `_events_after_sync`
unfoldable pub events_after : ℕ → ℕ → Database → Result (List JobSnapshot)
events_after id revision db =
    if has_job id db.jobs then ok (map (λ r. r.1) (rows_after id revision db)) else raised not_found

-- How a turn of the loop ends, or a number of turns.
pub data PollEnd : Type 0 where
  continues returns : PollEnd
  raises : Error → PollEnd

-- the snapshots that a poll yields, up to a terminal one, the cursor then, and how the turn ends
unfoldable pub yield_events : ℕ → List JobSnapshot → List JobSnapshot × (ℕ × PollEnd)
yield_events cursor [] = ([], (cursor, continues))
yield_events cursor (s ∷ ss) =
    let further = yield_events s.revision ss in
    if terminal s.state then (s ∷ [], (s.revision, returns)) else (s ∷ further.0, further.1)

-- without events: `if current.state.terminal and current.revision <= cursor`
unfoldable pub idle_end : ℕ → Result JobSnapshot → PollEnd
idle_end cursor (raised e) = raises e
idle_end cursor (ok current) =
    if terminal current.state && leb current.revision cursor then returns else continues

-- a turn, from what its two reads answer
unfoldable pub poll_events :
    ℕ → Result (List JobSnapshot) → Result JobSnapshot → List JobSnapshot × (ℕ × PollEnd)
poll_events cursor (raised e) current = ([], (cursor, raises e))
poll_events cursor (ok []) current = ([], (cursor, idle_end cursor current))
poll_events cursor (ok (s ∷ ss)) current = yield_events cursor (s ∷ ss)

-- One turn of the loop. `events_after` reads the first database and `get_snapshot` the second:
-- other tasks run between the two awaits.
unfoldable pub poll : ℕ → ℕ → Database → Database → List JobSnapshot × (ℕ × PollEnd)
poll id cursor now later = poll_events cursor (events_after id cursor now) (get_snapshot id later)

-- the next turns, unless this one ends the loop
unfoldable pub then_turns :
    List JobSnapshot × (ℕ × PollEnd)
    → List JobSnapshot × (ℕ × PollEnd)
    → List JobSnapshot × (ℕ × PollEnd)
then_turns (ss, (cursor, continues)) further = (ss ++ further.0, further.1)
then_turns (ss, (cursor, returns)) further = (ss, (cursor, returns))
then_turns (ss, (cursor, raises e)) further = (ss, (cursor, raises e))

-- the loop, for so many turns
unfoldable pub polls : ℕ → ℕ → List (Database × Database) → List JobSnapshot × (ℕ × PollEnd)
polls id cursor [] = ([], (cursor, continues))
polls id cursor ((now, later) ∷ turns) =
    let turn = poll id cursor now later in then_turns turn (polls id turn.1.0 turns)

unfoldable pub from_snapshot :
    ℕ → Result JobSnapshot → List (Database × Database) → List JobSnapshot × PollEnd
from_snapshot id (raised e) turns = ([], raises e)
from_snapshot id (ok current) turns =
    let further = polls id current.revision turns in
    if terminal current.state then (current ∷ [], returns) else (current ∷ further.0, further.1.1)

-- `observe`, from a revision or from the snapshot that it reads first
unfoldable pub observe_job :
    ℕ → Option ℕ → Database → List (Database × Database) → List JobSnapshot × PollEnd
observe_job id (some cursor) first turns =
    let further = polls id cursor turns in (further.0, further.1.1)
observe_job id none first turns = from_snapshot id (get_snapshot id first) turns
