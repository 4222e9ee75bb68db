-- ===== src/Jobs/Outcome.antt =====
-- What `_transition` of src/trex_cli/jobs.py returns, whatever other tasks do between its reads and
-- its writes.
use trex_cli.Prelude.{
  ℕ, zero, suc, ◌+◌, ◌*◌, ◌≤◌, ◌≡◌, refl, ◌⊎◌, inl, inr, true, false, ◌&&◌, Option, none, some,
  List, [], ◌∷◌, map, arith, ◌==◌, Bool-cases,
}
use trex_cli.Jobs.{
  JobSnapshot, Job, Database, Result, raised, ok, terminal, EventType, transition_event, succeeded,
}
use trex_cli.Jobs.Store.{
  get_snapshot, set_snapshot, at_revision, rowcount, update_snapshot, insert_event, has_event,
  find_job, snapshot_of,
}
use trex_cli.Jobs.Transition.{
  Request, updated_snapshot, attempt, check, write_checked, end_attempt, is_conflict, try_read,
  transition, written, is_expected, same_state,
}

-- The table has the snapshot, in a row of its job with its revision and state.
abbrev pub Stored : JobSnapshot → List Job → Type 0
Stored s [] = ⊥
Stored s (r ∷ rs) =
    ((r.job_id ≡ s.job_id) × ((r.revision ≡ s.revision) × ((r.state ≡ s.state) × (r.snapshot ≡ s))))
    ⊎ Stored s rs

-- The answer of a transition and the database it leaves: no RevisionConflict; a snapshot that is
-- terminal, or that the table has, in the state that was asked for.
abbrev pub Answers : Request → Result (Option JobSnapshot) → Database → Type 0
Answers req (raised e) db = is_conflict e ≡ false
Answers req (ok none) db = Unit
Answers req (ok (some s)) db =
    (terminal s.state ≡ true) ⊎ ((s.state ≡ req.state) × Stored s db.jobs)

at_revision_id : (id revision : ℕ) (r : Job) → at_revision id revision r ≡ true → r.job_id ≡ id
unfolding at_revision
at_revision_id id revision r e = ground arith

updated_state : (req : Request) (s : JobSnapshot) → (updated_snapshot req s).state ≡ req.state
unfolding updated_snapshot
updated_state req s = refl

set_snapshot-Stored :
    (s : JobSnapshot) (expected : ℕ) (resolved : Option ℕ) (jobs : List Job)
    → 1 ≤ rowcount s.job_id expected jobs
    → Stored s (map (set_snapshot s expected resolved) jobs)
unfolding rowcount set_snapshot
set_snapshot-Stored s expected resolved [] some_row = absurd (omega arith)
set_snapshot-Stored s expected resolved (r ∷ rs) some_row =
    elim (Bool-cases (at_revision s.job_id expected r)) [
      | inl e ↦ simp e (inl (at_revision_id s.job_id expected r e, (refl, (refl, refl))))
      | inr e ↦ inr (set_snapshot-Stored s expected resolved rs (ground arith))
    ]

-- what a write leaves, if it is not refused
abbrev pub Writes : JobSnapshot → Result Database → Type 0
Writes s (raised e) = Unit
Writes s (ok db) = Stored s db.jobs

update_snapshot-Writes :
    (s : JobSnapshot) (expected : ℕ) (type : EventType) (resolved : Option ℕ) (db : Database)
    → Writes s (update_snapshot s expected type resolved db)
unfolding update_snapshot insert_event
update_snapshot-Writes s expected type resolved db =
    elim (Bool-cases (rowcount s.job_id expected db.jobs == 1)) [
      | inr none_or_more ↦ rw none_or_more tt
      | inl one ↦ elim (Bool-cases (has_event s.job_id s.revision db.job_events)) [
        | inl taken ↦ rw (one, taken) tt
        | inr new ↦ rw (one, new) (set_snapshot-Stored s expected resolved db.jobs (ground arith))
      ]
    ]

abbrev pub AnswersIn : Request → Result (Option JobSnapshot × Database) → Type 0
AnswersIn req (raised e) = Unit
AnswersIn req (ok answer) = Answers req (ok answer.0) answer.1

written-AnswersIn :
    (req : Request) (s : JobSnapshot) (o : Result Database)
    → s.state ≡ req.state
    → Writes s o
    → AnswersIn req (written s o)
unfolding written
written-AnswersIn req s (raised e) same w = tt
written-AnswersIn req s (ok db) same w = inr (same, w)

check-AnswersIn :
    (req : Request) (s : JobSnapshot) (db : Database) → AnswersIn req (attempt req s db)
unfolding attempt write_checked check
check-AnswersIn req s db =
    let writes_it : AnswersIn req (
        written (updated_snapshot req s) (
          update_snapshot (updated_snapshot req s) s.revision (transition_event req.event_type)
            req.resolved_spec_json db)) =
      written-AnswersIn req (updated_snapshot req s) _ (updated_state req s) (
        update_snapshot-Writes (updated_snapshot req s) s.revision (transition_event req.event_type)
          req.resolved_spec_json db) in
    elim (Bool-cases (terminal s.state)) [
      | inl e ↦ rw e (inl e)
      | inr live ↦ elim (Bool-cases (is_expected req.expected_states s.state)) [
        | inr other ↦ rw (live, other) tt
        | inl expected ↦ elim (Bool-cases (same_state req.state succeeded && s.cancel_requested)) [
          | inl cancelling ↦ rw (live, expected, cancelling) tt
          | inr possible ↦ rw (live, expected, possible) writes_it
        ]
      ]
    ]

end_attempt-Answers :
    (req : Request) (o : Result (Option JobSnapshot × Database)) (db : Database)
    (next : Result (Option JobSnapshot) × Database)
    → AnswersIn req o
    → Answers req next.0 next.1
    → Answers req (end_attempt o db next).0 (end_attempt o db next).1
unfolding end_attempt
end_attempt-Answers req (raised e) db next h rest = elim (Bool-cases (is_conflict e)) [
  | inl conflict ↦ rw conflict rest
  | inr other ↦ rw other other
]
end_attempt-Answers req (ok answer) db next h rest = h

try_read-Answers :
    (req : Request) (id : ℕ) (o : Option Job) (db now : Database)
    (next : Result (Option JobSnapshot) × Database)
    → Answers req next.0 next.1
    → Answers req
        (try_read req (snapshot_of o) db now next).0
        (try_read req (snapshot_of o) db now next).1
unfolding try_read snapshot_of is_conflict
try_read-Answers req id none db now next rest = refl
try_read-Answers req id (some r) db now next rest =
    end_attempt-Answers req (attempt req r.snapshot now) now next
      (check-AnswersIn req r.snapshot now) rest

-- Whatever other tasks do between reads and writes, and for any number of attempts: a transition
-- does not raise RevisionConflict, and a snapshot that it returns is terminal, or has the state
-- that was asked for and is in the table, in a row of its job, revision and state.
pub transition-Answers :
    (n : ℕ) (gap : ℕ → Database → Database) (id : ℕ) (req : Request) (db : Database)
    → Answers req (transition n gap id req db).0 (transition n gap id req db).1
unfolding transition get_snapshot
transition-Answers zero gap id req db = tt
transition-Answers (suc n) gap id req db =
    let now = gap (2 * n + 1) db in
    try_read-Answers req id (find_job id db.jobs) db now (transition n gap id req (gap (2 * n) now))
      (transition-Answers n gap id req (gap (2 * n) now))
