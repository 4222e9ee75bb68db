-- ===== src/Jobs/Store.antt =====
-- The calls of `SqliteStore` in src/trex_cli/storage.py on jobs. Each is one transaction under the
-- store's lock: with an error it is rolled back.
use trex_cli.Prelude.{
  ℕ, ◌+◌, Bool, true, false, ◌&&◌, ◌||◌, not, Option, none, some, List, [], ◌∷◌, map, ◌==◌,
  if◌then◌else◌,
}
use trex_cli.Jobs.{
  terminal, JobSnapshot, Job, JobEvent, job_accepted, cancel_requested, EventType, Database, Error,
  not_found, idempotency_conflict, revision_conflict, invalid_document, integrity_error, Result,
  raised, ok,
}

-- `SELECT ... FROM jobs WHERE job_id = ?`
unfoldable pub find_job : ℕ → List Job → Option Job
find_job id [] = none
find_job id (r ∷ rs) = let rest = find_job id rs in if r.job_id == id then some r else rest

unfoldable pub has_job : ℕ → List Job → Bool
has_job id [] = false
has_job id (r ∷ rs) = r.job_id == id || has_job id rs

-- `SELECT ... FROM jobs WHERE principal = ? AND idempotency_key = ?`
unfoldable pub find_key : ℕ → ℕ → List Job → Option Job
find_key principal key [] = none
find_key principal key (r ∷ rs) =
    let rest = find_key principal key rs in
    if r.principal == principal && r.idempotency_key == key then some r else rest

unfoldable pub snapshot_of : Option Job → Result JobSnapshot
snapshot_of none = raised not_found
snapshot_of (some r) = ok r.snapshot

-- `_get_snapshot_sync`
unfoldable pub get_snapshot : ℕ → Database → Result JobSnapshot
get_snapshot id db = snapshot_of (find_job id db.jobs)

unfoldable pub has_event : ℕ → ℕ → List JobEvent → Bool
has_event id revision [] = false
has_event id revision (e ∷ es) =
    (e.job_id == id && e.revision == revision) || has_event id revision es

-- `INSERT INTO job_events` with the table's primary key
unfoldable pub insert_event : ℕ → EventType → JobSnapshot → Database → Result Database
insert_event id type snapshot db =
    if has_event id snapshot.revision db.job_events
    then raised integrity_error
    else ok (record db {
      job_events =
          record {
            job_id = id;
            revision = snapshot.revision;
            event_type = type;
            snapshot = snapshot;
          }
          ∷ db.job_events;
    })

-- the end of a transaction: a value to return, or the error
unfoldable pub with_value : {A : Type 0} → A → Result Database → Result (A × Database)
with_value a (raised e) = raised e
with_value a (ok db) = ok (a, db)

-- the checks of `retry_of`
unfoldable pub retry_error : ℕ → Option Job → Option Error
retry_error digest none = some not_found
retry_error digest (some r) =
    if not (terminal r.state)
    then some invalid_document
    else if not (r.spec_digest == digest)
    then some invalid_document
    else none

unfoldable pub check_retry : ℕ → Option ℕ → List Job → Option Error
check_retry digest none jobs = none
check_retry digest (some id) jobs = retry_error digest (find_job id jobs)

-- `INSERT INTO jobs`
unfoldable pub new_row : JobSnapshot → ℕ → ℕ → ℕ → Option ℕ → Job
new_row snapshot principal key document retry_of = record {
  job_id = snapshot.job_id;
  principal = principal;
  idempotency_key = key;
  spec_digest = snapshot.submitted_spec_digest;
  document = document;
  resolved_spec = none;
  kind = snapshot.kind;
  state = snapshot.state;
  revision = snapshot.revision;
  snapshot = snapshot;
  retry_of = retry_of;
  accepted_at = snapshot.submitted_at;
}

unfoldable pub insert_job : JobSnapshot → ℕ → ℕ → ℕ → Option ℕ → Database → Result Database
insert_job snapshot principal key document retry_of db =
    if has_job snapshot.job_id db.jobs
    then raised integrity_error
    else insert_event snapshot.job_id job_accepted snapshot
        (record db { jobs = new_row snapshot principal key document retry_of ∷ db.jobs })

-- `_create_job_sync`: the stored snapshot, and whether it was created
unfoldable pub create_job :
    JobSnapshot → ℕ → ℕ → ℕ → Option ℕ → Database → Result ((JobSnapshot × Bool) × Database)
create_job snapshot principal key document retry_of db = elim (find_key principal key db.jobs) [
  | some r ↦
      if not (r.spec_digest == snapshot.submitted_spec_digest)
      then raised idempotency_conflict
      else ok ((r.snapshot, false), db)
  | none ↦ elim (check_retry snapshot.submitted_spec_digest retry_of db.jobs) [
    | some e ↦ raised e
    | none ↦ with_value (snapshot, true) (insert_job snapshot principal key document retry_of db)
  ]
]

-- the WHERE of the UPDATE, and `rowcount`
unfoldable pub at_revision : ℕ → ℕ → Job → Bool
at_revision id revision r = r.job_id == id && r.revision == revision

unfoldable pub rowcount : ℕ → ℕ → List Job → ℕ
rowcount id revision [] = 0
rowcount id revision (r ∷ rs) =
    (if at_revision id revision r then 1 else 0) + rowcount id revision rs

-- `COALESCE(?, resolved_spec_json)`
unfoldable pub coalesce : {A : Type 0} → Option A → Option A → Option A
coalesce none old = old
coalesce (some new) old = some new

unfoldable pub set_snapshot : JobSnapshot → ℕ → Option ℕ → Job → Job
set_snapshot snapshot expected resolved r =
    if at_revision snapshot.job_id expected r
    then record r {
      state = snapshot.state;
      revision = snapshot.revision;
      snapshot = snapshot;
      resolved_spec = coalesce resolved r.resolved_spec;
    }
    else r

-- `_update_snapshot_sync`
unfoldable pub update_snapshot : JobSnapshot → ℕ → EventType → Option ℕ → Database → Result Database
update_snapshot snapshot expected type resolved db =
    if not (rowcount snapshot.job_id expected db.jobs == 1)
    then raised revision_conflict
    else insert_event snapshot.job_id type snapshot
        (record db { jobs = map (set_snapshot snapshot expected resolved) db.jobs })

unfoldable pub has_request : ℕ → ℕ → List (ℕ × ℕ) → Bool
has_request id request [] = false
has_request id request (c ∷ cs) = (c.0 == id && c.1 == request) || has_request id request cs

unfoldable pub cancel_snapshot : JobSnapshot → JobSnapshot
cancel_snapshot snapshot = record snapshot {
  revision = snapshot.revision + 1;
  cancel_requested = true;
}

-- `UPDATE jobs SET revision = ?, snapshot_json = ? WHERE job_id = ?`
unfoldable pub set_cancel : ℕ → JobSnapshot → Job → Job
set_cancel id snapshot r =
    if r.job_id == id then record r { revision = snapshot.revision; snapshot = snapshot } else r

-- `_request_cancel_sync`, after the SELECT
unfoldable pub cancel_found : ℕ → ℕ → Option Job → Database → Result (JobSnapshot × Database)
cancel_found id request none db = raised not_found
cancel_found id request (some r) db =
    if has_request id request db.cancel_requests || terminal r.snapshot.state
    then ok (r.snapshot, db)
    else with_value (cancel_snapshot r.snapshot) (
        insert_event id cancel_requested (cancel_snapshot r.snapshot) (record db {
          jobs = map (set_cancel id (cancel_snapshot r.snapshot)) db.jobs;
          cancel_requests = (id, request) ∷ db.cancel_requests;
        }))

-- `_request_cancel_sync`
unfoldable pub request_cancel : ℕ → ℕ → Database → Result (JobSnapshot × Database)
request_cancel id request db = cancel_found id request (find_job id db.jobs) db
