-- ===== src/Jobs/Idempotence.antt =====
-- Idempotency keys: `_create_job_sync` of src/trex_cli/storage.py with the key of a job that exists.
use mathlib.Core.Path.{subst}
use trex_cli.Prelude.{
  ℕ, ◌≡◌, refl, sym, ap, ◌∙◌, ◌⊎◌, inl, inr, Bool, true, false, ◌&&◌, Option, none, some, List, [],
  ◌∷◌, arith, ◌==◌, Bool-cases, ◌≢◌,
}
use trex_cli.Jobs.{JobSnapshot, Job, Database, Result, raised, ok, idempotency_conflict}
use trex_cli.Jobs.Store.{has_job, snapshot_of, find_job, find_key, create_job, get_snapshot}
use trex_cli.Jobs.System.{Agent, Action, run}
use trex_cli.Jobs.Effects.{RowAgrees}
use trex_cli.Jobs.Log.{Distinct}
use trex_cli.Jobs.Soundness.{Sound, run-Sound}
use trex_cli.Jobs.Events.{IsLogged, run-IsLogged}
use trex_cli.Jobs.Keys.{Keeps, run-Keeps}

find_key-find_job :
    (p k : ℕ) (jobs : List Job) (r : Job)
    → Distinct jobs
    → find_key p k jobs ≡ some r
    → (find_job r.job_id jobs ≡ some r) × (has_job r.job_id jobs ≡ true)
unfolding find_key find_job has_job
find_key-find_job p k [] r d found = absurd (cc found)
find_key-find_job p k (q ∷ qs) r d found =
    elim (Bool-cases (q.principal == p && q.idempotency_key == k)) [
      | inl e ↦ let same : q ≡ r = cc (found, e) in (ground (arith, same), ground (arith, same))
      | inr e ↦
          let (row, there) = find_key-find_job p k qs r d.1 (ground (arith, found, e)) in
          elim (Bool-cases (q.job_id == r.job_id)) [
            | inl mine ↦
                let one : q.job_id ≡ r.job_id = ground arith in
                let elsewhere : has_job r.job_id qs ≡ false =
                  ap (λ i. has_job i qs) (sym one) ∙ d.0 in
                absurd (cc (there, elsewhere))
            | inr other ↦ (rw other row, rw other there)
          ]
    ]

-- The answer to a request with the key of job `r`: with the digest of `r`, what `get` answers for
-- this job now, not created again; an error otherwise. The database is left alone.
abbrev pub Replays : Job → ℕ → Database → Result ((JobSnapshot × Bool) × Database) → Type 0
Replays r digest db answer =
    ((digest ≡ r.spec_digest)
      × ((s : JobSnapshot) × ((s.job_id ≡ r.job_id)
            × ((get_snapshot r.job_id db ≡ ok s) × (answer ≡ ok ((s, false), db))))))
    ⊎ ((digest ≢ r.spec_digest) × (answer ≡ raised idempotency_conflict))

create_found :
    (s : JobSnapshot) (principal key document : ℕ) (retry_of : Option ℕ) (db : Database) (r' : Job)
    → find_key principal key db.jobs ≡ some r'
    → ((s.submitted_spec_digest ≡ r'.spec_digest)
        × (create_job s principal key document retry_of db ≡ ok ((r'.snapshot, false), db)))
      ⊎ ((s.submitted_spec_digest ≢ r'.spec_digest)
          × (create_job s principal key document retry_of db ≡ raised idempotency_conflict))
unfolding create_job
create_found s principal key document retry_of db r' found =
    elim (Bool-cases (r'.spec_digest == s.submitted_spec_digest)) [
      | inl e ↦ inl (ground arith, ground arith)
      | inr e ↦ inr ((λ same. ground arith), ground arith)
    ]

found_snapshot :
    (p k : ℕ) (db : Database) (r : Job)
    → Distinct db.jobs
    → ((id : ℕ) → RowAgrees (find_job id db.jobs))
    → find_key p k db.jobs ≡ some r
    → (r.snapshot.job_id ≡ r.job_id) × (get_snapshot r.job_id db ≡ ok r.snapshot)
unfolding get_snapshot snapshot_of
found_snapshot p k db r d rows found =
    let (row, _) = find_key-find_job p k db.jobs r d found in
    let agrees : RowAgrees (some r) = subst RowAgrees row (rows r.job_id) in
    (sym agrees.job_id, rw row refl)

found-Replays :
    (s : JobSnapshot) (principal key document : ℕ) (retry_of : Option ℕ) (db : Database) (r : Job)
    (o : Option Job)
    → Distinct db.jobs
    → ((id : ℕ) → RowAgrees (find_job id db.jobs))
    → find_key principal key db.jobs ≡ o
    → Keeps (some r) o
    → Replays r s.submitted_spec_digest db (create_job s principal key document retry_of db)
found-Replays s principal key document retry_of db r none d rows found same = absurd same
found-Replays s principal key document retry_of db r (some r') d rows found same =
    elim (create_found s principal key document retry_of db r' found) [
      | inl (e, answer) ↦
          let (id, now) = found_snapshot principal key db r' d rows found in
          inl (
            e ∙ same.same_digest,
            (
              r'.snapshot,
              (id ∙ same.same_id, (ap (λ i. get_snapshot i db) (sym same.same_id) ∙ now, answer)),
            ),
          )
      | inr (e, answer) ↦ inr ((λ k. e (k ∙ sym same.same_digest)), answer)
    ]

-- From a sound state with a complete log, a job that was created with a key keeps it: after any
-- sequence of actions, a request with that key and the job's digest is answered with the snapshot
-- that the job has now, which has the job's id, and creates and changes nothing; with another digest
-- it is answered with IDEMPOTENCY_CONFLICT.
pub create_job-Replays :
    (xs : List Action) (a : Agent) (principal key : ℕ) (r : Job) (s : JobSnapshot) (document : ℕ)
    (retry_of : Option ℕ)
    → Sound a
    → IsLogged a.database
    → find_key principal key a.database.jobs ≡ some r
    → Replays r s.submitted_spec_digest
        (run xs a).database
        (create_job s principal key document retry_of (run xs a).database)
create_job-Replays xs a principal key r s document retry_of sound inv found =
    found-Replays s principal key document retry_of (run xs a).database r
      (find_key principal key (run xs a).database.jobs) (run-IsLogged xs a sound inv).distinct
      (run-Sound xs a sound).rows refl
      (subst (λ o. Keeps o (find_key principal key (run xs a).database.jobs)) found
        (run-Keeps xs a principal key))
