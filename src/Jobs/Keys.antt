-- ===== src/Jobs/Keys.antt =====
-- The row of an idempotency key through the calls of src/trex_cli/storage.py.
use trex_cli.Prelude.{
  ℕ, ◌≡◌, refl, ◌∙◌, inl, inr, ◌&&◌, Option, none, some, List, [], ◌∷◌, map, arith, ◌==◌,
  Bool-cases,
}
use trex_cli.Jobs.{JobSnapshot, Job, Result, raised, ok}
use trex_cli.Jobs.Store.{
  find_job, find_key, set_snapshot, set_cancel, cancel_snapshot, new_row, request_cancel,
  get_snapshot,
}
use trex_cli.Jobs.Transition.{Request, updated_snapshot}
use trex_cli.Jobs.System.{
  accepted_snapshot, Agent, Action, submit, cancel, read, write, step, run, last_read, note_read,
  write_read,
}
use trex_cli.Jobs.Effects.{attempt_jobs, submit_jobs, cancel_jobs}

-- The row of a key stays the row of that key, of the same job and the same digest.
pub record SameJob (r r' : Job) : Type 0 where
  pub same_id : r'.job_id ≡ r.job_id
  pub same_digest : r'.spec_digest ≡ r.spec_digest

abbrev pub Keeps : Option Job → Option Job → Type 0
Keeps none o = Unit
Keeps (some r) none = ⊥
Keeps (some r) (some r') = SameJob r r'

Keeps-refl : (o : Option Job) → Keeps o o
Keeps-refl none = tt
Keeps-refl (some r) = record { same_id = refl; same_digest = refl }

Keeps-trans : (a b c : Option Job) → Keeps a b → Keeps b c → Keeps a c
Keeps-trans none b c p q = tt
Keeps-trans (some a) none c p q = absurd p
Keeps-trans (some a) (some b) none p q = absurd q
Keeps-trans (some a) (some b) (some c) p q = record {
  same_id = q.same_id ∙ p.same_id;
  same_digest = q.same_digest ∙ p.same_digest;
}

-- Updates of rows that leave the key, the job and the digest alone.
pub record KeepsKey (f : Job → Job) : Type 0 where
  pub principal : (r : Job) → (f r).principal ≡ r.principal
  pub key : (r : Job) → (f r).idempotency_key ≡ r.idempotency_key
  pub job : (r : Job) → SameJob r (f r)

find_key-map :
    (f : Job → Job)
    → KeepsKey f
    → (p k : ℕ) (rows : List Job) → Keeps (find_key p k rows) (find_key p k (map f rows))
unfolding find_key
find_key-map f keeps p k [] = tt
find_key-map f keeps p k (r ∷ rs) = elim (Bool-cases (r.principal == p && r.idempotency_key == k)) [
  | inl e ↦ simp (keeps.principal r, keeps.key r, e) (keeps.job r)
  | inr e ↦ simp (keeps.principal r, keeps.key r, e) (find_key-map f keeps p k rs)
]

set_snapshot-KeepsKey :
    (s : JobSnapshot) (expected : ℕ) (resolved : Option ℕ)
    → KeepsKey (set_snapshot s expected resolved)
unfolding set_snapshot
set_snapshot-KeepsKey s expected resolved = record {
  principal = λ r. ground arith;
  key = λ r. ground arith;
  job = λ r. record { same_id = ground arith; same_digest = ground arith };
}

set_cancel-KeepsKey : (id : ℕ) (s : JobSnapshot) → KeepsKey (set_cancel id s)
unfolding set_cancel
set_cancel-KeepsKey id s = record {
  principal = λ r. ground arith;
  key = λ r. ground arith;
  job = λ r. record { same_id = ground arith; same_digest = ground arith };
}

new_row-Keeps :
    (s : JobSnapshot) (principal key document : ℕ) (retry_of : Option ℕ) (p k : ℕ) (jobs : List Job)
    → find_key principal key jobs ≡ none
    → Keeps (find_key p k jobs) (find_key p k (new_row s principal key document retry_of ∷ jobs))
unfolding find_key new_row
new_row-Keeps s principal key document retry_of p k jobs fresh =
    elim (Bool-cases (principal == p && key == k)) [
      | inl e ↦
          let same_principal : p ≡ principal = ground arith in
          let same_key : k ≡ key = ground arith in
          let absent : find_key p k jobs ≡ none = rw (same_principal, same_key) fresh in
          rw (e, absent) tt
      | inr e ↦ rw e (Keeps-refl (find_key p k jobs))
    ]

write_read-Keeps :
    (req : Request) (o : Option JobSnapshot) (a : Agent) (p k : ℕ)
    → Keeps (find_key p k a.database.jobs) (find_key p k (write_read req o a).database.jobs)
unfolding write_read
write_read-Keeps req none a p k = Keeps-refl (find_key p k a.database.jobs)
write_read-Keeps req (some s) a p k = elim (attempt_jobs req s a.database) [
  | inl same ↦ rw same (Keeps-refl (find_key p k a.database.jobs))
  | inr (changed, _) ↦ rw changed (
      find_key-map (set_snapshot (updated_snapshot req s) s.revision req.resolved_spec_json)
        (set_snapshot-KeepsKey (updated_snapshot req s) s.revision req.resolved_spec_json) p k
        a.database.jobs)
]

note_read-Keeps :
    (reader : ℕ) (o : Result JobSnapshot) (a : Agent) (p k : ℕ)
    → Keeps (find_key p k a.database.jobs) (find_key p k (note_read reader o a).database.jobs)
unfolding note_read
note_read-Keeps reader (raised e) a p k = Keeps-refl (find_key p k a.database.jobs)
note_read-Keeps reader (ok s) a p k = Keeps-refl (find_key p k a.database.jobs)

step-Keeps :
    (x : Action) (a : Agent) (p k : ℕ)
    → Keeps (find_key p k a.database.jobs) (find_key p k (step x a).database.jobs)
unfolding step request_cancel
step-Keeps (submit id kind principal key digest document retry_of now) a p k =
    elim (submit_jobs (accepted_snapshot id kind digest retry_of now) principal key document
      retry_of a.database) [
        | inl same ↦ rw same (Keeps-refl (find_key p k a.database.jobs))
        | inr (changed, (_, fresh)) ↦ rw changed (
            new_row-Keeps (accepted_snapshot id kind digest retry_of now) principal key document
              retry_of p k a.database.jobs fresh)
      ]
step-Keeps (cancel id request) a p k =
    elim (cancel_jobs id request (find_job id a.database.jobs) a.database) [
      | inl same ↦ rw same (Keeps-refl (find_key p k a.database.jobs))
      | inr (r, (_, (changed, _))) ↦ rw changed (
          find_key-map (set_cancel id (cancel_snapshot r.snapshot))
            (set_cancel-KeepsKey id (cancel_snapshot r.snapshot)) p k a.database.jobs)
    ]
step-Keeps (read task id) a p k = note_read-Keeps task (get_snapshot id a.database) a p k
step-Keeps (write task req) a p k = write_read-Keeps req (last_read task a.reads) a p k

pub run-Keeps :
    (xs : List Action) (a : Agent) (p k : ℕ)
    → Keeps (find_key p k a.database.jobs) (find_key p k (run xs a).database.jobs)
unfolding run
run-Keeps [] a p k = Keeps-refl (find_key p k a.database.jobs)
run-Keeps (x ∷ xs) a p k =
    Keeps-trans (find_key p k a.database.jobs) (find_key p k (step x a).database.jobs)
      (find_key p k (run xs (step x a)).database.jobs) (step-Keeps x a p k)
      (run-Keeps xs (step x a) p k)
