-- ===== src/Jobs/Advance.antt =====
-- How the row of a job may change while the agent runs, and the database calls that change it.
use trex_cli.Prelude.{
  ℕ, ◌≤◌, ◌≡◌, refl, sym, ap, ◌∙◌, inl, inr, true, false, ◌&&◌, Option, none, some, List, [], ◌∷◌,
  map, arith, Bool-cases, ◌==◌,
}
use trex_cli.Jobs.{terminal, JobSnapshot, Job}
use trex_cli.Jobs.Store.{find_job, set_snapshot, at_revision, set_cancel, cancel_snapshot}
use trex_cli.Jobs.Transition.{Request, updated_snapshot, same_state}
use trex_cli.Jobs.{succeeded}

-- The columns agree with the snapshot, and no job with a cancel request succeeded.
pub record Agrees (r : Job) : Type 0 where
  pub state : r.state ≡ r.snapshot.state
  pub revision : r.revision ≡ r.snapshot.revision
  pub job_id : r.job_id ≡ r.snapshot.job_id
  pub started : 1 ≤ r.revision
  pub not_both : (same_state r.snapshot.state succeeded && r.snapshot.cancel_requested) ≡ false

-- A later row of the same job.
pub record Advances (r r' : Job) : Type 0 where
  pub same_job : r'.job_id ≡ r.job_id
  pub same_digest : r'.spec_digest ≡ r.spec_digest
  pub grows : r.revision ≤ r'.revision
  pub frozen : r.revision ≡ r'.revision → r'.snapshot ≡ r.snapshot
  pub final : terminal r.snapshot.state ≡ true → r' ≡ r
  pub keeps_request : r.snapshot.cancel_requested ≡ true → r'.snapshot.cancel_requested ≡ true

abbrev pub Moves : Option Job → Option Job → Type 0
Moves none o = Unit
Moves (some r) none = ⊥
Moves (some r) (some r') = Advances r r'

Advances-refl : (r : Job) → Advances r r
Advances-refl r = record {
  same_job = refl;
  same_digest = refl;
  grows = omega arith;
  frozen = λ e. refl;
  final = λ e. refl;
  keeps_request = λ e. e;
}

Advances-trans : (a b c : Job) → Advances a b → Advances b c → Advances a c
Advances-trans a b c p q = record {
  same_job = q.same_job ∙ p.same_job;
  same_digest = q.same_digest ∙ p.same_digest;
  grows = omega arith;
  frozen = λ e. q.frozen (omega arith) ∙ p.frozen (omega arith);
  final = λ e. q.final (ap (λ x. terminal x.snapshot.state) (p.final e) ∙ e) ∙ p.final e;
  keeps_request = λ e. q.keeps_request (p.keeps_request e);
}

pub Moves-refl : (o : Option Job) → Moves o o
Moves-refl none = tt
Moves-refl (some r) = Advances-refl r

pub Moves-trans : (a b c : Option Job) → Moves a b → Moves b c → Moves a c
Moves-trans none b c p q = tt
Moves-trans (some a) none c p q = absurd p
Moves-trans (some a) (some b) none p q = absurd q
Moves-trans (some a) (some b) (some c) p q = Advances-trans a b c p q

-- An update of rows that keeps their ids.
abbrev pub map_row : (Job → Job) → Option Job → Option Job
map_row f none = none
map_row f (some r) = some (f r)

pub find_job-map :
    (f : Job → Job)
    → ((r : Job) → (f r).job_id ≡ r.job_id)
    → (id : ℕ) (rows : List Job) → find_job id (map f rows) ≡ map_row f (find_job id rows)
unfolding find_job
find_job-map f keeps id [] = refl
find_job-map f keeps id (r ∷ rs) = elim (Bool-cases (r.job_id == id)) [
  | inl e ↦ simp (keeps r, e) refl
  | inr e ↦ simp (keeps r, e) (find_job-map f keeps id rs)
]

-- the row that is found has the id
abbrev pub HasId : ℕ → Option Job → Type 0
HasId id none = Unit
HasId id (some r) = r.job_id ≡ id

pub find_job-HasId : (id : ℕ) (rows : List Job) → HasId id (find_job id rows)
unfolding find_job
find_job-HasId id [] = tt
find_job-HasId id (r ∷ rs) = elim (Bool-cases (r.job_id == id)) [
  | inl e ↦ rw e (ground arith)
  | inr e ↦ rw e (find_job-HasId id rs)
]

-- What a task read is the snapshot that the row has, or an earlier one.
abbrev pub SeenIn : JobSnapshot → Option Job → Type 0
SeenIn s none = ⊥
SeenIn s (some r) = (s.revision ≤ r.revision) × (s.revision ≡ r.revision → s ≡ r.snapshot)

pub SeenIn-Moves : (s : JobSnapshot) (o o' : Option Job) → Moves o o' → SeenIn s o → SeenIn s o'
SeenIn-Moves s none o' m h = absurd h
SeenIn-Moves s (some r) none m h = absurd m
SeenIn-Moves s (some r) (some r') m h =
    let grows : r.revision ≤ r'.revision = m.grows in
    let seen : s.revision ≤ r.revision = h.0 in
    (omega arith, λ e. h.1 (omega arith) ∙ sym (m.frozen (omega arith)))

pub SeenIn-some :
    (s : JobSnapshot) (o : Option Job) (r : Job)
    → o ≡ some r
    → SeenIn s o
    → s.revision ≡ r.revision
    → s ≡ r.snapshot
SeenIn-some s none r e h k = absurd h
SeenIn-some s (some q) r e h k =
    let same : q ≡ r = cc e in h.1 (k ∙ sym (ap (λ x. x.revision) same)) ∙ ap (λ x. x.snapshot) same

-- The write of a checked transition advances the row that still has the revision that was read.
pub set_snapshot-Advances :
    (req : Request) (s : JobSnapshot) (r : Job)
    → terminal s.state ≡ false
    → (r.job_id ≡ s.job_id → s.revision ≡ r.revision → s ≡ r.snapshot)
    → Advances r (set_snapshot (updated_snapshot req s) s.revision req.resolved_spec_json r)
unfolding set_snapshot updated_snapshot at_revision
set_snapshot-Advances req s r live seen =
    elim (Bool-cases (r.job_id == s.job_id && r.revision == s.revision)) [
      | inl e ↦
          let same_revision : s.revision ≡ r.revision = ground arith in
          let same : s ≡ r.snapshot = seen (ground arith) same_revision in
          simp e (record {
            same_job = refl;
            same_digest = refl;
            grows = omega arith;
            frozen = λ k. absurd (omega arith);
            final = λ k. absurd (cc (ap (λ x. terminal x.state) same, k, live));
            keeps_request = λ k. ap (λ x. x.cancel_requested) same ∙ k;
          })
      | inr e ↦ simp e (Advances-refl r)
    ]

-- The update of `_request_cancel_sync` advances the row that it read.
pub set_cancel-Advances :
    (id : ℕ) (s : JobSnapshot) (r : Job)
    → terminal s.state ≡ false
    → (r.job_id ≡ id → s ≡ r.snapshot)
    → Agrees r
    → Advances r (set_cancel id (cancel_snapshot s) r)
unfolding set_cancel cancel_snapshot
set_cancel-Advances id s r live seen agrees = elim (Bool-cases (r.job_id == id)) [
  | inl e ↦
      let same : s ≡ r.snapshot = seen (ground arith) in
      let revision : r.revision ≡ s.revision = agrees.revision ∙ ap (λ x. x.revision) (sym same) in
      simp e (record {
        same_job = refl;
        same_digest = refl;
        grows = omega arith;
        frozen = λ k. absurd (omega arith);
        final = λ k. absurd (cc (ap (λ x. terminal x.state) same, k, live));
        keeps_request = λ k. refl;
      })
  | inr e ↦ simp e (Advances-refl r)
]
