-- ===== src/Jobs/Agreement.antt =====
-- The rows that the database calls of src/trex_cli/storage.py write: their columns agree with their
-- snapshots.
use trex_cli.Prelude.{
  ℕ, ◌≡◌, refl, sym, ap, ◌∙◌, inl, inr, false, ◌&&◌, Option, arith, Bool-cases, ◌==◌,
}
use trex_cli.Jobs.{JobState, terminal, JobSnapshot, Job, succeeded}
use trex_cli.Jobs.Store.{set_snapshot, at_revision, set_cancel, cancel_snapshot, new_row}
use trex_cli.Jobs.Transition.{Request, updated_snapshot, same_state, state_index}
use trex_cli.Jobs.System.{accepted_snapshot}
use trex_cli.Jobs.Advance.{Agrees}

-- a state that is not terminal is not SUCCEEDED
live_state : (s : JobState) → terminal s ≡ false → same_state s succeeded ≡ false
unfolding terminal same_state state_index
live_state s live = ground arith

pub set_snapshot-Agrees :
    (req : Request) (s : JobSnapshot) (r : Job)
    → (same_state req.state succeeded && s.cancel_requested) ≡ false
    → Agrees r
    → Agrees (set_snapshot (updated_snapshot req s) s.revision req.resolved_spec_json r)
unfolding set_snapshot updated_snapshot at_revision
set_snapshot-Agrees req s r possible agrees =
    elim (Bool-cases (r.job_id == s.job_id && r.revision == s.revision)) [
      | inl e ↦
          let same_job : r.job_id ≡ s.job_id = ground arith in
          simp e (record {
            state = refl;
            revision = refl;
            job_id = same_job;
            started = omega arith;
            not_both = possible;
          })
      | inr e ↦ simp e agrees
    ]

pub set_cancel-Agrees :
    (id : ℕ) (s : JobSnapshot) (r : Job)
    → terminal s.state ≡ false
    → (r.job_id ≡ id → s ≡ r.snapshot)
    → Agrees r
    → Agrees (set_cancel id (cancel_snapshot s) r)
unfolding set_cancel cancel_snapshot
set_cancel-Agrees id s r live seen agrees = elim (Bool-cases (r.job_id == id)) [
  | inl e ↦
      let same : s ≡ r.snapshot = seen (ground arith) in
      simp e (record {
        state = agrees.state ∙ ap (λ x. x.state) (sym same);
        revision = refl;
        job_id = agrees.job_id ∙ ap (λ x. x.job_id) (sym same);
        started = omega arith;
        not_both = rw (live_state s.state live) refl;
      })
  | inr e ↦ simp e agrees
]

pub new_row-Agrees :
    (id kind digest principal key document : ℕ) (retry_of : Option ℕ) (now : ℕ)
    → Agrees
        (new_row (accepted_snapshot id kind digest retry_of now) principal key document retry_of)
unfolding new_row accepted_snapshot same_state state_index
new_row-Agrees id kind digest principal key document retry_of now = record {
  state = refl;
  revision = refl;
  job_id = refl;
  started = omega arith;
  not_both = refl;
}
