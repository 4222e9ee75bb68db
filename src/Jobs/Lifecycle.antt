-- ===== src/Jobs/Lifecycle.antt =====
-- The life of a job under any interleaving of the agent's tasks (src/trex_cli/jobs.py and
-- src/trex_cli/storage.py).
use mathlib.Core.Path.{subst}
use trex_cli.Prelude.{
  ◌⊎◌, ◌<◌, ◌≤◌, ℕ, ◌≡◌, ap, inl, inr, Bool, true, false, ◌&&◌, Option, none, some, List, arith,
  Bool-cases, ◌==◌,
}
use trex_cli.Jobs.{Job, succeeded, terminal}
use trex_cli.Jobs.Store.{find_job}
use trex_cli.Jobs.Transition.{same_state}
use trex_cli.Jobs.System.{Agent, Action, run}
use trex_cli.Jobs.Advance.{Moves}
use trex_cli.Jobs.Effects.{RowAgrees}
use trex_cli.Jobs.Soundness.{Sound, run-Sound, run-Moves}

-- A job that was asked to cancel and is not SUCCEEDED.
abbrev pub CancelHolds : Option Job → Type 0
CancelHolds none = ⊥
CancelHolds (some r) = (r.snapshot.cancel_requested ≡ true) × (same_state r.state succeeded ≡ false)

and_true : {a b : Bool} → a ≡ true → b ≡ true → (a && b) ≡ true
and_true p q = ground arith

Moves-CancelHolds :
    (r : Job) (o : Option Job)
    → r.snapshot.cancel_requested ≡ true
    → Moves (some r) o
    → RowAgrees o
    → CancelHolds o
Moves-CancelHolds r none asked m agrees = absurd m
Moves-CancelHolds r (some q) asked m agrees =
    let still : q.snapshot.cancel_requested ≡ true = m.keeps_request asked in
    (
      still,
      rw agrees.state (elim (Bool-cases (same_state q.snapshot.state succeeded)) [
        | inl done ↦ absurd (cc (and_true done still, agrees.not_both))
        | inr other ↦ other
      ]),
    )

-- From a sound state, a job with a cancel request keeps it through any sequence of actions and is
-- never SUCCEEDED.
pub run-CancelHolds :
    (xs : List Action) (a : Agent) (id : ℕ) (r : Job)
    → Sound a
    → find_job id a.database.jobs ≡ some r
    → r.snapshot.cancel_requested ≡ true
    → CancelHolds (find_job id (run xs a).database.jobs)
run-CancelHolds xs a id r sound found asked =
    Moves-CancelHolds r (find_job id (run xs a).database.jobs) asked
      (subst (λ o. Moves o (find_job id (run xs a).database.jobs)) found (run-Moves xs a id sound))
      ((run-Sound xs a sound).rows id)

-- The row of a job later: of the same job and digest, and either of a greater revision or with the
-- very same snapshot.
abbrev pub LaterJob : Job → Option Job → Type 0
LaterJob r none = ⊥
LaterJob r (some r') =
    (r'.job_id ≡ r.job_id)
    × ((r'.spec_digest ≡ r.spec_digest)
        × ((r.revision < r'.revision) ⊎ ((r'.revision ≡ r.revision) × (r'.snapshot ≡ r.snapshot))))

Moves-LaterJob : (r : Job) (o : Option Job) → Moves (some r) o → LaterJob r o
Moves-LaterJob r none m = absurd m
Moves-LaterJob r (some q) m =
    let grows : r.revision ≤ q.revision = m.grows in
    (
      m.same_job,
      (
        m.same_digest,
        elim (Bool-cases (r.revision == q.revision)) [
          | inl e ↦ inr (ground arith, m.frozen (ground arith))
          | inr e ↦ inl (ground arith)
        ],
      ),
    )

-- From a sound state, a job that existed exists after any sequence of actions, with its digest;
-- its revision has grown, or it has the same revision and the same snapshot.
pub run-LaterJob :
    (xs : List Action) (a : Agent) (id : ℕ) (r : Job)
    → Sound a
    → find_job id a.database.jobs ≡ some r
    → LaterJob r (find_job id (run xs a).database.jobs)
run-LaterJob xs a id r sound found =
    Moves-LaterJob r (find_job id (run xs a).database.jobs)
      (subst (λ o. Moves o (find_job id (run xs a).database.jobs)) found (run-Moves xs a id sound))

Moves-final :
    (r : Job) (o : Option Job) → terminal r.snapshot.state ≡ true → Moves (some r) o → o ≡ some r
Moves-final r none done m = absurd m
Moves-final r (some q) done m = ap some (m.final done)

-- From a sound state, no sequence of actions of any tasks changes the row of a terminal job, also
-- not writes of snapshots that were read before it was terminal.
pub run-final :
    (xs : List Action) (a : Agent) (id : ℕ) (r : Job)
    → Sound a
    → find_job id a.database.jobs ≡ some r
    → terminal r.snapshot.state ≡ true
    → find_job id (run xs a).database.jobs ≡ some r
run-final xs a id r sound found done =
    Moves-final r (find_job id (run xs a).database.jobs) done
      (subst (λ o. Moves o (find_job id (run xs a).database.jobs)) found (run-Moves xs a id sound))
