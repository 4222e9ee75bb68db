-- ===== src/Jobs/Rows.antt =====
-- What the UPDATE of one row means for the rows that `find_job` finds (`_update_snapshot_sync` of
-- src/trex_cli/storage.py), and what a complete log says of its events.
use mathlib.Core.Path.{subst}
use trex_cli.Prelude.{
  ℕ, zero, suc, ◌+◌, ◌≤◌, ◌<◌, ◌≡◌, refl, sym, ap, ◌∙◌, ◌⊎◌, inl, inr, Bool, false, Option, none,
  some, List, [], ◌∷◌, map, arith, All, ◌==◌, if◌then◌else◌, Bool-cases,
}
use trex_cli.Jobs.{JobSnapshot, Job, JobEvent, Database, ok}
use trex_cli.Jobs.Store.{
  set_snapshot, at_revision, rowcount, has_event, find_job, has_job, snapshot_of,
}
use trex_cli.Jobs.Advance.{find_job-map, map_row, HasId, find_job-HasId}
use trex_cli.Jobs.Effects.{set_snapshot-keeps}
use trex_cli.Jobs.Log.{log_of, countdown, revision_of, Distinct, has_job-rowcount}
use trex_cli.Jobs.Events.{IsLogged}

-- The row of a job is the only one with its revision.
pub found-rowcount :
    (id : ℕ) (r : Job) (jobs : List Job)
    → Distinct jobs
    → find_job id jobs ≡ some r
    → rowcount id r.revision jobs ≡ 1
unfolding find_job rowcount at_revision
found-rowcount id r [] d found = absurd (cc found)
found-rowcount id r (q ∷ qs) d found = elim (Bool-cases (q.job_id == id)) [
  | inl mine ↦
      let same : q ≡ r = cc (found, mine) in
      let one : q.job_id ≡ id = ground arith in
      let rest : rowcount id r.revision qs ≡ 0 =
        has_job-rowcount id r.revision qs (ap (λ i. has_job i qs) (sym one) ∙ d.0) in
      let agree : q.revision ≡ r.revision = ap (λ x. x.revision) same in ground (arith, rest, agree)
  | inr other ↦
      let rest : rowcount id r.revision qs ≡ 1 =
        found-rowcount id r qs d.1 (ground (arith, found, other)) in
      ground (arith, rest)
]

countdown-bound : (n bound : ℕ) → n ≤ bound → All (λ v. v ≤ bound) (countdown n)
unfolding countdown
countdown-bound zero bound le = tt
countdown-bound (suc n) bound le = (le, countdown-bound n bound (omega arith))

has_event-above :
    (id bound v : ℕ) (es : List JobEvent)
    → All (λ x. x ≤ bound) (log_of id es)
    → bound < v
    → has_event id v es ≡ false
unfolding has_event log_of
has_event-above id bound v [] h lt = refl
has_event-above id bound v (e ∷ es) h lt = elim (Bool-cases (e.job_id == id)) [
  | inl mine ↦
      let k : All (λ x. x ≤ bound) (e.revision ∷ log_of id es) =
        subst
          (λ (b : Bool).
            All (λ x. x ≤ bound) (if b then e.revision ∷ log_of id es else log_of id es))
          mine h in
      ground (arith, k.0, has_event-above id bound v es k.1 lt)
  | inr other ↦
      let k : All (λ x. x ≤ bound) (log_of id es) =
        subst
          (λ (b : Bool).
            All (λ x. x ≤ bound) (if b then e.revision ∷ log_of id es else log_of id es))
          other h in
      ground (arith, has_event-above id bound v es k lt)
]

-- A complete log has no event of the next revision.
pub next-has_event :
    (id : ℕ) (r : Job) (db : Database)
    → IsLogged db
    → find_job id db.jobs ≡ some r
    → has_event id (r.revision + 1) db.job_events ≡ false
next-has_event id r db inv found =
    let n = revision_of (find_job id db.jobs) in
    let top : n ≡ r.revision = ap revision_of found in
    has_event-above id n (r.revision + 1) db.job_events
      (subst (λ l. All (λ v. v ≤ n) l) (sym (inv.logged id)) (countdown-bound n n (omega arith)))
      (omega (arith, top))

set_snapshot-mine :
    (u : JobSnapshot) (revision : ℕ) (resolved : Option ℕ) (r : Job)
    → r.job_id ≡ u.job_id
    → r.revision ≡ revision
    → (set_snapshot u revision resolved r).snapshot ≡ u
unfolding set_snapshot at_revision
set_snapshot-mine u revision resolved r id same = ground (arith, id, same)

pub set_snapshot-stored :
    (u : JobSnapshot) (revision : ℕ) (resolved : Option ℕ) (r : Job) (jobs : List Job)
    → find_job u.job_id jobs ≡ some r
    → r.revision ≡ revision
    → snapshot_of (find_job u.job_id (map (set_snapshot u revision resolved) jobs)) ≡ ok u
unfolding snapshot_of
set_snapshot-stored u revision resolved r jobs found same =
    let id : r.job_id ≡ u.job_id = subst (HasId u.job_id) found (find_job-HasId u.job_id jobs) in
    let changed : find_job u.job_id (map (set_snapshot u revision resolved) jobs)
        ≡ some (set_snapshot u revision resolved r) =
      find_job-map (set_snapshot u revision resolved) (set_snapshot-keeps u revision resolved)
        u.job_id jobs
      ∙ ap (map_row (set_snapshot u revision resolved)) found in
    ap snapshot_of changed ∙ ap ok (set_snapshot-mine u revision resolved r id same)

set_snapshot-unchanged :
    (u : JobSnapshot) (revision : ℕ) (resolved : Option ℕ) (other : ℕ) (o : Option Job)
    → HasId other o
    → (other == u.job_id) ≡ false
    → map_row (set_snapshot u revision resolved) o ≡ o
unfolding set_snapshot at_revision
set_snapshot-unchanged u revision resolved other none h e = refl
set_snapshot-unchanged u revision resolved other (some r) h e = ground (arith, h, e)

pub set_snapshot-others :
    (u : JobSnapshot) (revision : ℕ) (resolved : Option ℕ) (jobs : List Job) (other : ℕ)
    → (other ≡ u.job_id)
      ⊎ (find_job other (map (set_snapshot u revision resolved) jobs) ≡ find_job other jobs)
set_snapshot-others u revision resolved jobs other = elim (Bool-cases (other == u.job_id)) [
  | inl e ↦ inl (ground (arith, e))
  | inr e ↦ inr (
      find_job-map (set_snapshot u revision resolved) (set_snapshot-keeps u revision resolved) other
        jobs
      ∙ set_snapshot-unchanged u revision resolved other (find_job other jobs)
          (find_job-HasId other jobs) e)
]
