-- ===== src/Jobs/Following.antt =====
-- What a turn of `TestJobs.observe` of src/trex_cli/jobs.py yields, and how it ends.
use trex_cli.Prelude.{
  ℕ, zero, suc, ◌+◌, ◌-◌, ◌≤◌, ◌<◌, ◌≡◌, refl, sym, ap, ◌∙◌, ◌⊎◌, inl, inr, true, false, ◌&&◌,
  Option, none, some, List, [], ◌∷◌, arith, All, leb, Bool-cases,
}
use trex_cli.Jobs.{terminal, JobSnapshot, Job, Database, Result, raised, ok, not_found}
use trex_cli.Jobs.Store.{find_job, has_job, get_snapshot, snapshot_of}
use trex_cli.Jobs.Log.{revision_of}
use trex_cli.Jobs.Effects.{has_job-found}
use trex_cli.Jobs.Observation.{
  events_after, yield_events, poll_events, poll, idle_end, PollEnd, continues, returns, raises,
}
use trex_cli.Jobs.Ordering.{next_revisions, revisions, Followed, events_after-revisions}

abbrev pub Live : JobSnapshot → Type 0
Live s = terminal s.state ≡ false

-- The last one is terminal, and only the last.
abbrev pub EndsTerminal : List JobSnapshot → Type 0
EndsTerminal [] = ⊥
EndsTerminal (s ∷ ss) = ((terminal s.state ≡ true) × (ss ≡ [])) ⊎ (Live s × EndsTerminal ss)

-- So many revisions from the cursor on, and the cursor after them.
abbrev pub Delivered : ℕ → ℕ → List JobSnapshot → ℕ → Type 0
Delivered cursor m ss end = (revisions ss ≡ next_revisions cursor m) × (end ≡ cursor + m)

-- What a read of the current snapshot answers: a terminal one with a revision not after the cursor;
-- another one; that there is no such job.
abbrev pub Over : ℕ → Result JobSnapshot → Type 0
Over cursor (raised e) = ⊥
Over cursor (ok s) = (terminal s.state ≡ true) × (s.revision ≤ cursor)

abbrev pub Waits : ℕ → Result JobSnapshot → Type 0
Waits cursor (raised e) = ⊥
Waits cursor (ok s) = Live s ⊎ (cursor < s.revision)

abbrev pub Missing : Result JobSnapshot → Type 0
Missing (raised e) = e ≡ not_found
Missing (ok s) = ⊥

-- A turn, where the log has so many revisions behind the cursor: it goes on after all of them, or
-- after none if the snapshot does not end it; it returns after a terminal one of them, or if there
-- is none and the snapshot is terminal and not after the cursor; it raises if the job is missing.
abbrev pub Consecutive :
    ℕ → ℕ → Result JobSnapshot → Result JobSnapshot → List JobSnapshot × (ℕ × PollEnd) → Type 0
Consecutive cursor k first second (ss, (end, continues)) =
    Delivered cursor k ss end × (All Live ss × ((0 < k) ⊎ Waits cursor second))
Consecutive cursor k first second (ss, (end, returns)) =
    ((m : ℕ) × ((m ≤ k) × (Delivered cursor m ss end × EndsTerminal ss)))
    ⊎ ((k ≡ 0) × (Delivered cursor 0 ss end × Over cursor second))
Consecutive cursor k first second (ss, (end, raises e)) =
    (e ≡ not_found) × (Delivered cursor 0 ss end × (Missing first ⊎ ((k ≡ 0) × Missing second)))

abbrev Yielded : ℕ → ℕ → List JobSnapshot × (ℕ × PollEnd) → Type 0
Yielded cursor k (ss, (end, continues)) = Delivered cursor k ss end × All Live ss
Yielded cursor k (ss, (end, returns)) =
    (m : ℕ) × ((m ≤ k) × (Delivered cursor m ss end × EndsTerminal ss))
Yielded cursor k (ss, (end, raises e)) = ⊥

cons-Delivered :
    (cursor m : ℕ) (s : JobSnapshot) (ss : List JobSnapshot) (end : ℕ)
    → s.revision ≡ suc cursor
    → Delivered s.revision m ss end
    → Delivered cursor (suc m) (s ∷ ss) end
unfolding next_revisions
cons-Delivered cursor m s ss end head (yields, at) = (
  ap (λ v. v ∷ revisions ss) head
      ∙ ap (λ r. suc cursor ∷ r) (yields ∙ ap (λ c. next_revisions c m) head),
  omega (arith, head, at),
)

cons-Yielded :
    (cursor k : ℕ) (s : JobSnapshot) (p : List JobSnapshot × (ℕ × PollEnd))
    → s.revision ≡ suc cursor
    → Live s
    → Yielded s.revision k p
    → Yielded cursor (suc k) (s ∷ p.0, p.1)
cons-Yielded cursor k s (ss, (end, continues)) head live (given, all) =
    (cons-Delivered cursor k s ss end head given, (live, all))
cons-Yielded cursor k s (ss, (end, returns)) head live (m, (le, (given, ends))) =
    (suc m, (omega (arith, le), (cons-Delivered cursor m s ss end head given, inr (live, ends))))
cons-Yielded cursor k s (ss, (end, raises e)) head live h = h

yield_events-Yielded :
    (cursor k : ℕ) (ss : List JobSnapshot)
    → revisions ss ≡ next_revisions cursor k
    → Yielded cursor k (yield_events cursor ss)
unfolding yield_events next_revisions
yield_events-Yielded cursor zero [] h = ((refl, omega arith), tt)
yield_events-Yielded cursor (suc k) [] h = absurd (cc h)
yield_events-Yielded cursor zero (s ∷ ss) h = absurd (cc h)
yield_events-Yielded cursor (suc k) (s ∷ ss) h =
    let head : s.revision ≡ suc cursor = cc h in
    let tail : revisions ss ≡ next_revisions (suc cursor) k = cc h in
    let behind : revisions ss ≡ next_revisions s.revision k =
      tail ∙ ap (λ c. next_revisions c k) (sym head) in
    elim (Bool-cases (terminal s.state)) [
      | inl e ↦
          rw e (1, (omega arith, ((ap (λ v. v ∷ []) head, omega (arith, head)), inl (e, refl))))
      | inr live ↦ rw live (
          cons-Yielded cursor k s (yield_events s.revision ss) head live
            (yield_events-Yielded s.revision k ss behind))
    ]

no_revisions : (cursor k : ℕ) → revisions [] ≡ next_revisions cursor k → 0 ≡ k
unfolding next_revisions
no_revisions cursor zero h = refl
no_revisions cursor (suc k) h = absurd (cc h)

-- What the read of the events answers.
abbrev EventsOf : ℕ → ℕ → Result JobSnapshot → Result (List JobSnapshot) → Type 0
EventsOf cursor k first (raised e) = (e ≡ not_found) × Missing first
EventsOf cursor k first (ok ss) = revisions ss ≡ next_revisions cursor k

events_after-EventsOf :
    (id cursor : ℕ) (db : Database)
    → Followed db
    → EventsOf cursor
        (revision_of (find_job id db.jobs) - cursor)
        (get_snapshot id db)
        (events_after id cursor db)
unfolding events_after get_snapshot snapshot_of
events_after-EventsOf id cursor db h = elim (Bool-cases (has_job id db.jobs)) [
  | inl there ↦ rw there (events_after-revisions id cursor db h)
  | inr absent ↦ rw (absent, has_job-found id db.jobs absent) (refl, refl)
]

-- A read of a snapshot raises nothing else.
abbrev Known : Result JobSnapshot → Type 0
Known (raised e) = e ≡ not_found
Known (ok s) = Unit

snapshot_of-Known : (o : Option Job) → Known (snapshot_of o)
unfolding snapshot_of
snapshot_of-Known none = refl
snapshot_of-Known (some r) = tt

get_snapshot-Known : (id : ℕ) (db : Database) → Known (get_snapshot id db)
unfolding get_snapshot
get_snapshot-Known id db = snapshot_of-Known (find_job id db.jobs)

idle-Consecutive :
    (cursor k : ℕ) (first second : Result JobSnapshot)
    → k ≡ 0
    → Known second
    → Consecutive cursor k first second ([], (cursor, idle_end cursor second))
unfolding idle_end next_revisions
idle-Consecutive cursor k first (raised e) idle known =
    (known, ((refl, omega arith), inr (idle, known)))
idle-Consecutive cursor k first (ok s) idle known =
    elim (Bool-cases (terminal s.state && leb s.revision cursor)) [
      | inl over ↦
          rw over (inr (idle, ((refl, omega arith), (ground (arith, over), ground (arith, over)))))
      | inr on ↦ rw on (
        (rw idle refl, omega (arith, idle)),
        (
          tt,
          inr (elim (Bool-cases (terminal s.state)) [
            | inl ended ↦ inr (ground (arith, on, ended))
            | inr live ↦ inl live
          ]),
        ),
      )
    ]

Yielded-Consecutive :
    (cursor k : ℕ) (first second : Result JobSnapshot) (p : List JobSnapshot × (ℕ × PollEnd))
    → 0 < k
    → Yielded cursor k p
    → Consecutive cursor k first second p
Yielded-Consecutive cursor k first second (ss, (end, continues)) some_row (given, all) =
    (given, (all, inl some_row))
Yielded-Consecutive cursor k first second (ss, (end, returns)) some_row h = inl h
Yielded-Consecutive cursor k first second (ss, (end, raises e)) some_row h = absurd h

some_revisions :
    (cursor k : ℕ) (s : JobSnapshot) (ss : List JobSnapshot)
    → revisions (s ∷ ss) ≡ next_revisions cursor k
    → 0 < k
unfolding next_revisions
some_revisions cursor zero s ss h = absurd (cc h)
some_revisions cursor (suc k) s ss h = omega arith

poll_events-Consecutive :
    (cursor k : ℕ) (first second : Result JobSnapshot) (o : Result (List JobSnapshot))
    → Known second
    → EventsOf cursor k first o
    → Consecutive cursor k first second (poll_events cursor o second)
unfolding poll_events next_revisions
poll_events-Consecutive cursor k first second (raised e) known (same, missing) =
    (same, ((refl, omega arith), inl missing))
poll_events-Consecutive cursor k first second (ok []) known h =
    idle-Consecutive cursor k first second (sym (no_revisions cursor k h)) known
poll_events-Consecutive cursor k first second (ok (s ∷ ss)) known h =
    Yielded-Consecutive cursor k first second (yield_events cursor (s ∷ ss))
      (some_revisions cursor k s ss h) (yield_events-Yielded cursor k (s ∷ ss) h)

-- A turn of the loop of `observe` whose first read meets a complete log, whatever database its
-- second read meets. If it goes on, it has yielded exactly the revisions between the cursor and the
-- one of the job's row, in order, none of them terminal, and if there are none, the snapshot of the
-- second read is not terminal or has a revision after the cursor. If it returns, either it has
-- yielded the first of these revisions up to a terminal one, which is the only one, or there are
-- none and the snapshot of the second read is terminal with a revision not after the cursor. If it
-- raises, it has yielded nothing, the error is NOT_FOUND, and the job is missing in the first
-- database, or nothing is new in it and the job is missing in the second. The cursor moves by the
-- number of revisions yielded.
pub poll-Consecutive :
    (id cursor : ℕ) (now later : Database)
    → Followed now
    → Consecutive cursor
        (revision_of (find_job id now.jobs) - cursor)
        (get_snapshot id now)
        (get_snapshot id later)
        (poll id cursor now later)
unfolding poll
poll-Consecutive id cursor now later h =
    poll_events-Consecutive cursor (revision_of (find_job id now.jobs) - cursor)
      (get_snapshot id now) (get_snapshot id later) (events_after id cursor now)
      (get_snapshot-Known id later) (events_after-EventsOf id cursor now h)
