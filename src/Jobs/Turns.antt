-- ===== src/Jobs/Turns.antt =====
-- The turns of `TestJobs.observe` of src/trex_cli/jobs.py together.
use trex_cli.Prelude.{
  ℕ, zero, suc, ◌+◌, ◌-◌, ◌≤◌, ◌≡◌, refl, ap, ◌∙◌, ◌⊎◌, inl, inr, List, [], ◌∷◌, ◌++◌, arith, All,
  All-append,
}
use trex_cli.Jobs.{JobSnapshot, Database, Result, raised, ok, not_found}
use trex_cli.Jobs.Store.{find_job, get_snapshot}
use trex_cli.Jobs.Log.{revision_of}
use trex_cli.Jobs.Observation.{poll, polls, then_turns, PollEnd, continues, returns, raises}
use trex_cli.Jobs.Ordering.{next_revisions, revisions, Followed}
use trex_cli.Jobs.Following.{
  Live, EndsTerminal, Delivered, Over, Missing, Consecutive, poll-Consecutive,
}

next_revisions-append :
    (a m n : ℕ) → next_revisions a m ++ next_revisions (a + m) n ≡ next_revisions a (m + n)
unfolding next_revisions
next_revisions-append a zero n =
    let start : a + 0 ≡ a = omega arith in
    let count : n ≡ 0 + n = omega arith in
    ap (λ b. next_revisions b n) start ∙ ap (next_revisions a) count
next_revisions-append a (suc m) n =
    let start : a + suc m ≡ suc a + m = omega arith in
    let count : suc (m + n) ≡ suc m + n = omega arith in
    ap (λ r. suc a ∷ r)
      (ap (λ b. next_revisions (suc a) m ++ next_revisions b n) start
        ∙ next_revisions-append (suc a) m n)
    ∙ ap (next_revisions a) count

revisions-append : (xs ys : List JobSnapshot) → revisions (xs ++ ys) ≡ revisions xs ++ revisions ys
revisions-append [] ys = refl
revisions-append (x ∷ xs) ys = ap (λ r. x.revision ∷ r) (revisions-append xs ys)

-- One of the turns has the property.
abbrev pub Met : (Database × Database → Type 0) → List (Database × Database) → Type 0
Met P [] = ⊥
Met P (t ∷ ts) = P t ⊎ Met P ts

-- The first read of the turn is not ahead of the cursor.
abbrev pub UpTo : ℕ → ℕ → Database × Database → Type 0
UpTo id end t = revision_of (find_job id t.0.jobs) ≤ end

abbrev pub OverIn : ℕ → ℕ → Database × Database → Type 0
OverIn id end t = Over end (get_snapshot id t.1)

abbrev pub MissingIn : ℕ → Database × Database → Type 0
MissingIn id t = Missing (get_snapshot id t.0) ⊎ Missing (get_snapshot id t.1)

-- All revisions from one cursor to another.
abbrev pub Covers : ℕ → List JobSnapshot → ℕ → Type 0
Covers cursor ss end = (cursor ≤ end) × (revisions ss ≡ next_revisions cursor (end - cursor))

-- What the turns yield, the cursor then, and how they end.
abbrev pub StreamOf : ℕ → ℕ → List (Database × Database) → List JobSnapshot × (ℕ × PollEnd) → Type 0
StreamOf id cursor turns (ss, (end, continues)) =
    Covers cursor ss end × (All Live ss × All (UpTo id end) turns)
StreamOf id cursor turns (ss, (end, returns)) =
    Covers cursor ss end × (EndsTerminal ss ⊎ (All Live ss × Met (OverIn id end) turns))
StreamOf id cursor turns (ss, (end, raises e)) =
    Covers cursor ss end × ((e ≡ not_found) × (All Live ss × Met (MissingIn id) turns))

Delivered-Covers :
    (cursor m : ℕ) (ss : List JobSnapshot) (end : ℕ)
    → Delivered cursor m ss end
    → Covers cursor ss end
Delivered-Covers cursor m ss end (yields, at) =
    let count : m ≡ end - cursor = omega (arith, at) in
    (omega (arith, at), yields ∙ ap (next_revisions cursor) count)

append-Covers :
    (cursor middle end : ℕ) (xs ys : List JobSnapshot)
    → Covers cursor xs middle
    → Covers middle ys end
    → Covers cursor (xs ++ ys) end
append-Covers cursor middle end xs ys (le, h) (le', g) =
    let start : middle ≡ cursor + (middle - cursor) = omega (arith, le) in
    let count : (middle - cursor) + (end - middle) ≡ end - cursor = omega (arith, le, le') in
    (
      omega (arith, le, le'),
      revisions-append xs ys
          ∙ (ap (λ r. r ++ revisions ys) h
              ∙ (ap (λ r. next_revisions cursor (middle - cursor) ++ r)
                    (g ∙ ap (λ b. next_revisions b (end - middle)) start)
                  ∙ (next_revisions-append cursor (middle - cursor) (end - middle)
                      ∙ ap (next_revisions cursor) count))),
    )

append-EndsTerminal :
    (xs ys : List JobSnapshot) → All Live xs → EndsTerminal ys → EndsTerminal (xs ++ ys)
append-EndsTerminal [] ys live h = h
append-EndsTerminal (x ∷ xs) ys live h = inr (live.0, append-EndsTerminal xs ys live.1 h)

-- nothing yielded, nothing terminal
none-Live :
    (cursor : ℕ) (ss : List JobSnapshot) → revisions ss ≡ next_revisions cursor 0 → All Live ss
unfolding next_revisions
none-Live cursor [] h = tt
none-Live cursor (s ∷ ss) h = absurd (cc h)

later-Over : (cursor end : ℕ) (o : Result JobSnapshot) → cursor ≤ end → Over cursor o → Over end o
later-Over cursor end (raised e) le h = h
later-Over cursor end (ok s) le (t, r) = (t, omega (arith, le, r))

-- a turn that goes on, and the turns after it
append-StreamOf :
    (id cursor middle : ℕ) (t : Database × Database) (turns : List (Database × Database))
    (xs : List JobSnapshot) (p : List JobSnapshot × (ℕ × PollEnd))
    → Covers cursor xs middle
    → All Live xs
    → UpTo id middle t
    → StreamOf id middle turns p
    → StreamOf id cursor (t ∷ turns) (xs ++ p.0, p.1)
append-StreamOf id cursor middle t turns xs (ss, (end, continues)) c live upto (more, (all, rest)) =
    (
      append-Covers cursor middle end xs ss c more,
      (All-append Live xs ss live all, (omega (arith, upto, more.0), rest)),
    )
append-StreamOf id cursor middle t turns xs (ss, (end, returns)) c live upto (more, inl ends) =
    (append-Covers cursor middle end xs ss c more, inl (append-EndsTerminal xs ss live ends))
append-StreamOf id cursor middle t turns xs (ss, (end, returns)) c live upto
      (more, inr (all, met)) =
    (append-Covers cursor middle end xs ss c more, inr (All-append Live xs ss live all, inr met))
append-StreamOf id cursor middle t turns xs (ss, (end, raises e)) c live upto
      (more, (same, (all, met))) =
    (
      append-Covers cursor middle end xs ss c more,
      (same, (All-append Live xs ss live all, inr met)),
    )

then_turns-StreamOf :
    (id cursor : ℕ) (t : Database × Database) (turns : List (Database × Database))
    (p further : List JobSnapshot × (ℕ × PollEnd))
    → Consecutive cursor
        (revision_of (find_job id t.0.jobs) - cursor)
        (get_snapshot id t.0)
        (get_snapshot id t.1)
        p
    → StreamOf id p.1.0 turns further
    → StreamOf id cursor (t ∷ turns) (then_turns p further)
unfolding then_turns
then_turns-StreamOf id cursor t turns (ss, (end, continues)) further (given, (all, _)) rest =
    append-StreamOf id cursor end t turns ss further (Delivered-Covers cursor _ ss end given) all
      (omega (arith, given.1)) rest
then_turns-StreamOf id cursor t turns (ss, (end, returns)) further (inl (m, (_, (given, ends))))
      rest =
    (Delivered-Covers cursor m ss end given, inl ends)
then_turns-StreamOf id cursor t turns (ss, (end, returns)) further (inr (_, (given, over))) rest = (
  Delivered-Covers cursor 0 ss end given,
  inr (
    none-Live cursor ss given.0,
    inl (later-Over cursor end (get_snapshot id t.1) (omega (arith, given.1)) over),
  ),
)
then_turns-StreamOf id cursor t turns (ss, (end, raises e)) further (same, (given, inl m)) rest =
    (Delivered-Covers cursor 0 ss end given, (same, (none-Live cursor ss given.0, inl (inl m))))
then_turns-StreamOf id cursor t turns (ss, (end, raises e)) further (same, (given, inr (_, m)))
      rest =
    (Delivered-Covers cursor 0 ss end given, (same, (none-Live cursor ss given.0, inl (inr m))))

pub polls-StreamOf :
    (id cursor : ℕ) (turns : List (Database × Database))
    → All (λ t. Followed t.0) turns
    → StreamOf id cursor turns (polls id cursor turns)
unfolding polls next_revisions
polls-StreamOf id cursor [] h =
    let none_new : 0 ≡ cursor - cursor = omega arith in
    ((omega arith, ap (next_revisions cursor) none_new), (tt, tt))
polls-StreamOf id cursor ((now, later) ∷ turns) h =
    then_turns-StreamOf id cursor (now, later) turns (poll id cursor now later)
      (polls id (poll id cursor now later).1.0 turns) (poll-Consecutive id cursor now later h.0)
      (polls-StreamOf id (poll id cursor now later).1.0 turns h.1)
