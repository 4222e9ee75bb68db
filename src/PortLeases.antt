-- ===== src/PortLeases.antt =====
-- The port leases of src/trex_cli/storage.py: the table `port_leases` and the methods of
-- `SqliteStore` that read and write it. Each method runs in one transaction under the store's
-- lock, so a run is a sequence of whole methods. A port or job id is a number that stands for its
-- text, which the code only compares and sorts.
pub mod Follows
pub mod Consistency
pub mod Exclusion
mod Examples
use trex_cli.Prelude.{
  ℕ, zero, suc, ◌+◌, ◌-◌, ◌*◌, ◌/◌, ◌%◌, ◌^◌, ◌≤◌, ◌<◌, ◌≡◌, refl, sym, ap, ◌∙◌, ◌↔◌, ◌⊎◌, inl, inr,
  Bool, true, false, ◌&&◌, ◌||◌, not, Option, none, some, List, [], ◌∷◌, ◌++◌, map, arith, length,
  All, Member, ltb, leb, ◌==◌, if◌then◌else◌, Bool-cases, Option-cases, lower_char, every, split,
  join, concat, prepend, to_bytes, from_bytes, All-append, Returns, Returns-bind, length-append,
  match_option, ◌≢◌,
}

pub data Status : Type 0 where
  available leased quarantined : Status

-- A row of `port_leases`.
pub record Lease : Type 0 where
  pub port : ℕ
  pub job : Option ℕ
  pub generation : ℕ
  pub status : Status

-- The outcomes of `acquire_ports`: the fence (port and generation of each row), `None`, the two
-- errors CAPABILITY_MISMATCH, and SQLite's IntegrityError.
pub data Acquired : Type 0 where
  granted : List (ℕ × ℕ) → Acquired
  busy unconfigured in_quarantine integrity_error : Acquired

unfoldable pub contains : List ℕ → ℕ → Bool
contains [] p = false
contains (q ∷ qs) p = q == p || contains qs p

-- `tuple(sorted(set(ports)))`
unfoldable pub insert : ℕ → List ℕ → List ℕ
insert p [] = p ∷ []
insert p (q ∷ qs) = if ltb p q then p ∷ q ∷ qs else if p == q then q ∷ qs else q ∷ insert p qs

unfoldable pub sorted_set : List ℕ → List ℕ
sorted_set [] = []
sorted_set (p ∷ ps) = insert p (sorted_set ps)

unfoldable pub is_quarantined : Status → Bool
is_quarantined quarantined = true
is_quarantined _ = false

-- `row["job_id"] is None`
unfoldable pub is_free : Option ℕ → Bool
is_free none = true
is_free (some j) = false

-- `row["job_id"] not in (None, job_id)`
unfoldable pub held_by_other : ℕ → Option ℕ → Bool
held_by_other job none = false
held_by_other job (some j) = not (j == job)

-- `SELECT * FROM port_leases WHERE port_id IN (ports)`
unfoldable pub select_rows : List ℕ → List Lease → List Lease
select_rows ports [] = []
select_rows ports (r ∷ rs) =
    let rest = select_rows ports rs in if contains ports r.port then r ∷ rest else rest

unfoldable pub any_quarantined : List Lease → Bool
any_quarantined [] = false
any_quarantined (r ∷ rs) = is_quarantined r.status || any_quarantined rs

unfoldable pub any_held : ℕ → List Lease → Bool
any_held job [] = false
any_held job (r ∷ rs) = held_by_other job r.job || any_held job rs

unfoldable pub any_free : List Lease → Bool
any_free [] = false
any_free (r ∷ rs) = is_free r.job || any_free rs

-- the UPDATE of a free row in the loop of `_acquire_ports_sync`; `port_id` is the table's key
unfoldable pub take_row : ℕ → List ℕ → Lease → Lease
take_row job ports r =
    if contains ports r.port && is_free r.job
    then record r { job = some job; generation = r.generation + 1; status = leased }
    else r

-- `generations`, from the rows as the loop leaves them
unfoldable pub fence_of : List Lease → List (ℕ × ℕ)
fence_of [] = []
fence_of (r ∷ rs) = (r.port, r.generation) ∷ fence_of rs

-- `_acquire_ports_sync`. `known` says whether the table `jobs` has the job: `port_leases.job_id`
-- refers to it, and with `PRAGMA foreign_keys=ON` the UPDATE of a row for another job raises, which
-- rolls the transaction back.
unfoldable pub acquire_sync : ℕ → Bool → List ℕ → List Lease → Acquired × List Lease
acquire_sync job known ports table =
    let rows = select_rows ports table in
    if not (length rows == length ports)
    then (unconfigured, table)
    else if any_quarantined rows
    then (in_quarantine, table)
    else if any_held job rows
    then (busy, table)
    else if any_free rows && not known
    then (integrity_error, table)
    else (granted (fence_of (map (take_row job ports) rows)), map (take_row job ports) table)

unfoldable pub acquire_ports : ℕ → Bool → List ℕ → List Lease → Acquired × List Lease
acquire_ports job known ports table = acquire_sync job known (sorted_set ports) table

-- `_release_ports_sync`: the rows of the job
unfoldable pub release_row : ℕ → Bool → Lease → Lease
release_row job quarantine r = elim r.job [
  | none ↦ r
  | some j ↦
      if j == job
      then record r { job = none; status = if quarantine then quarantined else available }
      else r
]

unfoldable pub release_ports : ℕ → Bool → List Lease → List Lease
release_ports job quarantine table = map (release_row job quarantine) table

-- `_confirm_ports_available_sync`; with no port it returns before the UPDATE
unfoldable pub confirm_row : List ℕ → Lease → Lease
confirm_row ports r =
    if contains ports r.port then record r { job = none; status = available } else r

unfoldable pub confirm_ports_available : List ℕ → List Lease → List Lease
confirm_ports_available ports table = map (confirm_row (sorted_set ports)) table

-- The calls that write the table while the agent runs; an `acquire` has whether its job is in `jobs`.
pub data Call : Type 0 where
  acquire : ℕ → Bool → List ℕ → Call
  release : ℕ → Bool → Call
  confirm : List ℕ → Call

unfoldable pub step : Call → List Lease → List Lease
step (acquire job known ports) table = (acquire_ports job known ports table).1
step (release job quarantine) table = release_ports job quarantine table
step (confirm ports) table = confirm_ports_available ports table

unfoldable pub run : List Call → List Lease → List Lease
run [] table = table
run (c ∷ cs) table = run cs (step c table)
