-- ===== src/PortLeases/Examples.antt =====
-- A run of the port leases, and their theorems along it.
use trex_cli.Prelude.{ℕ, ◌≡◌, refl, true, false, none, List, [], ◌∷◌, arith}
use trex_cli.PortLeases.{
  acquire_sync, insert, contains, select_rows, any_quarantined, is_quarantined, any_held,
  held_by_other, take_row, is_free, any_free, release_ports, release_row, fence_of, Lease,
  available, quarantined, busy, integrity_error, sorted_set, acquire_ports, Call, acquire, release,
  step, run,
}
use trex_cli.PortLeases.Follows.{LaterRow, row_of, run-LaterRow}
use trex_cli.PortLeases.Consistency.{IsConsistent, InQuarantine, run-IsConsistent, run-InQuarantine}
use trex_cli.PortLeases.Exclusion.{Grants, acquire_ports-Grants}

abbrev fresh : ℕ → Lease
fresh p = record { port = p; job = none; generation = 0; status = available }

abbrev table : List Lease
table = fresh 1 ∷ fresh 2 ∷ fresh 3 ∷ []

table-IsConsistent : IsConsistent table
unfolding IsConsistent
table-IsConsistent = (tt, (tt, (tt, tt)))

-- Job 7 takes ports 1 and 2, job 8 is kept out, job 7 ends in quarantine.
abbrev calls : List Call
calls = acquire 7 true (2 ∷ 1 ∷ 2 ∷ []) ∷ acquire 8 true (2 ∷ 3 ∷ []) ∷ release 7 true ∷ []

kept_out : (acquire_ports 8 true (2 ∷ 3 ∷ []) (step (acquire 7 true (2 ∷ 1 ∷ [])) table)).0 ≡ busy
unfolding acquire_ports acquire_sync sorted_set insert contains select_rows any_quarantined
    is_quarantined any_held held_by_other take_row is_free any_free step
kept_out = refl

-- SQLite refuses a job that is not in `jobs`
unknown_job : acquire_ports 9 false (3 ∷ []) table ≡ (integrity_error, table)
unfolding acquire_ports acquire_sync sorted_set insert contains select_rows any_quarantined
    is_quarantined any_held held_by_other is_free any_free
unknown_job = refl

abbrev after_calls : List Lease
after_calls =
    record { port = 1; job = none; generation = 1; status = quarantined }
    ∷ record { port = 2; job = none; generation = 1; status = quarantined }
    ∷ fresh 3
    ∷ []

calls-run : run calls table ≡ after_calls
unfolding run acquire_ports acquire_sync sorted_set insert contains select_rows any_quarantined
    is_quarantined any_held held_by_other take_row is_free any_free step release_ports release_row
    fence_of
calls-run = refl

after_calls-InQuarantine : InQuarantine 2 after_calls
unfolding InQuarantine
after_calls-InQuarantine = (λ e. (refl, refl), (λ e. (refl, refl), (λ e. absurd (omega arith), tt)))

run-LaterRow_example : LaterRow (row_of 2 table) (row_of 2 (run calls table))
run-LaterRow_example = run-LaterRow calls table 2

run-IsConsistent_example : IsConsistent (run calls table)
run-IsConsistent_example = run-IsConsistent calls table table-IsConsistent

run-InQuarantine_example : InQuarantine 2 (run calls after_calls)
run-InQuarantine_example = run-InQuarantine 2 calls after_calls tt after_calls-InQuarantine

acquire_ports-Grants_example :
    Grants 7 true
      (sorted_set (2 ∷ 1 ∷ 2 ∷ []))
      table
      (acquire_ports 7 true (2 ∷ 1 ∷ 2 ∷ []) table).0
      (acquire_ports 7 true (2 ∷ 1 ∷ 2 ∷ []) table).1
acquire_ports-Grants_example = acquire_ports-Grants 7 true (2 ∷ 1 ∷ 2 ∷ []) table table-IsConsistent
