-- ===== src/Execution/Outcome.antt =====
-- How `_execute` of src/trex_cli/jobs.py ends: the ports of a job and what is left in the engine.
use trex_cli.Prelude.{ℕ, ◌≡◌, refl, ap, true, false, Option, none, some, List, [], ◌∷◌, arith}
use trex_cli.PortLeases.{Lease}
use trex_cli.Jobs.{Database, warming_up, running, draining, collecting}
use trex_cli.Execution.{
  Stop, Await, Interruption, EngineCall, warmup, run_test, stop, cleanup, Marker, Execution,
}
use trex_cli.Execution.Awaits.{
  and_then, has_marker, save_marker, answer_of, call_engine, await_delete,
}
use trex_cli.Execution.Body.{complete, collect, run_prepared}
use trex_cli.Execution.Guard.{
  dirty_after, dirty, Handled, and_then-keeps, and_then-leads, await_call-keeps,
}
use trex_cli.Execution.Safety.{
  warmup-CannotDirty, run_test-CannotDirty, stop-CannotDirty, cleanup-CannotDirty,
  call_engine-Handled, enter_phase-Handled, unless_cancelled-Handled, complete-Handled,
}

pub has_marker-save :
    (marker : Marker) (ks : List Marker) → has_marker marker.job_id (save_marker marker ks) ≡ true
unfolding has_marker save_marker
has_marker-save marker [] = ground arith
has_marker-save marker (k ∷ ks) = ground (arith, has_marker-save marker ks)

module _ (engine : List (EngineCall × Option Stop) → EngineCall → Option Stop)
    (interrupts : ℕ → Interruption) (others : ℕ → ℕ → Database → Database) (now id : ℕ)
    (rows : List Lease) where
  delete-Handled :
      (x : Execution)
      → dirty x.calls ≡ false
      → Handled id rows x
      → Handled id rows (await_delete engine interrupts others id x).1
        × (dirty (await_delete engine interrupts others id x).1.calls ≡ false)
  unfolding await_delete
  delete-Handled x clean h =
      await_call-keeps engine interrupts others (λ y. Handled id rows y × (dirty y.calls ≡ false))
        (λ y db n p. p) _ x (h, clean) (λ y p. (((λ d. absurd (cc (d, p.1)), p.0.0.1), p.0.1), p.1))

  -- from the engine's cleanup on
  after_cleanup :
      (result : ℕ) (answers : Option Stop × (Option Stop × Option Stop)) (x : Execution)
      → dirty x.calls ≡ false
      → Handled id rows x
      → Handled id rows
          (and_then
            (await_delete engine interrupts others id (record x { cleanup_confirmed = true }))
            (λ u y.
              complete engine interrupts others now id result answers
                (record y { handle = false }))).1
  after_cleanup result answers x clean h =
      let deleted =
        delete-Handled (record x { cleanup_confirmed = true }) clean
          ((h.0.0, (λ e. clean, h.0.1.1)), h.1) in
      and_then-leads (λ y. Handled id rows y × (dirty y.calls ≡ false)) (Handled id rows) _ _
        deleted
        (λ u y p.
          complete-Handled engine interrupts others now id rows result answers
            (record y { handle = false }) (p.0.0, λ e. p.1))
        (λ y p. p.0)

  after_answer :
      (Q : Execution → Type 0) (answer : Option Stop) (x : Execution)
      (next : Unit → Execution → Await Unit × Execution)
      → (answer ≡ none → Q (next tt x).1)
      → Q x
      → Q (and_then (answer_of engine interrupts others answer, x) next).1
  unfolding and_then answer_of
  after_answer Q none x next k h = k refl
  after_answer Q (some s) x next k h = h

  pub cleaned :
      (x : Execution)
      → engine x.calls cleanup ≡ none
      → dirty (call_engine engine interrupts others cleanup x).1.calls ≡ false
  unfolding call_engine dirty dirty_after
  cleaned x e = ap (λ a. dirty_after cleanup a (dirty x.calls)) e

  cleanup-Handled :
      (result : ℕ) (answers : Option Stop × (Option Stop × Option Stop)) (x : Execution)
      → Handled id rows x
      → Handled id rows
          (and_then (call_engine engine interrupts others cleanup x) (λ u4 w.
            and_then
              (await_delete engine interrupts others id (record w { cleanup_confirmed = true }))
              (λ u y.
                complete engine interrupts others now id result answers
                  (record y { handle = false })))).1
  unfolding call_engine
  cleanup-Handled result answers x h =
      let called =
        call_engine-Handled engine interrupts others now id rows cleanup x cleanup-CannotDirty h in
      after_answer (Handled id rows) (engine x.calls cleanup) _ _
        (λ e. after_cleanup result answers _ (cleaned x e) called) called

  collect-Handled :
      (result : ℕ) (answers : Option Stop × (Option Stop × Option Stop)) (x : Execution)
      → Handled id rows x
      → Handled id rows (collect engine interrupts others now id result answers x).1
  unfolding collect
  collect-Handled result answers x h =
      and_then-keeps (Handled id rows) _ _
        (enter_phase-Handled engine interrupts others now id rows draining _ none x h)
        (λ u1 y hy.
          and_then-keeps (Handled id rows) _ _
            (call_engine-Handled engine interrupts others now id rows stop y stop-CannotDirty hy)
            (λ u2 z hz.
              and_then-keeps (Handled id rows) _ _
                (enter_phase-Handled engine interrupts others now id rows collecting _ none z hz)
                (λ u3 v hv. cleanup-Handled result answers v hv)))

  pub run_prepared-Handled :
      (result : ℕ) (answers : Option Stop × (Option Stop × Option Stop)) (x : Execution)
      → Handled id rows x
      → Handled id rows (run_prepared engine interrupts others now id result answers x).1
  unfolding run_prepared
  run_prepared-Handled result answers x h =
      and_then-keeps (Handled id rows) _ _
        (enter_phase-Handled engine interrupts others now id rows warming_up _ (some now) x h)
        (λ u1 y hy.
          and_then-keeps (Handled id rows) _ _
            (call_engine-Handled engine interrupts others now id rows warmup y warmup-CannotDirty
              hy)
            (λ u2 z hz.
              unless_cancelled-Handled engine interrupts others now id rows _ z
                (λ v hv.
                  and_then-keeps (Handled id rows) _ _
                    (enter_phase-Handled engine interrupts others now id rows running _ none v hv)
                    (λ u3 w hw.
                      and_then-keeps (Handled id rows) _ _
                        (call_engine-Handled engine interrupts others now id rows run_test w
                          run_test-CannotDirty hw)
                        (λ u4 q hq.
                          unless_cancelled-Handled engine interrupts others now id rows _ q
                            (collect-Handled result answers) hq)))
                hz))
