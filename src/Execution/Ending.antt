-- ===== src/Execution/Ending.antt =====
-- The `finally` of `_execute` in src/trex_cli/jobs.py, and what is left when it has ended.
use trex_cli.Prelude.{
  ℕ, ◌≡◌, refl, ap, ◌⊎◌, inl, inr, Bool, true, false, ◌&&◌, not, Option, none, some, List, ◌∷◌,
  Bool-cases,
}
use trex_cli.PortLeases.{release_ports, Lease}
use trex_cli.Jobs.{Database}
use trex_cli.Execution.{
  Stop, interrupted, trex_error, exception, Await, value, stops, Interruption, EngineCall, stop,
  cleanup, Execution,
}
use trex_cli.Execution.Awaits.{await_release, has_marker, answer_of, call_engine, await_delete}
use trex_cli.Execution.Body.{fail, caught, clean_up, release_all, tolerate}
use trex_cli.Execution.Guard.{
  await_transition-keeps, and_then-keeps, if-keeps, Guarded, dirty, and_then-leads,
  await_call-keeps, await_call-leads,
}
use trex_cli.Execution.Safety.{stop-CannotDirty, cleanup-CannotDirty, call_engine-Guarded}
use trex_cli.Execution.Outcome.{cleaned}

-- If the engine may still have something of the test, the job has its marker, and its ports are
-- leased as before or in quarantine.
abbrev pub Secured : ℕ → List Lease → Execution → Type 0
Secured id rows x =
    (dirty x.calls ≡ true)
    → (has_marker id x.markers ≡ true)
      × ((x.leases ≡ rows) ⊎ (x.leases ≡ release_ports id true rows))

Guarded-Secured :
    (id : ℕ) (rows : List Lease) (x : Execution) → Guarded id rows x → Secured id rows x
Guarded-Secured id rows x (marked, (_, kept)) d =
    (marked d, elim kept [ inl same ↦ inl same | inr clean ↦ absurd (cc (d, clean)) ])

clean-Secured :
    (id : ℕ) (rows : List Lease) (x : Execution) → dirty x.calls ≡ false → Secured id rows x
clean-Secured id rows x clean d = absurd (cc (d, clean))

and_false : (a : Bool) → (a && false) ≡ true → ⊥
and_false true h = cc h
and_false false h = cc h

module _ (engine : List (EngineCall × Option Stop) → EngineCall → Option Stop)
    (interrupts : ℕ → Interruption) (others : ℕ → ℕ → Database → Database) (now id : ℕ)
    (rows : List Lease) where
  clean_release :
      (quarantine : Bool) (x : Execution)
      → dirty x.calls ≡ false
      → dirty (await_release engine interrupts others id quarantine x).1.calls ≡ false
  unfolding await_release
  clean_release quarantine x clean =
      await_call-keeps engine interrupts others (λ y. dirty y.calls ≡ false) (λ y db n p. p) _ x
        clean (λ y p. p)

  clean_delete :
      (x : Execution)
      → dirty x.calls ≡ false
      → dirty (await_delete engine interrupts others id x).1.calls ≡ false
  unfolding await_delete
  clean_delete x clean =
      await_call-keeps engine interrupts others (λ y. dirty y.calls ≡ false) (λ y db n p. p) _ x
        clean (λ y p. p)

  quarantined_release :
      (quarantine : Bool) (x : Execution)
      → quarantine ≡ true
      → Guarded id rows x
      → Secured id rows (await_release engine interrupts others id quarantine x).1
  unfolding await_release
  quarantined_release quarantine x e h =
      await_call-leads engine interrupts others (Guarded id rows) (λ y db n p. p) (Secured id rows)
        _ x h (Guarded-Secured id rows)
        (λ y p d. (
          p.0 d,
          elim p.1.1 [ inl same ↦ inr (rw (e, same) refl) | inr clean ↦ absurd (cc (d, clean)) ],
        ))

  release_all-Secured :
      (x : Execution)
      → Guarded id rows x
      → Secured id rows (release_all engine interrupts others now id x).1
  unfolding release_all
  release_all-Secured x h = elim (Bool-cases x.cleanup_confirmed) [
    | inl e ↦
        and_then-leads (λ y. dirty y.calls ≡ false) (Secured id rows) _ _
          (if-keeps (λ y. dirty y.calls ≡ false) x.cleanup_confirmed _ _
            (λ c. clean_delete x (h.1.0 e)) (λ c. h.1.0 e))
          (λ u y p.
            clean-Secured id rows
              (await_release engine interrupts others id (not y.cleanup_confirmed) y).1
              (clean_release (not y.cleanup_confirmed) y p))
          (clean-Secured id rows)
    | inr e ↦
        and_then-leads (λ y. Guarded id rows y × (y.cleanup_confirmed ≡ false)) (Secured id rows) _
          _
          (if-keeps (λ y. Guarded id rows y × (y.cleanup_confirmed ≡ false)) x.cleanup_confirmed _ _
            (λ c. absurd (cc (c, e))) (λ c. (h, e)))
          (λ u y p. quarantined_release (not y.cleanup_confirmed) y (ap not p.1) p.0)
          (λ y p. Guarded-Secured id rows y p.0)
  ]

  tolerated :
      (Q : Execution → Type 0) (answer : Option Stop) (x : Execution)
      (next : Bool → Execution → Await Unit × Execution)
      → (answer ≡ none → Q (next true x).1)
      → Q (next false x).1
      → Q x
      → Q
          (tolerate engine interrupts others now
            (answer_of engine interrupts others answer, x)
            next).1
  unfolding tolerate answer_of
  tolerated Q none x next k f h = k refl
  tolerated Q (some interrupted) x next k f h = h
  tolerated Q (some trex_error) x next k f h = f
  tolerated Q (some exception) x next k f h = f

  forced_cleanup :
      (stopped : Bool) (x : Execution)
      → Guarded id rows x
      → Secured id rows
          (tolerate engine interrupts others now
            (call_engine engine interrupts others cleanup x)
            (λ done z.
              release_all engine interrupts others now id
                (record z { cleanup_confirmed = stopped && done }))).1
  unfolding call_engine
  forced_cleanup stopped x h =
      let called =
        call_engine-Guarded engine interrupts others now id rows cleanup x cleanup-CannotDirty h in
      tolerated (Secured id rows) (engine x.calls cleanup) _ _
        (λ e.
          release_all-Secured _
            (called.0, (λ c. cleaned engine interrupts others now id rows x e, called.1.1)))
        (release_all-Secured _ (called.0, (λ c. absurd (and_false stopped c), called.1.1)))
        (Guarded-Secured id rows (record x { calls = (cleanup, engine x.calls cleanup) ∷ x.calls })
          called)

  pub clean_up-Secured :
      (x : Execution)
      → Guarded id rows x
      → Secured id rows (clean_up engine interrupts others now id x).1
  unfolding clean_up call_engine
  clean_up-Secured x h =
      if-keeps (Secured id rows) x.handle _ _
        (λ e.
          let called =
            call_engine-Guarded engine interrupts others now id rows stop x stop-CannotDirty h in
          tolerated (Secured id rows) (engine x.calls stop) _ _ (λ q. forced_cleanup true _ called)
            (forced_cleanup false _ called)
            (Guarded-Secured id rows (record x { calls = (stop, engine x.calls stop) ∷ x.calls })
              called))
        (λ e. release_all-Secured x h)

  pub caught-Guarded :
      (problem : ℕ) (r : Await Unit × Execution)
      → Guarded id rows r.1
      → Guarded id rows (caught engine interrupts others now id problem r).1
  unfolding caught fail
  caught-Guarded problem (value u, x) h = h
  caught-Guarded problem (stops interrupted, x) h = h
  caught-Guarded problem (stops trex_error, x) h =
      and_then-keeps (Guarded id rows) _ _
        (await_transition-keeps engine interrupts others (Guarded id rows) (λ y db n p. p) id _ x h)
        (λ u y p. p)
  caught-Guarded problem (stops exception, x) h =
      and_then-keeps (Guarded id rows) _ _
        (await_transition-keeps engine interrupts others (Guarded id rows) (λ y db n p. p) id _ x h)
        (λ u y p. p)
