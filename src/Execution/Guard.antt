-- ===== src/Execution/Guard.antt =====
-- What `_execute` of src/trex_cli/jobs.py keeps true of the engine, the markers and the leases.
use trex_cli.Prelude.{
  ℕ, ◌+◌, ◌≡◌, refl, ◌⊎◌, Bool, true, false, Option, none, some, List, [], ◌∷◌, if◌then◌else◌,
}
use trex_cli.PortLeases.{Lease}
use trex_cli.Jobs.{Database}
use trex_cli.Jobs.Transition.{Request}
use trex_cli.Execution.{
  Stop, interrupted, trex_error, exception, Await, value, stops, Interruption, goes_on,
  before_effect, after_effect, EngineCall, prepare, warmup, run_test, stop, cleanup, Execution,
}
use trex_cli.Execution.Awaits.{
  and_then, ended_by, finally_do, has_marker, effect_at, await_call, await_snapshot,
  await_transition, await_other,
}

-- Whether the engine may still have something of the test, after a call with this end: a prepare
-- that raised an error has rolled back, and a cleanup that returned has removed everything.
unfoldable pub dirty_after : EngineCall → Option Stop → Bool → Bool
dirty_after prepare none before = true
dirty_after prepare (some interrupted) before = true
dirty_after prepare (some trex_error) before = before
dirty_after prepare (some exception) before = before
dirty_after cleanup none before = false
dirty_after cleanup (some s) before = before
dirty_after warmup answer before = before
dirty_after run_test answer before = before
dirty_after stop answer before = before

unfoldable pub dirty : List (EngineCall × Option Stop) → Bool
dirty [] = false
dirty ((c, answer) ∷ calls) = dirty_after c answer (dirty calls)

-- While the engine may have something of the test, the job has a marker, `cleanup_confirmed` is
-- false, and no port has been released.
abbrev pub Guarded : ℕ → List Lease → Execution → Type 0
Guarded id rows x =
    ((dirty x.calls ≡ true) → (has_marker id x.markers ≡ true))
    × (((x.cleanup_confirmed ≡ true) → (dirty x.calls ≡ false))
        × ((x.leases ≡ rows) ⊎ (dirty x.calls ≡ false)))

-- And it does so only if there is a handle.
abbrev pub Handled : ℕ → List Lease → Execution → Type 0
Handled id rows x = Guarded id rows x × ((x.handle ≡ false) → (dirty x.calls ≡ false))

-- What does not depend on the jobs and the number of awaits.
abbrev pub Stable : (Execution → Type 0) → Type 0
Stable P =
    (x : Execution) (db : Database) (n : ℕ) → P x → P (record x { database = db; awaits = n })

pub and_then-keeps :
    {A B : Type 0} (P : Execution → Type 0) (r : Await A × Execution)
    (next : A → Execution → Await B × Execution)
    → P r.1
    → ((a : A) (y : Execution) → P y → P (next a y).1)
    → P (and_then r next).1
unfolding and_then
and_then-keeps P (value a, x) next h k = k a x h
and_then-keeps P (stops s, x) next h k = h

-- What holds after the first await leads to what holds in the end.
pub and_then-leads :
    {A B : Type 0} (P Q : Execution → Type 0) (r : Await A × Execution)
    (next : A → Execution → Await B × Execution)
    → P r.1
    → ((a : A) (y : Execution) → P y → Q (next a y).1)
    → ((y : Execution) → P y → Q y)
    → Q (and_then r next).1
unfolding and_then
and_then-leads P Q (value a, x) next h k stopped = k a x h
and_then-leads P Q (stops s, x) next h k stopped = stopped x h

pub if-keeps :
    {A : Type 0} (P : Execution → Type 0) (b : Bool) (r s : Await A × Execution)
    → (b ≡ true → P r.1)
    → (b ≡ false → P s.1)
    → P (if b then r else s).1
if-keeps P true r s h k = h refl
if-keeps P false r s h k = k refl

ended-keeps :
    {A : Type 0} (P : Execution → Type 0) (body : Await A) (r : Await Unit × Execution)
    → P r.1
    → P (ended_by body r).1
unfolding ended_by
ended-keeps P body (value u, x) h = h
ended-keeps P body (stops s, x) h = h

pub finally-keeps :
    {A : Type 0} (P : Execution → Type 0) (r : Await A × Execution)
    (last : Execution → Await Unit × Execution)
    → P (last r.1).1
    → P (finally_do r last).1
unfolding finally_do
finally-keeps P (body, x) last h = ended-keeps P body (last x) h

module _ (engine : List (EngineCall × Option Stop) → EngineCall → Option Stop)
    (interrupts : ℕ → Interruption) (others : ℕ → ℕ → Database → Database) (P : Execution → Type 0)
    (stable : Stable P) where
  effect_at-keeps :
      {A : Type 0} (i : Interruption) (effect : Execution → Await A × Execution) (x : Execution)
      → P x
      → (P x → P (effect x).1)
      → P (effect_at engine interrupts others i effect x).1
  unfolding effect_at
  effect_at-keeps goes_on effect x h k = k h
  effect_at-keeps before_effect effect x h k = h
  effect_at-keeps after_effect effect x h k = k h

  effect_at-leads :
      {A : Type 0} (Q : Execution → Type 0) (i : Interruption)
      (effect : Execution → Await A × Execution) (x : Execution)
      → Q x
      → Q (effect x).1
      → Q (effect_at engine interrupts others i effect x).1
  unfolding effect_at
  effect_at-leads Q goes_on effect x h k = k
  effect_at-leads Q before_effect effect x h k = h
  effect_at-leads Q after_effect effect x h k = k

  pub await_call-keeps :
      {A : Type 0} (effect : Execution → Await A × Execution) (x : Execution)
      → P x
      → ((y : Execution) → P y → P (effect y).1)
      → P (await_call engine interrupts others effect x).1
  unfolding await_call
  await_call-keeps effect x h k =
      let ticked : P (record x { awaits = x.awaits + 1; database = others x.awaits 0 x.database }) =
        stable x (others x.awaits 0 x.database) (x.awaits + 1) h in
      effect_at-keeps (interrupts x.awaits) effect _ ticked (k _)

  pub await_snapshot-keeps :
      (id : ℕ) (x : Execution) → P x → P (await_snapshot engine interrupts others id x).1
  unfolding await_snapshot
  await_snapshot-keeps id x h = await_call-keeps _ x h (λ y p. p)

  pub await_transition-keeps :
      (id : ℕ) (request : Request) (x : Execution)
      → P x
      → P (await_transition engine interrupts others id request x).1
  unfolding await_transition
  await_transition-keeps id request x h = await_call-keeps _ x h (λ y p. stable y _ y.awaits p)

  pub await_other-keeps :
      (answer : Option Stop) (x : Execution)
      → P x
      → P (await_other engine interrupts others answer x).1
  unfolding await_other
  await_other-keeps answer x h = await_call-keeps _ x h (λ y p. p)

  pub await_call-leads :
      {A : Type 0} (Q : Execution → Type 0) (effect : Execution → Await A × Execution)
      (x : Execution)
      → P x
      → ((y : Execution) → P y → Q y)
      → ((y : Execution) → P y → Q (effect y).1)
      → Q (await_call engine interrupts others effect x).1
  unfolding await_call
  await_call-leads Q effect x h before behind =
      let ticked : P (record x { awaits = x.awaits + 1; database = others x.awaits 0 x.database }) =
        stable x (others x.awaits 0 x.database) (x.awaits + 1) h in
      effect_at-leads Q (interrupts x.awaits) effect _ (before _ ticked) (behind _ ticked)
