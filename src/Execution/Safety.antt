-- ===== src/Execution/Safety.antt =====
-- The steps of `_execute` in src/trex_cli/jobs.py, up to its `finally`, keep the job guarded.
use trex_cli.Prelude.{ℕ, ◌≡◌, refl, inl, inr, Bool, true, false, Option, none, some, List}
use trex_cli.PortLeases.{Lease}
use trex_cli.Jobs.{collecting, draining, terminal, JobState, Database, JobSnapshot}
use trex_cli.Jobs.Transition.{same_state, Request}
use trex_cli.Execution.{
  Await, Stop, Interruption, EngineCall, warmup, run_test, stop, cleanup, Execution,
}
use trex_cli.Execution.Awaits.{
  await_release, call_engine, await_snapshot, await_transition, await_other,
}
use trex_cli.Execution.Body.{
  cancel_if, cancel_phase, cancel_steps, complete, finish_cancel, release_without_handle,
  unless_cancelled, lease_kept, enter_phase, with_handle,
}
use trex_cli.Execution.Guard.{
  Guarded, await_call-keeps, finally-keeps, if-keeps, dirty_after, dirty, Handled, Stable,
  and_then-keeps, await_snapshot-keeps, await_transition-keeps, await_other-keeps,
}

-- A call that is not `prepare`.
abbrev pub CannotDirty : EngineCall → Type 0
CannotDirty c = (answer : Option Stop) (d : Bool) → dirty_after c answer d ≡ true → d ≡ true

pub warmup-CannotDirty : CannotDirty warmup
unfolding dirty_after
warmup-CannotDirty answer d h = h

pub run_test-CannotDirty : CannotDirty run_test
unfolding dirty_after
run_test-CannotDirty answer d h = h

pub stop-CannotDirty : CannotDirty stop
unfolding dirty_after
stop-CannotDirty answer d h = h

pub cleanup-CannotDirty : CannotDirty cleanup
unfolding dirty_after
cleanup-CannotDirty none d h = absurd (cc h)
cleanup-CannotDirty (some s) d h = h

stays_clean : (d e : Bool) → (e ≡ true → d ≡ true) → d ≡ false → e ≡ false
stays_clean d true k h = absurd (cc (k refl, h))
stays_clean d false k h = refl

module _ (engine : List (EngineCall × Option Stop) → EngineCall → Option Stop)
    (interrupts : ℕ → Interruption) (others : ℕ → ℕ → Database → Database) (now id : ℕ)
    (rows : List Lease) where
  pub Handled-Stable : Stable (Handled id rows)
  Handled-Stable x db n h = h

  pub call_engine-Guarded :
      (c : EngineCall) (x : Execution)
      → CannotDirty c
      → Guarded id rows x
      → Guarded id rows (call_engine engine interrupts others c x).1
  unfolding call_engine dirty
  call_engine-Guarded c x safe (marked, (confirmed, kept)) =
      let less : dirty_after c (engine x.calls c) (dirty x.calls) ≡ true → dirty x.calls ≡ true =
        safe (engine x.calls c) (dirty x.calls) in
      let clean : dirty x.calls ≡ false → dirty_after c (engine x.calls c) (dirty x.calls) ≡ false =
        stays_clean (dirty x.calls) _ less in
      (
        λ h. marked (less h),
        (λ h. clean (confirmed h), elim kept [ inl same ↦ inl same | inr done ↦ inr (clean done) ]),
      )

  pub call_engine-Handled :
      (c : EngineCall) (x : Execution)
      → CannotDirty c
      → Handled id rows x
      → Handled id rows (call_engine engine interrupts others c x).1
  unfolding call_engine dirty
  call_engine-Handled c x safe (guarded, handled) = (
    call_engine-Guarded c x safe guarded,
    λ h. stays_clean (dirty x.calls) _ (safe (engine x.calls c) (dirty x.calls)) (handled h),
  )

  snapshot-Handled :
      (x : Execution)
      → Handled id rows x
      → Handled id rows (await_snapshot engine interrupts others id x).1
  snapshot-Handled =
      await_snapshot-keeps engine interrupts others (Handled id rows) Handled-Stable id

  pub transition-Handled :
      (request : Request) (x : Execution)
      → Handled id rows x
      → Handled id rows (await_transition engine interrupts others id request x).1
  transition-Handled request =
      await_transition-keeps engine interrupts others (Handled id rows) Handled-Stable id request

  pub other-Handled :
      (answer : Option Stop) (x : Execution)
      → Handled id rows x
      → Handled id rows (await_other engine interrupts others answer x).1
  other-Handled answer =
      await_other-keeps engine interrupts others (Handled id rows) Handled-Stable answer

  lease_kept-Handled :
      (o : Option JobSnapshot) (x : Execution)
      → Handled id rows x
      → Handled id rows (lease_kept engine interrupts others now o x).1
  unfolding lease_kept
  lease_kept-Handled none x h = h
  lease_kept-Handled (some s) x h = h

  pub enter_phase-Handled :
      (state : JobState) (name : ℕ) (started : Option ℕ) (x : Execution)
      → Handled id rows x
      → Handled id rows (enter_phase engine interrupts others now id state name started x).1
  unfolding enter_phase
  enter_phase-Handled state name started x h =
      and_then-keeps (Handled id rows) _ _ (snapshot-Handled x h) (λ current y hy.
        and_then-keeps (Handled id rows) _ _ (transition-Handled _ y hy) lease_kept-Handled)

  with_handle-Handled :
      (c : EngineCall) (x : Execution)
      → CannotDirty c
      → Handled id rows x
      → Handled id rows (with_handle engine interrupts others now c x).1
  unfolding with_handle
  with_handle-Handled c x safe h =
      if-keeps (Handled id rows) x.handle _ _ (λ e. call_engine-Handled c x safe h) (λ e. h)

  cancel_phase-Handled :
      (state : JobState) (name : ℕ) (c : EngineCall) (current : JobSnapshot) (x : Execution)
      → CannotDirty c
      → Handled id rows x
      → Handled id rows (cancel_phase engine interrupts others now id state name c current x).1
  unfolding cancel_phase
  cancel_phase-Handled state name c current x safe h =
      if-keeps (Handled id rows) (same_state current.state state) _ _ (λ e. h)
        (λ e.
          and_then-keeps (Handled id rows) _ _ (transition-Handled _ x h)
            (λ u y hy. with_handle-Handled c y safe hy))

  cancel_steps-Handled :
      (current : JobSnapshot) (x : Execution)
      → Handled id rows x
      → Handled id rows (cancel_steps engine interrupts others now id current x).1
  unfolding cancel_steps
  cancel_steps-Handled current x h =
      if-keeps (Handled id rows) (terminal current.state) _ _ (λ e. h)
        (λ e.
          and_then-keeps (Handled id rows) _ _
            (cancel_phase-Handled draining _ stop current x stop-CannotDirty h)
            (λ u y hy. and_then-keeps (Handled id rows) _ _ (snapshot-Handled y hy) (λ again z hz.
              and_then-keeps (Handled id rows) _ _
                (cancel_phase-Handled collecting _ cleanup again z cleanup-CannotDirty hz)
                (λ v w hw.
                  and_then-keeps (Handled id rows) _ _ (transition-Handled _ w hw)
                    (λ s q hq. hq)))))

  pub release-Handled :
      (quarantine : Bool) (x : Execution)
      → x.handle ≡ false
      → Handled id rows x
      → Handled id rows (await_release engine interrupts others id quarantine x).1
  unfolding await_release
  release-Handled quarantine x free h =
      (await_call-keeps engine interrupts others (λ y. Handled id rows y × (y.handle ≡ false))
        (λ y db n p. p) _ x (h, free)
        (λ y p. (((p.0.0.0, (p.0.0.1.0, inr (p.0.1 p.1))), p.0.1), p.1))).0

  release_without_handle-Handled :
      (x : Execution)
      → Handled id rows x
      → Handled id rows (release_without_handle engine interrupts others now id x).1
  unfolding release_without_handle
  release_without_handle-Handled x h =
      if-keeps (Handled id rows) x.handle _ _ (λ e. h) (λ e. release-Handled false x e h)

  finish_cancel-Handled :
      (x : Execution)
      → Handled id rows x
      → Handled id rows (finish_cancel engine interrupts others now id x).1
  unfolding finish_cancel
  finish_cancel-Handled x h = finally-keeps (Handled id rows) _ _ (
      release_without_handle-Handled _
        (and_then-keeps (Handled id rows) _ _ (snapshot-Handled x h) cancel_steps-Handled))

  pub unless_cancelled-Handled :
      (next : Execution → Await Unit × Execution) (x : Execution)
      → ((y : Execution) → Handled id rows y → Handled id rows (next y).1)
      → Handled id rows x
      → Handled id rows (unless_cancelled engine interrupts others now id next x).1
  unfolding unless_cancelled cancel_if
  unless_cancelled-Handled next x k h =
      and_then-keeps (Handled id rows) _ _ (snapshot-Handled x h) (λ current y hy.
        if-keeps (Handled id rows) current.cancel_requested _ _ (λ e. finish_cancel-Handled y hy)
          (λ e. k y hy))

  pub complete-Handled :
      (result : ℕ) (answers : Option Stop × (Option Stop × Option Stop)) (x : Execution)
      → Handled id rows x
      → Handled id rows (complete engine interrupts others now id result answers x).1
  unfolding complete
  complete-Handled result (resolved, (calibrated, built)) x h =
      and_then-keeps (Handled id rows) _ _ (snapshot-Handled x h) (λ current y hy.
        and_then-keeps (Handled id rows) _ _ (other-Handled resolved y hy) (λ u1 z hz.
          and_then-keeps (Handled id rows) _ _ (other-Handled calibrated z hz) (λ u2 v hv.
            and_then-keeps (Handled id rows) _ _ (other-Handled built v hv) (λ u3 w hw.
              unless_cancelled-Handled _ w
                (λ q hq.
                  and_then-keeps (Handled id rows) _ _ (transition-Handled _ q hq) (λ s r hr. hr))
                hw))))
