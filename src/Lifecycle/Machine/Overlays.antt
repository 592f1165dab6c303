-- ===== src/Lifecycle/Machine/Overlays.antt =====
-- The overlays under the transition table of crates/mp-model/src/milestone.rs.
use master_plan.Prelude.{
  ◌≡◌, refl, ◌≢◌, Bool, true, false, not, ◌&&◌, List, all, any, arith, ok, err, ◌∙◌, and_true,
  or_eq_false, Result,
}
use master_plan.Lifecycle.Meta.{MilestoneState, MilestoneOverlays}
use master_plan.Lifecycle.Machine.{
  MilestoneEvent, TransitionContext, TransitionEffects, blocked_and_deferred, transition, unblock,
  TransitionError,
}
use master_plan.Lifecycle.Machine.Runs.{Run, stop, step, is_migration}

abbrev pub exclusive : MilestoneOverlays → Bool
exclusive o = not (o.blocked && o.deferred)

-- The result of an event: exclusive overlays, or an error that is not about exclusive overlays.
abbrev pub exclusive_result : Result TransitionError TransitionEffects → Bool
exclusive_result (ok fx) = exclusive fx.overlays
exclusive_result (err blocked_and_deferred) = false
exclusive_result (err _) = true

never_both :
    (s : MilestoneState) (e : MilestoneEvent) (ctx : TransitionContext)
    → exclusive s.overlays ≡ true
    → transition s e ctx ≢ err blocked_and_deferred
unfolding transition
never_both s e ctx h r = ground arith

stays_exclusive :
    (s : MilestoneState) (e : MilestoneEvent) (ctx : TransitionContext)
    → exclusive s.overlays ≡ true
    → (fx : TransitionEffects) → transition s e ctx ≡ ok fx
    → exclusive fx.overlays ≡ true
unfolding transition
stays_exclusive s e ctx h fx r = ground arith

result_cases :
    (r : Result TransitionError TransitionEffects)
    → r ≢ err blocked_and_deferred
    → ((fx : TransitionEffects) → r ≡ ok fx → exclusive fx.overlays ≡ true)
    → exclusive_result r ≡ true
result_cases (ok fx) n h = h fx refl
result_cases (err blocked_and_deferred) n h = absurd (n refl)
result_cases (err _) n h = refl

-- From a state whose overlays are not both blocked and deferred, no event is refused for that
-- reason, and every accepted event leaves overlays of that kind.
pub transition-exclusive :
    (s : MilestoneState) (e : MilestoneEvent) (ctx : TransitionContext)
    → exclusive s.overlays ≡ true
    → exclusive_result (transition s e ctx) ≡ true
transition-exclusive s e ctx h =
    result_cases (transition s e ctx) (λ r. never_both s e ctx h r)
      (λ fx r. stays_exclusive s e ctx h fx r)

abbrev pub is_unblock : MilestoneEvent → Bool
is_unblock unblock = true
is_unblock _ = false

cancelled_step :
    (s : MilestoneState) (e : MilestoneEvent) (ctx : TransitionContext) (fx : TransitionEffects)
    → transition s e ctx ≡ ok fx
    → s.overlays.cancelled ≡ true
    → is_migration e ≡ false
    → (is_unblock e ≡ true)
      × (fx.overlays.cancelled ≡ true)
      × (fx.phase ≡ s.phase)
      × (fx.remediation_pre_state ≡ s.remediation_pre_state)
unfolding transition
cancelled_step s e ctx fx r c m = ground arith

-- A cancelled milestone is absorbing: a run with no migration event from it consists of unblock
-- events alone, and leaves it cancelled, in its phase, with its pre-state.
pub Run-cancelled :
    {s t : MilestoneState} (es : List MilestoneEvent)
    → Run s es t
    → s.overlays.cancelled ≡ true
    → any is_migration es ≡ false
    → (all is_unblock es ≡ true)
      × (t.overlays.cancelled ≡ true)
      × (t.phase ≡ s.phase)
      × (t.remediation_pre_state ≡ s.remediation_pre_state)
Run-cancelled {s} es stop c m = (refl, c, refl, refl)
Run-cancelled {s} es (step {es = rest} e ctx fx r run) c m =
    let one = cancelled_step s e ctx fx r c (or_eq_false _ _ m).0 in
    let tail = Run-cancelled rest run one.1 (or_eq_false (is_migration e) _ m).1 in
    (and_true one.0 tail.0, tail.1, tail.2 ∙ one.2, tail.3 ∙ one.3)
