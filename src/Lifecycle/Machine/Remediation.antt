-- ===== src/Lifecycle/Machine/Remediation.antt =====
-- The captured pre-state of remediation under the transition table of
-- crates/mp-model/src/milestone.rs.
use master_plan.Prelude.{
  ◌≡◌, Bool, true, false, List, any, arith, ok, Option, none, some, or_eq_false,
}
use master_plan.Lifecycle.Phase.{MilestonePhase, executed, complete, remediation}
use master_plan.Lifecycle.Meta.{MilestoneState}
use master_plan.Lifecycle.Machine.{
  MilestoneEvent, TransitionContext, TransitionEffects, transition, effects_of, enter_remediation,
  exit_remediation,
}
use master_plan.Lifecycle.Machine.Runs.{Run, stop, step, state_of, is_migration}

-- A pre-state is captured exactly while a milestone is in remediation, and it is `executed` or
-- `complete`.
abbrev pub pre_state_ok : MilestonePhase → Option MilestonePhase → Bool
pre_state_ok remediation (some executed) = true
pre_state_ok remediation (some complete) = true
pre_state_ok remediation _ = false
pre_state_ok _ none = true
pre_state_ok _ (some p) = false

pub transition-pre_state_ok :
    (s : MilestoneState) (e : MilestoneEvent) (ctx : TransitionContext) (fx : TransitionEffects)
    → transition s e ctx ≡ ok fx
    → pre_state_ok s.phase s.remediation_pre_state ≡ true
    → is_migration e ≡ false
    → pre_state_ok fx.phase fx.remediation_pre_state ≡ true
unfolding transition
transition-pre_state_ok s e ctx fx r h m = ground arith

-- In every state that is reached with no migration event from a state with a sound pre-state, the
-- pre-state is sound.
pub Run-pre_state_ok :
    {s t : MilestoneState} (es : List MilestoneEvent)
    → Run s es t
    → pre_state_ok s.phase s.remediation_pre_state ≡ true
    → any is_migration es ≡ false
    → pre_state_ok t.phase t.remediation_pre_state ≡ true
Run-pre_state_ok es stop h m = h
Run-pre_state_ok {s} es (step {es = rest} e ctx fx r run) h m =
    Run-pre_state_ok rest run (transition-pre_state_ok s e ctx fx r h (or_eq_false _ _ m).0)
      (or_eq_false (is_migration e) _ m).1

-- Entering remediation and leaving it again, from a milestone that is not cancelled and has no
-- captured pre-state, restores the state, if the entering is accepted.
pub enter_exit :
    (s : MilestoneState) (ctx : TransitionContext) (fx : TransitionEffects)
    → s.overlays.cancelled ≡ false
    → s.remediation_pre_state ≡ none
    → transition s enter_remediation ctx ≡ ok fx
    → transition (state_of fx) exit_remediation ctx ≡ ok (effects_of remediation s)
unfolding transition
enter_exit s ctx fx c p r = ground arith
