-- ===== src/Tests/Lifecycle.antt =====
-- The transition table and the status projections at concrete milestones.
use master_plan.Prelude.{◌≡◌, refl, ◌≢◌, true, none, [], ◌∷◌, any, all, not, str_eq}
use master_plan.Lifecycle.Phase.{draft, in_progress, executed, complete}
use master_plan.Lifecycle.Meta.{MilestoneState, effective_lifecycle}
use master_plan.Lifecycle.Machine.{
  transition, default_context, block, defer, approve, groom, cancel, unblock, enter_remediation,
  exit_remediation, reopen, migrate_raw, effects_of, TransitionEffects, MilestoneEvent, apply_event,
  start,
}
use master_plan.Lifecycle.Machine.Runs.{Run, stop, step, state_of}
use master_plan.Lifecycle.Machine.Overlays.{transition-exclusive, exclusive_result, Run-cancelled}
use master_plan.Lifecycle.Machine.Remediation.{Run-pre_state_ok, pre_state_ok}
use master_plan.Lifecycle.Machine.Phases.{Run-needs_approve, is_approve}
use master_plan.Status.{effective_execution_status, model_execution_status}
use master_plan.Status.Agreement.{execution_status_differs}
use master_plan.Lifecycle.Phase.{executed}
use master_plan.Tests.Samples.{clean, in_lifecycle, value_of}

in_progress≢complete : in_progress ≢ complete
in_progress≢complete e = cc

abbrev blocked_one : MilestoneState
blocked_one = record (clean in_progress) {
  overlays = record (clean in_progress).overlays { blocked = true };
}

transition-exclusive_example :
    exclusive_result (transition blocked_one defer default_context) ≡ true
transition-exclusive_example = transition-exclusive blocked_one defer default_context refl

abbrev effects : MilestoneState → MilestoneEvent → TransitionEffects
effects s e = value_of (transition s e default_context) (effects_of draft s)

abbrev cancelled_one : MilestoneState
cancelled_one = record (clean in_progress) {
  overlays = record (clean in_progress).overlays { cancelled = true; blocked = true };
}

cancelled_run : Run cancelled_one (unblock ∷ []) (state_of (effects cancelled_one unblock))
unfolding transition apply_event
cancelled_run = step unblock default_context (effects cancelled_one unblock) refl stop

Run-cancelled_example :
    (all master_plan.Lifecycle.Machine.Overlays.is_unblock (unblock ∷ []) ≡ true)
    × ((state_of (effects cancelled_one unblock)).overlays.cancelled ≡ true)
    × ((state_of (effects cancelled_one unblock)).phase ≡ in_progress)
    × ((state_of (effects cancelled_one unblock)).remediation_pre_state ≡ none)
Run-cancelled_example = Run-cancelled (unblock ∷ []) cancelled_run refl refl

remediation_run :
    Run
      (clean executed)
      (enter_remediation ∷ [])
      (state_of (effects (clean executed) enter_remediation))
unfolding transition apply_event
remediation_run =
    step enter_remediation default_context (effects (clean executed) enter_remediation) refl stop

Run-pre_state_ok_example :
    pre_state_ok
      (state_of (effects (clean executed) enter_remediation)).phase
      (state_of (effects (clean executed) enter_remediation)).remediation_pre_state
    ≡ true
Run-pre_state_ok_example = Run-pre_state_ok (enter_remediation ∷ []) remediation_run refl refl

approve_run : Run (clean draft) (approve ∷ []) (state_of (effects (clean draft) approve))
unfolding transition apply_event
approve_run = step approve default_context (effects (clean draft) approve) refl stop

Run-needs_approve_example : any is_approve (approve ∷ []) ≡ true
unfolding transition apply_event
Run-needs_approve_example = Run-needs_approve (approve ∷ []) approve_run refl refl refl

execution_status_differs_example :
    not (
      str_eq
        (effective_execution_status (in_lifecycle "executed"))
        (model_execution_status (in_lifecycle "executed")))
    ≡ true
unfolding effective_lifecycle
execution_status_differs_example =
    execution_status_differs (in_lifecycle "executed") executed refl refl
