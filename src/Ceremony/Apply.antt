-- ===== src/Ceremony/Apply.antt =====
-- `apply_transition`, `event_for_spec_status` and `apply_migrate_raw` of
-- crates/mp/src/milestone/spec.rs. `now` is what `store::now_rfc3339()` returns. A writer returns the
-- new milestone, and an error leaves the caller with none.
pub mod Faithful
use master_plan.Prelude.{
  String, Bool, ◌&&◌, ◌||◌, Option, none, some, List, [], ◌∷◌, str_eq, if◌then◌else◌, Result, ok,
  err, ◌>>=◌,
}
use master_plan.Lifecycle.Phase.{MilestonePhase, ParseError, draft, as_str, from_lifecycle}
use master_plan.Lifecycle.Meta.{MilestoneMeta, MilestoneState, from_meta}
use master_plan.Lifecycle.Machine.{
  MilestoneEvent, TransitionContext, TransitionEffects, TransitionError, transition,
  default_context, sync, groom, approve, finish_execution, migrate_raw,
}
use master_plan.Model.Milestone.{MilestoneFile}
use master_plan.Prelude.Text.{is_empty}
use master_plan.Ceremony.Errors.{
  Error, parse_error, transition_error, cannot_regress_to_draft, cannot_jump_to_verified,
  invalid_spec_status,
}

abbrev pub parsed {ℓ} : {A : Type ℓ} → Result ParseError A → Result Error A
parsed (ok a) = ok a
parsed (err e) = err (parse_error e)

abbrev pub transitioned {ℓ} : {A : Type ℓ} → Result TransitionError A → Result Error A
transitioned (ok a) = ok a
transitioned (err e) = err (transition_error e)

abbrev pub phase_name : Option MilestonePhase → Option String
phase_name none = none
phase_name (some p) = some (as_str p)

-- The assignments of `apply_transition` to `m.milestone`.
abbrev pub write_effects : String → MilestoneMeta → TransitionEffects → MilestoneMeta
write_effects now m effects = record m {
  lifecycle = as_str effects.phase;
  blocked = effects.overlays.blocked;
  deferred = effects.overlays.deferred;
  cancelled = effects.overlays.cancelled;
  needs_regrooming = effects.overlays.needs_regrooming;
  remediation_pre_state = phase_name effects.remediation_pre_state;
  spec_status = effects.spec_status;
  execution_status = effects.execution_status;
  lifecycle_at = if effects.phase_changed then some now else m.lifecycle_at;
}

unfoldable pub apply_transition :
    String → MilestoneFile → MilestoneEvent → Result Error (MilestoneFile × TransitionEffects)
apply_transition now m event = do
  current ← parsed (from_meta m.milestone)
  effects ← transitioned (transition current event default_context)
  ok (record m { milestone = write_effects now m.milestone effects }, effects)

unfoldable pub event_for_spec_status : MilestoneFile → String → Result Error MilestoneEvent
event_for_spec_status m status =
    if str_eq status "draft" && str_eq m.milestone.lifecycle "draft"
    then ok sync
    else if str_eq status "draft"
    then err (cannot_regress_to_draft m.milestone.lifecycle)
    else if str_eq status "interview" || str_eq status "review"
    then ok groom
    else if str_eq status "ready"
    then ok approve
    else if str_eq status "implemented"
    then ok finish_execution
    else if str_eq status "verified"
    then err cannot_jump_to_verified
    else err (invalid_spec_status status)

unfoldable pub apply_migrate_raw : String → MilestoneFile → String → Result Error MilestoneFile
apply_migrate_raw now m lifecycle = do
  phase ← if is_empty lifecycle then ok draft else parsed (from_lifecycle lifecycle)
  r ← apply_transition now m (migrate_raw phase)
  ok r.0
