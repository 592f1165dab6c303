-- ===== src/Ceremony/Ops/Start.antt =====
-- Starting a milestone with `set_execution_status` of crates/mp/src/milestone/complete.rs.
use master_plan.Prelude.{
  String, ◌≡◌, refl, ap, ◌∙◌, true, false, ◌||◌, List, [], arith, or_false, all, ok, append-eq-nil,
}
use master_plan.Lifecycle.Meta.{MilestoneState}
use master_plan.Lifecycle.Phase.{in_progress, as_str}
use master_plan.Lifecycle.Machine.{transition, default_context, start, TransitionEffects}
use master_plan.Model.Milestone.{MilestoneFile}
use master_plan.Status.{spec_status_allows_steps, effective_spec_status, is_terminal}
use master_plan.Validate.{LoadedPlan, execution_statuses, validate_milestone_start_execution}
use master_plan.Validate.Gates.{dep_done, start_gate-passed}
use master_plan.Ceremony.Apply.Faithful.{apply_transition-eq-ok}
use master_plan.Ceremony.Ops.{
  set_execution_status, event_for_execution_status, collect_set_execution_status_gates,
  JournalEntry,
}
use master_plan.Ceremony.Ops.Terminal.{set_execution_status-eq-ok}

start_effects :
    (s : MilestoneState) (fx : TransitionEffects)
    → transition s start default_context ≡ ok fx
    → (fx.phase ≡ in_progress) × (fx.overlays.blocked ≡ false) × (fx.overlays.deferred ≡ false)
unfolding transition
start_effects s fx r = ground arith

start_gates :
    (plan : LoadedPlan) (m : MilestoneFile)
    → collect_set_execution_status_gates plan m "in-progress" ≡ []
    → validate_milestone_start_execution plan m ≡ []
unfolding collect_set_execution_status_gates
start_gates plan m h = (append-eq-nil (validate_milestone_start_execution plan m) _ h).0

event_for-in_progress : (m : MilestoneFile) → event_for_execution_status m "in-progress" ≡ start
unfolding event_for_execution_status
event_for-in_progress m = refl

-- An accepted `set_execution_status` to `in-progress`: the plan was loaded, each dependency was done
-- in it, the spec status allowed steps, and the milestone was not terminal. What is stored is
-- the lifecycle `in-progress`, with neither a block nor a deferral.
pub set_execution_status-start :
    (now : String) (plan : LoadedPlan) (m m' : MilestoneFile) (j : List JournalEntry)
    → set_execution_status now plan m "in-progress" ≡ ok (m', j)
    → (milestones : List MilestoneFile) × (plan ≡ ok milestones)
      × (all (dep_done (execution_statuses milestones)) m.milestone.depends_on ≡ true)
      × (spec_status_allows_steps (effective_spec_status m) ≡ true)
      × (is_terminal m ≡ false)
      × (m'.milestone.lifecycle ≡ "in-progress")
      × (m'.milestone.blocked || m'.milestone.deferred ≡ false)
set_execution_status-start now plan m m' j r =
    let (fx, _, guard, gates, applied) =
      set_execution_status-eq-ok now plan m m' "in-progress" j r in
    let (milestones, loaded, deps, spec) = start_gate-passed plan m (start_gates plan m gates) in
    let (s, _, tr, stored) =
      apply_transition-eq-ok now m m' (event_for_execution_status m "in-progress") fx applied in
    let (phase, blocked, deferred) = start_effects s fx (rw (event_for-in_progress m) at tr) in
    (
      milestones,
      loaded,
      deps,
      spec,
      ground arith,
      ap (λ (f : MilestoneFile). f.milestone.lifecycle) stored ∙ ap as_str phase,
      ap (λ (f : MilestoneFile). f.milestone.blocked || f.milestone.deferred) stored
          ∙ or_false blocked deferred,
    )
