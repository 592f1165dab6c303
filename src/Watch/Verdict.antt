-- ===== src/Watch/Verdict.antt =====
-- `should_skip` and `next_stage` of crates/mp/src/watch/state_machine.rs, and `is_ready` of
-- crates/mp/src/commands/watch.rs.
pub mod Complete
use master_plan.Prelude.{
  String, Bool, not, ◌&&◌, Option, none, some, List, [], ◌∷◌, ◌++◌, str_eq, if◌then◌else◌, is_nil,
}
use master_plan.Prelude.Text.{push_str, trim}
use master_plan.Lifecycle.Phase.{is_watch_drivable_lifecycle}
use master_plan.Model.Milestone.{MilestoneFile}
use master_plan.Watch.Stage.{PromptStage, execute, remediate, LifecycleTarget, to_complete}

unfoldable pub is_ready : MilestoneFile → Bool
is_ready m =
    str_eq m.milestone.lifecycle "approved"
    && (str_eq m.milestone.spec_status "ready"
        && (str_eq m.milestone.execution_status "planned"
            && (not m.milestone.blocked
                && (not m.milestone.cancelled && not m.milestone.deferred))))

-- `reasons.join(", ")`
pub join : List String → String
join [] = ""
join (r ∷ []) = r
join (r ∷ s ∷ rs) = push_str r (push_str ", " (join (s ∷ rs)))

abbrev pub not_ready_reasons : MilestoneFile → List String
not_ready_reasons m =
    let spec =
      if not (str_eq m.milestone.spec_status "ready")
      then push_str "spec_status=" m.milestone.spec_status ∷ []
      else [] in
    let exec =
      if not (str_eq m.milestone.execution_status "planned")
      then push_str "execution_status=" m.milestone.execution_status ∷ []
      else [] in
    let reasons = spec ++ exec in if is_nil reasons then "not ready" ∷ [] else reasons

unfoldable pub should_skip : MilestoneFile → Option String
unfolding join
should_skip m =
    if m.milestone.cancelled
    then some "cancelled"
    else if m.milestone.deferred
    then some "deferred"
    else if m.milestone.blocked
    then some (push_str "blocked: " (trim m.milestone.block_reason))
    else if str_eq m.milestone.lifecycle "complete"
    then some "already complete"
    else if str_eq m.milestone.lifecycle "approved" && not (is_ready m)
    then some (push_str "approved but not ready (" (push_str (join (not_ready_reasons m)) ")"))
    else if not (is_watch_drivable_lifecycle m.milestone.lifecycle)
    then some (
        push_str "lifecycle="
          (push_str m.milestone.lifecycle " (mp watch only drives approved→complete)"))
    else none

pub record StagePlan : Type 0 where
  pub stage : PromptStage
  pub target : LifecycleTarget

unfoldable pub next_stage : MilestoneFile → Option StagePlan
next_stage m =
    if str_eq m.milestone.lifecycle "approved"
    then some (record { stage = execute; target = to_complete })
    else if str_eq m.milestone.lifecycle "in-progress"
    then some (record { stage = execute; target = to_complete })
    else if str_eq m.milestone.lifecycle "remediation"
    then some (record { stage = remediate; target = to_complete })
    else none
