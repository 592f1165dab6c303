-- ===== src/Watch/Stage.antt =====
-- `PromptStage` of crates/mp/src/watch/prompts.rs, and `Role`, `LifecycleTarget` and `WaitOutcome` of
-- crates/mp/src/watch/herdr.rs.
use master_plan.Prelude.{String}

pub data PromptStage : Type 0 where
  execute self_review external_review remediate re_review approve_stage : PromptStage

pub data Role : Type 0 where
  runner coordinator : Role

pub data LifecycleTarget : Type 0 where
  to_in_progress to_self_reviewed to_reviewed to_complete : LifecycleTarget

pub data WaitOutcome : Type 0 where
  reached advanced_past : WaitOutcome

abbrev pub label : PromptStage → String
label execute = "execute"
label self_review = "self-review"
label external_review = "external-review"
label remediate = "remediate"
label re_review = "re-review"
label approve_stage = "approve"

-- `PromptStage::role`
abbrev pub role : PromptStage → Role
role execute = runner
role self_review = runner
role remediate = runner
role external_review = coordinator
role re_review = coordinator
role approve_stage = coordinator

abbrev pub target_as_str : LifecycleTarget → String
target_as_str to_in_progress = "in-progress"
target_as_str to_self_reviewed = "self-reviewed"
target_as_str to_reviewed = "reviewed"
target_as_str to_complete = "complete"
