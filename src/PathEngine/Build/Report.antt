-- ===== src/PathEngine/Build/Report.antt =====
-- The reports of `build_path` and `next_step_action`, crates/mp/src/path_engine.rs.
use master_plan.Prelude.{String, Bool, List, [], filter}
use master_plan.Model.Milestone.{MilestoneFile, Step}
use master_plan.Model.Plan.{ExecutionConfig}
use master_plan.PathEngine.Action.{execution_done_ids}
use master_plan.PathEngine.Build.{Progress, is_ready, blocked_by_deps}
use master_plan.PathEngine.Build.Offers.{Offers}

module _ (hash_order : List String → List String) (claim_active : Step → Bool)
    (execution : ExecutionConfig) (milestones : List MilestoneFile) where
  abbrev ready_milestones : List MilestoneFile
  ready_milestones = filter (is_ready (execution_done_ids milestones)) milestones

  abbrev start : Progress
  start = record {
    actions = [];
    blocked = blocked_by_deps (execution_done_ids milestones) milestones;
    rank = 1;
  }
