-- ===== src/PathEngine/Action.antt =====
-- The actions of crates/mp/src/path_engine.rs and the tests on milestones that its paths share. A
-- `json!` value is a constructor with the fields of the object.
use master_plan.Prelude.{
  ℕ, String, Bool, false, not, ◌&&◌, ◌||◌, Option, List, map, str_eq, if◌then◌else◌, filter,
  contains_str, is_nil,
}
use master_plan.Prelude.Text.{is_empty}
use master_plan.Lifecycle.Meta.{effective_lifecycle}
use master_plan.Model.Milestone.{MilestoneFile, Step}
use master_plan.Paths.{normalize_milestone_id}

pub data MilestoneJson : Type 0 where
  plain : (id display title : String) → MilestoneJson
  executing : (id display title execution_status : String) → MilestoneJson
  waiting :
      (id display title lifecycle priority : String) (depends_on : List String) → MilestoneJson
  reviewing :
      (id display title lifecycle review_phase : String)
      (open_self_findings open_external_findings : ℕ)
      → MilestoneJson
  grooming : (id display title lifecycle : String) (needs_regrooming : Bool) → MilestoneJson
  backlog : (kind id title priority : String) → MilestoneJson

pub record PathAction : Type 0 where
  pub rank : ℕ
  pub action_type : String
  pub milestone : MilestoneJson
  pub step : Option Step
  pub work_package : Option (String × String)
  pub reason : String

-- The entries of `blocked`, with their reasons.
pub data BlockedJson : Type 0 where
  depends_on_not_done : (milestone : String) (depends_on : List String) → BlockedJson
  step_claimed :
      (milestone step claimed_by : String) (lease_expires_at : Option String) → BlockedJson
  depends_on_steps_not_done :
      (milestone step : String) (depends_on_steps : List String) → BlockedJson

unfoldable pub milestone_executable : MilestoneFile → Bool
milestone_executable m =
    let spec = m.milestone.spec_status in
    let execution = m.milestone.execution_status in
    if not (str_eq spec "ready" || str_eq spec "implemented" || str_eq spec "verified")
    then false
    else str_eq execution "planned" || str_eq execution "in-progress"

abbrev pub id_of : MilestoneFile → String
id_of m = normalize_milestone_id m.milestone.id

unfoldable pub complete_ids : List MilestoneFile → List String
complete_ids ms = map id_of (filter (λ m. str_eq (effective_lifecycle m.milestone) "complete") ms)

-- The `done_ids` of `build_path`.
unfoldable pub execution_done_ids : List MilestoneFile → List String
execution_done_ids ms = map id_of (filter (λ m. str_eq m.milestone.execution_status "done") ms)

unfoldable pub unmet_depends_on : MilestoneFile → List String → List String
unmet_depends_on m done_ids =
    filter (λ d. not (contains_str done_ids (normalize_milestone_id d)))
      (filter (λ d. not (is_empty d) && not (str_eq d "none")) m.milestone.depends_on)

unfoldable pub milestone_deps_met : MilestoneFile → List String → Bool
milestone_deps_met m done_ids = is_nil (unmet_depends_on m done_ids)
