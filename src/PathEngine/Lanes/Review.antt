-- ===== src/PathEngine/Lanes/Review.antt =====
-- `review_lane` of crates/mp/src/path_engine.rs. The counts of open findings are below 2^31, where
-- `as i32` keeps them.
use master_plan.Prelude.{
  ℕ, ◌+◌, String, Bool, true, false, Option, none, some, List, [], ◌∷◌, str_eq, ltb, if◌then◌else◌,
  sort_by,
}
use master_plan.Prelude.Text.{push_str}
use master_plan.Model.Milestone.{MilestoneFile}
use master_plan.Model.Findings.{open_self_findings_count, open_external_findings_count}
use master_plan.Status.{model_execution_status}
use master_plan.Paths.{display_milestone_id, le_milestone_id}
use master_plan.PathEngine.Action.{
  PathAction, MilestoneJson, plain, executing, waiting, reviewing, grooming, backlog,
}
use master_plan.PathEngine.Lanes.{Lane, milestone, lane, milestone_action, lifecycle_of}

-- The match on the lifecycle and the execution status: the phase and its rank.
unfoldable pub review_phase : String → String → Option (String × ℕ)
review_phase lc exec =
    if str_eq lc "done"
    then (if str_eq exec "blocked"
        then some ("needs-remediation", 1)
        else if str_eq exec "in-progress"
        then some ("awaiting-independent", 2)
        else some ("needs-self-check", 1))
    else if str_eq lc "self-reviewed"
    then some ("awaiting-independent", 2)
    else if str_eq lc "remediation"
    then some ("needs-remediation", 3)
    else none

abbrev pub has_phase : Option (String × ℕ) → Bool
has_phase none = false
has_phase (some phase) = true

-- Whether the loop of the lane lists the milestone.
abbrev pub in_review : MilestoneFile → Bool
in_review m = has_phase (review_phase (lifecycle_of m) (model_execution_status m))

abbrev pub review_item : MilestoneFile → String × ℕ → PathAction
review_item m (phase, rank) =
    milestone_action rank
      (reviewing m.milestone.id (display_milestone_id m.milestone.id) m.milestone.title
        (lifecycle_of m) phase (open_self_findings_count m) (open_external_findings_count m))
      (push_str "review phase: " phase)

unfoldable pub review_items : List MilestoneFile → List PathAction
review_items [] = []
review_items (m ∷ ms) =
    let rest = review_items ms in
    elim (review_phase (lifecycle_of m) (model_execution_status m)) [
      | none ↦ rest
      | some phase ↦ review_item m phase ∷ rest
    ]

-- What the comparison reads back from the JSON of an action.
abbrev pub json_open : MilestoneJson → ℕ
json_open (reviewing _ _ _ _ _ self external) = self + external
json_open _ = 0

abbrev pub json_id : MilestoneJson → String
json_id (plain id _ _) = id
json_id (executing id _ _ _) = id
json_id (waiting id _ _ _ _ _) = id
json_id (reviewing id _ _ _ _ _ _) = id
json_id (grooming id _ _ _ _) = id
json_id (backlog _ id _ _) = id

-- More open findings first, then the lower rank, then the id.
unfoldable pub le_in_review : PathAction → PathAction → Bool
le_in_review a b =
    let a_open = json_open a.milestone in
    let b_open = json_open b.milestone in
    if ltb b_open a_open
    then true
    else if ltb a_open b_open
    then false
    else if ltb a.rank b.rank
    then true
    else if ltb b.rank a.rank
    then false
    else le_milestone_id (json_id a.milestone) (json_id b.milestone)

unfoldable pub review_lane : List MilestoneFile → Lane
review_lane milestones = lane "review" milestone (sort_by le_in_review (review_items milestones))
