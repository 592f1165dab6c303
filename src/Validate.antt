-- ===== src/Validate.antt =====
-- The gates of crates/mp/src/validate/gates.rs.
pub mod Gates
pub mod Approvals
use master_plan.Prelude.{
  ℕ, String, Bool, false, ◌||◌, Option, none, some, List, [], ◌∷◌, ◌++◌, map, str_eq, ltb,
  if◌then◌else◌, length, Result, ok, err, is_nil,
}
use master_plan.Model.Milestone.{MilestoneFile, OpenQuestion}
use master_plan.Status.{effective_spec_status, effective_execution_status}
use master_plan.Paths.{normalize_milestone_id}
use master_plan.Prelude.Text.{push_str, is_empty}
use master_plan.Prelude.Text.Decimal.{show}

pub record ValidationIssue : Type 0 where
  pub code : String
  pub message : String
  pub milestone : Option String

abbrev pub issue : String → String → Option String → ValidationIssue
issue code message milestone = record { code = code; message = message; milestone = milestone }

unfoldable pub check_gate_g1 : MilestoneFile → List ValidationIssue
check_gate_g1 m =
    let s = effective_spec_status m in
    if str_eq s "ready" || str_eq s "implemented" || str_eq s "verified"
    then []
    else issue "G1" "in-progress requires spec_status ready or later" (some m.milestone.id) ∷ []

unfoldable pub check_gate_g4 : MilestoneFile → ℕ → List ValidationIssue
check_gate_g4 m min_out_of_scope =
    if ltb (length m.scope.out_of_scope) min_out_of_scope
    then issue "G4"
        (push_str "at least " (push_str (show min_out_of_scope) " out-of-scope items required"))
        (some m.milestone.id)
      ∷ []
    else []

-- A `HashMap` from milestone ids to execution statuses; of two entries for an id the later one
-- stands.
abbrev pub StatusMap : Type 0
StatusMap = List (String × String)

abbrev pub get : StatusMap → String → Option String
get [] id = none
get ((k, v) ∷ entries) id = elim (get entries id) [
  | none ↦ if str_eq k id then some v else none
  | some w ↦ some w
]

abbrev pub is_no_dep : String → Bool
is_no_dep dep = is_empty dep || str_eq dep "none"

-- `exec_by_id.get(..).map(|s| s == "done").unwrap_or(false)`
abbrev pub is_done_in : StatusMap → String → Bool
is_done_in exec_by_id dep_id = elim (get exec_by_id dep_id) [
  | none ↦ false
  | some s ↦ str_eq s "done"
]

abbrev pub g8_issue : String → String → ValidationIssue
g8_issue id dep_id = issue "G8" (push_str "dependency " (push_str dep_id " is not done")) (some id)

pub g8_issues : StatusMap → String → List String → List ValidationIssue
g8_issues exec_by_id id [] = []
g8_issues exec_by_id id (dep ∷ deps) =
    let rest = g8_issues exec_by_id id deps in
    if is_no_dep dep
    then rest
    else if is_done_in exec_by_id (normalize_milestone_id dep)
    then rest
    else g8_issue id (normalize_milestone_id dep) ∷ rest

unfoldable pub check_gate_g8 : MilestoneFile → StatusMap → List ValidationIssue
unfolding g8_issues
check_gate_g8 m exec_by_id = g8_issues exec_by_id m.milestone.id m.milestone.depends_on

unfoldable pub validate_milestone_review : MilestoneFile → ℕ → List ValidationIssue
unfolding check_gate_g4
validate_milestone_review m min_out_of_scope =
    (if is_nil m.acceptance_criteria
      then issue "G3" "acceptance criteria required for review" (some m.milestone.id) ∷ []
      else [])
    ++ check_gate_g4 m min_out_of_scope

pub g2_issues : String → List OpenQuestion → List ValidationIssue
g2_issues id [] = []
g2_issues id (q ∷ qs) =
    let rest = g2_issues id qs in
    if str_eq q.status "open"
    then issue "G2" (push_str "open question " (push_str q.id " unresolved at ready")) (some id)
      ∷ rest
    else rest

unfoldable pub validate_milestone_ready : MilestoneFile → ℕ → List ValidationIssue
unfolding validate_milestone_review g2_issues
validate_milestone_ready m min_out_of_scope =
    validate_milestone_review m min_out_of_scope
    ++ (g2_issues m.milestone.id m.open_questions
        ++ ((if is_empty m.intent.outcome
              then issue "G3" "intent.outcome is required for ready" (some m.milestone.id) ∷ []
              else [])
            ++ (if is_empty m.problem.description
                then issue "G3" "problem.description is required for ready" (some m.milestone.id)
                  ∷ []
                else [])))

-- The plan as `load_all_milestones` answers: the milestones, or the text of the failure.
abbrev pub LoadedPlan : Type 0
LoadedPlan = Result String (List MilestoneFile)

abbrev pub execution_statuses : List MilestoneFile → StatusMap
execution_statuses ms =
    map (λ m. (normalize_milestone_id m.milestone.id, effective_execution_status m)) ms

unfoldable pub validate_milestone_start_execution :
    LoadedPlan → MilestoneFile → List ValidationIssue
unfolding check_gate_g1 check_gate_g8
validate_milestone_start_execution (err e) m =
    check_gate_g1 m
    ++ issue "E02" (push_str "failed to load milestones for dependency check: " e)
        (some m.milestone.id)
      ∷ []
validate_milestone_start_execution (ok milestones) m =
    check_gate_g1 m ++ check_gate_g8 m (execution_statuses milestones)
