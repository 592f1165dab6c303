-- ===== src/Status.antt =====
-- The derived status views: `effective_spec_status` and `effective_execution_status` of
-- crates/mp/src/validate/plan.rs, and the methods of `MilestoneFile` in
-- crates/mp-model/src/milestone.rs.
pub mod Agreement
use master_plan.Prelude.{String, Bool, not, ◌||◌, str_eq, if◌then◌else◌, contains_str}
use master_plan.Lifecycle.Phase.{lifecycle_terminal}
use master_plan.Lifecycle.Meta.{effective_lifecycle}
use master_plan.Model.Milestone.{MilestoneFile}
use master_plan.Prelude.Text.{is_empty}

-- `validate::effective_spec_status`
unfoldable pub effective_spec_status : MilestoneFile → String
effective_spec_status m =
    let lifecycle = effective_lifecycle m.milestone in
    if not (is_empty m.milestone.spec_status)
    then m.milestone.spec_status
    else if str_eq lifecycle "draft"
    then "draft"
    else if str_eq lifecycle "groomed"
    then "review"
    else if str_eq lifecycle "approved"
    then "ready"
    else if str_eq lifecycle "in-progress"
    then "ready"
    else if str_eq lifecycle "done"
        || str_eq lifecycle "self-reviewed"
        || str_eq lifecycle "reviewed"
        || str_eq lifecycle "remediation"
    then "implemented"
    else if str_eq lifecycle "complete"
    then "verified"
    else lifecycle

-- `validate::effective_execution_status`
unfoldable pub effective_execution_status : MilestoneFile → String
effective_execution_status m =
    let lifecycle = effective_lifecycle m.milestone in
    if not (is_empty m.milestone.execution_status)
    then m.milestone.execution_status
    else if m.milestone.blocked
    then "blocked"
    else if m.milestone.deferred
    then "deferred"
    else if m.milestone.cancelled
    then "cancelled"
    else if str_eq lifecycle "draft" || str_eq lifecycle "groomed" || str_eq lifecycle "approved"
    then "planned"
    else if str_eq lifecycle "in-progress"
    then "in-progress"
    else if str_eq lifecycle "done"
        || str_eq lifecycle "self-reviewed"
        || str_eq lifecycle "reviewed"
        || str_eq lifecycle "complete"
        || str_eq lifecycle "remediation"
    then "done"
    else "planned"

-- `MilestoneFile::effective_execution_status`
unfoldable pub model_execution_status : MilestoneFile → String
model_execution_status m =
    let lifecycle = effective_lifecycle m.milestone in
    if not (is_empty m.milestone.execution_status)
    then m.milestone.execution_status
    else if m.milestone.cancelled
    then "cancelled"
    else if m.milestone.blocked
    then "blocked"
    else if m.milestone.deferred
    then "deferred"
    else if str_eq lifecycle "draft" || str_eq lifecycle "groomed" || str_eq lifecycle "approved"
    then "planned"
    else if str_eq lifecycle "in-progress"
    then "in-progress"
    else if str_eq lifecycle "done"
        || str_eq lifecycle "executed"
        || str_eq lifecycle "self-reviewed"
        || str_eq lifecycle "reviewed"
        || str_eq lifecycle "remediation"
    then "done"
    else if str_eq lifecycle "complete"
    then "done"
    else ""

unfoldable pub is_terminal : MilestoneFile → Bool
is_terminal m =
    contains_str lifecycle_terminal (effective_lifecycle m.milestone) || m.milestone.cancelled

-- `spec_status_allows_steps` of crates/mp/src/milestone/spec.rs
unfoldable pub spec_status_allows_steps : String → Bool
spec_status_allows_steps s = str_eq s "ready" || str_eq s "implemented" || str_eq s "verified"
