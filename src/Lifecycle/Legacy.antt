-- ===== src/Lifecycle/Legacy.antt =====
-- The maps between the lifecycle and the two legacy status columns, in
-- crates/mp-model/src/milestone.rs.
pub mod RoundTrip
use master_plan.Prelude.{ℕ, String, ◌||◌, leb, str_eq, if◌then◌else◌}

abbrev pub legacy_spec_status_to_lifecycle : String → String
legacy_spec_status_to_lifecycle legacy =
    if str_eq legacy "draft"
    then "draft"
    else if str_eq legacy "interview"
    then "groomed"
    else if str_eq legacy "review"
    then "groomed"
    else if str_eq legacy "ready"
    then "approved"
    else if str_eq legacy "implemented"
    then "executed"
    else if str_eq legacy "verified"
    then "complete"
    else "draft"

abbrev pub lifecycle_to_legacy_spec_status : String → String
lifecycle_to_legacy_spec_status lifecycle =
    if str_eq lifecycle "draft"
    then "draft"
    else if str_eq lifecycle "groomed"
    then "review"
    else if str_eq lifecycle "approved"
    then "ready"
    else if str_eq lifecycle "in-progress"
    then "ready"
    else if str_eq lifecycle "done"
        || str_eq lifecycle "executed"
        || str_eq lifecycle "self-reviewed"
        || str_eq lifecycle "remediation"
    then "implemented"
    else if str_eq lifecycle "reviewed" || str_eq lifecycle "complete"
    then "verified"
    else "draft"

abbrev pub legacy_execution_status_to_lifecycle : String → String
legacy_execution_status_to_lifecycle legacy =
    if str_eq legacy "planned"
    then "draft"
    else if str_eq legacy "in-progress"
    then "in-progress"
    else if str_eq legacy "done"
    then "executed"
    else if str_eq legacy "blocked"
    then "draft"
    else if str_eq legacy "deferred"
    then "draft"
    else if str_eq legacy "cancelled"
    then "cancelled"
    else "draft"

abbrev pub lifecycle_to_legacy_execution_status : String → String
lifecycle_to_legacy_execution_status lifecycle =
    if str_eq lifecycle "draft" || str_eq lifecycle "groomed" || str_eq lifecycle "approved"
    then "planned"
    else if str_eq lifecycle "in-progress" || str_eq lifecycle "remediation"
    then "in-progress"
    else if str_eq lifecycle "done"
        || str_eq lifecycle "executed"
        || str_eq lifecycle "self-reviewed"
        || str_eq lifecycle "reviewed"
        || str_eq lifecycle "complete"
    then "done"
    else "planned"

-- The closure `order` of `effective_lifecycle_from_legacy` and `effective_lifecycle` (a `u8`).
abbrev pub lifecycle_order : String → ℕ
lifecycle_order s =
    if str_eq s "draft"
    then 0
    else if str_eq s "groomed"
    then 1
    else if str_eq s "approved"
    then 2
    else if str_eq s "in-progress"
    then 3
    else if str_eq s "done" || str_eq s "executed"
    then 4
    else if str_eq s "self-reviewed"
    then 5
    else if str_eq s "reviewed"
    then 6
    else if str_eq s "complete"
    then 7
    else if str_eq s "remediation"
    then 4
    else 0

abbrev pub effective_lifecycle_from_legacy : String → String → String
effective_lifecycle_from_legacy spec exec =
    if str_eq exec "in-progress"
    then "in-progress"
    else (let from_exec = legacy_execution_status_to_lifecycle exec in
        let from_spec = legacy_spec_status_to_lifecycle spec in
        if leb (lifecycle_order from_spec) (lifecycle_order from_exec)
        then from_exec
        else from_spec)
