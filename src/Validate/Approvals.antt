-- ===== src/Validate/Approvals.antt =====
-- The gate G14 of crates/mp/src/validate/gates.rs: open approval requests among the annotations.
use master_plan.Prelude.{
  String, Bool, true, false, not, ◌&&◌, ◌||◌, Option, none, some, List, [], ◌∷◌, str_eq,
  if◌then◌else◌, length, filter, is_nil,
}
use master_plan.Prelude.Text.{push_str, strip_prefix}
use master_plan.Prelude.Text.Decimal.{show}
use master_plan.Paths.{normalize_milestone_id}
use master_plan.Validate.{ValidationIssue, issue}

pub record AnnotationItem : Type 0 where
  pub id : String
  pub target : String
  pub kind : String
  pub body : String
  pub author : String
  pub status : String
  pub created_at : String
  pub resolved_at : String

abbrev pub starts_with : String → String → Bool
starts_with s prefix = elim (strip_prefix prefix s) [ none ↦ false | some rest ↦ true ]

abbrev pub is_open_approval : String → AnnotationItem → Bool
is_open_approval prefix a =
    str_eq a.kind "approval-request"
    && not (str_eq a.status "resolved")
    && (str_eq a.target prefix || starts_with a.target (push_str prefix "/"))

abbrev pub open_approvals : List AnnotationItem → String → List AnnotationItem
open_approvals annotations milestone_id =
    filter (is_open_approval (push_str "M" (normalize_milestone_id milestone_id))) annotations

abbrev pub join_ids : List AnnotationItem → String
join_ids [] = ""
join_ids (a ∷ []) = a.id
join_ids (a ∷ b ∷ as_) = push_str a.id (push_str ", " (join_ids (b ∷ as_)))

unfoldable pub check_gate_g14 : List AnnotationItem → String → Option String → List ValidationIssue
check_gate_g14 annotations milestone_id issue_milestone =
    let found = open_approvals annotations milestone_id in
    if is_nil found
    then []
    else issue "G14"
        (push_str "milestone " (
          push_str (normalize_milestone_id milestone_id) (
            push_str " has " (
              push_str (show (length found))
                (push_str " pending approval annotation(s): " (join_ids found))))))
        issue_milestone
      ∷ []

-- `none` where the annotations cannot be loaded.
unfoldable pub check_g14_approval_requests :
    Option (List AnnotationItem) → String → List ValidationIssue
check_g14_approval_requests none milestone_id = []
check_g14_approval_requests (some annotations) milestone_id =
    check_gate_g14 annotations milestone_id (some (normalize_milestone_id milestone_id))
