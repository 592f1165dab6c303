-- ===== src/Reviews/Audit.antt =====
-- The L5 audit of hand-offs, `l5_check` of crates/mp/src/reviews.rs. A message is a constructor with
-- its texts.
use master_plan.Prelude.{
  ℕ, ◌+◌, ◌%◌, String, Bool, not, ◌&&◌, ◌||◌, Option, none, some, List, [], ◌∷◌, ◌++◌, str_eq, ◌==◌,
  if◌then◌else◌, length, filter, is_nil,
}
use master_plan.Prelude.Text.{is_empty}
use master_plan.Model.Review.{ReviewHandoff, ReviewsFile}
use master_plan.Paths.{normalize_milestone_id}
use master_plan.Reviews.Handoffs.{list_handoffs}

pub data L5ViolationReason : Type 0 where
  same_session_across_role_boundary missing_session_identity role_inversion : L5ViolationReason

pub data L5Message : Type 0 where
  missing_identity : (id from_session to_session : String) → L5Message
  same_session :
      (id session : String) (roles_recorded : Bool) (from_role to_role : String) → L5Message
  unexpected_role : (id to_role : String) (from_stage to_stage : ℕ) (expected : String) → L5Message

pub record L5Violation : Type 0 where
  pub at_handoff : String
  pub from : String
  pub to : String
  pub reason : L5ViolationReason
  pub severity : String
  pub message : L5Message

pub record L5AuditSummary : Type 0 where
  pub total_handoffs : ℕ
  pub cross_role_handoffs : ℕ
  pub violation_count : ℕ

pub record L5Audit : Type 0 where
  pub passed : Bool
  pub violations : List L5Violation
  pub summary : L5AuditSummary

unfoldable pub expected_receiving_role : ℕ → ℕ → Option String
expected_receiving_role from_stage to_stage =
    if from_stage == 4 && to_stage == 5
    then some "runner"
    else if from_stage == 7 && to_stage == 8
    then some "coordinator"
    else if from_stage == 8 && to_stage == 9
    then some "runner"
    else if from_stage == 9 && to_stage == 10
    then some "coordinator"
    else none

abbrev pub is_cross_role : ReviewHandoff → Bool
is_cross_role h =
    not (is_empty h.from_role) && not (is_empty h.to_role) && not (str_eq h.from_role h.to_role)

abbrev pub violation : ReviewHandoff → L5ViolationReason → L5Message → L5Violation
violation h reason message = record {
  at_handoff = h.id;
  from = h.from_role;
  to = h.to_role;
  reason = reason;
  severity = "advisory";
  message = message;
}

-- The two checks of the first loop.
unfoldable pub session_violations : ReviewHandoff → List L5Violation
session_violations h =
    (if is_empty h.from_session || is_empty h.to_session
      then violation h missing_session_identity (missing_identity h.id h.from_session h.to_session)
        ∷ []
      else [])
    ++ (if not (is_empty h.from_session) && str_eq h.from_session h.to_session
        then violation h same_session_across_role_boundary
            (same_session h.id h.from_session (is_cross_role h) h.from_role h.to_role)
          ∷ []
        else [])

abbrev pub stages : ℕ → ℕ × ℕ
stages idx =
    let point = idx % 4 in
    if point == 0
    then (4, 5)
    else if point == 1
    then (7, 8)
    else if point == 2
    then (8, 9)
    else (9, 10)

-- One round of the second loop.
unfoldable pub role_violations : ℕ → ReviewHandoff → List L5Violation
role_violations idx h =
    let (from_stage, to_stage) = stages idx in
    if is_empty h.from_role || is_empty h.to_role
    then []
    else elim (expected_receiving_role from_stage to_stage) [
      | none ↦ []
      | some expected ↦
          if not (str_eq h.to_role expected)
          then violation h role_inversion
              (unexpected_role h.id h.to_role from_stage to_stage expected)
            ∷ []
          else []
    ]

abbrev pub all_session_violations : List ReviewHandoff → List L5Violation
all_session_violations [] = []
all_session_violations (h ∷ hs) = session_violations h ++ all_session_violations hs

abbrev pub all_role_violations : ℕ → List ReviewHandoff → List L5Violation
all_role_violations idx [] = []
all_role_violations idx (h ∷ hs) = role_violations idx h ++ all_role_violations (idx + 1) hs

unfoldable pub l5_check : ReviewsFile → String → L5Audit
l5_check file milestone_id =
    let handoffs = list_handoffs file (normalize_milestone_id milestone_id) in
    let violations = all_session_violations handoffs ++ all_role_violations 0 handoffs in
    record {
      passed = is_nil violations;
      violations = violations;
      summary = record {
        total_handoffs = length handoffs;
        cross_role_handoffs = length (filter is_cross_role handoffs);
        violation_count = length violations;
      };
    }
