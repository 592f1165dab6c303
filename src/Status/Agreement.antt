-- ===== src/Status/Agreement.antt =====
-- Where the two derivations of the execution status agree, crates/mp/src/validate/plan.rs and
-- crates/mp-model/src/milestone.rs.
use master_plan.Prelude.{
  inl, inr, Bool, Bool-cases, refl, ap, eq_iff, String, if◌then◌else◌, ◌≡◌, false, ◌&&◌, ◌||◌,
  arith, true, not, str_eq, Bool, Bool-cases,
}
use master_plan.Lifecycle.Phase.{
  MilestonePhase, as_str, draft, groomed, approved, in_progress, executed, complete, remediation,
}
use master_plan.Lifecycle.Meta.{effective_lifecycle}
use master_plan.Lifecycle.Legacy.{lifecycle_to_legacy_spec_status}
use master_plan.Lifecycle.Machine.{phase_eq}
use master_plan.Model.Milestone.{MilestoneFile}
use master_plan.Status.{effective_spec_status, effective_execution_status, model_execution_status}
use master_plan.Prelude.Text.{is_empty}

-- For a milestone whose lifecycle is a canonical phase other than `executed`, and that is not both
-- cancelled and blocked or deferred, the validator and the model derive the same execution status.
pub execution_status_agreement :
    (m : MilestoneFile) (p : MilestonePhase)
    → effective_lifecycle m.milestone ≡ as_str p
    → m.milestone.cancelled && (m.milestone.blocked || m.milestone.deferred) ≡ false
    → phase_eq p executed ≡ false
    → effective_execution_status m ≡ model_execution_status m
unfolding effective_execution_status model_execution_status
execution_status_agreement m executed e o n = cc
execution_status_agreement m _ e o n = rw e (ground arith)

alike : {a b : String} → a ≡ b → not (str_eq a b) ≡ false
alike {a} {b} e = ap not ((eq_iff a b).1 e)

-- What the two derive of an executed milestone, from its stored status and its overlays.
at_executed :
    (status : String) (c b d : Bool)
    → c && (b || d) ≡ false
    → not (
        str_eq
          (if not (is_empty status)
            then status
            else if b
            then "blocked"
            else if d
            then "deferred"
            else if c
            then "cancelled"
            else "planned")
          (if not (is_empty status)
            then status
            else if c
            then "cancelled"
            else if b
            then "blocked"
            else if d
            then "deferred"
            else "done"))
      ≡ is_empty status && not (c || b || d)
at_executed status c b d o = elim (Bool-cases (is_empty status)) [
  | inl e ↦ rw e (unstored c b d o)
  | inr e ↦ rw e (alike refl)
]
  where
    unstored :
        (c b d : Bool)
        → c && (b || d) ≡ false
        → not (
            str_eq
              (if b
                then "blocked"
                else if d
                then "deferred"
                else if c
                then "cancelled"
                else "planned")
              (if c
                then "cancelled"
                else if b
                then "blocked"
                else if d
                then "deferred"
                else "done"))
          ≡ not (c || b || d)
    unstored true true d o = cc
    unstored true false true o = cc
    unstored true false false o = refl
    unstored false true d o = refl
    unstored false false true o = refl
    unstored false false false o = refl

-- For a milestone whose lifecycle is a canonical phase, and that is not both cancelled and blocked
-- or deferred, the validator and the model derive different execution statuses in one case exactly:
-- it is executed, no legacy execution status is stored, and it has no overlay.
pub execution_status_differs :
    (m : MilestoneFile) (p : MilestonePhase)
    → effective_lifecycle m.milestone ≡ as_str p
    → m.milestone.cancelled && (m.milestone.blocked || m.milestone.deferred) ≡ false
    → not (str_eq (effective_execution_status m) (model_execution_status m))
      ≡ phase_eq p executed
        && is_empty m.milestone.execution_status
        && not (m.milestone.cancelled || m.milestone.blocked || m.milestone.deferred)
unfolding effective_execution_status model_execution_status
execution_status_differs m executed e o = rw e (
    at_executed m.milestone.execution_status m.milestone.cancelled m.milestone.blocked
      m.milestone.deferred o)
execution_status_differs m draft e o = alike (execution_status_agreement m draft e o refl)
execution_status_differs m groomed e o = alike (execution_status_agreement m groomed e o refl)
execution_status_differs m approved e o = alike (execution_status_agreement m approved e o refl)
execution_status_differs m in_progress e o =
    alike (execution_status_agreement m in_progress e o refl)
execution_status_differs m complete e o = alike (execution_status_agreement m complete e o refl)
execution_status_differs m remediation e o =
    alike (execution_status_agreement m remediation e o refl)

-- For a milestone with no legacy spec status whose lifecycle is a canonical phase, the validator's
-- spec status is the projection that the transition table writes, except for an `executed` one:
-- there the validator answers the lifecycle itself, which is no spec status.
pub spec_status_agreement :
    (m : MilestoneFile) (p : MilestonePhase)
    → effective_lifecycle m.milestone ≡ as_str p
    → is_empty m.milestone.spec_status ≡ true
    → effective_spec_status m
      ≡ (if phase_eq p executed then "executed" else lifecycle_to_legacy_spec_status (as_str p))
unfolding effective_spec_status
spec_status_agreement m executed e h = rw (e, h)
spec_status_agreement m _ e h = rw (e, h)
