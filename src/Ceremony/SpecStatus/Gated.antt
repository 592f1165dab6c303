-- ===== src/Ceremony/SpecStatus/Gated.antt =====
-- A promotion passes the gates, and its dry run answers what the run answers.
use master_plan.Prelude.{
  ℕ, String, ◌≡◌, refl, inl, inr, Bool, Option, some, List, [], Bool-cases, Result, ok, err, is_nil,
  nil_of, append-eq-nil, none,
}
use master_plan.Model.Milestone.{MilestoneFile}
use master_plan.Validate.{validate_milestone_ready}
use master_plan.Validate.Approvals.{
  AnnotationItem, check_g14_approval_requests, check_gate_g14, open_approvals,
}
use master_plan.Ceremony.Errors.{Error}
use master_plan.Ceremony.Ops.{JournalEntry}
use master_plan.Ceremony.SpecStatus.{
  ApplySpecStatusResult, applied, blocked, gate_errors_for_spec_status, promotion_errors,
  apply_spec_status_with_gates,
}
use mathlib.Core.List.{cons≢nil}
use master_plan.Paths.{normalize_milestone_id}

-- The answer without the write.
abbrev pub answer_of :
    Result Error (Option (MilestoneFile × List JournalEntry) × ApplySpecStatusResult)
    → Result Error ApplySpecStatusResult
answer_of (ok r) = ok r.1
answer_of (err e) = err e

-- The milestone that is written, `none` where none is.
abbrev pub written_of :
    Result Error (Option (MilestoneFile × List JournalEntry) × ApplySpecStatusResult)
    → Option MilestoneFile
written_of (ok r) = elim r.0 [ none ↦ none | some w ↦ some w.0 ]
written_of (err e) = none

-- The milestone of an answer that is no refusal.
abbrev pub applied_of : Result Error ApplySpecStatusResult → Option MilestoneFile
applied_of (ok (applied m)) = some m
applied_of (ok (blocked gate_errors current)) = none
applied_of (err e) = none

nothing_open :
    (annotations : List AnnotationItem) (id : String) (issue_milestone : Option String)
    → check_gate_g14 annotations id issue_milestone ≡ []
    → open_approvals annotations id ≡ []
unfolding check_gate_g14
nothing_open annotations id issue_milestone h =
    elim (Bool-cases (is_nil (open_approvals annotations id))) [
      | inl e ↦ nil_of (open_approvals annotations id) (rw e refl)
      | inr e ↦ absurd (cons≢nil (rw e at h))
    ]

-- A promotion to `ready` that is applied has passed the ready gate, and no approval request on the
-- milestone is open among the annotations.
pub apply_spec_status_with_gates-ready :
    (now : String) (min_out_of_scope : ℕ) (annotations : List AnnotationItem) (id : String)
    (m m2 : MilestoneFile) (commit : Bool) (written : Option (MilestoneFile × List JournalEntry))
    → apply_spec_status_with_gates now min_out_of_scope (some annotations) id m "ready" commit
      ≡ ok (written, applied m2)
    → (validate_milestone_ready m min_out_of_scope ≡ []) × (open_approvals annotations id ≡ [])
unfolding apply_spec_status_with_gates promotion_errors gate_errors_for_spec_status
    check_g14_approval_requests check_gate_g14
apply_spec_status_with_gates-ready now min_out_of_scope annotations id m m2 commit written h =
    let errors = promotion_errors (some annotations) id m "ready" min_out_of_scope in
    elim (Bool-cases (is_nil errors)) [
      | inr e ↦ (let stopped = rw e at h in cc)
      | inl e ↦
          (let (gates, requests) =
              append-eq-nil (validate_milestone_ready m min_out_of_scope)
                (check_gate_g14 annotations id (some (normalize_milestone_id id)))
                (nil_of errors (rw e refl)) in
            (gates, nothing_open annotations id _ requests))
    ]
