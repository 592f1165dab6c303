-- ===== src/Tests/Promotion.antt =====
-- The gated promotion at a groomed milestone.
use master_plan.Prelude.{
  ℕ, zero, suc, ◌+◌, ◌-◌, ◌*◌, ◌/◌, ◌%◌, ◌≤◌, ◌<◌, max, String, ◌≡◌, refl, sym, ap, subst, ◌∙◌, ◌≢◌,
  ◌↔◌, ◌⊎◌, inl, inr, Bool, false, not, ◌&&◌, ◌||◌, Option, none, some, List, [], ◌∷◌, ◌++◌, map,
  arith, str_eq, eq_iff, ltb, leb, ◌==◌, if◌then◌else◌, Bool-cases, Option-cases, and_true,
  or_eq_false, or_false, length, any, all, find, filter, update_first, remove_first, contains_str,
  distinct, filter-eq-nil, not-true, and_eq_true, str_eq_comm, str_eq_refl, Result, ok, err, ◌>>=◌,
  ◌>>◌, bail_if, is_nil, nil_of, append-eq-nil, is_nil-append, not-false, bind-eq-ok, bail_if-eq-ok,
  ok-injective, some-injective, distinct-snoc, one_if, count, count-append, count-snoc,
  contains_of_count, count_of_contains, count_of_absent, count-distinct, length-le_of_counts,
  counts_of_length, one_if-le, count-filter, before, before-append_left, before-snoc_self,
  contains_cases, Memᴰ, insert_by, sort_by, take, position, length-take, mem-take, mem-insert_by,
  mem-sort_by, length-sort_by, length-insert_by, mem-filter, mem-filter_of, Result-cases,
  SameMembers, members_refl, members_trans, members_cons, members_swap, sort_by-same,
}
use master_plan.Model.Milestone.{MilestoneFile, AcceptanceCriterion}
use master_plan.Validate.{validate_milestone_ready}
use master_plan.Validate.Approvals.{AnnotationItem, open_approvals}
use master_plan.Ceremony.SpecStatus.{apply_spec_status_with_gates, applied}
use master_plan.Ceremony.SpecStatus.Gated.{apply_spec_status_with_gates-ready}
use master_plan.Tests.Samples.{in_lifecycle}

abbrev criterion : AcceptanceCriterion
criterion = record {
  id = "AC-01";
  description = "the report is printed";
  verification = "manual: look";
  status = "pending";
  evidence = "";
}

abbrev groomed : MilestoneFile
groomed = record (in_lifecycle "groomed") {
  acceptance_criteria = criterion ∷ [];
  intent = record { outcome = "a report" };
  problem = record { description = "no report" };
}

-- An approval request on another milestone, and a resolved one.
abbrev annotations : List AnnotationItem
annotations =
    record {
      id = "A1";
      target = "M07";
      kind = "approval-request";
      body = "";
      author = "";
      status = "open";
      created_at = "";
      resolved_at = "";
    }
    ∷ record {
      id = "A2";
      target = "M01";
      kind = "approval-request";
      body = "";
      author = "";
      status = "resolved";
      created_at = "";
      resolved_at = "";
    }
    ∷ []

abbrev approved : MilestoneFile
approved = record groomed {
  milestone = record groomed.milestone {
    lifecycle = "approved";
    spec_status = "ready";
    execution_status = "planned";
    lifecycle_at = some "t";
  };
}

apply_spec_status_with_gates-ready_example :
    (validate_milestone_ready groomed 0 ≡ []) × (open_approvals annotations "M01" ≡ [])
unfolding apply_spec_status_with_gates master_plan.Ceremony.SpecStatus.promotion_errors
    master_plan.Ceremony.SpecStatus.gate_errors_for_spec_status validate_milestone_ready
    master_plan.Validate.Approvals.check_g14_approval_requests
    master_plan.Validate.Approvals.check_gate_g14 master_plan.Prelude.Text.push_str
    master_plan.Paths.normalize_milestone_id master_plan.Prelude.Text.split_once
    master_plan.Prelude.Text.skip_chars master_plan.Prelude.Text.trim
    master_plan.Prelude.Text.trim_end master_plan.Prelude.Text.trim_start
    master_plan.Paths.normalize_top_level_milestone_id master_plan.Prelude.Text.Decimal.show_02
    master_plan.Prelude.Text.Decimal.parse_u32 master_plan.Prelude.Text.Decimal.show
    master_plan.Ceremony.Apply.apply_transition master_plan.Ceremony.Apply.event_for_spec_status
    master_plan.Ceremony.Ops.apply_spec_status master_plan.Ceremony.Ops.record_lifecycle_transition
    master_plan.Lifecycle.Machine.apply_event master_plan.Lifecycle.Machine.transition
    master_plan.Lifecycle.Meta.effective_lifecycle master_plan.Lifecycle.Meta.from_meta
    master_plan.Lifecycle.Phase.from_lifecycle master_plan.Prelude.Text.Decimal.parse_digits
    master_plan.Prelude.Text.strip_prefix master_plan.Validate.check_gate_g4
    master_plan.Validate.validate_milestone_review
apply_spec_status_with_gates-ready_example =
    apply_spec_status_with_gates-ready "t" 0 annotations "M01" groomed approved false none refl
