-- ===== src/Tests/Reviews.antt =====
-- Findings and verdicts at finished milestones.
use master_plan.Prelude.{
  ℕ, zero, suc, ◌+◌, ◌-◌, ◌*◌, ◌/◌, ◌%◌, ◌≤◌, ◌<◌, max, String, ◌≡◌, refl, sym, ap, subst, ◌∙◌, ◌≢◌,
  ◌↔◌, ◌⊎◌, inl, inr, Bool, true, false, not, ◌&&◌, ◌||◌, Option, none, some, List, [], ◌∷◌, ◌++◌,
  map, arith, str_eq, eq_iff, ltb, leb, ◌==◌, if◌then◌else◌, Bool-cases, Option-cases, and_true,
  or_eq_false, or_false, length, any, all, find, filter, update_first, remove_first, contains_str,
  distinct, filter-eq-nil, not-true, and_eq_true, str_eq_comm, str_eq_refl, Result, ok, err, ◌>>=◌,
  ◌>>◌, bail_if, is_nil, nil_of, append-eq-nil, is_nil-append, not-false, bind-eq-ok, bail_if-eq-ok,
  ok-injective, some-injective, distinct-snoc, one_if, count, count-append, count-snoc,
  contains_of_count, count_of_contains, count_of_absent, count-distinct, length-le_of_counts,
  counts_of_length, one_if-le, count-filter, before, before-append_left, before-snoc_self,
  contains_cases, Memᴰ, insert_by, sort_by, take, position, length-take, mem-take, mem-insert_by,
  mem-sort_by, length-sort_by, length-insert_by, mem-filter, mem-filter_of, Result-cases,
  SameMembers, members_refl, members_trans, members_cons, members_swap, sort_by-same,
}
use master_plan.Lifecycle.Phase.{from_lifecycle}
use master_plan.Lifecycle.Meta.{effective_lifecycle}
use master_plan.Model.Milestone.{MilestoneFile, Finding}
use master_plan.Model.Findings.{FindingDraft}
use master_plan.Model.Review.{ReviewsFile, ReviewRecord}
use master_plan.Status.{effective_execution_status}
use master_plan.Prelude.Text.{trim}
use master_plan.Tests.Samples.{sample, approved_meta, in_lifecycle, value_of}
use master_plan.Reviews.{record_review_pass, is_promotable, ReviewError, bad_verdict}
use master_plan.Reviews.Findings.{add_finding_with_phase, resolve_finding, is_open, fixed}
use master_plan.Reviews.Findings.Remediation.{add_finding_with_phase_enters_remediation}
use master_plan.Reviews.Findings.RoundTrip.{add_finding-resolve_finding}
use master_plan.Ceremony.Complete.{or_default}
use master_plan.Reviews.Passing.{record_review_pass-promotes}

abbrev finding_draft : FindingDraft
finding_draft = record {
  milestone_id = "M001";
  severity = "high";
  category = "bug";
  description = "a case is missing";
  author = "";
  phase = "external";
  summary = "";
  rationale = "";
  confidence = "";
  tags = [];
  anchor = none;
  thread = [];
}

abbrev any_time : String → Bool
any_time s = true

abbrev new_one : Finding
new_one = record {
  id = "F-01";
  severity = "high";
  category = "bug";
  description = "a case is missing";
  status = "open";
  author = "";
  fixed_in = "";
  created = "d";
  resolved = "";
  phase = "external";
  anchor = none;
  thread = [];
  summary = "";
  rationale = "";
  confidence = "";
  tags = [];
}

abbrev filed : MilestoneFile × Finding
filed =
    value_of (add_finding_with_phase any_time "t" "d" (in_lifecycle "complete") finding_draft)
      (sample, new_one)

add_finding_with_phase_enters_remediation_example :
    (filed.0.milestone.lifecycle ≡ "remediation")
    × (filed.0.findings ≡ filed.1 ∷ [])
    × (filed.1.status ≡ "open")
unfolding add_finding_with_phase master_plan.Model.Findings.validate_draft
    master_plan.Reviews.Findings.check_threads master_plan.Reviews.Findings.escalate_to_remediation
    master_plan.Reviews.Findings.enters_remediation
    master_plan.Model.Findings.has_open_self_findings
    master_plan.Model.Findings.has_open_external_findings
    master_plan.Ceremony.Apply.apply_transition master_plan.Lifecycle.Meta.from_meta from_lifecycle
    effective_lifecycle master_plan.Lifecycle.Machine.transition
add_finding_with_phase_enters_remediation_example =
    add_finding_with_phase_enters_remediation any_time "t" "d" (in_lifecycle "complete") filed.0
      finding_draft filed.1 refl refl

add_finding-resolve_finding_example :
    (m2 : MilestoneFile) × (resolve_finding "u" "e" filed.0 filed.1.id none
      ≡ ok (m2, fixed "e" (or_default none) filed.1))
    × (from_lifecycle (effective_lifecycle (in_lifecycle "complete").milestone)
        ≡ from_lifecycle m2.milestone.lifecycle)
    × (filter is_open m2.findings ≡ [])
    × (m2.milestone.remediation_pre_state ≡ none)
unfolding add_finding_with_phase master_plan.Model.Findings.validate_draft
    master_plan.Reviews.Findings.check_threads master_plan.Reviews.Findings.escalate_to_remediation
    master_plan.Reviews.Findings.enters_remediation
    master_plan.Model.Findings.has_open_self_findings
    master_plan.Model.Findings.has_open_external_findings
    master_plan.Ceremony.Apply.apply_transition master_plan.Lifecycle.Meta.from_meta from_lifecycle
    effective_lifecycle master_plan.Lifecycle.Machine.transition
add_finding-resolve_finding_example =
    add_finding-resolve_finding any_time "t" "d" (in_lifecycle "complete") filed.0 finding_draft
      filed.1 refl refl refl refl refl refl "u" "e" none

abbrev done_milestone : MilestoneFile
done_milestone = record sample {
  milestone = record approved_meta {
    lifecycle = "done";
    spec_status = "verified";
    execution_status = "done";
  };
}

abbrev passed : Option MilestoneFile × Result ReviewError (ReviewsFile × ReviewRecord)
passed =
    value_of (record_review_pass "t" "d" done_milestone none "M001" "ok" "ana" none)
      (none, err bad_verdict)

abbrev promoted_milestone : MilestoneFile
promoted_milestone = elim passed.0 [ none ↦ sample | some w ↦ w ]

record_review_pass-promotes_example :
    (str_eq (trim "ok") "ok" && is_promotable done_milestone ≡ true)
    × (effective_execution_status done_milestone ≡ "done")
    × (promoted_milestone.milestone.lifecycle ≡ "complete")
    × (promoted_milestone.findings ≡ done_milestone.findings)
    × (promoted_milestone.steps ≡ done_milestone.steps)
unfolding record_review_pass trim master_plan.Prelude.Text.trim_end
    master_plan.Prelude.Text.trim_start effective_execution_status master_plan.Reviews.promote
    master_plan.Status.effective_spec_status master_plan.Ceremony.Apply.apply_transition
    master_plan.Lifecycle.Meta.from_meta from_lifecycle effective_lifecycle
    master_plan.Lifecycle.Machine.transition
record_review_pass-promotes_example =
    record_review_pass-promotes "t" "d" done_milestone promoted_milestone none "M001" "ok" "ana"
      none passed.1 refl
