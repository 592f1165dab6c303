-- ===== src/Ceremony/Complete.antt =====
-- `complete_milestone` of crates/mp/src/milestone/complete.rs, with its review gate.
pub mod Gate
pub mod Record
use master_plan.Prelude.{
  String, Bool, true, false, not, ◌&&◌, ◌||◌, Option, none, some, List, map, str_eq, if◌then◌else◌,
  any, Result, ok, err, ◌>>=◌, ◌>>◌, bail_if,
}
use master_plan.Prelude.Text.{push_str, is_empty}
use master_plan.Lifecycle.Machine.{complete_event, finish_execution}
use master_plan.Model.Milestone.{MilestoneFile, AcceptanceCriterion}
use master_plan.Model.Findings.{has_open_self_findings, open_self_findings_count}
use master_plan.Ceremony.Errors.{Error, open_self_findings, delta_merge_failed, slice_panicked}
use master_plan.Ceremony.Evidence.{
  extract_block_cleared_annotation, strip_block_cleared_annotation, block_annotation,
}
use master_plan.Ceremony.Apply.{apply_transition}
use master_plan.Ceremony.Ops.{Written, record_lifecycle_transition}

-- The columns of a review record that the gate reads.
pub record ReviewRow : Type 0 where
  pub milestone_id : String
  pub reviewed_at : String
  pub verdict : String

abbrev pub is_track_kind : MilestoneFile → Bool
is_track_kind m = str_eq m.milestone.change_kind "track"

-- `MilestoneFile::is_delta_kind`
abbrev pub is_delta_kind : MilestoneFile → Bool
is_delta_kind m = str_eq m.milestone.change_kind "delta" || not (is_empty m.delta.domain)

abbrev pub is_ok_for : String → ReviewRow → Bool
is_ok_for id r = str_eq r.milestone_id id && str_eq r.verdict "ok"

abbrev pub has_passing_review : MilestoneFile → List ReviewRow → Bool
has_passing_review m reviews =
    any
      (λ r.
        str_eq r.milestone_id m.milestone.id
        && (str_eq r.reviewed_at m.milestone.updated && str_eq r.verdict "ok"))
      reviews
    || any (is_ok_for m.milestone.id) reviews

abbrev pub promote_to_complete : MilestoneFile → List ReviewRow → Bool → Bool
promote_to_complete m reviews skip_review =
    not (not (is_track_kind m) && not skip_review) || has_passing_review m reviews || skip_review

abbrev pub skip_note : String
skip_note = "[skip-review: review gate bypassed for terminal complete; recorded as debt]"

abbrev pub evidence_text : MilestoneFile → Option String → Bool → String
evidence_text m evidence skip_review =
    let given : String = elim evidence [ none ↦ "milestone complete" | some e ↦ e ] in
    if skip_review && not (is_track_kind m)
    then elim evidence [ none ↦ skip_note | some e ↦ push_str given (push_str " " skip_note) ]
    else given

-- One round of the loop over the acceptance criteria.
abbrev pub pass_criterion : String → Bool → AcceptanceCriterion → AcceptanceCriterion
pass_criterion text given ac =
    if not (str_eq ac.status "passed")
    then (if is_empty ac.evidence
        then record ac { status = "passed"; evidence = text }
        else record ac { status = "passed" })
    else if given
    then record ac { evidence = text }
    else ac

abbrev pub is_given : Option String → Bool
is_given none = false
is_given (some e) = true

abbrev pub with_executor : Option String → MilestoneFile → MilestoneFile
with_executor none m = m
with_executor (some exec) m =
    if is_empty exec then m else record m { milestone = record m.milestone { executed_by = exec } }

-- The annotation of the current block, or else the one that the evidence carries.
abbrev pub annotation_to_keep : String → String → Option String
annotation_to_keep prior_block_reason evidence =
    if not (is_empty prior_block_reason)
    then some (block_annotation prior_block_reason)
    else extract_block_cleared_annotation evidence

abbrev pub join_annotation : Option String → String → String
join_annotation none base = base
join_annotation (some annotation) base =
    if is_empty base then annotation else push_str annotation (push_str " " base)

abbrev pub or_default : Option String → String
or_default none = ""
or_default (some s) = s

-- The new `verification.evidence`.
unfoldable pub new_evidence : String → Bool → String → String → Result Error String
new_evidence text given prior_block_reason old =
    let kept = annotation_to_keep prior_block_reason old in
    if given
    then elim (strip_block_cleared_annotation text) [
      | none ↦ err slice_panicked
      | some base ↦ ok (join_annotation kept base)
    ]
    else if is_empty old
    then ok (or_default kept)
    else ok old

abbrev pub clear_block_reason : String → MilestoneFile → MilestoneFile
clear_block_reason prior m =
    if not (is_empty prior)
    then record m { milestone = record m.milestone { block_reason = ""; blocked_by = "" } }
    else m

-- The milestone after the loop over its acceptance criteria.
abbrev pub with_criteria : MilestoneFile → Option String → Bool → MilestoneFile
with_criteria m evidence skip_review = record m {
  acceptance_criteria =
      map (pass_criterion (evidence_text m evidence skip_review) (is_given evidence))
        m.acceptance_criteria;
}

-- The milestone before the transition.
abbrev pub prepared : MilestoneFile → Option String → Option String → Bool → MilestoneFile
prepared m evidence executor skip_review =
    with_executor executor (with_criteria m evidence skip_review)

-- What is stored of the milestone `f` that the transition returned.
abbrev pub finished : String → MilestoneFile → String → MilestoneFile → MilestoneFile
finished today m text f = clear_block_reason m.milestone.block_reason (record f {
  milestone = record f.milestone { updated = today };
  verification = record f.verification { date = today; evidence = text };
})

-- `merge_delta` is the effect of crates/mp/src/delta.rs on the domain specs: the text of its failure,
-- or success. It is called for delta milestones only.
module _ (merge_delta : MilestoneFile → Result String (Unit {0})) where
  abbrev pub merge_if_delta : MilestoneFile → Result Error (Unit {0})
  merge_if_delta m =
      if is_delta_kind m
      then elim (merge_delta m) [ ok u ↦ ok tt | err e ↦ err (delta_merge_failed e) ]
      else ok tt

  unfoldable pub complete_milestone :
      String
      → String
      → List ReviewRow
      → MilestoneFile
      → Option String
      → Option String
      → Bool
      → Written
  complete_milestone now today reviews m evidence executor skip_review = do
    bail_if (has_open_self_findings m) (open_self_findings (open_self_findings_count m))
    merge_if_delta (with_criteria m evidence skip_review)
    r ←
        apply_transition now (prepared m evidence executor skip_review)
          (if promote_to_complete m reviews skip_review then complete_event else finish_execution)
    text ←
        new_evidence (evidence_text m evidence skip_review) (is_given evidence)
          m.milestone.block_reason r.0.verification.evidence
    let f = finished today m text r.0
    ok (f, record_lifecycle_transition f.milestone.id m.milestone.lifecycle f.milestone.lifecycle)
