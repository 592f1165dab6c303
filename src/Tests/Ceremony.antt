-- ===== src/Tests/Ceremony.antt =====
-- The ceremony writers at concrete milestones.
use master_plan.Prelude.{
  ℕ, zero, suc, ◌+◌, ◌-◌, ◌*◌, ◌/◌, ◌%◌, ◌≤◌, ◌<◌, max, String, ◌≡◌, refl, sym, ap, subst, ◌∙◌, ◌≢◌,
  ◌↔◌, ◌⊎◌, inl, inr, Bool, true, false, not, ◌&&◌, ◌||◌, Option, none, some, List, [], ◌∷◌, ◌++◌,
  map, arith, str_eq, eq_iff, ltb, leb, ◌==◌, if◌then◌else◌, Bool-cases, Option-cases, and_true,
  or_eq_false, or_false, length, any, all, find, filter, update_first, remove_first, contains_str,
  distinct, filter-eq-nil, not-true, and_eq_true, str_eq_comm, Result, ok, err, ◌>>=◌, ◌>>◌,
  bail_if, is_nil, nil_of, append-eq-nil, is_nil-append, not-false, bind-eq-ok, bail_if-eq-ok,
  ok-injective, some-injective, distinct-snoc,
}
use master_plan.Prelude.Text.{push_str, is_empty, trim_start}
use master_plan.Lifecycle.Phase.{draft, approved, in_progress, complete, as_str, unknown_lifecycle}
use master_plan.Lifecycle.Meta.{from_meta, effective_lifecycle}
use master_plan.Lifecycle.Machine.{
  transition, default_context, start, cancel, complete_event, TransitionEffects, effects_of,
  MilestoneEvent,
}
use master_plan.Lifecycle.Machine.Runs.{state_of}
use master_plan.Model.Milestone.{MilestoneFile}
use master_plan.Status.{spec_status_allows_steps, effective_spec_status, is_terminal}
use master_plan.Validate.{execution_statuses, LoadedPlan}
use master_plan.Validate.Gates.{dep_done}
use master_plan.Ceremony.Errors.{parse_error}
use master_plan.Ceremony.Apply.{apply_transition}
use master_plan.Ceremony.Apply.Faithful.{apply_transition-from_meta, cancel_draft_unreadable}
use master_plan.Ceremony.Evidence.{extract_block_cleared_annotation, strip_block_cleared_annotation}
use master_plan.Ceremony.Ops.{
  set_execution_status, JournalEntry, block_milestone, unblock_milestone, milestone_blocked,
  milestone_unblocked,
}
use master_plan.Ceremony.Ops.Start.{set_execution_status-start}
use master_plan.Ceremony.Ops.Terminal.{set_execution_status-terminal}
use master_plan.Ceremony.Ops.Overlay.{block_milestone-unblock_milestone, unblocked}
use master_plan.Ceremony.Complete.{complete_milestone, new_evidence}
use master_plan.Ceremony.Complete.Gate.{complete_milestone-gate}
use master_plan.Model.Findings.{has_open_self_findings}
use master_plan.Ceremony.Store.{with_milestone_mut_unlocked, stamp}
use master_plan.Ceremony.Store.Noop.{noop-writes}
use master_plan.Model.Milestone.{AcceptanceCriterion}
use master_plan.Tests.Samples.{clean, sample, in_lifecycle, value_of}

abbrev merge_nothing : MilestoneFile → Result String (Unit {0})
merge_nothing m = ok tt

abbrev completed_sample : MilestoneFile × List JournalEntry
completed_sample =
    value_of (complete_milestone merge_nothing "t" "d" [] sample (some "all green") none false)
      (sample, [])

complete_milestone-gate_example :
    (has_open_self_findings sample ≡ false)
    × (completed_sample.0.milestone.lifecycle ≡ "executed")
    × (completed_sample.0.milestone.blocked ≡ false)
    × (true ≡ true)
unfolding complete_milestone has_open_self_findings apply_transition from_meta
    master_plan.Lifecycle.Phase.from_lifecycle effective_lifecycle transition new_evidence
    strip_block_cleared_annotation extract_block_cleared_annotation
    master_plan.Prelude.Text.from_match master_plan.Prelude.Text.strip_prefix
complete_milestone-gate_example =
    complete_milestone-gate merge_nothing "t" "d" [] sample completed_sample.0 (some "all green")
      none false completed_sample.1 refl

abbrev fx_start : TransitionEffects
fx_start =
    value_of (transition (clean approved) start default_context) (effects_of draft (clean draft))

abbrev started : MilestoneFile
started = (value_of (apply_transition "t" sample start) (sample, fx_start)).0

apply_transition-from_meta_example : from_meta started.milestone ≡ ok (state_of fx_start)
unfolding apply_transition from_meta master_plan.Lifecycle.Phase.from_lifecycle effective_lifecycle
    transition
apply_transition-from_meta_example =
    apply_transition-from_meta "t" sample started start fx_start refl refl

cancel_draft_unreadable_example :
    (m' : MilestoneFile) × (fx : TransitionEffects) × (apply_transition "t"
        (in_lifecycle "draft")
        cancel
      ≡ ok (m', fx))
    × ((later : String) (e : MilestoneEvent)
        → apply_transition later m' e ≡ err (parse_error (unknown_lifecycle "cancelled")))
unfolding from_meta master_plan.Lifecycle.Phase.from_lifecycle effective_lifecycle
cancel_draft_unreadable_example =
    cancel_draft_unreadable "t" (in_lifecycle "draft") (clean draft) refl refl refl

abbrev dependent : MilestoneFile
dependent = record sample {
  milestone = record sample.milestone { id = "M002"; depends_on = "M001" ∷ [] };
}

abbrev small_plan : LoadedPlan
small_plan = ok (in_lifecycle "complete" ∷ dependent ∷ [])

abbrev begun : MilestoneFile × List JournalEntry
begun = value_of (set_execution_status "t" small_plan dependent "in-progress") (sample, [])

set_execution_status-start_example :
    (milestones : List MilestoneFile) × (small_plan ≡ ok milestones)
    × (all (dep_done (execution_statuses milestones)) ("M001" ∷ []) ≡ true)
    × (spec_status_allows_steps (effective_spec_status dependent) ≡ true)
    × (is_terminal dependent ≡ false)
    × (begun.0.milestone.lifecycle ≡ "in-progress")
    × (begun.0.milestone.blocked || begun.0.milestone.deferred ≡ false)
unfolding set_execution_status is_terminal effective_lifecycle
    master_plan.Ceremony.Ops.collect_set_execution_status_gates
    master_plan.Validate.validate_milestone_start_execution effective_spec_status
    master_plan.Paths.normalize_milestone_id master_plan.Prelude.Text.split_once
    master_plan.Prelude.Text.skip_chars master_plan.Prelude.Text.trim
    master_plan.Prelude.Text.trim_end trim_start master_plan.Paths.normalize_top_level_milestone_id
    master_plan.Prelude.Text.Decimal.show_02 master_plan.Prelude.Text.Decimal.parse_u32
    master_plan.Prelude.Text.Decimal.show master_plan.Status.effective_execution_status
    apply_transition master_plan.Ceremony.Ops.event_for_execution_status
    master_plan.Ceremony.Ops.record_lifecycle_transition master_plan.Lifecycle.Machine.apply_event
    transition from_meta master_plan.Lifecycle.Phase.from_lifecycle push_str
    master_plan.Validate.check_gate_g1 master_plan.Validate.check_gate_g8
set_execution_status-start_example =
    set_execution_status-start "t" small_plan dependent begun.0 begun.1 refl

abbrev redone : MilestoneFile × List JournalEntry
redone =
    value_of (set_execution_status "t" small_plan (in_lifecycle "complete") "done") (sample, [])

set_execution_status-terminal_example :
    (◌≡◌ {A = String} "done" "done")
    × (redone.0.milestone.lifecycle ≡ "complete")
    × ((in_lifecycle "complete").milestone.cancelled ≡ false)
unfolding is_terminal effective_lifecycle set_execution_status
    master_plan.Ceremony.Ops.collect_set_execution_status_gates effective_spec_status
    apply_transition from_meta master_plan.Lifecycle.Phase.from_lifecycle transition
    master_plan.Ceremony.Ops.event_for_execution_status
set_execution_status-terminal_example =
    set_execution_status-terminal "t" small_plan (in_lifecycle "complete") redone.0 "done" redone.1
      refl refl

block_milestone-unblock_milestone_example :
    (m' : MilestoneFile) × (block_milestone "t" sample "waiting" none
      ≡ ok (m', milestone_blocked "M001" "waiting" ∷ []))
    × (m'.milestone.blocked ≡ true)
    × (m'.milestone.block_reason ≡ "waiting")
    × (unblock_milestone "u" m'
        ≡ ok (unblocked sample (clean approved), milestone_unblocked "M001" ∷ []))
unfolding from_meta master_plan.Lifecycle.Phase.from_lifecycle effective_lifecycle
block_milestone-unblock_milestone_example =
    block_milestone-unblock_milestone "t" "u" sample (clean approved) "waiting" none refl refl refl

abbrev show_updated : MilestoneFile → String
show_updated m = m.milestone.updated

abbrev dated : MilestoneFile
dated = record sample { milestone = record sample.milestone { updated = "2026-01-01" } }

noop-writes_example :
    with_milestone_mut_unlocked show_updated "2026-01-02"
      (some (show_updated dated))
      dated
      (λ n. ok (n, true))
    ≡ ok (true, some (stamp "2026-01-02" dated))
noop-writes_example = noop-writes show_updated (λ m n e. e) "2026-01-02" dated true

abbrev with_criterion : MilestoneFile
with_criterion = record sample {
  acceptance_criteria =
      record {
        id = "AC-01";
        description = "it works";
        verification = "";
        status = "pending";
        evidence = "";
      }
      ∷ [];
}

abbrev criterion : String → String → AcceptanceCriterion
criterion status evidence = record {
  id = "AC-01";
  description = "it works";
  verification = "";
  status = status;
  evidence = evidence;
}
