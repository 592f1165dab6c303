-- ===== src/Ceremony/Ops.antt =====
-- The lifecycle writers of crates/mp/src/milestone/complete.rs and `apply_spec_status` of
-- crates/mp/src/milestone/spec.rs. A writer takes the loaded milestone and returns the changed one
-- with the journal entries that follow the write; `now` and `today` are the clock's answers.
pub mod Terminal
pub mod Overlay
pub mod Start
use master_plan.Prelude.{
  String, not, ◌&&◌, ◌||◌, Option, none, some, List, [], ◌∷◌, ◌++◌, str_eq, if◌then◌else◌,
  contains_str, Result, ok, ◌>>=◌, ◌>>◌, bail_if, is_nil,
}
use master_plan.Lifecycle.Machine.{
  MilestoneEvent, sync, start, complete_event, block, unblock, defer, resume, cancel, reopen,
}
use master_plan.Model.Milestone.{MilestoneFile}
use master_plan.Status.{is_terminal, effective_spec_status, effective_execution_status}
use master_plan.Validate.{ValidationIssue, LoadedPlan, validate_milestone_start_execution, issue}
use master_plan.Ceremony.Errors.{
  Error, invalid_execution_status, terminal_milestone, gate_errors, not_blocked,
  reopen_requires_done, invalid_spec_status,
}
use master_plan.Ceremony.Apply.{apply_transition, event_for_spec_status}
use master_plan.Prelude.Text.{is_empty}

abbrev pub exec_statuses : List String
exec_statuses = "planned" ∷ "in-progress" ∷ "done" ∷ "blocked" ∷ "deferred" ∷ "cancelled" ∷ []

abbrev pub spec_statuses : List String
spec_statuses = "draft" ∷ "interview" ∷ "review" ∷ "ready" ∷ "implemented" ∷ "verified" ∷ []

-- The entries of the activity journal that the writers append.
pub data JournalEntry : Type 0 where
  milestone_created : String → JournalEntry
  lifecycle_changed : String → String → String → JournalEntry
  milestone_blocked : String → String → JournalEntry
  milestone_unblocked : String → JournalEntry

abbrev pub Written : Type 0
Written = Result Error (MilestoneFile × List JournalEntry)

-- `record_lifecycle_transition` of crates/mp/src/activity.rs
unfoldable pub record_lifecycle_transition : String → String → String → List JournalEntry
record_lifecycle_transition id old new =
    if str_eq old new
    then []
    else if is_empty old
    then milestone_created id ∷ []
    else lifecycle_changed id old new ∷ []

unfoldable pub collect_set_execution_status_gates :
    LoadedPlan → MilestoneFile → String → List ValidationIssue
collect_set_execution_status_gates plan m status =
    (if str_eq status "in-progress" then validate_milestone_start_execution plan m else [])
    ++ (if str_eq status "done" && not (str_eq (effective_spec_status m) "verified")
        then issue "verified-required"
            "execution_status done requires spec_status verified (use milestone complete)"
            (some m.milestone.id)
          ∷ []
        else [])

-- The last arm is `unreachable!`: the caller has checked the status.
unfoldable pub event_for_execution_status : MilestoneFile → String → MilestoneEvent
event_for_execution_status m status =
    if str_eq status "planned"
    then (if m.milestone.deferred then resume else sync)
    else if str_eq status "in-progress"
    then start
    else if str_eq status "done"
    then complete_event
    else if str_eq status "blocked"
    then block
    else if str_eq status "deferred"
    then defer
    else cancel

unfoldable pub set_execution_status : String → LoadedPlan → MilestoneFile → String → Written
set_execution_status now plan m status = do
  bail_if (not (contains_str exec_statuses status)) (invalid_execution_status status)
  bail_if (is_terminal m && not (str_eq status "done" || str_eq status "cancelled"))
      (terminal_milestone status)
  let gates = collect_set_execution_status_gates plan m status
  bail_if (not (is_nil gates)) (gate_errors gates)
  r ← apply_transition now m (event_for_execution_status m status)
  ok (
    r.0,
    record_lifecycle_transition r.0.milestone.id m.milestone.lifecycle r.0.milestone.lifecycle,
  )

unfoldable pub apply_spec_status : String → MilestoneFile → String → Written
apply_spec_status now m status = do
  bail_if (not (contains_str spec_statuses status)) (invalid_spec_status status)
  event ← event_for_spec_status m status
  r ← apply_transition now m event
  ok (
    r.0,
    record_lifecycle_transition r.0.milestone.id m.milestone.lifecycle r.0.milestone.lifecycle,
  )

abbrev pub or_user : Option String → String
or_user none = "user"
or_user (some by) = by

unfoldable pub block_milestone : String → MilestoneFile → String → Option String → Written
block_milestone now m reason by = do
  r ← apply_transition now m block
  let f = r.0
  let f' : MilestoneFile = record f {
    milestone = record f.milestone {
      block_reason = reason;
      blocked_at = now;
      blocked_by = or_user by;
    };
  }
  ok (f', milestone_blocked f'.milestone.id reason ∷ [])

unfoldable pub unblock_milestone : String → MilestoneFile → Written
unblock_milestone now m = do
  bail_if (not m.milestone.blocked) not_blocked
  r ← apply_transition now m unblock
  let f = r.0
  let f' : MilestoneFile = record f {
    milestone = record f.milestone { block_reason = ""; blocked_at = ""; blocked_by = "" };
  }
  ok (f', milestone_unblocked f'.milestone.id ∷ [])

unfoldable pub defer_milestone : String → MilestoneFile → String → Written
defer_milestone now m reason = do
  r ← apply_transition now m defer
  let f = r.0
  ok (record f { milestone = record f.milestone { deferred_reason = reason } }, [])

unfoldable pub reopen_milestone : String → MilestoneFile → Written
reopen_milestone now m = do
  bail_if (not (str_eq (effective_execution_status m) "done")) reopen_requires_done
  r ← apply_transition now m reopen
  ok (
    r.0,
    record_lifecycle_transition r.0.milestone.id m.milestone.lifecycle r.0.milestone.lifecycle,
  )
