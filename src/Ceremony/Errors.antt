-- ===== src/Ceremony/Errors.antt =====
-- The failures of the lifecycle writers in crates/mp/src/milestone, one constructor for each message.
use master_plan.Prelude.{ℕ, String, List}
use master_plan.Lifecycle.Phase.{ParseError}
use master_plan.Lifecycle.Machine.{TransitionError}
use master_plan.Validate.{ValidationIssue}

pub data Error : Type 0 where
  parse_error : ParseError → Error
  transition_error : TransitionError → Error
  cannot_regress_to_draft : String → Error
  cannot_jump_to_verified : Error
  invalid_spec_status : String → Error
  invalid_execution_status : String → Error
  terminal_milestone : String → Error
  gate_errors : List ValidationIssue → Error
  not_blocked : Error
  reopen_requires_done : Error
  open_self_findings : ℕ → Error
  delta_merge_failed : String → Error
  slice_panicked : Error
  criterion_not_found : String → Error
