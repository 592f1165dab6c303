-- ===== src/Lifecycle/Machine.antt =====
-- The pure transition table `transition` of crates/mp-model/src/milestone.rs.
pub mod Inversion
pub mod Runs
pub mod Overlays
pub mod Remediation
pub mod Phases
use master_plan.Prelude.{
  String, Bool, true, false, not, ◌&&◌, Option, none, some, List, [], ◌∷◌, any, if◌then◌else◌,
  Result, ok, err, ◌>>=◌, ◌>>◌, bail_if,
}
use master_plan.Lifecycle.Phase.{
  MilestonePhase, draft, groomed, approved, in_progress, executed, complete, remediation, as_str,
}
use master_plan.Lifecycle.Legacy.{
  lifecycle_to_legacy_spec_status, lifecycle_to_legacy_execution_status,
}
use master_plan.Lifecycle.Meta.{MilestoneOverlays, MilestoneState}

pub data MilestoneEvent : Type 0 where
  sync groom approve start finish_execution complete_event reopen block unblock defer resume
        cancel :
      MilestoneEvent
  set_needs_regrooming : Bool → MilestoneEvent
  enter_remediation exit_remediation : MilestoneEvent
  migrate_raw : MilestonePhase → MilestoneEvent

pub record TransitionContext : Type 0 where
  pub gates_satisfied : Bool

abbrev pub default_context : TransitionContext
default_context = record { gates_satisfied = true }

pub record TransitionEffects : Type 0 where
  pub phase : MilestonePhase
  pub overlays : MilestoneOverlays
  pub remediation_pre_state : Option MilestonePhase
  pub spec_status : String
  pub execution_status : String
  pub phase_changed : Bool

-- One constructor for each message of `transition`.
pub data TransitionError : Type 0 where
  gates_not_satisfied : MilestoneEvent → TransitionError
  cancelled_is_terminal : TransitionError
  exit_without_pre_state : TransitionError
  invalid_pre_state : MilestonePhase → TransitionError
  invalid_transition : MilestonePhase → MilestoneEvent → TransitionError
  blocked_and_deferred : TransitionError

abbrev pub phase_eq : MilestonePhase → MilestonePhase → Bool
phase_eq draft draft = true
phase_eq groomed groomed = true
phase_eq approved approved = true
phase_eq in_progress in_progress = true
phase_eq executed executed = true
phase_eq complete complete = true
phase_eq remediation remediation = true
phase_eq _ _ = false

-- `matches!(phase, A | B | …)`
abbrev pub matches : List MilestonePhase → MilestonePhase → Bool
matches ps p = any (phase_eq p) ps

-- `matches!(event, MigrateRaw(_) | Unblock)`
abbrev pub allowed_when_cancelled : MilestoneEvent → Bool
allowed_when_cancelled (migrate_raw p) = true
allowed_when_cancelled unblock = true
allowed_when_cancelled _ = false

abbrev pub clear_blocked_deferred : MilestoneOverlays → MilestoneOverlays
clear_blocked_deferred o = record o { blocked = false; deferred = false }

abbrev restore_pre_state :
    MilestoneState → Option MilestonePhase → Result TransitionError MilestoneState
restore_pre_state s none = err exit_without_pre_state
restore_pre_state s (some p) =
    if matches (executed ∷ complete ∷ []) p
    then ok (record s { phase = p; remediation_pre_state = none })
    else err (invalid_pre_state p)

-- The `match event`; the last arm, `_ =>`, is the `else` of each guard.
unfoldable pub apply_event : MilestoneState → MilestoneEvent → Result TransitionError MilestoneState
apply_event s sync = ok s
apply_event s groom =
    if matches (draft ∷ groomed ∷ []) s.phase
    then ok (record s { phase = groomed })
    else err (invalid_transition s.phase groom)
apply_event s approve =
    if matches (draft ∷ groomed ∷ approved ∷ []) s.phase
    then ok (record s { phase = approved })
    else err (invalid_transition s.phase approve)
apply_event s start =
    if matches (approved ∷ in_progress ∷ []) s.phase
    then ok (record s { phase = in_progress; overlays = clear_blocked_deferred s.overlays })
    else err (invalid_transition s.phase start)
apply_event s finish_execution =
    if matches (approved ∷ in_progress ∷ executed ∷ []) s.phase
    then ok (record s { phase = executed })
    else err (invalid_transition s.phase finish_execution)
apply_event s complete_event =
    if matches (approved ∷ in_progress ∷ executed ∷ complete ∷ []) s.phase
    then ok (record s { phase = complete; overlays = clear_blocked_deferred s.overlays })
    else err (invalid_transition s.phase complete_event)
apply_event s reopen =
    if matches (executed ∷ complete ∷ []) s.phase
    then ok (record s {
      phase = in_progress;
      overlays = clear_blocked_deferred s.overlays;
      remediation_pre_state = none;
    })
    else err (invalid_transition s.phase reopen)
apply_event s block =
    if not (phase_eq s.phase complete)
    then ok (record s { overlays = record s.overlays { blocked = true; deferred = false } })
    else err (invalid_transition s.phase block)
apply_event s unblock =
    if s.overlays.blocked
    then ok (record s { overlays = record s.overlays { blocked = false } })
    else err (invalid_transition s.phase unblock)
apply_event s defer =
    if not (phase_eq s.phase complete)
    then ok (record s { overlays = record s.overlays { deferred = true; blocked = false } })
    else err (invalid_transition s.phase defer)
apply_event s resume =
    if s.overlays.deferred
    then ok (record s { overlays = record s.overlays { deferred = false } })
    else err (invalid_transition s.phase resume)
apply_event s cancel =
    if not (phase_eq s.phase complete)
    then ok (record s {
      overlays = record s.overlays { cancelled = true; blocked = false; deferred = false };
    })
    else err (invalid_transition s.phase cancel)
apply_event s (set_needs_regrooming value) =
    ok (record s { overlays = record s.overlays { needs_regrooming = value } })
apply_event s enter_remediation =
    if matches (executed ∷ complete ∷ []) s.phase
    then ok (record s { remediation_pre_state = some s.phase; phase = remediation })
    else err (invalid_transition s.phase enter_remediation)
apply_event s exit_remediation =
    if phase_eq s.phase remediation
    then restore_pre_state s s.remediation_pre_state
    else err (invalid_transition s.phase exit_remediation)
apply_event s (migrate_raw target) = ok (record s { phase = target; remediation_pre_state = none })

-- The `execution_status` of the effects: an overlay wins over the phase.
abbrev pub project_execution_status : MilestonePhase → MilestoneOverlays → String
project_execution_status p o =
    if o.cancelled
    then "cancelled"
    else if o.blocked
    then "blocked"
    else if o.deferred
    then "deferred"
    else lifecycle_to_legacy_execution_status (as_str p)

abbrev pub effects_of : MilestonePhase → MilestoneState → TransitionEffects
effects_of before s = record {
  phase = s.phase;
  overlays = s.overlays;
  remediation_pre_state = s.remediation_pre_state;
  spec_status = lifecycle_to_legacy_spec_status (as_str s.phase);
  execution_status = project_execution_status s.phase s.overlays;
  phase_changed = not (phase_eq s.phase before);
}

unfoldable pub transition :
    MilestoneState → MilestoneEvent → TransitionContext → Result TransitionError TransitionEffects
unfolding apply_event
transition current event context = do
  bail_if (not context.gates_satisfied) (gates_not_satisfied event)
  bail_if (current.overlays.cancelled && not (allowed_when_cancelled event)) cancelled_is_terminal
  next ← apply_event current event
  bail_if (next.overlays.blocked && next.overlays.deferred) blocked_and_deferred
  ok (effects_of current.phase next)
