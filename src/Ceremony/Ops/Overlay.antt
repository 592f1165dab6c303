-- ===== src/Ceremony/Ops/Overlay.antt =====
-- Blocking and unblocking, crates/mp/src/milestone/complete.rs.
use master_plan.Prelude.{String, ◌≡◌, refl, ◌∙◌, true, false, Option, [], ◌∷◌, arith, ok}
use master_plan.Lifecycle.Phase.{
  MilestonePhase, draft, groomed, approved, in_progress, executed, complete, remediation, as_str,
}
use master_plan.Lifecycle.Legacy.{
  lifecycle_to_legacy_spec_status, lifecycle_to_legacy_execution_status,
}
use master_plan.Lifecycle.Meta.{MilestoneMeta, MilestoneState, from_meta, effective_lifecycle}
use master_plan.Lifecycle.Machine.{
  transition, default_context, block, unblock, phase_eq, effects_of,
}
use master_plan.Model.Milestone.{MilestoneFile}
use master_plan.Ceremony.Apply.{apply_transition, write_effects, phase_name}
use master_plan.Ceremony.Apply.Faithful.{from_meta-write_effects}
use master_plan.Ceremony.Ops.{
  block_milestone, unblock_milestone, or_user, milestone_blocked, milestone_unblocked,
}

abbrev blocked_state : MilestoneState → MilestoneState
blocked_state s = record s { overlays = record s.overlays { blocked = true; deferred = false } }

abbrev unblocked_state : MilestoneState → MilestoneState
unblocked_state s = record s { overlays = record s.overlays { blocked = false; deferred = false } }

transition-block :
    (s : MilestoneState)
    → s.overlays.cancelled ≡ false
    → phase_eq s.phase complete ≡ false
    → transition s block default_context ≡ ok (effects_of s.phase (blocked_state s))
unfolding transition
transition-block s c p = rw (c, p)

transition-unblock :
    (s : MilestoneState)
    → s.overlays.cancelled ≡ false
    → transition (blocked_state s) unblock default_context
      ≡ ok (effects_of s.phase (unblocked_state s))
unfolding transition
transition-unblock s c = rw c

-- The fields of a block are not read by `from_meta`.
from_meta-block_fields :
    (m : MilestoneMeta) (reason at by : String)
    → from_meta (record m { block_reason = reason; blocked_at = at; blocked_by = by }) ≡ from_meta m
unfolding from_meta effective_lifecycle
from_meta-block_fields m reason at by = refl

abbrev blocked_meta :
    String → String → Option String → MilestoneMeta → MilestoneState → MilestoneMeta
blocked_meta now reason by m s =
    record (write_effects now m (effects_of s.phase (blocked_state s))) {
      block_reason = reason;
      blocked_at = now;
      blocked_by = or_user by;
    }

read_blocked :
    (now reason : String) (by : Option String) (m : MilestoneMeta) (s : MilestoneState)
    → s.overlays.cancelled ≡ false
    → from_meta (blocked_meta now reason by m s) ≡ ok (blocked_state s)
read_blocked now reason by m s c =
    from_meta-block_fields (write_effects now m (effects_of s.phase (blocked_state s))) reason now
      (or_user by)
    ∙ from_meta-write_effects now m s.phase (blocked_state s) (ground arith)

-- The milestone after a block and an unblock: no block, no deferral, no block fields, and the two
-- legacy statuses of its phase.
abbrev pub unblocked : MilestoneFile → MilestoneState → MilestoneFile
unblocked m s = record m {
  milestone = record m.milestone {
    lifecycle = as_str s.phase;
    blocked = false;
    deferred = false;
    cancelled = s.overlays.cancelled;
    needs_regrooming = s.overlays.needs_regrooming;
    remediation_pre_state = phase_name s.remediation_pre_state;
    spec_status = lifecycle_to_legacy_spec_status (as_str s.phase);
    execution_status = lifecycle_to_legacy_execution_status (as_str s.phase);
    block_reason = "";
    blocked_at = "";
    blocked_by = "";
  };
}

phase_eq_refl : (p : MilestonePhase) → phase_eq p p ≡ true
phase_eq_refl draft = refl
phase_eq_refl groomed = refl
phase_eq_refl approved = refl
phase_eq_refl in_progress = refl
phase_eq_refl executed = refl
phase_eq_refl complete = refl
phase_eq_refl remediation = refl

-- A milestone that is neither complete nor cancelled can be blocked, and the block can be lifted
-- again. The phase comes through unchanged and the block's fields are cleared, while a deferral that
-- the milestone had before the block is lost.
pub block_milestone-unblock_milestone :
    (now later : String) (m : MilestoneFile) (s : MilestoneState) (reason : String)
    (by : Option String)
    → from_meta m.milestone ≡ ok s
    → s.overlays.cancelled ≡ false
    → phase_eq s.phase complete ≡ false
    → (m' : MilestoneFile) × (block_milestone now m reason by
        ≡ ok (m', milestone_blocked m.milestone.id reason ∷ []))
      × (m'.milestone.blocked ≡ true)
      × (m'.milestone.block_reason ≡ reason)
      × (unblock_milestone later m' ≡ ok (unblocked m s, milestone_unblocked m.milestone.id ∷ []))
unfolding block_milestone unblock_milestone apply_transition
block_milestone-unblock_milestone now later m s reason by read c p = (
  record m { milestone = blocked_meta now reason by m.milestone s },
  rw (read, transition-block s c p),
  refl,
  refl,
  rw (read_blocked now reason by m.milestone s c, transition-unblock s c, phase_eq_refl s.phase, c),
)
