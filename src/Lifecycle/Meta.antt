-- ===== src/Lifecycle/Meta.antt =====
-- `MilestoneMeta`, the overlays and `MilestoneState::from_meta` of
-- crates/mp-model/src/milestone.rs.
pub mod Reading
use master_plan.Prelude.{
  String, Bool, not, ◌&&◌, ◌||◌, Option, none, some, List, leb, str_eq, if◌then◌else◌, Result, ok,
  ◌>>=◌,
}
use master_plan.Lifecycle.Phase.{MilestonePhase, ParseError, from_lifecycle}
use master_plan.Lifecycle.Legacy.{
  legacy_execution_status_to_lifecycle, legacy_spec_status_to_lifecycle, lifecycle_order,
}
use master_plan.Prelude.Text.{is_empty}

pub record MilestoneMeta : Type 0 where
  pub id : String
  pub title : String
  pub slug : String
  pub lifecycle : String
  pub spec_status : String
  pub execution_status : String
  pub blocked : Bool
  pub needs_regrooming : Bool
  pub cancelled : Bool
  pub deferred : Bool
  pub deferred_reason : String
  pub depends_on : List String
  pub effort : String
  pub risk : String
  pub change_kind : String
  pub priority : String
  pub created : String
  pub updated : String
  pub blocked_at : String
  pub block_reason : String
  pub blocked_by : String
  pub target_version : String
  pub executed_by : String
  pub remediation_pre_state : Option String
  pub lifecycle_at : Option String

unfoldable pub effective_lifecycle : MilestoneMeta → String
effective_lifecycle meta =
    if not (is_empty meta.lifecycle) && not (str_eq meta.lifecycle "draft")
    then meta.lifecycle
    else if not (is_empty meta.execution_status) || not (is_empty meta.spec_status)
    then (if str_eq meta.execution_status "in-progress"
        then "in-progress"
        else (let from_exec = legacy_execution_status_to_lifecycle meta.execution_status in
            let from_spec = legacy_spec_status_to_lifecycle meta.spec_status in
            if leb (lifecycle_order from_spec) (lifecycle_order from_exec)
            then from_exec
            else from_spec))
    else meta.lifecycle

pub record MilestoneOverlays : Type 0 where
  pub blocked : Bool
  pub deferred : Bool
  pub cancelled : Bool
  pub needs_regrooming : Bool

pub record MilestoneState : Type 0 where
  pub phase : MilestonePhase
  pub overlays : MilestoneOverlays
  pub remediation_pre_state : Option MilestonePhase

-- `as_deref().map(from_lifecycle).transpose()?`
abbrev pub parse_pre_state : Option String → Result ParseError (Option MilestonePhase)
parse_pre_state none = ok none
parse_pre_state (some s) = do p ← from_lifecycle s; ok (some p)

unfoldable pub from_meta : MilestoneMeta → Result ParseError MilestoneState
from_meta meta = do
  let lifecycle = effective_lifecycle meta
  phase ← from_lifecycle lifecycle
  pre ← parse_pre_state meta.remediation_pre_state
  ok (record {
    phase = phase;
    overlays = record {
      blocked = meta.blocked;
      deferred = meta.deferred;
      cancelled = meta.cancelled;
      needs_regrooming = meta.needs_regrooming;
    };
    remediation_pre_state = pre;
  })
