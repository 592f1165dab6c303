-- ===== src/Lifecycle/Machine/Runs.antt =====
-- Runs of the transition table of crates/mp-model/src/milestone.rs, as a step relation with its
-- trace of events.
use master_plan.Prelude.{◌≡◌, Bool, true, false, List, [], ◌∷◌, ok}
use master_plan.Lifecycle.Meta.{MilestoneState}
use master_plan.Lifecycle.Machine.{
  MilestoneEvent, migrate_raw, TransitionEffects, TransitionContext, transition,
}

-- What a caller stores after an accepted event.
abbrev pub state_of : TransitionEffects → MilestoneState
state_of fx = record {
  phase = fx.phase;
  overlays = fx.overlays;
  remediation_pre_state = fx.remediation_pre_state;
}

-- `Run s es t`: the events `es` are accepted one after the other, and lead from `s` to `t`.
pub data Run : MilestoneState → List MilestoneEvent → MilestoneState → Type 0 where
  stop : {s : MilestoneState} → Run s [] s
  step :
      {s t : MilestoneState} {es : List MilestoneEvent} (e : MilestoneEvent)
      (ctx : TransitionContext) (fx : TransitionEffects)
      → transition s e ctx ≡ ok fx
      → Run (state_of fx) es t
      → Run s (e ∷ es) t

-- `MigrateRaw` is for migration code only.
abbrev pub is_migration : MilestoneEvent → Bool
is_migration (migrate_raw p) = true
is_migration _ = false
