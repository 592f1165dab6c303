-- ===== src/Lifecycle/Machine/Phases.antt =====
-- The order of the phases under the transition table of crates/mp-model/src/milestone.rs.
use master_plan.Prelude.{
  ◌≡◌, ◌≢◌, Bool, true, false, ◌||◌, List, [], ◌∷◌, any, arith, ok, some, or_eq_false, or_false,
  Bool-cases, inl, inr, ◌⊎◌,
}
use master_plan.Lifecycle.Phase.{MilestonePhase, draft, groomed, in_progress, complete, remediation}
use master_plan.Lifecycle.Meta.{MilestoneState}
use master_plan.Lifecycle.Machine.{
  MilestoneEvent, TransitionContext, TransitionEffects, transition, approve, reopen,
  enter_remediation, migrate_raw, matches,
}
use master_plan.Lifecycle.Machine.Runs.{Run, stop, step, is_migration}

abbrev pub is_approve : MilestoneEvent → Bool
is_approve approve = true
is_approve _ = false

abbrev pub is_planning : MilestonePhase → Bool
is_planning p = matches (draft ∷ groomed ∷ []) p

planning_step :
    (s : MilestoneState) (e : MilestoneEvent) (ctx : TransitionContext) (fx : TransitionEffects)
    → transition s e ctx ≡ ok fx
    → is_planning s.phase ≡ true
    → is_migration e || is_approve e ≡ false
    → is_planning fx.phase ≡ true
unfolding transition
planning_step s e ctx fx r h m = ground arith

-- A milestone that starts in `draft` or `groomed` leaves those two phases only in a run with an
-- approve event, migration aside.
pub Run-needs_approve :
    {s t : MilestoneState} (es : List MilestoneEvent)
    → Run s es t
    → is_planning s.phase ≡ true
    → is_planning t.phase ≡ false
    → any is_migration es ≡ false
    → any is_approve es ≡ true
Run-needs_approve es stop h k m = cc
Run-needs_approve {s} es (step {es = rest} e ctx fx r run) h k m =
    elim (Bool-cases (is_approve e)) [
      | inl a ↦ ground arith
      | inr b ↦ rw b (
          Run-needs_approve rest run
            (planning_step s e ctx fx r h (or_false (or_eq_false _ _ m).0 b)) k
            (or_eq_false (is_migration e) _ m).1)
    ]

-- The only events that take a complete milestone to another phase are reopen, entering remediation
-- and migration; reopening leads to `in_progress` and entering remediation captures `complete`.
pub complete_leaves :
    (s : MilestoneState) (e : MilestoneEvent) (ctx : TransitionContext) (fx : TransitionEffects)
    → s.phase ≡ complete
    → transition s e ctx ≡ ok fx
    → fx.phase ≢ complete
    → ((e ≡ reopen) × (fx.phase ≡ in_progress))
      ⊎ ((e ≡ enter_remediation)
          × (fx.phase ≡ remediation)
          × (fx.remediation_pre_state ≡ some complete))
      ⊎ (e ≡ migrate_raw fx.phase)
unfolding transition
complete_leaves s e ctx fx c r n = ground arith
