-- ===== src/Lifecycle/Machine/Inversion.antt =====
-- What an accepted transition of crates/mp-model/src/milestone.rs went through.
use master_plan.Prelude.{◌≡◌, sym, false, not, ◌&&◌, ok, bind-eq-ok, bail_if-eq-ok, ok-injective}
use master_plan.Lifecycle.Meta.{MilestoneState}
use master_plan.Lifecycle.Machine.{
  MilestoneEvent, TransitionContext, TransitionEffects, transition, apply_event, effects_of,
  allowed_when_cancelled,
}

pub transition-eq-ok :
    (s : MilestoneState) (e : MilestoneEvent) (ctx : TransitionContext) (fx : TransitionEffects)
    → transition s e ctx ≡ ok fx
    → (t : MilestoneState) × (apply_event s e ≡ ok t)
      × (fx ≡ effects_of s.phase t)
      × (s.overlays.cancelled && not (allowed_when_cancelled e) ≡ false)
      × (t.overlays.blocked && t.overlays.deferred ≡ false)
unfolding transition
transition-eq-ok s e ctx fx r =
    let (_, r1) = bail_if-eq-ok _ _ _ r in
    let (c, r2) = bail_if-eq-ok _ _ _ r1 in
    let (t, at, r3) = bind-eq-ok _ _ r2 in
    let (x, r4) = bail_if-eq-ok _ _ _ r3 in (t, at, sym (ok-injective r4), c, x)
