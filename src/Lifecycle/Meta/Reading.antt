-- ===== src/Lifecycle/Meta/Reading.antt =====
-- What `MilestoneState::from_meta` of crates/mp-model/src/milestone.rs reads.
use master_plan.Prelude.{◌≡◌, sym, ap, subst, ok, bind-eq-ok, ok-injective}
use master_plan.Lifecycle.Meta.{
  MilestoneMeta, MilestoneState, from_meta, effective_lifecycle, parse_pre_state,
}
use master_plan.Lifecycle.Phase.{from_lifecycle, MilestonePhase}

-- The phase is parsed from the effective lifecycle, and the overlays are the stored ones.
pub from_meta-eq-ok :
    (m : MilestoneMeta) (s : MilestoneState)
    → from_meta m ≡ ok s
    → (from_lifecycle (effective_lifecycle m) ≡ ok s.phase)
      × (s.overlays.blocked ≡ m.blocked)
      × (s.overlays.deferred ≡ m.deferred)
      × (s.overlays.cancelled ≡ m.cancelled)
unfolding from_meta
from_meta-eq-ok m s r =
    let (phase, parsed, r1) = bind-eq-ok (from_lifecycle (effective_lifecycle m)) _ r in
    let (pre, _, r2) = bind-eq-ok (parse_pre_state m.remediation_pre_state) _ r1 in
    let same = sym (ok-injective r2) in
    (
      subst (λ (p : MilestonePhase). from_lifecycle (effective_lifecycle m) ≡ ok p)
          (sym (ap (λ (t : MilestoneState). t.phase) same)) parsed,
      ap (λ (t : MilestoneState). t.overlays.blocked) same,
      ap (λ (t : MilestoneState). t.overlays.deferred) same,
      ap (λ (t : MilestoneState). t.overlays.cancelled) same,
    )
