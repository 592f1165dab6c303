-- ===== src/Lifecycle/Legacy/RoundTrip.antt =====
-- The two legacy columns as an encoding of the lifecycle, crates/mp-model/src/milestone.rs.
use master_plan.Prelude.{◌≡◌, refl, if◌then◌else◌}
use master_plan.Lifecycle.Phase.{
  MilestonePhase, draft, groomed, approved, in_progress, executed, complete, remediation, as_str,
}
use master_plan.Lifecycle.Machine.{phase_eq}
use master_plan.Lifecycle.Legacy.{
  lifecycle_to_legacy_spec_status, lifecycle_to_legacy_execution_status,
  effective_lifecycle_from_legacy,
}

-- The lifecycle derived from the two legacy statuses of a phase is that phase again, except that
-- remediation comes back as `in-progress`.
pub effective_lifecycle_from_legacy-round_trip :
    (p : MilestonePhase)
    → effective_lifecycle_from_legacy
        (lifecycle_to_legacy_spec_status (as_str p))
        (lifecycle_to_legacy_execution_status (as_str p))
      ≡ (if phase_eq p remediation then "in-progress" else as_str p)
effective_lifecycle_from_legacy-round_trip draft = refl
effective_lifecycle_from_legacy-round_trip groomed = refl
effective_lifecycle_from_legacy-round_trip approved = refl
effective_lifecycle_from_legacy-round_trip in_progress = refl
effective_lifecycle_from_legacy-round_trip executed = refl
effective_lifecycle_from_legacy-round_trip complete = refl
effective_lifecycle_from_legacy-round_trip remediation = refl
