-- ===== src/Tests/Samples.antt =====
-- Sample milestones, states and plans.
use master_plan.Prelude.{String, false, none, [], ◌∷◌, Result, ok, err}
use master_plan.Lifecycle.Phase.{MilestonePhase}
use master_plan.Lifecycle.Meta.{MilestoneMeta, MilestoneState}
use master_plan.Model.Milestone.{MilestoneFile, default_step, default_meta, default_milestone}

abbrev pub value_of {ℓ κ} : {E : Type κ} {A : Type ℓ} → Result E A → A → A
value_of (ok a) d = a
value_of (err e) d = d

abbrev pub clean : MilestonePhase → MilestoneState
clean p = record {
  phase = p;
  overlays = record {
    blocked = false;
    deferred = false;
    cancelled = false;
    needs_regrooming = false;
  };
  remediation_pre_state = none;
}

abbrev pub approved_meta : MilestoneMeta
approved_meta = record default_meta {
  id = "M001";
  lifecycle = "approved";
  spec_status = "ready";
  execution_status = "planned";
}

abbrev pub sample : MilestoneFile
sample = record default_milestone {
  milestone = approved_meta;
  work_packages = record { id = "WP1"; name = "core"; goal = ""; rollback = ""; steps = [] } ∷ [];
  steps =
      record default_step { id = "S1"; work_package = "WP1"; order = 1; status = "done" }
      ∷ record default_step {
        id = "S2";
        work_package = "WP1";
        order = 2;
        status = "pending";
        depends_on_steps = "S1" ∷ [];
      }
      ∷ [];
}

abbrev pub in_lifecycle : String → MilestoneFile
in_lifecycle l = record sample {
  milestone = record approved_meta { lifecycle = l; spec_status = ""; execution_status = "" };
}
