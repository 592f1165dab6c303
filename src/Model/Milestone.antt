-- ===== src/Model/Milestone.antt =====
-- The records of a milestone file, in crates/mp-model/src/milestone.rs. A `u32` is a ℕ.
use master_plan.Prelude.{ℕ, String, Option, none, false, List, []}
use master_plan.Lifecycle.Meta.{MilestoneMeta}

pub record Intent : Type 0 where
  pub outcome : String

pub record Problem : Type 0 where
  pub description : String

pub record Scope : Type 0 where
  pub in_scope : List String
  pub out_of_scope : List String

pub record AcceptanceCriterion : Type 0 where
  pub id : String
  pub description : String
  pub verification : String
  pub status : String
  pub evidence : String

pub record DesignDecision : Type 0 where
  pub area : String
  pub choice : String
  pub rationale : String

pub record OpenQuestion : Type 0 where
  pub id : String
  pub question : String
  pub status : String
  pub answer : String

pub record Step : Type 0 where
  pub id : String
  pub work_package : String
  pub order : ℕ
  pub action : String
  pub files : List String
  pub tests : String
  pub done_when : String
  pub status : String
  pub covers_ac : List String
  pub depends_on_steps : List String
  pub claimed_by : String
  pub claimed_at : String
  pub lease_expires_at : String
  pub evidence : String

-- `Step::default()`
abbrev pub default_step : Step
default_step = record {
  id = "";
  work_package = "";
  order = 0;
  action = "";
  files = [];
  tests = "";
  done_when = "";
  status = "";
  covers_ac = [];
  depends_on_steps = [];
  claimed_by = "";
  claimed_at = "";
  lease_expires_at = "";
  evidence = "";
}

pub record WorkPackage : Type 0 where
  pub id : String
  pub name : String
  pub goal : String
  pub rollback : String
  pub steps : List Step

pub record Verification : Type 0 where
  pub date : String
  pub branch : String
  pub evidence : String

pub record Range : Type 0 where
  pub start_line : ℕ
  pub end_line : ℕ

pub record FindingAnchor : Type 0 where
  pub path : String
  pub commit : String
  pub new_range : Option Range
  pub old_range : Option Range
  pub hunk_index : Option ℕ
  pub side : Option String

pub record FindingThreadEntry : Type 0 where
  pub author : String
  pub at : String
  pub body : String

pub record Finding : Type 0 where
  pub id : String
  pub severity : String
  pub category : String
  pub description : String
  pub status : String
  pub author : String
  pub fixed_in : String
  pub created : String
  pub resolved : String
  pub phase : String
  pub anchor : Option FindingAnchor
  pub thread : List FindingThreadEntry
  pub summary : String
  pub rationale : String
  pub confidence : String
  pub tags : List String

pub record DeltaAdded : Type 0 where
  pub id : String
  pub statement : String
  pub scenarios : List String

pub record DeltaModified : Type 0 where
  pub target : String
  pub before : String
  pub after : String

pub record DeltaRemoved : Type 0 where
  pub target : String
  pub reason : String
  pub replacement : String

pub record MilestoneDelta : Type 0 where
  pub domain : String
  pub base_version : ℕ
  pub added : List DeltaAdded
  pub modified : List DeltaModified
  pub removed : List DeltaRemoved

pub record MilestoneFile : Type 0 where
  pub milestone : MilestoneMeta
  pub intent : Intent
  pub problem : Problem
  pub scope : Scope
  pub acceptance_criteria : List AcceptanceCriterion
  pub design_decisions : List DesignDecision
  pub open_questions : List OpenQuestion
  pub work_packages : List WorkPackage
  pub steps : List Step
  pub verification : Verification
  pub findings : List Finding
  pub delta : MilestoneDelta

abbrev pub default_meta : MilestoneMeta
default_meta = record {
  id = "";
  title = "";
  slug = "";
  lifecycle = "draft";
  spec_status = "";
  execution_status = "";
  blocked = false;
  needs_regrooming = false;
  cancelled = false;
  deferred = false;
  deferred_reason = "";
  depends_on = [];
  effort = "S";
  risk = "low";
  change_kind = "";
  priority = "normal";
  created = "";
  updated = "";
  blocked_at = "";
  block_reason = "";
  blocked_by = "";
  target_version = "";
  executed_by = "";
  remediation_pre_state = none;
  lifecycle_at = none;
}

-- `MilestoneFile::default()`
abbrev pub default_milestone : MilestoneFile
default_milestone = record {
  milestone = default_meta;
  intent = record { outcome = "" };
  problem = record { description = "" };
  scope = record { in_scope = []; out_of_scope = [] };
  acceptance_criteria = [];
  design_decisions = [];
  open_questions = [];
  work_packages = [];
  steps = [];
  verification = record { date = ""; branch = ""; evidence = "" };
  findings = [];
  delta = record { domain = ""; base_version = 0; added = []; modified = []; removed = [] };
}
