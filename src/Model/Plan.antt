-- ===== src/Model/Plan.antt =====
-- The execution settings of the plan file, crates/mp-model/src/plan.rs.
use master_plan.Prelude.{ℕ, String, List, []}

pub record AdoptionOrder : Type 0 where
  pub milestone : String
  pub before : String
  pub rank : ℕ
  pub reason : String

pub record IndexSnapshot : Type 0 where
  pub id : String
  pub title : String
  pub spec_status : String
  pub execution_status : String

pub record StepStatusSnapshot : Type 0 where
  pub id : String
  pub status : String

pub record MilestoneSnapshot : Type 0 where
  pub id : String
  pub title : String
  pub spec_status : String
  pub execution_status : String
  pub updated : String
  pub steps : List StepStatusSnapshot

pub record HandoffBaseline : Type 0 where
  pub planning_status : String
  pub execution_mode : String
  pub milestone_index : List IndexSnapshot
  pub milestones : List MilestoneSnapshot

pub record ExecutionConfig : Type 0 where
  pub strategy : String
  pub interleave : String
  pub mode : String
  pub handoff_at : String
  pub handoff_by : String
  pub focus_milestone : String
  pub focus_through_step : String
  pub adoption_order : List AdoptionOrder
  pub handoff_changed_milestones : List String
  pub handoff_baseline : HandoffBaseline

-- `ExecutionConfig::default()`
abbrev pub default_execution : ExecutionConfig
default_execution = record {
  strategy = "resume_then_ready";
  interleave = "milestone";
  mode = "planning";
  handoff_at = "";
  handoff_by = "";
  focus_milestone = "";
  focus_through_step = "";
  adoption_order = [];
  handoff_changed_milestones = [];
  handoff_baseline = record {
    planning_status = "";
    execution_mode = "";
    milestone_index = [];
    milestones = [];
  };
}
