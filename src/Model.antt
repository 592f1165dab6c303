-- ===== src/Model.antt =====
-- The domain types of crates/mp-model/src/milestone.rs beside the lifecycle, and the methods on
-- them.
pub mod Milestone
pub mod Findings
pub mod Track
pub mod Plan
pub mod Review
