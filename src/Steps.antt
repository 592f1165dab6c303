-- ===== src/Steps.antt =====
-- crates/mp/src/step.rs and crates/mp/src/step_claim.rs: the steps of a milestone. An operation
-- takes the milestone that was loaded and returns the one that is written; `today` and `now` are
-- what the clock answers.
pub mod Claims
pub mod Keys
pub mod TrackRefs
pub mod Edit
pub mod Progress
