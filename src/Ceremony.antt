-- ===== src/Ceremony.antt =====
-- crates/mp/src/milestone: the writers that change a milestone's lifecycle.
pub mod Errors
pub mod Evidence
pub mod Apply
pub mod Ops
pub mod SpecStatus
pub mod Store
pub mod Complete
pub mod Criteria
