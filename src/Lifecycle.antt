-- ===== src/Lifecycle.antt =====
-- crates/mp-model/src/milestone.rs: the delivery phases, the legacy status projections and the
-- pure transition table.
pub mod Phase
pub mod Legacy
pub mod Meta
pub mod Machine
