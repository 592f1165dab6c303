-- ===== src/Tests.antt =====
-- Runs of the definitions at concrete inputs, and the theorems applied to them.
pub mod Samples
pub mod Lifecycle
pub mod Ceremony
pub mod Steps
pub mod Watch
pub mod Cycle
pub mod PathEngine
pub mod Path
pub mod Claims
pub mod Reviews
pub mod Specs
pub mod Promotion
