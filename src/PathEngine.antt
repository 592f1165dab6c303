-- ===== src/PathEngine.antt =====
-- The path engine of crates/mp/src/path_engine.rs.
pub mod Topo
pub mod Prefs
pub mod Action
pub mod Build
pub mod Lanes
