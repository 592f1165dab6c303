-- ===== src/Watch.antt =====
-- The driver of `mp watch`, crates/mp/src/watch: the verdicts on a milestone, and the loop that drives
-- it.
pub mod Stage
pub mod Verdict
pub mod Drive
pub mod Sequence
