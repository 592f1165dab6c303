-- ===== src/Lib.antt =====
-- A verification library for master-plan: the milestone lifecycle, the writers that change a
-- milestone, its steps, findings and reviews, the path engine, the merge of deltas, and the driver
-- of `mp watch`.
--
-- A plan is a list of milestones. A milestone is in one of seven phases, with the overlays blocked,
-- deferred and cancelled. Every writer loads a milestone, reads its state (`from_meta`), asks the
-- pure transition table (`transition`) for the effect of an event, and stores what the table
-- returned together with two legacy status columns (`apply_transition`). The gates and the watch
-- driver read these columns and the lifecycle back.
--
-- Files, and the code they model:
--   Lifecycle/  crates/mp-model/src/milestone.rs: phases (Phase), the legacy columns (Legacy), the
--               stored fields and the state read from them (Meta), the transition table (Machine).
--   Model/      crates/mp-model/src/milestone.rs, track.rs and plan.rs: the other records of a
--               milestone, the tracks (Track), the preferences of a plan (Plan), the queries on
--               review findings (Findings), and the review trail with its ids (Review).
--   Status      the derived legacy statuses of crates/mp/src/validate/plan.rs and of the model.
--   Paths, Validate   crates/mp/src/paths.rs (milestone ids) and crates/mp/src/validate/gates.rs.
--   Ceremony/   crates/mp/src/milestone: spec.rs (Apply, SpecStatus), complete.rs (Evidence, Ops,
--               Complete), the write cycle of io.rs (Store), and the decisions on criteria (Criteria).
--   Cycle/      crates/mp/src/milestone/spec.rs: the graph of the dependencies, the search for a
--               cycle in it, and the writers of dependencies (Adding).
--   Ids, Steps/ crates/mp/src/step.rs: the ids handed out, the edits (Edit), the status changes
--               (Progress), the references to track items (TrackRefs), and the sort of
--               crates/mp/src/path_engine.rs (Keys), and crates/mp/src/step_claim.rs (Claims).
--   PathEngine/ crates/mp/src/path_engine.rs: the topological sort (Topo), the actions of a path
--               (Action, Build) and the lanes (Lanes); crates/mp/src/path_prefs.rs (Prefs).
--   Reviews/    crates/mp/src/reviews.rs: the verdicts and the review state (Reviews), the findings
--               and the remediation (Findings), comments, handoffs and the L5 audit (Handoffs, Audit),
--               and the sweep of pending reviews (Sweep).
--   Specs/      crates/mp/src/delta.rs: the gates of a delta and its merge into a domain spec.
--   Watch/      crates/mp/src/watch/state_machine.rs: the verdicts (Verdict) and the loop (Drive);
--               crates/mp/src/watch/sequencer.rs: the run over a queue (Sequence).
--   Prelude/    shared helpers: tests, lists, results, texts and decimal numbers.
--   Tests/      runs at concrete inputs.
--
-- Reading. A function keeps its Rust name. A handler takes what it loads as arguments and returns
-- `Result`, with the new milestone and the journal entries it appends; an error leaves the caller
-- with no new milestone. The handlers of complete.rs and spec.rs that run inside
-- `with_milestone_mut_unlocked` return the milestone that the closure leaves; Store models the
-- stamping of the date and the comparison that decides on the write. The clock's answers `now` and
-- `today` are arguments. An `anyhow` message is a constructor of an error type. A `u32` sum wraps.
-- Texts are lists of characters, and a byte offset is counted in UTF-8.
--
-- The directory of milestones is a list of files. Rust hashes give their keys out in any order: a
-- function that goes through one takes `hash_order`, of which theorems assume that it permutes.
--
-- Loops are structural recursions on their lists. The loop of the topological sort runs on fuel,
-- one unit for each milestone, and is shown to end with it: each round places another milestone.
-- The drive loop runs on fuel; one more unit than the limit on iterations is given, and the loop is
-- shown to end with it. The cycle search is given one more unit than there are prospective
-- dependencies and edges, since every round takes an id off the stack, and what it pushes are edges
-- of an id not visited before.
--
-- Parameters: `merge_delta` (the effect of delta.rs on the domain specs), `accepts` (the schema
-- check of a track file), `is_rfc3339` (crates/mp-model/src/datetime.rs), `to_json` (the printer),
-- and `DriveOps` (the trait, the shutdown flag and the prompt text); of chrono the instants, their
-- order, their texts and the sum with a duration, whose panics out of range are not modelled;
-- `load`, the answer for the file of a domain spec; the environment variables of a handoff.
--
-- Not modelled: files and locks, the command line, the terminal interface in crates/raul, schemas,
-- migration and reports; of a milestone, the sections that no modelled operation reads; the
-- suggestions and coverage gaps of the path engine; the grouping of pending reviews; the run state
-- of `mp watch`.
pub mod Prelude
pub mod Lifecycle
pub mod Model
pub mod Status
pub mod Paths
pub mod PathEngine
pub mod Validate
pub mod Ids
pub mod Steps
pub mod Reviews
pub mod Specs
pub mod Ceremony
pub mod Cycle
pub mod Watch
pub mod Tests
