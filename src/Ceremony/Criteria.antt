-- ===== src/Ceremony/Criteria.antt =====
-- `criterion_pass` and `criterion_fail` of crates/mp/src/milestone/complete.rs.
pub mod Lookup
use master_plan.Prelude.{
  String, Bool, Option, none, some, str_eq, find, update_first, Result, ok, err, ◌>>=◌,
}
use master_plan.Model.Milestone.{MilestoneFile, AcceptanceCriterion}
use master_plan.Ceremony.Errors.{Error, criterion_not_found}

abbrev pub has_ac_id : String → AcceptanceCriterion → Bool
has_ac_id ac_id ac = str_eq ac.id ac_id

-- The change of the criterion: `if let Some(e) = evidence { ac.evidence = e; }`
abbrev pub decided : String → Option String → AcceptanceCriterion → AcceptanceCriterion
decided status none ac = record ac { status = status }
decided status (some e) ac = record ac { status = status; evidence = e }

-- What the two closures share: the milestone that they leave, and the changed criterion.
unfoldable pub decide :
    String
    → MilestoneFile
    → String
    → Option String
    → Result Error (MilestoneFile × AcceptanceCriterion)
decide status m ac_id evidence = elim (find (has_ac_id ac_id) m.acceptance_criteria) [
  | none ↦ err (criterion_not_found ac_id)
  | some ac ↦ ok (
    record m {
      acceptance_criteria =
          update_first (has_ac_id ac_id) (decided status evidence) m.acceptance_criteria;
    },
    decided status evidence ac,
  )
]

unfoldable pub criterion_pass :
    MilestoneFile → String → Option String → Result Error (MilestoneFile × AcceptanceCriterion)
unfolding decide
criterion_pass m ac_id evidence = decide "passed" m ac_id evidence

unfoldable pub criterion_fail :
    MilestoneFile → String → Option String → Result Error (MilestoneFile × AcceptanceCriterion)
unfolding decide
criterion_fail m ac_id reason = decide "failed" m ac_id reason
