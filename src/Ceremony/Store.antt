-- ===== src/Ceremony/Store.antt =====
-- `with_milestone_mut_unlocked` of crates/mp/src/milestone/io.rs, in which the lifecycle writers run.
-- `to_json` stands for `prepare_for_disk` and serde_json's pretty printer, with the final newline.
pub mod Noop
use master_plan.Prelude.{
  String, Bool, not, Option, none, some, List, str_eq, if◌then◌else◌, Result, ok, err, ◌>>=◌, true,
}
use master_plan.Model.Milestone.{MilestoneFile}
use master_plan.Ceremony.Errors.{Error}

-- `Some(orig) => orig.as_bytes() != new_raw.as_bytes()`, `None => true`.
abbrev pub changed : Option String → String → Bool
changed none new_raw = true
changed (some orig) new_raw = not (str_eq orig new_raw)

abbrev pub stamp : String → MilestoneFile → MilestoneFile
stamp today m = record m { milestone = record m.milestone { updated = today } }

module _ (to_json : MilestoneFile → String) {R : Type 0} where
  -- `original_raw` is the text of the file, `none` where it cannot be read. `f` answers with the
  -- milestone that it leaves and its result. The answer is the result, and the milestone that is
  -- written, `none` where the file stays as it is.
  unfoldable pub with_milestone_mut_unlocked :
      String
      → Option String
      → MilestoneFile
      → (MilestoneFile → Result Error (MilestoneFile × R))
      → Result Error (R × Option MilestoneFile)
  with_milestone_mut_unlocked today original_raw m f = do
    r ← f m
    let stamped = stamp today r.0
    ok (r.1, if changed original_raw (to_json stamped) then some stamped else none)
