-- ===== src/Steps/Progress.antt =====
-- `set_step_status`, `fail_step` and `infer_depends_on_steps` of crates/mp/src/step.rs, and
-- `step_deps_met` and `step_is_actionable` of crates/mp/src/path_engine.rs.
pub mod Guards
pub mod Chains
use master_plan.Prelude.{
  is_nil, ℕ, ◌+◌, String, Bool, true, false, not, ◌&&◌, ◌||◌, Option, none, some, List, [], ◌∷◌,
  str_eq, ◌==◌, if◌then◌else◌, all, find, update_first, contains_str, Result, ok, ◌>>=◌, ◌>>◌,
  bail_if,
}
use master_plan.Model.Milestone.{MilestoneFile, Step, WorkPackage}
use master_plan.Model.Track.{TrackFile}
use master_plan.Steps.TrackRefs.{Tracks, auto_close_track_refs}
use master_plan.Steps.Edit.{
  StepError, invalid_status, unfinished_dependencies, has_id, touch, require_step,
}

abbrev pub step_statuses : List String
step_statuses = "pending" ∷ "in-progress" ∷ "done" ∷ "skipped" ∷ "failed" ∷ []

abbrev pub is_finished : Step → Bool
is_finished s = str_eq s.status "done" || str_eq s.status "skipped"

-- `map(..).unwrap_or(false)` over the step that a dependency names.
abbrev pub dep_finished : List Step → String → Bool
dep_finished steps dep = elim (find (has_id dep) steps) [ none ↦ false | some s ↦ is_finished s ]

unfoldable pub step_deps_met : Step → List Step → Bool
step_deps_met step all_steps = all (dep_finished all_steps) step.depends_on_steps

unfoldable pub step_is_actionable : Step → Bool
step_is_actionable s =
    str_eq s.status "" || str_eq s.status "pending" || str_eq s.status "in-progress"

-- `step_claim::clear_claim`
abbrev pub clear_claim : Step → Step
clear_claim s = record s { claimed_by = ""; claimed_at = ""; lease_expires_at = "" }

abbrev pub with_status : String → Step → Step
with_status status s =
    let t : Step = record s { status = status } in
    if str_eq status "done" || str_eq status "skipped" then clear_claim t else t

-- The guard of `in-progress`.
abbrev pub start_guard : List Step → String → String → Result StepError (Unit {0})
start_guard steps step_id status =
    if str_eq status "in-progress"
    then (do
      s ← require_step steps step_id
      bail_if (not (is_nil s.depends_on_steps) && not (all (dep_finished steps) s.depends_on_steps))
          (unfinished_dependencies step_id))
    else ok tt

module _ (today : String) (accepts : TrackFile → Bool) where
  -- The loop that closes the track items which the done steps refer to.
  unfoldable pub close_done_refs : Tracks → List Step → Tracks
  close_done_refs tracks [] = tracks
  close_done_refs tracks (s ∷ ss) =
      close_done_refs
        (if str_eq s.status "done"
          then auto_close_track_refs today accepts tracks s.action
          else tracks)
        ss

  unfoldable pub set_step_status :
      Tracks → MilestoneFile → String → String → Result StepError (MilestoneFile × Step × Tracks)
  set_step_status tracks m step_id status = do
    bail_if (not (contains_str step_statuses status)) (invalid_status status)
    start_guard m.steps step_id status
    s ← require_step m.steps step_id
    let steps = update_first (has_id step_id) (with_status status) m.steps
    let tracks' =
        if str_eq status "done" && all is_finished steps
        then close_done_refs tracks steps
        else tracks
    ok (touch today (record m { steps = steps }), with_status status s, tracks')

  unfoldable pub fail_step :
      Tracks → MilestoneFile → String → Result StepError (MilestoneFile × Step × Tracks)
  fail_step tracks m step_id = set_step_status tracks m step_id "failed"

abbrev pub same_list : List String → List String → Bool
same_list [] [] = true
same_list (x ∷ xs) (y ∷ ys) = str_eq x y && same_list xs ys
same_list _ _ = false

-- The chain of one work package: its first step depends on nothing, each later one on the step
-- before it. `prev` is the id of the last step of the package that was passed.
unfoldable pub chain_wp : String → Option String → List Step → List Step
chain_wp wp prev [] = []
chain_wp wp prev (s ∷ ss) =
    if str_eq s.work_package wp
    then record s { depends_on_steps = elim prev [ none ↦ [] | some p ↦ p ∷ [] ] }
      ∷ chain_wp wp (some s.id) ss
    else s ∷ chain_wp wp prev ss

-- How many steps of the package the chain changes.
unfoldable pub count_chained : String → Option String → List Step → ℕ
count_chained wp prev [] = 0
count_chained wp prev (s ∷ ss) =
    if str_eq s.work_package wp
    then (if same_list s.depends_on_steps (elim prev [ none ↦ [] | some p ↦ p ∷ [] ]) then 0 else 1)
      + count_chained wp (some s.id) ss
    else count_chained wp prev ss

unfoldable pub chain_all : List WorkPackage → List Step → List Step × ℕ
chain_all [] steps = (steps, 0)
chain_all (wp ∷ wps) steps =
    let rest = chain_all wps (chain_wp wp.id none steps) in
    (rest.0, count_chained wp.id none steps + rest.1)

-- The milestone that is written, `none` where nothing changed, and the number of steps changed.
unfoldable pub infer_depends_on_steps : String → MilestoneFile → Option MilestoneFile × ℕ
infer_depends_on_steps today m =
    let (steps, updated) = chain_all m.work_packages m.steps in
    if updated == 0
    then (none, updated)
    else (some (touch today (record m { steps = steps })), updated)
