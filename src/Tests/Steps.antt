-- ===== src/Tests/Steps.antt =====
-- The step edits and the identifiers at concrete milestones.
use master_plan.Prelude.{
  ℕ, zero, suc, ◌+◌, ◌-◌, ◌*◌, ◌/◌, ◌%◌, ◌≤◌, ◌<◌, max, String, ◌≡◌, refl, sym, ap, subst, ◌∙◌, ◌≢◌,
  ◌↔◌, ◌⊎◌, inl, inr, Bool, true, false, not, ◌&&◌, ◌||◌, Option, none, some, List, [], ◌∷◌, ◌++◌,
  map, arith, str_eq, eq_iff, ltb, leb, ◌==◌, if◌then◌else◌, Bool-cases, Option-cases, and_true,
  or_eq_false, or_false, length, any, all, find, filter, update_first, remove_first, contains_str,
  distinct, filter-eq-nil, not-true, and_eq_true, str_eq_comm, Result, ok, err, ◌>>=◌, ◌>>◌,
  bail_if, is_nil, nil_of, append-eq-nil, is_nil-append, not-false, bind-eq-ok, bail_if-eq-ok,
  ok-injective, some-injective, distinct-snoc,
}
use master_plan.Model.Milestone.{MilestoneFile, Step}
use master_plan.Model.Track.{TrackFile}
use master_plan.Ids.{child_suffix, largest}
use master_plan.Steps.Edit.{
  add_step, AddStepInput, has_id, touch, step_ids, remove_step, split_step, require_step,
  split_child,
}
use master_plan.Steps.Edit.References.{remove_step-refs_known, refs_known}
use master_plan.Steps.Edit.Split.{split_step-children, first_child, second_child, second}
use master_plan.Steps.Keys.Sorting.{in_order}
use master_plan.Steps.TrackRefs.{Tracks}
use master_plan.Steps.Progress.{set_step_status, step_statuses, step_deps_met}
use master_plan.Steps.Progress.Guards.{set_step_status-guards}
use master_plan.Steps.Progress.Chains.{infer_depends_on_steps-settles}
use master_plan.Model.Milestone.{default_step}
use master_plan.Steps.Progress.{infer_depends_on_steps}
use master_plan.Tests.Samples.{sample, value_of}

abbrev behind_first : AddStepInput
behind_first = record {
  wp = "WP1";
  id = none;
  after = some "S1";
  action = "review the draft";
  files = [];
  tests = "";
  done_when = "";
  covers_ac = [];
}

abbrev added : MilestoneFile × Step
added =
    value_of (add_step "d" sample behind_first) (sample, master_plan.Model.Milestone.default_step)

abbrev shortened : MilestoneFile
shortened = value_of (remove_step "d" sample "S2") sample

remove_step-refs_known_example :
    (contains_str (step_ids sample.steps) "S2" ≡ true)
    × ((x : String)
        → find (has_id x) shortened.steps
          ≡ (if str_eq "S2" x then none else find (has_id x) sample.steps))
    × (refs_known (step_ids shortened.steps) shortened.steps ≡ true)
unfolding remove_step master_plan.Prelude.Text.strip_prefix master_plan.Prelude.Text.push_str
remove_step-refs_known_example = remove_step-refs_known "d" sample shortened "S2" refl refl refl

abbrev halves : MilestoneFile × List Step
halves = value_of (split_step "d" sample "S2") (sample, [])

split_step-children_example :
    (parent : Step) × (require_step sample.steps "S2" ≡ ok parent)
    × (str_eq parent.status "done" ≡ false)
    × (halves.1
        ≡ split_child sample.steps parent (first_child sample.steps "S2") "1"
          ∷ second sample.steps parent "S2"
          ∷ [])
    × (distinct (step_ids halves.0.steps) ≡ true)
    × (in_order halves.0.steps ≡ true)
    × ((x : String)
        → contains_str (step_ids halves.0.steps) x
          ≡ contains_str
              ((step_ids sample.steps ++ first_child sample.steps "S2" ∷ [])
                ++ second_child sample.steps "S2" ∷ [])
              x)
unfolding split_step largest child_suffix master_plan.Prelude.Text.strip_prefix
    master_plan.Prelude.Text.push_str
split_step-children_example =
    split_step-children "d" sample halves.0 "S2" halves.1 refl refl (omega arith)

abbrev no_tracks : Tracks
no_tracks kind = none

abbrev accept_all : TrackFile → Bool
accept_all file = true

abbrev moved : MilestoneFile × Step × Tracks
moved =
    value_of (set_step_status "d" accept_all no_tracks sample "S2" "in-progress")
      (sample, master_plan.Model.Milestone.default_step, no_tracks)

set_step_status-guards_example :
    (p : Step) × (contains_str step_statuses "in-progress" ≡ true)
    × (require_step sample.steps "S2" ≡ ok p)
    × (true && not (step_deps_met p sample.steps) ≡ false)
    × (moved.1.status ≡ "in-progress")
    × (moved.1.claimed_by ≡ p.claimed_by)
    × (moved.1.claimed_at ≡ p.claimed_at)
    × (moved.1.lease_expires_at ≡ p.lease_expires_at)
    × ((x : String)
        → find (has_id x) moved.0.steps
          ≡ (if str_eq "S2" x then some moved.1 else find (has_id x) sample.steps))
    × (step_ids moved.0.steps ≡ step_ids sample.steps)
    × (moved.0 ≡ touch "d" (record sample { steps = moved.0.steps }))
    × (moved.2 ≡ no_tracks)
unfolding set_step_status
set_step_status-guards_example =
    set_step_status-guards "d" accept_all no_tracks moved.2 sample moved.0 "S2" "in-progress"
      moved.1 refl

abbrev unchained : MilestoneFile
unchained = record sample {
  steps =
      record default_step { id = "S1"; work_package = "WP1"; depends_on_steps = "S9" ∷ [] }
      ∷ record default_step { id = "S2"; work_package = "WP1" }
      ∷ [];
}

abbrev chained_of : Option MilestoneFile → MilestoneFile
chained_of none = sample
chained_of (some m) = m

infer_depends_on_steps-settles_example :
    infer_depends_on_steps "e" (chained_of (infer_depends_on_steps "d" unchained).0) ≡ (none, 0)
unfolding infer_depends_on_steps master_plan.Steps.Progress.chain_all
    master_plan.Steps.Progress.count_chained
infer_depends_on_steps-settles_example =
    infer_depends_on_steps-settles "d" "e" unchained
      (chained_of (infer_depends_on_steps "d" unchained).0) 2 refl refl
