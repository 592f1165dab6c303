-- ===== src/Steps/Edit.antt =====
-- `add_step`, `remove_step`, `update_step` and `split_step` of crates/mp/src/step.rs.
pub mod Inversion
pub mod Unique
pub mod Orders
pub mod References
pub mod Lookup
pub mod Split
use master_plan.Prelude.{
  ℕ, zero, suc, ◌+◌, ◌-◌, ◌*◌, ◌/◌, ◌%◌, ◌≤◌, ◌<◌, max, String, ◌≡◌, refl, sym, ap, subst, ◌∙◌, ◌≢◌,
  ◌↔◌, ◌⊎◌, inl, inr, Bool, true, false, not, ◌&&◌, ◌||◌, Option, none, some, List, [], ◌∷◌, ◌++◌,
  map, arith, str_eq, eq_iff, ltb, leb, ◌==◌, if◌then◌else◌, Bool-cases, Option-cases, and_true,
  or_eq_false, or_false, length, any, all, find, filter, update_first, remove_first, contains_str,
  distinct, Result, ok, err, ◌>>=◌, ◌>>◌, bail_if, is_nil, bind-eq-ok, bail_if-eq-ok, ok-injective,
  distinct-snoc,
}
use master_plan.Prelude.Text.{push_str, is_empty, strip_prefix}
use master_plan.Ids.{add_one_u32, next_step_id, next_split_child_suffix, child_id}
use master_plan.Model.Milestone.{MilestoneFile, Step, default_step}
use master_plan.Status.{effective_spec_status, spec_status_allows_steps}
use master_plan.Steps.Keys.{sort_steps}

-- One constructor for each `bail!` and `with_context` of the file.
pub data StepError : Type 0 where
  steps_not_allowed : String → StepError
  work_package_not_found : String → StepError
  action_required : StepError
  step_not_found : String → StepError
  after_and_id : StepError
  already_exists : String → StepError
  depended_on_by : List String → StepError
  split_children_exist : List String → StepError
  cannot_split_done : String → StepError
  invalid_status : String → StepError
  unfinished_dependencies : String → StepError
  claimant_required : StepError
  invalid_lease : StepError

pub record AddStepInput : Type 0 where
  pub wp : String
  pub id : Option String
  pub after : Option String
  pub action : String
  pub files : List String
  pub tests : String
  pub done_when : String
  pub covers_ac : List String

abbrev pub has_id : String → Step → Bool
has_id id s = str_eq s.id id

abbrev pub step_ids : List Step → List String
step_ids steps = map (λ s. s.id) steps

abbrev pub is_some {ℓ} : {A : Type ℓ} → Option A → Bool
is_some none = false
is_some (some a) = true

-- `steps.iter().map(|s| s.order).max().unwrap_or(0) + 1`
abbrev pub max_order : List Step → ℕ
max_order [] = 0
max_order (s ∷ ss) = max s.order (max_order ss)

abbrev pub next_step_order : List Step → ℕ
next_step_order steps = add_one_u32 (max_order steps)

abbrev pub choose_step_id : List Step → Option String → Option String → Result StepError String
choose_step_id steps (some after_id) none =
    ok (child_id after_id (next_split_child_suffix (step_ids steps) after_id))
choose_step_id steps (some after_id) (some id) = err after_and_id
choose_step_id steps none none = ok (next_step_id (step_ids steps))
choose_step_id steps none (some id) =
    if is_empty id then ok (next_step_id (step_ids steps)) else ok id

-- The order of the step that `after` names.
abbrev pub after_order : List Step → Option String → Option ℕ
after_order steps none = none
after_order steps (some after_id) = elim (find (has_id after_id) steps) [
  | none ↦ none
  | some s ↦ some s.order
]

abbrev pub shift_order : ℕ → Step → Step
shift_order ao s = if ltb ao s.order then record s { order = add_one_u32 s.order } else s

-- The steps with room made behind `after`, and the order of the new step.
abbrev pub place : List Step → Option ℕ → List Step × ℕ
place steps none = (steps, next_step_order steps)
place steps (some ao) = (map (shift_order ao) steps, add_one_u32 ao)

abbrev pub known_after : List Step → Option String → Result StepError (Unit {0})
known_after steps none = ok tt
known_after steps (some after_id) =
    bail_if (not (any (has_id after_id) steps)) (step_not_found after_id)

abbrev pub new_step : AddStepInput → String → ℕ → Step
new_step input step_id order = record default_step {
  id = step_id;
  work_package = input.wp;
  order = order;
  action = input.action;
  files = input.files;
  tests = input.tests;
  done_when = input.done_when;
  status = "pending";
  covers_ac = input.covers_ac;
  depends_on_steps = [];
}

abbrev pub touch : String → MilestoneFile → MilestoneFile
touch today m = record m { milestone = record m.milestone { updated = today } }

unfoldable pub add_step :
    String → MilestoneFile → AddStepInput → Result StepError (MilestoneFile × Step)
add_step today m input = do
  bail_if (not (spec_status_allows_steps (effective_spec_status m)))
      (steps_not_allowed (effective_spec_status m))
  bail_if (not (any (λ wp. str_eq wp.id input.wp) m.work_packages))
      (work_package_not_found input.wp)
  bail_if (is_empty input.action) action_required
  known_after m.steps input.after
  step_id ← choose_step_id m.steps input.after input.id
  bail_if (any (has_id step_id) m.steps) (already_exists step_id)
  let placed = place m.steps (after_order m.steps input.after)
  let step = new_step input step_id placed.1
  ok (touch today (record m { steps = placed.0 ++ step ∷ [] }), step)

abbrev pub is_dependent : String → Step → Bool
is_dependent step_id s = not (has_id step_id s) && contains_str s.depends_on_steps step_id

abbrev pub is_child : String → Step → Bool
is_child step_id s = is_some (strip_prefix (push_str step_id ".") s.id)

unfoldable pub remove_step : String → MilestoneFile → String → Result StepError MilestoneFile
remove_step today m step_id = do
  let dependents = filter (is_dependent step_id) m.steps
  bail_if (not (is_nil dependents)) (depended_on_by (step_ids dependents))
  let children = filter (is_child step_id) m.steps
  bail_if (not (is_nil children)) (split_children_exist (step_ids children))
  bail_if (not (any (has_id step_id) m.steps)) (step_not_found step_id)
  ok (touch today (record m { steps = remove_first (has_id step_id) m.steps }))

pub record UpdateStepInput : Type 0 where
  pub action : Option String
  pub files : Option (List String)
  pub tests : Option String
  pub done_when : Option String
  pub covers_ac : Option (List String)
  pub work_package : Option String
  pub depends_on_steps : Option (List String)
  pub evidence : Option String

abbrev pub or_old {ℓ} : {A : Type ℓ} → Option A → A → A
or_old none old = old
or_old (some new) old = new

abbrev pub updated_step : UpdateStepInput → Step → Step
updated_step input s = record s {
  action = or_old input.action s.action;
  files = or_old input.files s.files;
  tests = or_old input.tests s.tests;
  done_when = or_old input.done_when s.done_when;
  covers_ac = or_old input.covers_ac s.covers_ac;
  work_package = or_old input.work_package s.work_package;
  depends_on_steps = or_old input.depends_on_steps s.depends_on_steps;
  evidence = or_old input.evidence s.evidence;
}

-- The step with an id, or the error of `with_context`.
abbrev pub require_step : List Step → String → Result StepError Step
require_step steps step_id = elim (find (has_id step_id) steps) [
  | none ↦ err (step_not_found step_id)
  | some s ↦ ok s
]

unfoldable pub update_step :
    String → MilestoneFile → String → UpdateStepInput → Result StepError (MilestoneFile × Step)
update_step today m step_id input = do
  s ← require_step m.steps step_id
  let steps = update_first (has_id step_id) (updated_step input) m.steps
  ok (touch today (record m { steps = steps }), updated_step input s)

abbrev pub split_child : List Step → Step → String → String → Step
split_child steps parent child_id part = record default_step {
  id = child_id;
  work_package = parent.work_package;
  order = next_step_order steps;
  action = push_str parent.action (push_str " (part " (push_str part ")"));
  files = parent.files;
  tests = parent.tests;
  done_when = parent.done_when;
  status = "pending";
  covers_ac = parent.covers_ac;
  depends_on_steps = parent.depends_on_steps;
}

-- One round of the loop over the two children: an id that is taken is skipped.
abbrev pub push_child : List Step × List Step → Step → String → String → List Step × List Step
push_child (steps, created) parent child_id part =
    if any (has_id child_id) steps
    then (steps, created)
    else (let child = split_child steps parent child_id part in
        (steps ++ child ∷ [], created ++ child ∷ []))

unfoldable pub split_step :
    String → MilestoneFile → String → Result StepError (MilestoneFile × List Step)
split_step today m step_id = do
  parent ← require_step m.steps step_id
  bail_if (str_eq parent.status "done") (cannot_split_done step_id)
  let id1 = child_id step_id (next_split_child_suffix (step_ids m.steps) step_id)
  let with_first = m.steps ++ record default_step { id = id1 } ∷ []
  let id2 = child_id step_id (next_split_child_suffix (step_ids with_first) step_id)
  let first = push_child (m.steps, []) parent id1 "1"
  let both = push_child first parent id2 "2"
  ok (touch today (record m { steps = sort_steps both.0 }), both.1)
