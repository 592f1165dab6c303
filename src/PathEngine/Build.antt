-- ===== src/PathEngine/Build.antt =====
-- `build_path` and `next_step_action` of crates/mp/src/path_engine.rs. What `load_all_milestones` and
-- `load_plan` answer are arguments; `claim_active` is `step_claim_active` at the time of the call.
pub mod Offers
pub mod Horizon
pub mod Report
use master_plan.Prelude.{
  ℕ, zero, suc, ◌+◌, ◌-◌, ◌*◌, ◌/◌, ◌%◌, ◌≤◌, ◌<◌, max, String, ◌≡◌, refl, sym, ap, subst, ◌∙◌, ◌≢◌,
  ◌↔◌, ◌⊎◌, inl, inr, Bool, true, false, not, ◌&&◌, ◌||◌, Option, none, some, List, [], ◌∷◌, ◌++◌,
  map, arith, str_eq, eq_iff, ltb, leb, ◌==◌, if◌then◌else◌, Bool-cases, Option-cases, and_true,
  or_eq_false, or_false, length, any, all, find, filter, update_first, remove_first, contains_str,
  distinct, filter-eq-nil, not-true, and_eq_true, str_eq_comm, str_eq_refl, Result, ok, err, ◌>>=◌,
  ◌>>◌, bail_if, is_nil, nil_of, append-eq-nil, is_nil-append, not-false, bind-eq-ok, bail_if-eq-ok,
  ok-injective, some-injective, distinct-snoc, one_if, count, count-append, count-snoc,
  contains_of_count, count_of_contains, count_of_absent, count-distinct, length-le_of_counts,
  counts_of_length, one_if-le, count-filter, before, before-append_left, before-snoc_self,
  contains_cases, Memᴰ, insert_by, sort_by, take, position, length-take, mem-take, mem-insert_by,
  mem-sort_by, length-sort_by, length-insert_by, mem-filter, Result-cases,
}
use master_plan.Prelude.Text.{is_empty}
use master_plan.Lifecycle.Meta.{MilestoneMeta}
use master_plan.Model.Milestone.{MilestoneFile, Step, WorkPackage}
use master_plan.Model.Plan.{ExecutionConfig}
use master_plan.Paths.{normalize_milestone_id, display_milestone_id}
use master_plan.Steps.Keys.{sort_steps}
use master_plan.Ids.{add_one_u32}
use master_plan.Steps.Progress.{step_is_actionable, step_deps_met}
use master_plan.PathEngine.Topo.{topo_sort_milestones}
use master_plan.PathEngine.Prefs.{sort_ready_milestone_indices}
use master_plan.PathEngine.Action.{
  PathAction, BlockedJson, MilestoneJson, executing, depends_on_not_done, step_claimed,
  depends_on_steps_not_done, milestone_executable, id_of, execution_done_ids, milestone_deps_met,
}

pub record PathReport : Type 0 where
  pub strategy : String
  pub interleave : String
  pub baseline_milestone_order : List String
  pub ready_milestones : List String
  pub actions : List PathAction
  pub blocked : List BlockedJson

-- The variables of the loop over the ready milestones.
pub record Progress : Type 0 where
  pub actions : List PathAction
  pub blocked : List BlockedJson
  pub rank : ℕ

abbrev pub lease_json : String → Option String
lease_json lease = if is_empty lease then none else some lease

abbrev pub package_json : Option WorkPackage → Option (String × String)
package_json none = none
package_json (some wp) = some (wp.id, wp.name)

abbrev pub step_action : ℕ → MilestoneFile → Step → PathAction
step_action rank m step = record {
  rank = rank;
  action_type = "step";
  milestone =
      executing m.milestone.id (display_milestone_id m.milestone.id) m.milestone.title
        m.milestone.execution_status;
  step = some step;
  work_package = package_json (find (λ wp. str_eq wp.id step.work_package) m.work_packages);
  reason =
      if str_eq m.milestone.execution_status "in-progress" || str_eq step.status "in-progress"
      then "resume in-progress work"
      else "next actionable step";
}

abbrev pub add_blocked : BlockedJson → Progress → Progress
add_blocked b p = record p { blocked = p.blocked ++ b ∷ [] }

abbrev pub add_action : MilestoneFile → Step → Progress → Progress
add_action m step p = record p {
  actions = p.actions ++ step_action p.rank m step ∷ [];
  rank = add_one_u32 p.rank;
}

module _ (claim_active : Step → Bool) (horizon : ℕ) where
  -- One round of the loop over the steps, and whether it leaves both loops.
  unfoldable pub visit_step : MilestoneFile → Step → Progress → Bool × Progress
  visit_step m step p =
      let id = id_of m in
      let pushed = add_action m step p in
      if not (step_is_actionable step)
      then (false, p)
      else if claim_active step
      then (
        false,
        add_blocked (step_claimed id step.id step.claimed_by (lease_json step.lease_expires_at)) p,
      )
      else if not (step_deps_met step m.steps)
      then (false, add_blocked (depends_on_steps_not_done id step.id step.depends_on_steps) p)
      else (leb horizon (length pushed.actions), pushed)

  unfoldable pub visit_steps : MilestoneFile → List Step → Progress → Bool × Progress
  visit_steps m [] p = (false, p)
  visit_steps m (s ∷ ss) p =
      let visited = visit_step m s p in
      let rest = visit_steps m ss visited.1 in if visited.0 then visited else rest

  unfoldable pub visit_milestones : List MilestoneFile → Progress → Progress
  visit_milestones [] p = p
  visit_milestones (m ∷ ms) p =
      let visited = visit_steps m (sort_steps m.steps) p in
      let rest = visit_milestones ms visited.1 in
      if visited.0
      then visited.1
      else if leb horizon (length visited.1.actions)
      then visited.1
      else rest

-- The first loop: the milestones that wait for others, and those that are ready.
unfoldable pub blocked_by_deps : List String → List MilestoneFile → List BlockedJson
blocked_by_deps done_ids [] = []
blocked_by_deps done_ids (m ∷ ms) =
    let rest = blocked_by_deps done_ids ms in
    if not (milestone_executable m)
    then rest
    else if not (milestone_deps_met m done_ids)
    then depends_on_not_done (id_of m) m.milestone.depends_on ∷ rest
    else rest

abbrev pub is_ready : List String → MilestoneFile → Bool
is_ready done_ids m = milestone_executable m && milestone_deps_met m done_ids

-- `none` where the topological sort does not end.
unfoldable pub build_path :
    (List String → List String)
    → (Step → Bool)
    → ExecutionConfig
    → List MilestoneFile
    → ℕ
    → Option PathReport
build_path hash_order claim_active execution milestones horizon =
    let done_ids = execution_done_ids milestones in
    elim (topo_sort_milestones hash_order milestones) [
      | none ↦ none
      | some baseline ↦
          (let ready =
              sort_ready_milestone_indices (filter (is_ready done_ids) milestones) baseline
                execution in
            let p =
              visit_milestones claim_active horizon ready (record {
                actions = [];
                blocked = blocked_by_deps done_ids milestones;
                rank = 1;
              }) in
            some (record {
              strategy = execution.strategy;
              interleave = execution.interleave;
              baseline_milestone_order = baseline;
              ready_milestones = map id_of ready;
              actions = p.actions;
              blocked = p.blocked;
            }))
    ]

abbrev pub first {ℓ} : {A : Type ℓ} → List A → Option A
first [] = none
first (x ∷ xs) = some x

unfoldable pub next_step_action :
    (List String → List String)
    → (Step → Bool)
    → ExecutionConfig
    → List MilestoneFile
    → Option PathAction
next_step_action hash_order claim_active execution milestones =
    elim (build_path hash_order claim_active execution milestones 1) [
      | none ↦ none
      | some report ↦ first report.actions
    ]
