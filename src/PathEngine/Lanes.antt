-- ===== src/PathEngine/Lanes.antt =====
-- The lanes of crates/mp/src/path_engine.rs. A lane's list of indices is the list of the milestones
-- that they stand for; a `u32` wraps around.
pub mod Review
pub mod Backlog
pub mod Partition
pub mod Ordering
use master_plan.Prelude.{
  ℕ, zero, suc, ◌+◌, ◌-◌, ◌*◌, ◌/◌, ◌%◌, ◌≤◌, ◌<◌, max, String, ◌≡◌, refl, sym, ap, subst, ◌∙◌, ◌≢◌,
  ◌↔◌, ◌⊎◌, inl, inr, Bool, true, false, not, ◌&&◌, ◌||◌, Option, none, some, List, [], ◌∷◌, ◌++◌,
  map, arith, str_eq, eq_iff, ltb, leb, ◌==◌, if◌then◌else◌, Bool-cases, Option-cases, and_true,
  or_eq_false, or_false, length, any, all, find, filter, update_first, remove_first, contains_str,
  distinct, filter-eq-nil, not-true, and_eq_true, str_eq_comm, str_eq_refl, Result, ok, err, ◌>>=◌,
  ◌>>◌, bail_if, is_nil, nil_of, append-eq-nil, is_nil-append, not-false, bind-eq-ok, bail_if-eq-ok,
  ok-injective, some-injective, distinct-snoc, one_if, count, count-append, count-snoc,
  contains_of_count, count_of_contains, count_of_absent, count-distinct, length-le_of_counts,
  counts_of_length, one_if-le, count-filter, before, before-append_left, before-snoc_self,
  contains_cases, Memᴰ, insert_by, sort_by, take, position, length-take, mem-take, mem-insert_by,
  mem-sort_by, length-sort_by, length-insert_by, mem-filter, mem-filter_of, Result-cases,
  SameMembers, members_refl, members_trans, members_cons, members_swap, sort_by-same,
}
use master_plan.Prelude.Text.{is_empty, push_str}
use master_plan.Lifecycle.Meta.{MilestoneMeta, effective_lifecycle}
use master_plan.Model.Milestone.{MilestoneFile, Step}
use master_plan.Status.{effective_spec_status, model_execution_status}
use master_plan.Paths.{normalize_milestone_id, display_milestone_id, le_milestone_id}
use master_plan.PathEngine.Action.{
  PathAction, MilestoneJson, waiting, reviewing, grooming, backlog, id_of, complete_ids,
  unmet_depends_on, milestone_deps_met,
}

pub data LaneItemType : Type 0 where
  step milestone backlog_item : LaneItemType

pub record Lane : Type 0 where
  pub name : String
  pub item_type : LaneItemType
  pub item_count : ℕ
  pub head : Option PathAction
  pub items : List PathAction

abbrev pub first {ℓ} : {A : Type ℓ} → List A → Option A
first [] = none
first (x ∷ xs) = some x

abbrev pub lane : String → LaneItemType → List PathAction → Lane
lane name item_type items = record {
  name = name;
  item_type = item_type;
  item_count = length items;
  head = first items;
  items = items;
}

-- `iter().enumerate().map(..)` with the ranks `(i + 1) as u32`.
abbrev pub ranked {ℓ} : {A : Type ℓ} → ℕ → (ℕ → A → PathAction) → List A → List PathAction
ranked i f [] = []
ranked i f (x ∷ xs) = f ((i + 1) % 4294967296) x ∷ ranked (i + 1) f xs

abbrev pub milestone_action : ℕ → MilestoneJson → String → PathAction
milestone_action rank json reason = record {
  rank = rank;
  action_type = "milestone";
  milestone = json;
  step = none;
  work_package = none;
  reason = reason;
}

abbrev pub lifecycle_of : MilestoneFile → String
lifecycle_of m = effective_lifecycle m.milestone

abbrev pub waiting_json : List String → MilestoneFile → MilestoneJson
waiting_json done_ids m =
    waiting m.milestone.id (display_milestone_id m.milestone.id) m.milestone.title (lifecycle_of m)
      m.milestone.priority (unmet_depends_on m done_ids)

abbrev pub position_of : List String → MilestoneFile → Option ℕ
position_of baseline m = position (λ x. str_eq x (id_of m)) baseline

-- The order of two positions in the baseline, and of the ids where both are missing: whether the
-- first is smaller, or not larger.
abbrev pub lt_position : Option ℕ → Option ℕ → Bool → Bool
lt_position (some ai) (some bi) lt_id = ltb ai bi
lt_position (some ai) none lt_id = true
lt_position none (some bi) lt_id = false
lt_position none none lt_id = lt_id

unfoldable pub le_in_baseline : List String → MilestoneFile → MilestoneFile → Bool
le_in_baseline baseline a b = not (
    lt_position (position_of baseline b) (position_of baseline a)
      (not (le_milestone_id (id_of a) (id_of b))))

-- `priority_rank` of this file: the lower, the more urgent.
unfoldable pub lane_priority_rank : String → ℕ
lane_priority_rank p =
    if str_eq p "high" || str_eq p "urgent"
    then 0
    else if str_eq p "regular" || str_eq p "normal" || str_eq p "medium"
    then 1
    else if str_eq p "low"
    then 2
    else 1

-- The comparison of `execution_lane`: by position, then by priority, then by id.
unfoldable pub le_in_execution : List String → MilestoneFile → MilestoneFile → Bool
le_in_execution baseline a b =
    let a_pri = lane_priority_rank a.milestone.priority in
    let b_pri = lane_priority_rank b.milestone.priority in
    if not (le_in_baseline baseline b a)
    then true
    else if not (le_in_baseline baseline a b)
    then false
    else if ltb a_pri b_pri
    then true
    else if ltb b_pri a_pri
    then false
    else le_milestone_id (id_of a) (id_of b)

abbrev pub is_pending_approval : String → Bool
is_pending_approval lc = str_eq lc "draft" || str_eq lc "groomed"

abbrev pub is_executing : String → Bool
is_executing lc = str_eq lc "approved" || str_eq lc "in-progress"

abbrev pub is_overlaid : String → Bool
is_overlaid exec = str_eq exec "blocked" || str_eq exec "deferred" || str_eq exec "cancelled"

-- What the loop of each lane lets through.
unfoldable pub in_execution : List String → MilestoneFile → Bool
in_execution done_ids m =
    if not (is_executing (lifecycle_of m))
    then false
    else if is_overlaid (model_execution_status m)
    then false
    else milestone_deps_met m done_ids

unfoldable pub in_blocked : List String → MilestoneFile → Bool
in_blocked done_ids m =
    let lc = lifecycle_of m in
    let exec = model_execution_status m in
    let status_blocked = str_eq exec "blocked" in
    let dep_waiting =
      is_executing lc && not status_blocked && not (milestone_deps_met m done_ids) in
    if str_eq lc "complete" || str_eq lc "reviewed" || m.milestone.cancelled
    then false
    else if str_eq exec "deferred" || str_eq exec "cancelled"
    then false
    else status_blocked || dep_waiting

unfoldable pub in_awaiting_approval : MilestoneFile → Bool
in_awaiting_approval m =
    if not (str_eq (effective_spec_status m) "ready")
    then false
    else if not (is_pending_approval (lifecycle_of m))
    then false
    else not (is_overlaid (model_execution_status m))

unfoldable pub in_grooming : MilestoneFile → Bool
in_grooming m =
    if not (is_pending_approval (lifecycle_of m))
    then false
    else if str_eq (effective_spec_status m) "ready"
    then false
    else not (is_overlaid (model_execution_status m))

abbrev pub execution_item : List String → ℕ → MilestoneFile → PathAction
execution_item done_ids rank m =
    milestone_action rank (waiting_json done_ids m)
      (push_str "execution lane head (priority=" (push_str m.milestone.priority ")"))

unfoldable pub execution_lane : List MilestoneFile → List String → ℕ → Lane
execution_lane milestones baseline horizon =
    let done_ids = complete_ids milestones in
    lane "execution" milestone (
      ranked 0 (execution_item done_ids) (
        take horizon
          (sort_by (le_in_execution baseline) (filter (in_execution done_ids) milestones))))

abbrev pub join_displayed : List String → String
join_displayed [] = ""
join_displayed (d ∷ []) = display_milestone_id d
join_displayed (d ∷ e ∷ ds) =
    push_str (display_milestone_id d) (push_str ", " (join_displayed (e ∷ ds)))

abbrev pub blocked_item : List String → ℕ → MilestoneFile → PathAction
blocked_item done_ids rank m = milestone_action rank (waiting_json done_ids m) (
    if str_eq (model_execution_status m) "blocked"
    then push_str "blocked (lifecycle=" (push_str (lifecycle_of m) ")")
    else push_str "deps unmet (waiting on "
        (push_str (join_displayed (unmet_depends_on m done_ids)) ")"))

unfoldable pub blocked_lane : List MilestoneFile → List String → ℕ → Lane
blocked_lane milestones baseline horizon =
    let done_ids = complete_ids milestones in
    lane "blocked" milestone (
      ranked 0 (blocked_item done_ids) (
        take horizon (sort_by (le_in_baseline baseline) (filter (in_blocked done_ids) milestones))))

abbrev pub awaiting_item : List String → ℕ → MilestoneFile → PathAction
awaiting_item done_ids rank m =
    milestone_action rank (waiting_json done_ids m)
      (push_str "awaiting approval (spec=ready, lifecycle=" (push_str (lifecycle_of m) ")"))

unfoldable pub awaiting_approval_lane : List MilestoneFile → List String → ℕ → Lane
awaiting_approval_lane milestones baseline horizon = lane "awaiting-approval" milestone (
    ranked 0 (awaiting_item (complete_ids milestones))
      (take horizon (sort_by (le_in_baseline baseline) (filter in_awaiting_approval milestones))))

abbrev pub grooming_item : ℕ → MilestoneFile → PathAction
grooming_item rank m =
    milestone_action rank
      (grooming m.milestone.id (display_milestone_id m.milestone.id) m.milestone.title
        (lifecycle_of m) m.milestone.needs_regrooming)
      (push_str "grooming lane head (lifecycle=" (push_str (lifecycle_of m) ")"))

unfoldable pub grooming_lane : List MilestoneFile → List String → ℕ → Lane
grooming_lane milestones baseline horizon = lane "grooming" milestone (
    ranked 0 grooming_item
      (take horizon (sort_by (le_in_baseline baseline) (filter in_grooming milestones))))
