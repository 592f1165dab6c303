-- ===== src/Tests/PathEngine.antt =====
-- The topological sort at a plan of two milestones, one waiting for the other.
use master_plan.Prelude.{
  ℕ, zero, suc, ◌+◌, ◌-◌, ◌*◌, ◌/◌, ◌%◌, ◌≤◌, ◌<◌, max, String, ◌≡◌, refl, sym, ap, subst, ◌∙◌, ◌≢◌,
  ◌↔◌, ◌⊎◌, inl, inr, Bool, true, false, not, ◌&&◌, ◌||◌, Option, none, some, List, [], ◌∷◌, ◌++◌,
  map, arith, str_eq, eq_iff, ltb, leb, ◌==◌, if◌then◌else◌, Bool-cases, Option-cases, and_true,
  or_eq_false, or_false, length, any, all, find, filter, update_first, remove_first, contains_str,
  distinct, filter-eq-nil, not-true, and_eq_true, str_eq_comm, str_eq_refl, Result, ok, err, ◌>>=◌,
  ◌>>◌, bail_if, is_nil, nil_of, append-eq-nil, is_nil-append, not-false, bind-eq-ok, bail_if-eq-ok,
  ok-injective, some-injective, distinct-snoc, one_if, count, count-append, count-snoc,
  contains_of_count, count_of_contains, count_of_absent, count-distinct, length-le_of_counts,
  counts_of_length, one_if-le, count-filter, before, before-append_left, before-snoc_self,
  contains_cases, Memᴰ, insert_by, sort_by, take, position, length-take, mem-take, mem-insert_by,
  mem-sort_by, length-sort_by, length-insert_by, mem-filter, mem-filter_of, Result-cases,
  SameMembers, members_refl, members_trans, members_cons, members_swap, sort_by-same,
}
use mathlib.Core.List.Memᴰ
use master_plan.Model.Milestone.{MilestoneFile}
use master_plan.Paths.{normalize_milestone_id}
use master_plan.Tests.Samples.{sample, approved_meta}
use master_plan.PathEngine.Topo.{topo_sort_milestones, milestone_ids}
use master_plan.PathEngine.Topo.Placed.{IsHashOrder}
use master_plan.PathEngine.Topo.Order.{
  topo_sort_milestones_total, topo_sort_milestones_puts_dependencies_first, IsRanked,
}
use master_plan.PathEngine.Lanes.{le_in_execution, le_in_baseline}
use master_plan.PathEngine.Lanes.Ordering.{execution_order_ignores_priority}

abbrev pub waiting_milestone : MilestoneFile
waiting_milestone = record sample {
  milestone = record approved_meta { id = "M002"; depends_on = "M001" ∷ []; priority = "high" };
}

-- The milestone that waits stands first in the plan.
abbrev pub two_milestones : List MilestoneFile
two_milestones = waiting_milestone ∷ sample ∷ []

abbrev pub as_listed : List String → List String
as_listed xs = xs

pub as_listed-IsHashOrder : IsHashOrder as_listed
as_listed-IsHashOrder xs x = refl

-- Every milestone but 01 depends on 01 at most.
abbrev depth : String → ℕ
depth id = if str_eq id "01" then 0 else 1

two_milestones-IsRanked : IsRanked depth two_milestones
unfolding normalize_milestone_id master_plan.Prelude.Text.split_once
    master_plan.Prelude.Text.skip_chars master_plan.Prelude.Text.trim
    master_plan.Prelude.Text.trim_end master_plan.Prelude.Text.trim_start
    master_plan.Paths.normalize_top_level_milestone_id master_plan.Prelude.Text.Decimal.show_02
    master_plan.Prelude.Text.Decimal.parse_u32 master_plan.Prelude.Text.Decimal.show
    master_plan.Prelude.Text.Decimal.parse_digits master_plan.Prelude.Text.push_str
two_milestones-IsRanked m dep m_in dep_in counts = elim (Memᴰ.cases_cons m_in) [
  | inl e ↦
      (let waits : Memᴰ dep ("M001" ∷ []) = rw e at dep_in in
        elim (Memᴰ.cases_cons waits) [
          | inl f ↦ rw (e, f) (omega arith)
          | inr none_left ↦ elim none_left [ ]
        ])
  | inr k ↦ elim (Memᴰ.cases_cons k) [
    | inl e ↦ (let none_left : Memᴰ dep [] = rw e at dep_in in elim none_left [ ])
    | inr none_left ↦ elim none_left [ ]
  ]
]

abbrev baseline : List String
baseline = "01" ∷ "02" ∷ []

topo_sort_milestones_total_example :
    (result : List String) × (topo_sort_milestones as_listed two_milestones ≡ some result)
    × ((x : String) → count x result ≡ one_if (contains_str (milestone_ids two_milestones) x))
topo_sort_milestones_total_example =
    topo_sort_milestones_total as_listed as_listed-IsHashOrder two_milestones

baseline_is : topo_sort_milestones as_listed two_milestones ≡ some baseline
unfolding topo_sort_milestones master_plan.PathEngine.Topo.drain master_plan.PathEngine.Topo.roots
    master_plan.PathEngine.Topo.hash_set master_plan.PathEngine.Topo.milestone_ids
    master_plan.PathEngine.Topo.add_milestones master_plan.PathEngine.Topo.add_dependencies
    master_plan.PathEngine.Topo.add_dependency master_plan.PathEngine.Topo.add_edge
    master_plan.PathEngine.Topo.empty_graph master_plan.PathEngine.Topo.visit_child
    master_plan.PathEngine.Topo.visit_children master_plan.PathEngine.Topo.with_rest
    master_plan.Paths.sort_ids master_plan.Paths.insert_id master_plan.Paths.le_milestone_id
    master_plan.Paths.milestone_sort_key master_plan.Prelude.Text.split_char
    master_plan.Steps.Keys.parse_all normalize_milestone_id master_plan.Prelude.Text.split_once
    master_plan.Prelude.Text.skip_chars master_plan.Prelude.Text.trim
    master_plan.Prelude.Text.trim_end master_plan.Prelude.Text.trim_start
    master_plan.Paths.normalize_top_level_milestone_id master_plan.Prelude.Text.Decimal.show_02
    master_plan.Prelude.Text.Decimal.parse_u32 master_plan.Prelude.Text.Decimal.show
    master_plan.Prelude.Text.Decimal.parse_digits master_plan.Prelude.Text.push_str
baseline_is = refl

topo_sort_milestones_puts_dependencies_first_example :
    before (normalize_milestone_id "M001") (normalize_milestone_id "M002") baseline ≡ true
unfolding milestone_ids normalize_milestone_id master_plan.Prelude.Text.split_once
    master_plan.Prelude.Text.skip_chars master_plan.Prelude.Text.trim
    master_plan.Prelude.Text.trim_end master_plan.Prelude.Text.trim_start
    master_plan.Paths.normalize_top_level_milestone_id master_plan.Prelude.Text.Decimal.show_02
    master_plan.Prelude.Text.Decimal.parse_u32 master_plan.Prelude.Text.Decimal.show
    master_plan.Prelude.Text.Decimal.parse_digits master_plan.Prelude.Text.push_str
topo_sort_milestones_puts_dependencies_first_example =
    topo_sort_milestones_puts_dependencies_first as_listed as_listed-IsHashOrder two_milestones
      depth two_milestones-IsRanked baseline baseline_is waiting_milestone "M001" (Memᴰ.head refl)
      (Memᴰ.head refl) refl

execution_order_ignores_priority_example :
    le_in_execution baseline waiting_milestone sample
    ≡ le_in_baseline baseline waiting_milestone sample
unfolding normalize_milestone_id master_plan.Prelude.Text.split_once
    master_plan.Prelude.Text.skip_chars master_plan.Prelude.Text.trim
    master_plan.Prelude.Text.trim_end master_plan.Prelude.Text.trim_start
    master_plan.Paths.normalize_top_level_milestone_id master_plan.Prelude.Text.Decimal.show_02
    master_plan.Prelude.Text.Decimal.parse_u32 master_plan.Prelude.Text.Decimal.show
    master_plan.Prelude.Text.Decimal.parse_digits master_plan.Prelude.Text.push_str
execution_order_ignores_priority_example =
    execution_order_ignores_priority as_listed as_listed-IsHashOrder two_milestones baseline
      baseline_is waiting_milestone sample (Memᴰ.head refl) (Memᴰ.tail (Memᴰ.head refl)) (λ e. cc)
