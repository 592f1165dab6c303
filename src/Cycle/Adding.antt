-- ===== src/Cycle/Adding.antt =====
-- Adding and removing dependencies: `add_depends_on`, `add_depends_on_with_graph` and
-- `remove_depends_on` of crates/mp/src/milestone/spec.rs.
pub mod Acyclic
pub mod Chains
pub mod Written
use master_plan.Prelude.{
  ℕ, zero, suc, ◌+◌, ◌-◌, ◌*◌, ◌/◌, ◌%◌, ◌≤◌, ◌<◌, max, String, ◌≡◌, refl, sym, ap, subst, ◌∙◌, ◌≢◌,
  ◌↔◌, ◌⊎◌, inl, inr, Bool, true, false, not, ◌&&◌, ◌||◌, Option, none, some, List, [], ◌∷◌, ◌++◌,
  map, arith, str_eq, eq_iff, ltb, leb, ◌==◌, if◌then◌else◌, Bool-cases, Option-cases, and_true,
  or_eq_false, or_false, length, any, all, find, filter, update_first, remove_first, contains_str,
  distinct, filter-eq-nil, not-true, and_eq_true, str_eq_comm, str_eq_refl, Result, ok, err, ◌>>=◌,
  ◌>>◌, bail_if, is_nil, nil_of, append-eq-nil, is_nil-append, not-false, bind-eq-ok, bail_if-eq-ok,
  ok-injective, some-injective, distinct-snoc, one_if, count, count-append, count-snoc,
  contains_of_count, count_of_contains, count_of_absent, count-distinct, length-le_of_counts,
  counts_of_length, one_if-le, count-filter, before, before-append_left, before-snoc_self,
  contains_cases, Memᴰ, insert_by, sort_by, take, position, length-take, mem-take, mem-insert_by,
  mem-sort_by, length-sort_by, length-insert_by, mem-filter, mem-filter_of, Result-cases,
  SameMembers, members_refl, members_trans, members_cons, members_swap, sort_by-same,
}
use master_plan.Lifecycle.Meta.{MilestoneMeta}
use master_plan.Model.Milestone.{MilestoneFile}
use master_plan.Paths.{normalize_milestone_id}
use master_plan.PathEngine.Action.{id_of}
use master_plan.Cycle.{
  Graph, build_depends_on_graph, deps_or_nil, depends_on_creates_cycle_in_graph,
}

pub data DependencyError : Type 0 where
  would_create_cycle : (dep_norm id_norm : String) → DependencyError

abbrev pub is_dependency : String → String → Bool
is_dependency dep_norm d = str_eq (normalize_milestone_id d) dep_norm

abbrev pub with_depends_on : List String → MilestoneFile → MilestoneFile
with_depends_on deps m = record m { milestone = record m.milestone { depends_on = deps } }

-- The milestone that the closure leaves, and the one that it returns.
unfoldable pub add_depends_on_with_graph :
    MilestoneFile → String → Bool → MilestoneFile × MilestoneFile
add_depends_on_with_graph m depends_on commit =
    let dep_norm = normalize_milestone_id depends_on in
    let changed = with_depends_on (m.milestone.depends_on ++ dep_norm ∷ []) m in
    if any (is_dependency dep_norm) m.milestone.depends_on
    then (m, m)
    else if not commit
    then (m, changed)
    else (changed, changed)

unfoldable pub remove_depends_on : MilestoneFile → String → Bool → MilestoneFile × MilestoneFile
remove_depends_on m depends_on commit =
    let dep_norm = normalize_milestone_id depends_on in
    let kept = filter (λ d. not (is_dependency dep_norm d)) m.milestone.depends_on in
    if not commit
    then (m, with_depends_on kept m)
    else (with_depends_on kept m, with_depends_on kept m)

-- `graph.get(&id_norm)` with the new dependency behind.
unfoldable pub prospective_deps : Graph → String → String → List String
prospective_deps graph id_norm dep_norm =
    let known = deps_or_nil graph id_norm in
    if contains_str known dep_norm then known else known ++ dep_norm ∷ []

-- `m` is what loading `id` answers; `none` where the fuel of the search runs out.
unfoldable pub add_depends_on :
    List MilestoneFile
    → MilestoneFile
    → String
    → String
    → Bool
    → Option (Result DependencyError (MilestoneFile × MilestoneFile))
add_depends_on milestones m id depends_on commit =
    let dep_norm = normalize_milestone_id depends_on in
    let graph = build_depends_on_graph milestones in
    let id_norm = normalize_milestone_id id in
    elim (depends_on_creates_cycle_in_graph graph id (prospective_deps graph id_norm dep_norm)) [
      | none ↦ none
      | some creates ↦ some (
          if creates
          then err (would_create_cycle dep_norm id_norm)
          else ok (add_depends_on_with_graph m depends_on commit))
    ]

-- The milestones of the plan after a write of `m` to the file of `id_norm`.
abbrev pub write_back : String → MilestoneFile → List MilestoneFile → List MilestoneFile
write_back id_norm m = update_first (λ x. str_eq (id_of x) id_norm) (λ x. m)
