-- ===== src/PathEngine/Topo.antt =====
-- `topo_sort_milestones` of crates/mp/src/path_engine.rs: the baseline order of the milestones.
-- A hash map is a function into `Option`; the order in which a hash table hands out its keys is the
-- parameter `hash_order`. A `usize` that is decremented below 0 wraps around.
pub mod Degrees
pub mod Edges
pub mod Loop
pub mod Placed
pub mod Order
use master_plan.Prelude.{
  ℕ, zero, suc, ◌+◌, ◌-◌, ◌*◌, ◌/◌, ◌%◌, ◌≤◌, ◌<◌, max, String, ◌≡◌, refl, sym, ap, subst, ◌∙◌, ◌≢◌,
  ◌↔◌, ◌⊎◌, inl, inr, Bool, true, false, not, ◌&&◌, ◌||◌, Option, none, some, List, [], ◌∷◌, ◌++◌,
  map, arith, str_eq, eq_iff, ltb, leb, ◌==◌, if◌then◌else◌, Bool-cases, Option-cases, and_true,
  or_eq_false, or_false, length, any, all, find, filter, update_first, remove_first, contains_str,
  distinct, filter-eq-nil, not-true, and_eq_true, str_eq_comm, str_eq_refl, Result, ok, err, ◌>>=◌,
  ◌>>◌, bail_if, is_nil, nil_of, append-eq-nil, is_nil-append, not-false, bind-eq-ok, bail_if-eq-ok,
  ok-injective, some-injective, distinct-snoc, one_if, count, count-append, count-snoc,
  contains_of_count, count_of_contains, count_of_absent, count-distinct, length-le_of_counts,
  counts_of_length, one_if-le,
}
use master_plan.Prelude.Text.{is_empty}
use master_plan.Lifecycle.Meta.{MilestoneMeta}
use master_plan.Model.Milestone.{MilestoneFile}
use master_plan.Prelude.Text.Integers.{usize_max}
use master_plan.Paths.{normalize_milestone_id, sort_ids, or_zero}

-- `*d -= 1`
abbrev pub decrement : ℕ → ℕ
decrement d = if d == 0 then usize_max else d - 1

-- The keys of a `HashSet` filled from a list: each of its texts once.
unfoldable pub hash_set : List String → List String
hash_set [] = []
hash_set (x ∷ xs) = let rest = hash_set xs in if contains_str rest x then rest else x ∷ rest

unfoldable pub milestone_ids : List MilestoneFile → List String
milestone_ids [] = []
milestone_ids (m ∷ ms) = normalize_milestone_id m.milestone.id ∷ milestone_ids ms

-- `indegree` and `edges`, the latter as the pairs in the order in which they were pushed.
pub record Graph : Type 0 where
  pub indegree : String → Option ℕ
  pub edges : List (String × String)

-- `edges.get(node)`
abbrev pub children : String → List (String × String) → List String
children node [] = []
children node ((from, to) ∷ es) =
    let rest = children node es in if str_eq from node then to ∷ rest else rest

-- `map.insert(key, value)`
abbrev pub put : String → ℕ → (String → Option ℕ) → String → Option ℕ
put key value f x = if str_eq key x then some value else f x

unfoldable pub empty_graph : List String → Graph
empty_graph ids = record { indegree = λ x. if contains_str ids x then some 0 else none; edges = [] }

unfoldable pub add_edge : String → String → Graph → Graph
add_edge from to g = record {
  indegree = put to (or_zero (g.indegree to) + 1) g.indegree;
  edges = g.edges ++ (from, to) ∷ [];
}

-- One round of the loop over `depends_on`.
unfoldable pub add_dependency : List String → String → String → Graph → Graph
add_dependency ids to dep g =
    let from = normalize_milestone_id dep in
    if is_empty dep || str_eq dep "none"
    then g
    else if not (contains_str ids from)
    then g
    else add_edge from to g

unfoldable pub add_dependencies : List String → String → List String → Graph → Graph
add_dependencies ids to [] g = g
add_dependencies ids to (dep ∷ deps) g = add_dependencies ids to deps (add_dependency ids to dep g)

unfoldable pub add_milestones : List String → List MilestoneFile → Graph → Graph
add_milestones ids [] g = g
add_milestones ids (m ∷ ms) g =
    add_milestones ids ms
      (add_dependencies ids (normalize_milestone_id m.milestone.id) m.milestone.depends_on g)

-- What the main loop changes.
pub record Sorting : Type 0 where
  pub indegree : String → Option ℕ
  pub queue : List String

unfoldable pub visit_child : String → Sorting → Sorting
visit_child child s = elim (s.indegree child) [
  | none ↦ s
  | some d ↦ record {
    indegree = put child (decrement d) s.indegree;
    queue = if decrement d == 0 then sort_ids (s.queue ++ child ∷ []) else s.queue;
  }
]

unfoldable pub visit_children : List String → Sorting → Sorting
visit_children [] s = s
visit_children (c ∷ cs) s = visit_children cs (visit_child c s)

-- The main loop on fuel: `none` when the fuel is gone and the queue is not empty.
unfoldable pub drain :
    List (String × String)
    → ℕ
    → (String → Option ℕ)
    → List String
    → List String
    → Option (List String)
drain edges fuel indegree [] out = some out
drain edges zero indegree (node ∷ queue) out = none
drain edges (suc fuel) indegree (node ∷ queue) out =
    let s = visit_children (children node edges) (record { indegree = indegree; queue = queue }) in
    drain edges fuel s.indegree s.queue (out ++ node ∷ [])

-- `out` with the ids that the loop did not reach.
unfoldable pub with_rest : (List String → List String) → List String → List String → List String
with_rest hash_order ids out =
    if ltb (length out) (length ids)
    then out ++ sort_ids (filter (λ id. not (contains_str out id)) (hash_order ids))
    else out

unfoldable pub roots : (String → Option ℕ) → List String → List String
roots indegree = filter (λ id. or_zero (indegree id) == 0)

unfoldable pub topo_sort_milestones :
    (List String → List String) → List MilestoneFile → Option (List String)
topo_sort_milestones hash_order milestones =
    let ids = hash_set (milestone_ids milestones) in
    let g = add_milestones ids milestones (empty_graph ids) in
    elim (drain g.edges (length ids) g.indegree (sort_ids (roots g.indegree (hash_order ids))) []) [
      | none ↦ none
      | some out ↦ some (with_rest hash_order ids out)
    ]
