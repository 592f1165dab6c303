-- ===== src/Cycle.antt =====
-- `build_depends_on_graph` and `depends_on_creates_cycle_in_graph` of crates/mp/src/milestone/spec.rs.
pub mod Adding
pub mod Ends
pub mod Paths
use master_plan.Prelude.{
  ℕ, zero, suc, ◌+◌, String, Bool, true, false, Option, none, some, List, [], ◌∷◌, ◌++◌, map,
  str_eq, if◌then◌else◌, length, contains_str,
}
use master_plan.Model.Milestone.{MilestoneFile}
use master_plan.Paths.{normalize_milestone_id}

-- A `HashMap` from ids to dependencies; of two entries for an id the later one stands.
abbrev pub Graph : Type 0
Graph = List (String × List String)

abbrev pub later : Option (List String) → Option (List String) → Option (List String)
later none o = o
later (some ds) o = some ds

abbrev pub deps_of : Graph → String → Option (List String)
deps_of [] id = none
deps_of ((k, ds) ∷ entries) id = later (deps_of entries id) (if str_eq k id then some ds else none)

abbrev pub graph_entry : MilestoneFile → String × List String
graph_entry m =
    (normalize_milestone_id m.milestone.id, map normalize_milestone_id m.milestone.depends_on)

abbrev pub build_depends_on_graph : List MilestoneFile → Graph
build_depends_on_graph milestones = map graph_entry milestones

-- The loop that pushes the dependencies that were not visited. The top of a stack is its head.
abbrev pub push_unvisited : List String → List String → List String → List String
push_unvisited visited [] stack = stack
push_unvisited visited (d ∷ ds) stack =
    push_unvisited visited ds (if contains_str visited d then stack else d ∷ stack)

abbrev pub or_nil : Option (List String) → List String
or_nil none = []
or_nil (some ds) = ds

abbrev pub deps_or_nil : Graph → String → List String
deps_or_nil by_id id = or_nil (deps_of by_id id)

-- The `while` loop on fuel, `none` where the fuel runs out. The overlay of the prospective
-- dependencies in the source is never reached: it is behind the test on `id_norm`.
unfoldable pub cycle_loop : Graph → String → ℕ → List String → List String → Option Bool
cycle_loop by_id id_norm zero visited stack = none
cycle_loop by_id id_norm (suc fuel) visited [] = some false
cycle_loop by_id id_norm (suc fuel) visited (cur ∷ stack) =
    let skip = cycle_loop by_id id_norm fuel visited stack in
    let visit =
      cycle_loop by_id id_norm fuel (cur ∷ visited)
        (push_unvisited (cur ∷ visited) (deps_or_nil by_id cur) stack) in
    if str_eq cur id_norm then some true else if contains_str visited cur then skip else visit

-- The dependencies of the entries that were not visited.
abbrev pub unvisited_edges : List String → Graph → ℕ
unvisited_edges visited [] = 0
unvisited_edges visited ((k, ds) ∷ entries) =
    (if contains_str visited k then 0 else length ds) + unvisited_edges visited entries

abbrev pub rev_onto : List String → List String → List String
rev_onto [] acc = acc
rev_onto (x ∷ xs) acc = rev_onto xs (x ∷ acc)

-- The stack starts as `prospective_deps`, whose last element is on top.
unfoldable pub depends_on_creates_cycle_in_graph : Graph → String → List String → Option Bool
depends_on_creates_cycle_in_graph by_id id prospective_deps =
    cycle_loop by_id (normalize_milestone_id id)
      (suc (length prospective_deps + unvisited_edges [] by_id)) [] (rev_onto prospective_deps [])
