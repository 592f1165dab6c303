-- ===== src/Tests/Cycle.antt =====
-- The cycle search at a small graph.
use master_plan.Prelude.{
  ℕ, zero, suc, ◌+◌, ◌-◌, ◌*◌, ◌/◌, ◌%◌, ◌≤◌, ◌<◌, max, String, ◌≡◌, refl, sym, ap, subst, ◌∙◌, ◌≢◌,
  ◌↔◌, ◌⊎◌, inl, inr, Bool, true, false, not, ◌&&◌, ◌||◌, Option, none, some, List, [], ◌∷◌, ◌++◌,
  map, arith, str_eq, eq_iff, ltb, leb, ◌==◌, if◌then◌else◌, Bool-cases, Option-cases, and_true,
  or_eq_false, or_false, length, any, all, find, filter, update_first, remove_first, contains_str,
  distinct, filter-eq-nil, not-true, and_eq_true, str_eq_comm, str_eq_refl, Result, ok, err, ◌>>=◌,
  ◌>>◌, bail_if, is_nil, nil_of, append-eq-nil, is_nil-append, not-false, bind-eq-ok, bail_if-eq-ok,
  ok-injective, some-injective, distinct-snoc,
}
use master_plan.Paths.{normalize_milestone_id}
use master_plan.Cycle.{Graph, depends_on_creates_cycle_in_graph}
use master_plan.Cycle.Ends.{depends_on_creates_cycle_in_graph-ends}
use master_plan.Model.Milestone.{MilestoneFile, default_milestone, default_meta}
use master_plan.Cycle.{build_depends_on_graph}
use master_plan.Cycle.Adding.{add_depends_on, write_back, with_depends_on}
use master_plan.Cycle.Adding.Chains.{IsAcyclic}
use master_plan.Cycle.Adding.Acyclic.{add_depends_on-IsAcyclic}
use master_plan.Cycle.Paths.{
  Reached, depends_on_creates_cycle_in_graph_sound, depends_on_creates_cycle_in_graph_complete,
}

-- 01 depends on 02, and 02 on 03.
abbrev chain_graph : Graph
chain_graph = ("01", "02" ∷ []) ∷ ("02", "03" ∷ []) ∷ ("03", []) ∷ []

depends_on_creates_cycle_in_graph-ends_example :
    (b : Bool) × (depends_on_creates_cycle_in_graph chain_graph "M03" ("01" ∷ []) ≡ some b)
depends_on_creates_cycle_in_graph-ends_example =
    depends_on_creates_cycle_in_graph-ends chain_graph "M03" ("01" ∷ [])

depends_on_creates_cycle_in_graph_sound_example :
    Reached chain_graph ("01" ∷ []) (normalize_milestone_id "M03")
unfolding depends_on_creates_cycle_in_graph master_plan.Cycle.cycle_loop normalize_milestone_id
    master_plan.Prelude.Text.split_once master_plan.Prelude.Text.skip_chars
    master_plan.Prelude.Text.trim master_plan.Prelude.Text.trim_end
    master_plan.Prelude.Text.trim_start master_plan.Paths.normalize_top_level_milestone_id
    master_plan.Prelude.Text.Decimal.show_02 master_plan.Prelude.Text.Decimal.parse_u32
    master_plan.Prelude.Text.Decimal.show
depends_on_creates_cycle_in_graph_sound_example =
    depends_on_creates_cycle_in_graph_sound chain_graph "M03" ("01" ∷ []) refl

depends_on_creates_cycle_in_graph_complete_example :
    ¬ Reached chain_graph ("02" ∷ "03" ∷ []) (normalize_milestone_id "M01")
unfolding depends_on_creates_cycle_in_graph master_plan.Cycle.cycle_loop normalize_milestone_id
    master_plan.Prelude.Text.split_once master_plan.Prelude.Text.skip_chars
    master_plan.Prelude.Text.trim master_plan.Prelude.Text.trim_end
    master_plan.Prelude.Text.trim_start master_plan.Paths.normalize_top_level_milestone_id
    master_plan.Prelude.Text.Decimal.show_02 master_plan.Prelude.Text.Decimal.parse_u32
    master_plan.Prelude.Text.Decimal.show
depends_on_creates_cycle_in_graph_complete_example =
    depends_on_creates_cycle_in_graph_complete chain_graph "M01" ("02" ∷ "03" ∷ []) refl

-- 01 and 02 wait for nothing yet.
abbrev first_in_plan : MilestoneFile
first_in_plan = record default_milestone { milestone = record default_meta { id = "M01" } }

abbrev second_in_plan : MilestoneFile
second_in_plan = record default_milestone { milestone = record default_meta { id = "M02" } }

abbrev plan : List MilestoneFile
plan = first_in_plan ∷ second_in_plan ∷ []

abbrev second_behind_first : MilestoneFile
second_behind_first = with_depends_on ("01" ∷ []) second_in_plan

plan-IsAcyclic : IsAcyclic (build_depends_on_graph plan)
unfolding normalize_milestone_id master_plan.Prelude.Text.split_once
    master_plan.Prelude.Text.skip_chars master_plan.Prelude.Text.trim
    master_plan.Prelude.Text.trim_end master_plan.Prelude.Text.trim_start
    master_plan.Paths.normalize_top_level_milestone_id master_plan.Prelude.Text.Decimal.show_02
    master_plan.Prelude.Text.Decimal.parse_u32 master_plan.Prelude.Text.Decimal.show
plan-IsAcyclic x (d, d_in, l) = elim (Bool-cases (str_eq "02" x)) [
  | inl e ↦ (let stuck : false ≡ true = rw e at d_in in cc)
  | inr e ↦ elim (Bool-cases (str_eq "01" x)) [
    | inl f ↦ (let stuck : false ≡ true = rw (e, f) at d_in in cc)
    | inr f ↦ (let stuck : false ≡ true = rw (e, f) at d_in in cc)
  ]
]

add_depends_on-IsAcyclic_example :
    IsAcyclic
      (build_depends_on_graph (write_back (normalize_milestone_id "M02") second_behind_first plan))
unfolding normalize_milestone_id master_plan.Prelude.Text.split_once
    master_plan.Prelude.Text.skip_chars master_plan.Prelude.Text.trim
    master_plan.Prelude.Text.trim_end master_plan.Prelude.Text.trim_start
    master_plan.Paths.normalize_top_level_milestone_id master_plan.Prelude.Text.Decimal.show_02
    master_plan.Prelude.Text.Decimal.parse_u32 master_plan.Prelude.Text.Decimal.show add_depends_on
    depends_on_creates_cycle_in_graph master_plan.Cycle.cycle_loop
    master_plan.Cycle.Adding.prospective_deps master_plan.Cycle.Adding.add_depends_on_with_graph
add_depends_on-IsAcyclic_example =
    add_depends_on-IsAcyclic plan second_in_plan second_behind_first second_behind_first "M02" "M01"
      true refl refl refl plan-IsAcyclic refl
