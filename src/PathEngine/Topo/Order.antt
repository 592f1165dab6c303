-- ===== src/PathEngine/Topo/Order.antt =====
-- The result of `topo_sort_milestones`, crates/mp/src/path_engine.rs.
use master_plan.Prelude.{
  ℕ, ◌+◌, ◌≤◌, ◌<◌, String, ◌≡◌, refl, sym, ◌∙◌, true, some, List, [], arith, length, contains_str,
  and_eq_true, some-injective, one_if, count, count_of_contains, one_if-le, before,
}
use master_plan.Model.Milestone.{MilestoneFile}
use master_plan.Paths.{normalize_milestone_id, sort_ids}
use mathlib.Core.List.{Memᴰ}
use master_plan.PathEngine.Topo.{
  hash_set, milestone_ids, with_rest, roots, topo_sort_milestones, drain, empty_graph,
}
use master_plan.PathEngine.Topo.Edges.{counts_as_dependency, edge_of_milestone, edges_all}
use master_plan.PathEngine.Topo.Loop.{Drained, drain_ind}
use master_plan.PathEngine.Topo.Placed.{
  IsHashOrder, EdgesKept, snoc-EdgesKept, with_rest-counts, all_placed, start-Inv, graph_of,
  graph_of-Built, count-hash_set, contains-hash_set, milestone_id-listed, before-with_rest,
}

-- `rank` puts each dependency below its milestone, so that the plan has no cycle.
abbrev pub IsRanked : (String → ℕ) → List MilestoneFile → Type 0
IsRanked rank ms =
    (m : MilestoneFile) (dep : String)
    → Memᴰ m ms
    → Memᴰ dep m.milestone.depends_on
    → counts_as_dependency (milestone_ids ms) dep ≡ true
    → rank (normalize_milestone_id dep) < rank (normalize_milestone_id m.milestone.id)

counts-hash_set :
    (ms : List MilestoneFile) (dep : String)
    → counts_as_dependency (hash_set (milestone_ids ms)) dep
      ≡ counts_as_dependency (milestone_ids ms) dep
counts-hash_set ms dep = rw (contains-hash_set (normalize_milestone_id dep) (milestone_ids ms)) refl

module _ (hash_order : List String → List String) (fair : IsHashOrder hash_order)
    (ms : List MilestoneFile) where
  milestone_counted :
      (m : MilestoneFile)
      → Memᴰ m ms
      → 0 < count (normalize_milestone_id m.milestone.id) (hash_set (milestone_ids ms))
  milestone_counted m h =
      rw
        (
          count-hash_set (normalize_milestone_id m.milestone.id) (milestone_ids ms),
          milestone_id-listed m ms h,
        )
        (omega arith)

  source_listed :
      (dep : String)
      → counts_as_dependency (hash_set (milestone_ids ms)) dep ≡ true
      → 0 < count (normalize_milestone_id dep) (hash_set (milestone_ids ms))
  source_listed dep c = count_of_contains _ _ (and_eq_true _ _ c).1

  sort_of_drain :
      (out : List String)
      → drain
          (graph_of ms).edges
          (length (hash_set (milestone_ids ms)))
          (graph_of ms).indegree
          (sort_ids (roots (graph_of ms).indegree (hash_order (hash_set (milestone_ids ms)))))
          []
        ≡ some out
      → topo_sort_milestones hash_order ms
        ≡ some (with_rest hash_order (hash_set (milestone_ids ms)) out)
  unfolding topo_sort_milestones
  sort_of_drain out e = rw (topo_sort_milestones, e) refl

  drained :
      (out : List String) × (topo_sort_milestones hash_order ms
        ≡ some (with_rest hash_order (hash_set (milestone_ids ms)) out))
      × Drained (hash_set (milestone_ids ms)) (graph_of ms).edges out
      × EdgesKept (graph_of ms).edges out
  drained =
      let ids = hash_set (milestone_ids ms) in
      let g = graph_of ms in
      let once : (x : String) → count x ids ≤ 1 =
        λ x. rw (count-hash_set x (milestone_ids ms)) (one_if-le _) in
      let built = graph_of-Built ms in
      let (out, e, v, kept) =
        drain_ind ids once g.edges (λ node x h. omega (arith, once x, built.targets node x h))
          (EdgesKept g.edges) (λ out node _. snoc-EdgesKept g.edges out node) (length ids)
          g.indegree (sort_ids (roots g.indegree (hash_order ids))) []
          (start-Inv hash_order fair ids g built) (omega arith)
          (λ from to _ h. absurd (omega (arith, h))) in
      (out, sort_of_drain out e, v, kept)

  -- The sort always ends, and its result holds each milestone id of the plan exactly once and
  -- nothing else, whether or not the dependencies form cycles.
  pub topo_sort_milestones_total :
      (result : List String) × (topo_sort_milestones hash_order ms ≡ some result)
      × ((x : String) → count x result ≡ one_if (contains_str (milestone_ids ms) x))
  topo_sort_milestones_total =
      let (out, e, v, kept) = drained in
      (
        with_rest hash_order (hash_set (milestone_ids ms)) out,
        e,
        λ x. with_rest-counts hash_order fair _ _ out v x ∙ count-hash_set x (milestone_ids ms),
      )

  -- Where some rank puts every dependency below its milestone, that is where the dependencies
  -- form no cycle, each dependency that counts stands in the result before the milestone that
  -- names it.
  pub topo_sort_milestones_puts_dependencies_first :
      (rank : String → ℕ)
      → IsRanked rank ms
      → (result : List String) → topo_sort_milestones hash_order ms ≡ some result
      → (m : MilestoneFile) (dep : String) → Memᴰ m ms
      → Memᴰ dep m.milestone.depends_on
      → counts_as_dependency (milestone_ids ms) dep ≡ true
      → before (normalize_milestone_id dep) (normalize_milestone_id m.milestone.id) result ≡ true
  topo_sort_milestones_puts_dependencies_first rank ranked result done m dep m_in dep_in counts =
      let (out, e, v, kept) = drained in
      let ids = hash_set (milestone_ids ms) in
      let to = normalize_milestone_id m.milestone.id in
      let falls =
        edges_all ids (λ from to. rank from < rank to) ms
          (λ n d n_in d_in c. ranked n d n_in d_in (rw (sym (counts-hash_set ms d)) c)) in
      let sources =
        edges_all ids (λ from to. 0 < count from ids) ms (λ n d n_in d_in c. source_listed d c) in
      let placed =
        all_placed ids (graph_of ms).edges out rank v falls sources (rank to + 1) to
          (omega arith) in
      let listed : 0 < count to out = rw placed (milestone_counted m m_in) in
      let edge =
        edge_of_milestone ids dep (rw (counts-hash_set ms dep) counts) m dep_in ms (empty_graph ids)
          m_in in
      rw (some-injective (sym done ∙ e))
        (before-with_rest hash_order ids out _ to (kept _ to edge listed))
