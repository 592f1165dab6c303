-- ===== src/PathEngine/Topo/Edges.antt =====
-- The graph that `topo_sort_milestones` builds, crates/mp/src/path_engine.rs.
use master_plan.Prelude.{
  ◌+◌, ◌<◌, String, ◌≡◌, refl, sym, subst, ◌∙◌, ◌⊎◌, inl, inr, Bool, true, false, not, ◌&&◌, ◌||◌,
  none, some, List, [], ◌∷◌, ◌++◌, arith, str_eq, eq_iff, if◌then◌else◌, Bool-cases, all,
  contains_str, one_if, count,
}
use master_plan.Prelude.Text.{is_empty}
use master_plan.Model.Milestone.{MilestoneFile}
use master_plan.Paths.{or_zero, normalize_milestone_id}
use mathlib.Core.List.Memᴰ
use mathlib.Core.List.{Memᴰ}
use master_plan.PathEngine.Topo.{
  Graph, children, empty_graph, add_edge, add_dependency, add_dependencies, add_milestones,
}
use master_plan.PathEngine.Topo.Degrees.{pending, pending-append}

-- `dep` is read as a dependency: it is not blank, not "none", and names one of `ids`.
abbrev pub counts_as_dependency : List String → String → Bool
counts_as_dependency ids dep =
    not (is_empty dep || str_eq dep "none") && contains_str ids (normalize_milestone_id dep)

add_dependency-cases :
    (ids : List String) (to dep : String) (g : Graph)
    → ((counts_as_dependency ids dep ≡ true)
        × (add_dependency ids to dep g ≡ add_edge (normalize_milestone_id dep) to g))
      ⊎ ((counts_as_dependency ids dep ≡ false) × (add_dependency ids to dep g ≡ g))
unfolding add_dependency
add_dependency-cases ids to dep g = elim (Bool-cases (is_empty dep || str_eq dep "none")) [
  | inl h ↦ rw h (inr (refl, refl))
  | inr h ↦ elim (Bool-cases (contains_str ids (normalize_milestone_id dep))) [
    | inl k ↦ rw (h, k) (inl (refl, refl))
    | inr k ↦ rw (h, k) (inr (refl, refl))
  ]
]

-- What holds of the empty graph and is kept by each edge holds of the graph.
module _ (ids : List String) (P : Graph → Type 0) where
  add_dependencies_ind :
      (to : String) (deps : List String)
      → ((dep : String) (g : Graph)
          → Memᴰ dep deps
          → counts_as_dependency ids dep ≡ true
          → P g
          → P (add_edge (normalize_milestone_id dep) to g))
      → (g : Graph) → P g
      → P (add_dependencies ids to deps g)
  unfolding add_dependencies
  add_dependencies_ind to [] rule g p = p
  add_dependencies_ind to (dep ∷ deps) rule g p =
      add_dependencies_ind to deps (λ d h m. rule d h (Memᴰ.tail m)) _
        (elim (add_dependency-cases ids to dep g) [
          | inl (c, e) ↦ rw e (rule dep g (Memᴰ.head refl) c p)
          | inr (c, e) ↦ rw e p
        ])

  pub add_milestones_ind :
      (ms : List MilestoneFile)
      → ((m : MilestoneFile) (dep : String) (g : Graph)
          → Memᴰ m ms
          → Memᴰ dep m.milestone.depends_on
          → counts_as_dependency ids dep ≡ true
          → P g
          → P (add_edge (normalize_milestone_id dep) (normalize_milestone_id m.milestone.id) g))
      → (g : Graph) → P g
      → P (add_milestones ids ms g)
  unfolding add_milestones
  add_milestones_ind [] rule g p = p
  add_milestones_ind (m ∷ ms) rule g p =
      add_milestones_ind ms (λ n dep h k. rule n dep h (Memᴰ.tail k)) _
        (add_dependencies_ind _ m.milestone.depends_on (λ dep h. rule m dep h (Memᴰ.head refl)) g p)

-- `indegree` counts the incoming edges, and every edge leads to one of the ids.
pub record Built (ids : List String) (g : Graph) : Type 0 where
  pub counted : (x : String) → or_zero (g.indegree x) ≡ pending [] x g.edges
  pub targets : (node x : String) → 0 < count x (children node g.edges) → 0 < count x ids

nothing_counted : (b : Bool) → or_zero (if b then some 0 else none) ≡ 0
nothing_counted b = ground arith

count-children_snoc :
    (node x from to : String) (es : List (String × String))
    → count x (children node (es ++ (from, to) ∷ []))
      ≡ count x (children node es) + (if str_eq from node then one_if (str_eq to x) else 0)
count-children_snoc node x from to [] = ground arith
count-children_snoc node x from to ((a, b) ∷ es) =
    ground (arith, count-children_snoc node x from to es)

pub empty_graph-Built : (ids : List String) → Built ids (empty_graph ids)
unfolding empty_graph
empty_graph-Built ids = record {
  counted = λ x. nothing_counted (contains_str ids x);
  targets = λ node x h. absurd (omega (arith, h));
}

pub add_edge-Built :
    (ids : List String) (from to : String) (g : Graph)
    → 0 < count to ids
    → Built ids g
    → Built ids (add_edge from to g)
unfolding add_edge
add_edge-Built ids from to g listed v = record {
  counted = λ x.
      rw (pending-append [] x g.edges ((from, to) ∷ [])) (elim (Bool-cases (str_eq to x)) [
        | inl e ↦ rw (e, (eq_iff to x).0 e) (omega (arith, v.counted x))
        | inr e ↦ rw e (omega (arith, v.counted x))
      ]);
  targets = λ node x h. elim (Bool-cases (str_eq to x)) [
    | inl e ↦ rw (sym ((eq_iff to x).0 e)) listed
    | inr e ↦ v.targets node x (ground (arith, h, count-children_snoc node x from to g.edges))
  ];
}

-- Each dependency that counts is an edge.
module _ (ids : List String) (e : String × String) where
  add_edge-grows :
      (from to : String) (g : Graph) → Memᴰ e g.edges → Memᴰ e (add_edge from to g).edges
  unfolding add_edge
  add_edge-grows from to g h = Memᴰ.append_left ((from, to) ∷ []) h

  add_dependencies-grows :
      (to : String) (deps : List String) (g : Graph)
      → Memᴰ e g.edges
      → Memᴰ e (add_dependencies ids to deps g).edges
  add_dependencies-grows to deps =
      add_dependencies_ind ids (λ g. Memᴰ e g.edges) to deps λ dep g _ _. add_edge-grows _ to g

  add_milestones-grows :
      (ms : List MilestoneFile) (g : Graph)
      → Memᴰ e g.edges
      → Memᴰ e (add_milestones ids ms g).edges
  add_milestones-grows ms =
      add_milestones_ind ids (λ g. Memᴰ e g.edges) ms λ m dep g _ _ _. add_edge-grows _ _ g

module _ (ids : List String) (dep : String) (counts : counts_as_dependency ids dep ≡ true) where
  edge_added :
      (to : String) (g : Graph)
      → Memᴰ (normalize_milestone_id dep, to) (add_dependency ids to dep g).edges
  unfolding add_edge
  edge_added to g = elim (add_dependency-cases ids to dep g) [
    | inl (c, e) ↦ rw e (Memᴰ.append_right g.edges (Memᴰ.head refl))
    | inr (c, e) ↦ (let no : false ≡ true = sym c ∙ counts in cc)
  ]

  edge_of_dependency :
      (to : String) (deps : List String) (g : Graph)
      → Memᴰ dep deps
      → Memᴰ (normalize_milestone_id dep, to) (add_dependencies ids to deps g).edges
  unfolding add_dependencies
  edge_of_dependency to [] g h = elim h [ ]
  edge_of_dependency to (d ∷ deps) g (Memᴰ.head e) =
      add_dependencies-grows ids _ to deps _ (rw (sym e) (edge_added to g))
  edge_of_dependency to (d ∷ deps) g (Memᴰ.tail h) = edge_of_dependency to deps _ h

  pub edge_of_milestone :
      (m : MilestoneFile)
      → Memᴰ dep m.milestone.depends_on
      → (ms : List MilestoneFile) (g : Graph) → Memᴰ m ms
      → Memᴰ
          (normalize_milestone_id dep, normalize_milestone_id m.milestone.id)
          (add_milestones ids ms g).edges
  unfolding add_milestones
  edge_of_milestone m d [] g h = elim h [ ]
  edge_of_milestone m d (n ∷ ms) g (Memᴰ.head e) = add_milestones-grows ids _ ms _ (
      subst
        (λ (k : MilestoneFile).
          Memᴰ (normalize_milestone_id dep, normalize_milestone_id m.milestone.id)
            (add_dependencies ids (normalize_milestone_id k.milestone.id) k.milestone.depends_on
              g).edges)
        e (edge_of_dependency (normalize_milestone_id m.milestone.id) m.milestone.depends_on g d))
  edge_of_milestone m d (n ∷ ms) g (Memᴰ.tail h) = edge_of_milestone m d ms _ h

-- What holds of every dependency that counts holds along every edge.
module _ (ids : List String) (R : String → String → Type 0) where
  AllEdges : Graph → Type 0
  AllEdges g = (from to : String) → Memᴰ (from, to) g.edges → R from to

  add_edge-all :
      (from to : String) (g : Graph) → R from to → AllEdges g → AllEdges (add_edge from to g)
  unfolding add_edge AllEdges
  add_edge-all from to g r all a b h = elim (Memᴰ.append_cases g.edges h) [
    | inl k ↦ all a b k
    | inr k ↦ subst (λ (e : String × String). R e.0 e.1) (sym (Memᴰ.eq_of_singleton k)) r
  ]

  pub edges_all :
      (ms : List MilestoneFile)
      → ((m : MilestoneFile) (dep : String)
          → Memᴰ m ms
          → Memᴰ dep m.milestone.depends_on
          → counts_as_dependency ids dep ≡ true
          → R (normalize_milestone_id dep) (normalize_milestone_id m.milestone.id))
      → (from to : String) → Memᴰ (from, to) (add_milestones ids ms (empty_graph ids)).edges
      → R from to
  unfolding AllEdges empty_graph
  edges_all ms rule =
      add_milestones_ind ids AllEdges ms
        (λ m dep g m_in dep_in c. add_edge-all _ _ g (rule m dep m_in dep_in c)) (empty_graph ids)
        (λ from to h. elim h [ ])
