-- ===== src/Cycle/Adding/Acyclic.antt =====
-- Adding a dependency keeps the plan free of cycles.
use master_plan.Prelude.{
  String, ◌≡◌, refl, sym, ap, subst, ◌∙◌, inl, inr, Bool, true, false, ◌||◌, Option, none, some,
  List, [], ◌∷◌, ◌++◌, map, arith, str_eq, eq_iff, Bool-cases, Option-cases, any, find,
  contains_str, contains-snoc, distinct, Result, ok, err, ok-injective, some-injective,
}
use master_plan.Model.Milestone.{MilestoneFile}
use master_plan.Paths.{normalize_milestone_id}
use master_plan.PathEngine.Action.{id_of}
use master_plan.Cycle.{
  Graph, build_depends_on_graph, deps_or_nil, or_nil, depends_on_creates_cycle_in_graph,
}
use master_plan.Cycle.Paths.{depends_on_creates_cycle_in_graph_complete}
use master_plan.Cycle.Adding.Written.{target_written, write_back_self, find-named, others_kept}
use master_plan.Cycle.Adding.Chains.{IsAcyclic, stays-IsAcyclic}
use master_plan.Cycle.Adding.{
  DependencyError, would_create_cycle, add_depends_on, add_depends_on_with_graph, prospective_deps,
  write_back, is_dependency,
}

prospective-contains :
    (g : Graph) (id dep x : String)
    → contains_str (prospective_deps g id dep) x ≡ contains_str (deps_or_nil g id) x || str_eq dep x
unfolding prospective_deps
prospective-contains g id dep x = elim (Bool-cases (contains_str (deps_or_nil g id) dep)) [
  | inl e ↦ elim (Bool-cases (str_eq dep x)) [
    | inl f ↦
        (let there : contains_str (deps_or_nil g id) x ≡ true =
            subst (λ v. contains_str (deps_or_nil g id) v ≡ true) ((eq_iff dep x).0 f) e in
          rw (e, f, there) refl)
    | inr f ↦ rw (e, f) (ground arith)
  ]
  | inr e ↦ rw e (contains-snoc (deps_or_nil g id) dep x)
]

map-snoc :
    (ds : List String) (d : String)
    → map normalize_milestone_id (ds ++ d ∷ [])
      ≡ map normalize_milestone_id ds ++ normalize_milestone_id d ∷ []
map-snoc [] d = refl
map-snoc (x ∷ xs) d = ap (λ ys. normalize_milestone_id x ∷ ys) (map-snoc xs d)

-- What is stored keeps the id, and its dependencies are those before and the new one.
stored_deps :
    (m : MilestoneFile) (depends_on : String) (commit : Bool)
    → normalize_milestone_id (normalize_milestone_id depends_on) ≡ normalize_milestone_id depends_on
    → (id_of (add_depends_on_with_graph m depends_on commit).0 ≡ id_of m)
      × ((x : String)
          → contains_str
              (map normalize_milestone_id
                (add_depends_on_with_graph m depends_on commit).0.milestone.depends_on)
              x
            ≡ true
          → contains_str (map normalize_milestone_id m.milestone.depends_on) x
              || str_eq (normalize_milestone_id depends_on) x
            ≡ true)
unfolding add_depends_on_with_graph
stored_deps m depends_on commit stable =
    elim (Bool-cases
      (any (is_dependency (normalize_milestone_id depends_on)) m.milestone.depends_on)) [
        | inl e ↦ rw e (refl, λ x h. rw h refl)
        | inr e ↦ elim (Bool-cases commit) [
          | inl f ↦
              rw (e, f)
                (
                  refl,
                  λ x h.
                      sym (
                        contains-snoc (map normalize_milestone_id m.milestone.depends_on)
                          (normalize_milestone_id depends_on) x)
                      ∙ (rw
                          (
                            map-snoc m.milestone.depends_on (normalize_milestone_id depends_on),
                            stable,
                          )
                          at h),
                )
          | inr f ↦ rw (e, f) (refl, λ x h. rw h refl)
        ]
      ]

add_depends_on-eq-ok :
    (ms : List MilestoneFile) (m : MilestoneFile) (id depends_on : String) (commit : Bool)
    (r : MilestoneFile × MilestoneFile)
    → add_depends_on ms m id depends_on commit ≡ some (ok r)
    → (depends_on_creates_cycle_in_graph (build_depends_on_graph ms) id (
          prospective_deps
            (build_depends_on_graph ms)
            (normalize_milestone_id id)
            (normalize_milestone_id depends_on))
        ≡ some false)
      × (add_depends_on_with_graph m depends_on commit ≡ r)
unfolding add_depends_on
add_depends_on-eq-ok ms m id depends_on commit r h =
    elim (Option-cases (
      depends_on_creates_cycle_in_graph (build_depends_on_graph ms) id (
        prospective_deps (build_depends_on_graph ms) (normalize_milestone_id id)
          (normalize_milestone_id depends_on)))) [
            | inl e ↦
                (let none_some : ◌≡◌
                      {A = Option (Result DependencyError (MilestoneFile × MilestoneFile))} none
                      (some (ok r)) =
                    rw (add_depends_on, e) at h in
                  cc)
            | inr (creates, e) ↦ elim (Bool-cases creates) [
              | inl f ↦
                  (let refused : ◌≡◌
                        {A = Option (Result DependencyError (MilestoneFile × MilestoneFile))}
                        (some (
                          err (
                            would_create_cycle (normalize_milestone_id depends_on)
                              (normalize_milestone_id id))))
                        (some (ok r)) =
                      rw (add_depends_on, e, f) at h in
                    cc)
              | inr f ↦
                  (e ∙ ap some f, ok-injective (some-injective (rw (add_depends_on, e, f) at h)))
            ]
          ]

-- Where no chain of dependencies in a plan with distinct ids leads back to where it starts, an
-- accepted `add_depends_on` on one of its milestones leaves no such chain either, for a dependency
-- whose normal form is its own normal form.
pub add_depends_on-IsAcyclic :
    (ms : List MilestoneFile) (m stored returned : MilestoneFile) (id depends_on : String)
    (commit : Bool)
    → distinct (map id_of ms) ≡ true
    → find (λ x. str_eq (id_of x) (normalize_milestone_id id)) ms ≡ some m
    → normalize_milestone_id (normalize_milestone_id depends_on) ≡ normalize_milestone_id depends_on
    → IsAcyclic (build_depends_on_graph ms)
    → add_depends_on ms m id depends_on commit ≡ some (ok (stored, returned))
    → IsAcyclic (build_depends_on_graph (write_back (normalize_milestone_id id) stored ms))
add_depends_on-IsAcyclic ms m stored returned id depends_on commit once found stable acyclic h =
    let id_norm = normalize_milestone_id id in
    let dep = normalize_milestone_id depends_on in
    let g = build_depends_on_graph ms in
    let (answer, applied) = add_depends_on-eq-ok ms m id depends_on commit _ h in
    let (same_id, deps) = stored_deps m depends_on commit stable in
    let is_stored : (add_depends_on_with_graph m depends_on commit).0 ≡ stored =
      ap (λ (r : MilestoneFile × MilestoneFile). r.0) applied in
    let at_id : id_of stored ≡ id_norm =
      ap id_of (sym is_stored) ∙ same_id ∙ find-named id_norm ms found in
    let before : deps_or_nil g id_norm ≡ map normalize_milestone_id m.milestone.depends_on =
      ap (λ ns. deps_or_nil (build_depends_on_graph ns) id_norm)
        (sym (write_back_self id_norm ms found))
      ∙ ap or_nil (target_written id_norm m (find-named id_norm ms found) ms once found) in
    let after : deps_or_nil (build_depends_on_graph (write_back id_norm stored ms)) id_norm
        ≡ map normalize_milestone_id stored.milestone.depends_on =
      ap or_nil (target_written id_norm stored at_id ms once found) in
    stays-IsAcyclic g (build_depends_on_graph (write_back id_norm stored ms)) id_norm
      (prospective_deps g id_norm dep)
      (λ x other. ap or_nil (others_kept id_norm stored at_id ms x other))
      (λ x h.
        prospective-contains g id_norm dep x
        ∙ (ap (λ xs. contains_str xs x || str_eq dep x) before
            ∙ deps x (
                subst
                  (λ (w : MilestoneFile).
                    contains_str (map normalize_milestone_id w.milestone.depends_on) x ≡ true)
                  (sym is_stored) (sym (ap (λ xs. contains_str xs x) after) ∙ h))))
      acyclic
      (depends_on_creates_cycle_in_graph_complete g id (prospective_deps g id_norm dep) answer)
