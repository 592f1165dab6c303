-- ===== src/Cycle/Ends.antt =====
-- The search of crates/mp/src/milestone/spec.rs for a cycle ends.
use master_plan.Prelude.{
  ℕ, zero, suc, ◌+◌, ◌≤◌, ◌<◌, String, ◌≡◌, refl, ap, ◌∙◌, inl, inr, Bool, true, false, ◌||◌,
  Option, none, some, List, [], ◌∷◌, arith, str_eq, eq_iff, if◌then◌else◌, Bool-cases, length,
  contains_str, str_eq_comm,
}
use master_plan.Paths.{normalize_milestone_id}
use master_plan.Cycle.{
  Graph, deps_of, deps_or_nil, or_nil, later, push_unvisited, cycle_loop, unvisited_edges, rev_onto,
  depends_on_creates_cycle_in_graph,
}

length-rev_onto : (xs acc : List String) → length (rev_onto xs acc) ≡ length xs + length acc
length-rev_onto [] acc = omega arith
length-rev_onto (x ∷ xs) acc = omega (arith, length-rev_onto xs (x ∷ acc))

length-push_unvisited :
    (visited ds stack : List String)
    → length (push_unvisited visited ds stack) ≤ length ds + length stack
length-push_unvisited visited [] stack = omega arith
length-push_unvisited visited (d ∷ ds) stack = elim (Bool-cases (contains_str visited d)) [
  | inl e ↦ rw e (omega (arith, length-push_unvisited visited ds stack))
  | inr e ↦ rw e (omega (arith, length-push_unvisited visited ds (d ∷ stack)))
]

-- Visiting an id takes its dependencies off the count.
unvisited_edges_mono :
    (visited : List String) (cur : String) (g : Graph)
    → unvisited_edges (cur ∷ visited) g ≤ unvisited_edges visited g
unvisited_edges_mono visited cur [] = omega arith
unvisited_edges_mono visited cur ((k, ds) ∷ g) =
    let rest = unvisited_edges_mono visited cur g in
    elim (Bool-cases (contains_str visited k)) [
      | inl e ↦ elim (Bool-cases (str_eq cur k)) [
        | inl f ↦ rw (e, f) (omega arith)
        | inr f ↦ rw (e, f) (omega arith)
      ]
      | inr e ↦ elim (Bool-cases (str_eq cur k)) [
        | inl f ↦ rw (e, f) (omega arith)
        | inr f ↦ rw (e, f) (omega arith)
      ]
    ]

part_mono : (a c : Bool) (n : ℕ) → (if a || c then 0 else n) ≤ (if c then 0 else n)
part_mono true true n = omega arith
part_mono true false n = omega arith
part_mono false c n = omega arith

-- The dependencies of an id, where one entry comes before the others.
picked :
    (o : Option (List String)) (b : Bool) (ds : List String)
    → length (or_nil (later o (if b then some ds else none)))
      ≤ length (or_nil o) + (if b then length ds else 0)
picked none true ds = omega arith
picked none false ds = omega arith
picked (some es) b ds = omega arith

visit_edges :
    (visited : List String) (cur : String) (g : Graph)
    → contains_str visited cur ≡ false
    → unvisited_edges (cur ∷ visited) g + length (deps_or_nil g cur) ≤ unvisited_edges visited g
visit_edges visited cur [] n = omega arith
visit_edges visited cur ((k, ds) ∷ g) n =
    let rest = visit_edges visited cur g n in
    let mono = part_mono (str_eq cur k) (contains_str visited k) (length ds) in
    let deps = picked (deps_of g cur) (str_eq k cur) ds in
    elim (Bool-cases (str_eq k cur)) [
      | inl f ↦
          (let here : contains_str visited k ≡ false =
              ap (λ i. contains_str visited i) ((eq_iff k cur).0 f) ∙ n in
            let there : str_eq cur k ≡ true = str_eq_comm cur k ∙ f in
            let own : (if str_eq k cur then length ds else 0) ≡ length ds = rw f refl in
            let left : (if str_eq cur k || contains_str visited k then 0 else length ds) ≡ 0 =
              rw there refl in
            let right : (if contains_str visited k then 0 else length ds) ≡ length ds =
              rw here refl in
            omega (arith, rest, deps, own, left, right))
      | inr f ↦
          (let none_here : (if str_eq k cur then length ds else 0) ≡ 0 = rw f refl in
            omega (arith, rest, mono, deps, none_here))
    ]

fuel_suffices :
    (g : Graph) (id : String) (fuel : ℕ) (visited stack : List String)
    → length stack + unvisited_edges visited g < fuel
    → (b : Bool) × (cycle_loop g id fuel visited stack ≡ some b)
unfolding cycle_loop
fuel_suffices g id zero visited stack h = absurd (omega arith)
fuel_suffices g id (suc fuel) visited [] h = (false, refl)
fuel_suffices g id (suc fuel) visited (cur ∷ stack) h = elim (Bool-cases (str_eq cur id)) [
  | inl e ↦ (true, rw e refl)
  | inr e ↦ elim (Bool-cases (contains_str visited cur)) [
    | inl f ↦ rw (e, f) (fuel_suffices g id fuel visited stack (omega arith))
    | inr f ↦
        (let shorter = visit_edges visited cur g f in
          let pushed = length-push_unvisited (cur ∷ visited) (deps_or_nil g cur) stack in
          rw (e, f)
            (fuel_suffices g id fuel (cur ∷ visited)
              (push_unvisited (cur ∷ visited) (deps_or_nil g cur) stack)
              (omega (arith, shorter, pushed))))
  ]
]

-- The search ends with an answer on every graph, cyclic or not.
pub depends_on_creates_cycle_in_graph-ends :
    (g : Graph) (id : String) (prospective_deps : List String)
    → (b : Bool) × (depends_on_creates_cycle_in_graph g id prospective_deps ≡ some b)
unfolding depends_on_creates_cycle_in_graph
depends_on_creates_cycle_in_graph-ends g id prospective_deps =
    fuel_suffices g (normalize_milestone_id id)
      (suc (length prospective_deps + unvisited_edges [] g)) [] (rev_onto prospective_deps [])
      (omega (arith, length-rev_onto prospective_deps []))
