-- ===== src/PathEngine/Lanes/Ordering.antt =====
-- The order of the execution lane, crates/mp/src/path_engine.rs.
use master_plan.Prelude.{
  ℕ, ◌+◌, String, ◌≡◌, refl, sym, ◌∙◌, ◌≢◌, inl, inr, true, Option, none, some, List, [], ◌∷◌,
  arith, str_eq, eq_iff, Bool-cases, contains_str, some-injective, one_if, count, contains_of_count,
  Memᴰ, position,
}
use master_plan.Model.Milestone.{MilestoneFile}
use master_plan.PathEngine.Action.{id_of}
use master_plan.PathEngine.Topo.{milestone_ids, topo_sort_milestones}
use master_plan.PathEngine.Topo.Placed.{IsHashOrder, milestone_id-listed}
use master_plan.PathEngine.Topo.Order.{topo_sort_milestones_total}
use master_plan.PathEngine.Lanes.{le_in_baseline, le_in_execution}

-- Every text of a list has a position, and no other text has the same one.
position_found :
    (id : String) (xs : List String)
    → contains_str xs id ≡ true
    → (n : ℕ) × (position (λ x. str_eq x id) xs ≡ some n)
position_found id [] h = cc
position_found id (x ∷ xs) h = elim (Bool-cases (str_eq x id)) [
  | inl e ↦ (0, rw e refl)
  | inr e ↦ (let (n, f) = position_found id xs (rw e at h) in (n + 1, rw (e, f) refl))
]

successor_position :
    (o : Option ℕ) (n : ℕ)
    → ◌≡◌ {A = Option ℕ} (elim o [ none ↦ none | some k ↦ some (k + 1) ]) (some n)
    → (k : ℕ) × (o ≡ some k) × (n ≡ k + 1)
successor_position none n h = cc
successor_position (some k) n h = (k, refl, sym (some-injective h))

position_unique :
    (a b : String) (xs : List String) (n : ℕ)
    → position (λ x. str_eq x a) xs ≡ some n
    → position (λ x. str_eq x b) xs ≡ some n
    → a ≡ b
position_unique a b [] n h k = cc
position_unique a b (x ∷ xs) n h k = elim (Bool-cases (str_eq x a)) [
  | inl e ↦ elim (Bool-cases (str_eq x b)) [
    | inl f ↦ sym ((eq_iff x a).0 e) ∙ (eq_iff x b).0 f
    | inr f ↦
        (let zero_here : 0 ≡ n = some-injective (rw e at h) in
          let (j, g, later) = successor_position (position (λ y. str_eq y b) xs) n (rw f at k) in
          absurd (omega (arith, zero_here, later)))
  ]
  | inr e ↦ elim (Bool-cases (str_eq x b)) [
    | inl f ↦
        (let zero_here : 0 ≡ n = some-injective (rw f at k) in
          let (j, g, later) = successor_position (position (λ y. str_eq y a) xs) n (rw e at h) in
          absurd (omega (arith, zero_here, later)))
    | inr f ↦
        (let (i, g, later) = successor_position (position (λ y. str_eq y a) xs) n (rw e at h) in
          let (j, g2, later2) = successor_position (position (λ y. str_eq y b) xs) n (rw f at k) in
          let same : j ≡ i = omega (arith, later, later2) in
          position_unique a b xs i g (rw same at g2))
  ]
]

-- In the execution lane of a plan the priority decides nothing between two milestones with
-- different ids: they stand in the order of their places in the baseline.
pub execution_order_ignores_priority :
    (hash_order : List String → List String)
    → IsHashOrder hash_order
    → (ms : List MilestoneFile) (baseline : List String)
    → topo_sort_milestones hash_order ms ≡ some baseline
    → (a b : MilestoneFile) → Memᴰ a ms
    → Memᴰ b ms
    → id_of a ≢ id_of b
    → le_in_execution baseline a b ≡ le_in_baseline baseline a b
unfolding le_in_execution le_in_baseline
execution_order_ignores_priority hash_order fair ms baseline sorted a b a_in b_in differ =
    let (found, sorted2, counts) = topo_sort_milestones_total hash_order fair ms in
    let (i, at_a) = position_found (id_of a) baseline (listed a a_in found sorted2 counts) in
    let (j, at_b) = position_found (id_of b) baseline (listed b b_in found sorted2 counts) in
    let apart : i ≢ j =
      λ e. differ (position_unique (id_of a) (id_of b) baseline j (rw e at at_a) at_b) in
    rw (at_a, at_b) (ground arith)
  where
    listed :
        (m : MilestoneFile)
        → Memᴰ m ms
        → (found : List String) → topo_sort_milestones hash_order ms ≡ some found
        → ((x : String) → count x found ≡ one_if (contains_str (milestone_ids ms) x))
        → contains_str baseline (id_of m) ≡ true
    listed m h found sorted2 counts = contains_of_count (id_of m) baseline (
        rw (some-injective (sym sorted ∙ sorted2), counts (id_of m), milestone_id-listed m ms h)
          (omega arith))
