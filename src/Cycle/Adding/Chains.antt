-- ===== src/Cycle/Adding/Chains.antt =====
-- Chains of dependencies in two graphs that differ at one id.
use master_plan.Prelude.{
  String, ◌≡◌, sym, subst, ◌⊎◌, inl, inr, true, false, List, str_eq, eq_iff, Bool-cases,
  contains_str,
}
use master_plan.Cycle.{Graph, deps_or_nil}
use master_plan.Cycle.Paths.{Leads, Reached, hop, arrived}

-- No milestone depends on itself through a chain of dependencies.
abbrev pub IsAcyclic : Graph → Type 0
IsAcyclic g = (x : String) → ¬ Reached g (deps_or_nil g x) x

onwards : (g : Graph) {s t u : String} → Leads g s t → Leads g t u → Leads g s u
onwards g arrived l = l
onwards g (hop d e k) l = hop d e (onwards g k l)

-- Two graphs that differ in the dependencies of `id` only, which are among `ds` in the second.
module _ (g g2 : Graph) (id : String) (ds : List String)
    (same : (x : String) → str_eq id x ≡ false → deps_or_nil g2 x ≡ deps_or_nil g x)
    (within : (x : String)
      → contains_str (deps_or_nil g2 id) x ≡ true
      → contains_str ds x ≡ true) where
  -- A chain of the second graph is one of the first, or passes `id`.
  through : {s t : String} → Leads g2 s t → Leads g s t ⊎ (Leads g s id × Reached g ds t)
  through arrived = inl arrived
  through {s} {t} (hop d e l) = elim (Bool-cases (str_eq id s)) [
    | inl f ↦
        (let at_id : id ≡ s = (eq_iff id s).0 f in
          let start : Leads g s id = subst (λ v. Leads g v id) at_id arrived in
          let d_in : contains_str ds d ≡ true =
            within d (subst (λ v. contains_str (deps_or_nil g2 v) d ≡ true) (sym at_id) e) in
          elim (through l) [
            | inl k ↦ inr (start, (d, d_in, k))
            | inr (to_id, rest) ↦ inr (start, rest)
          ])
    | inr f ↦
        (let e2 : contains_str (deps_or_nil g s) d ≡ true =
            subst (λ xs. contains_str xs d ≡ true) (same s f) e in
          elim (through l) [
            | inl k ↦ inl (hop d e2 k)
            | inr (to_id, rest) ↦ inr (hop d e2 to_id, rest)
          ])
  ]

  pub stays-IsAcyclic : IsAcyclic g → ¬ Reached g ds id → IsAcyclic g2
  stays-IsAcyclic acyclic apart x (d, d_in, l) = elim (Bool-cases (str_eq id x)) [
    | inl f ↦
        (let at_id : id ≡ x = (eq_iff id x).0 f in
          let among : contains_str ds d ≡ true =
            within d (subst (λ v. contains_str (deps_or_nil g2 v) d ≡ true) (sym at_id) d_in) in
          elim (through l) [
            | inl k ↦ apart (d, among, subst (λ v. Leads g d v) (sym at_id) k)
            | inr (to_id, rest) ↦ apart (d, among, to_id)
          ])
    | inr f ↦
        (let d_in2 : contains_str (deps_or_nil g x) d ≡ true =
            subst (λ xs. contains_str xs d ≡ true) (same x f) d_in in
          elim (through l) [
            | inl k ↦ acyclic x (d, d_in2, k)
            | inr (to_id, (d2, d2_in, k)) ↦ apart (d2, d2_in, onwards g k (hop d d_in2 to_id))
          ])
  ]
