-- ===== src/Steps/Progress/Chains.antt =====
-- `infer_depends_on_steps` of crates/mp/src/step.rs, run again.
use master_plan.Prelude.{
  ℕ, String, ◌≡◌, refl, sym, ap, ◌∙◌, inl, inr, Bool, true, false, not, Option, none, some, List,
  [], ◌∷◌, map, arith, str_eq, eq_iff, ◌==◌, Bool-cases, and_true, or_eq_false, all, contains_str,
  distinct, not-true, and_eq_true, str_eq_comm, str_eq_refl, some-injective,
}
use master_plan.Model.Milestone.{MilestoneFile, Step, WorkPackage}
use master_plan.Steps.Edit.{touch}
use master_plan.Steps.Progress.{
  same_list, chain_wp, count_chained, chain_all, infer_depends_on_steps,
}

same_list_refl : (xs : List String) → same_list xs xs ≡ true
same_list_refl [] = refl
same_list_refl (x ∷ xs) = and_true (str_eq_refl x) (same_list_refl xs)

-- A chained package needs no change.
count_chained-chain_wp :
    (wp : String) (prev : Option String) (ss : List Step)
    → count_chained wp prev (chain_wp wp prev ss) ≡ 0
unfolding count_chained chain_wp
count_chained-chain_wp wp prev [] = refl
count_chained-chain_wp wp prev (s ∷ ss) = elim (Bool-cases (str_eq s.work_package wp)) [
  | inl e ↦
      (let rest = count_chained-chain_wp wp (some s.id) ss in
        rw (e, e, same_list_refl (elim prev [ none ↦ [] | some p ↦ p ∷ [] ]), rest) refl)
  | inr e ↦ rw (e, e) (count_chained-chain_wp wp prev ss)
]

apart : (w v x : String) → str_eq w v ≡ false → str_eq x v ≡ true → str_eq x w ≡ false
apart w v x n e = ap (λ i. str_eq i w) ((eq_iff x v).0 e) ∙ (str_eq_comm v w ∙ n)

-- Chaining another package changes nothing that the count reads.
count_chained-other :
    (w v : String) (prev q : Option String) (ss : List Step)
    → str_eq w v ≡ false
    → count_chained w prev (chain_wp v q ss) ≡ count_chained w prev ss
unfolding count_chained chain_wp
count_chained-other w v prev q [] n = refl
count_chained-other w v prev q (s ∷ ss) n = elim (Bool-cases (str_eq s.work_package v)) [
  | inl e ↦
      (let other = apart w v s.work_package n e in
        rw (e, other) (count_chained-other w v prev (some s.id) ss n))
  | inr e ↦ elim (Bool-cases (str_eq s.work_package w)) [
    | inl f ↦ rw (e, f, count_chained-other w v (some s.id) q ss n) refl
    | inr f ↦ rw (e, f) (count_chained-other w v prev q ss n)
  ]
]

-- No package needs a change.
abbrev settled : List WorkPackage → List Step → Bool
settled wps steps = all (λ wp. count_chained wp.id none steps == 0) wps

count_chained-chain_all :
    (w : String) (wps : List WorkPackage) (steps : List Step)
    → contains_str (map (λ (wp : WorkPackage). wp.id) wps) w ≡ false
    → count_chained w none (chain_all wps steps).0 ≡ count_chained w none steps
unfolding chain_all
count_chained-chain_all w [] steps n = refl
count_chained-chain_all w (v ∷ vs) steps n =
    let (other, rest) =
      or_eq_false (str_eq v.id w) (contains_str (map (λ (wp : WorkPackage). wp.id) vs) w) n in
    count_chained-chain_all w vs (chain_wp v.id none steps) rest
    ∙ count_chained-other w v.id none none steps (str_eq_comm w v.id ∙ other)

settled-chain_wp :
    (v : String) (wps : List WorkPackage) (steps : List Step)
    → contains_str (map (λ (wp : WorkPackage). wp.id) wps) v ≡ false
    → settled wps (chain_wp v none steps) ≡ settled wps steps
settled-chain_wp v [] steps n = refl
settled-chain_wp v (w ∷ ws) steps n =
    let (other, rest) =
      or_eq_false (str_eq w.id v) (contains_str (map (λ (wp : WorkPackage). wp.id) ws) v) n in
    rw (count_chained-other w.id v none none steps other, settled-chain_wp v ws steps rest) refl

settled-chain_all :
    (wps : List WorkPackage) (steps : List Step)
    → distinct (map (λ (wp : WorkPackage). wp.id) wps) ≡ true
    → settled wps (chain_all wps steps).0 ≡ true
unfolding chain_all
settled-chain_all [] steps d = refl
settled-chain_all (v ∷ vs) steps d =
    let (fresh, rest) =
      and_eq_true (not (contains_str (map (λ (wp : WorkPackage). wp.id) vs) v.id)) _ d in
    let none_left =
      count_chained-chain_all v.id vs (chain_wp v.id none steps) (not-true fresh)
      ∙ count_chained-chain_wp v.id none steps in
    and_true (ap (λ n. n == 0) none_left) (settled-chain_all vs (chain_wp v.id none steps) rest)

chain_all-settled :
    (wps : List WorkPackage) (steps : List Step)
    → distinct (map (λ (wp : WorkPackage). wp.id) wps) ≡ true
    → settled wps steps ≡ true
    → (chain_all wps steps).1 ≡ 0
unfolding chain_all
chain_all-settled [] steps d s = refl
chain_all-settled (v ∷ vs) steps d s =
    let (fresh, rest) =
      and_eq_true (not (contains_str (map (λ (wp : WorkPackage). wp.id) vs) v.id)) _ d in
    let (here, there) = and_eq_true (count_chained v.id none steps == 0) _ s in
    let later =
      chain_all-settled vs (chain_wp v.id none steps) rest
        (settled-chain_wp v.id vs steps (not-true fresh) ∙ there) in
    let zero_here : count_chained v.id none steps ≡ 0 = ground arith in
    omega (arith, later, zero_here)

abbrev inferred : String → MilestoneFile → MilestoneFile
inferred today m = touch today (record m { steps = (chain_all m.work_packages m.steps).0 })

-- What a write of the inference stored.
infer-written :
    (today : String) (m m' : MilestoneFile) (updated : ℕ)
    → infer_depends_on_steps today m ≡ (some m', updated)
    → inferred today m ≡ m'
unfolding infer_depends_on_steps
infer-written today m m' updated r =
    elim (Bool-cases ((chain_all m.work_packages m.steps).1 == 0)) [
      | inl e ↦
          (let nothing : ◌≡◌ {A = Option MilestoneFile} none (some m') =
              ap (λ p. p.0) (rw e at r) in
            cc)
      | inr e ↦
          (let same : ◌≡◌ {A = Option MilestoneFile} (some (inferred today m)) (some m') =
              ap (λ p. p.0) (rw e at r) in
            some-injective same)
    ]

infer-settled :
    (today later : String) (m : MilestoneFile)
    → distinct (map (λ (wp : WorkPackage). wp.id) m.work_packages) ≡ true
    → infer_depends_on_steps later (inferred today m) ≡ (none, 0)
unfolding infer_depends_on_steps
infer-settled today later m d =
    let zero_left =
      chain_all-settled m.work_packages (chain_all m.work_packages m.steps).0 d
        (settled-chain_all m.work_packages m.steps d) in
    rw zero_left refl

-- Inferring the dependencies of a milestone with distinct work packages twice: the second time
-- nothing changes and nothing is written.
pub infer_depends_on_steps-settles :
    (today later : String) (m m' : MilestoneFile) (updated : ℕ)
    → infer_depends_on_steps today m ≡ (some m', updated)
    → distinct (map (λ (wp : WorkPackage). wp.id) m.work_packages) ≡ true
    → infer_depends_on_steps later m' ≡ (none, 0)
infer_depends_on_steps-settles today later m m' updated r d =
    ap (infer_depends_on_steps later) (sym (infer-written today m m' updated r))
    ∙ infer-settled today later m d
