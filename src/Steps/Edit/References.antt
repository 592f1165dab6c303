-- ===== src/Steps/Edit/References.antt =====
-- The references between steps under `remove_step` of crates/mp/src/step.rs.
use master_plan.Prelude.{
  if◌then◌else◌, none, find, String, ◌≡◌, refl, sym, subst, ◌∙◌, inl, inr, Bool, true, false, not,
  ◌&&◌, ◌||◌, List, [], ◌∷◌, arith, str_eq, eq_iff, Bool-cases, and_true, or_eq_false, any, all,
  filter, remove_first, contains_str, distinct, filter-eq-nil, not-true, and_eq_true, str_eq_comm,
  ok, is_nil, nil_of, not-false, bail_if-eq-ok, ok-injective, find, ap,
}
use master_plan.Model.Milestone.{Step, MilestoneFile}
use master_plan.Steps.Edit.Lookup.{find-remove_first}
use master_plan.Steps.Edit.{step_ids, has_id, is_dependent, is_child, remove_step, touch}
use master_plan.Steps.Edit.Unique.{any-has_id}

-- Each dependency of the steps `ss` names a step among the ids `known`.
abbrev pub refs_known : List String → List Step → Bool
refs_known known ss = all (λ s. all (contains_str known) s.depends_on_steps) ss

unnamed : {a b : Bool} → a ≡ false → not a && b ≡ false → b ≡ false
unnamed {a} {b} e h = ground arith

rest_of : {a b : Bool} → a ≡ false → a || b ≡ true → b ≡ true
rest_of {a} {b} f h = ground arith

left_out :
    (y x d : String) {b : Bool} → y ≡ x → str_eq x d ≡ false → str_eq y d || b ≡ true → b ≡ true
left_out y x d {b} e f h = rest_of f (rw e at h)

-- An id other than the removed one stays known.
kept_id :
    (ss : List Step) (x d : String)
    → str_eq d x ≡ false
    → contains_str (step_ids ss) d ≡ true
    → contains_str (step_ids (remove_first (has_id x) ss)) d ≡ true
kept_id [] x d n h = h
kept_id (s ∷ ss) x d n h =
    let other = str_eq_comm x d ∙ n in
    elim (Bool-cases (has_id x s)) [
      | inl e ↦ rw e (left_out s.id x d ((eq_iff s.id x).0 e) other h)
      | inr e ↦ rw e (elim (Bool-cases (str_eq s.id d)) [
        | inl f ↦ rw f refl
        | inr f ↦ rw f (kept_id ss x d n (rest_of f h))
      ])
    ]

-- Dependencies that do not name the removed step stay known.
kept_deps :
    (ss : List Step) (x : String) (deps : List String)
    → contains_str deps x ≡ false
    → all (contains_str (step_ids ss)) deps ≡ true
    → all (contains_str (step_ids (remove_first (has_id x) ss))) deps ≡ true
kept_deps ss x [] n h = refl
kept_deps ss x (d ∷ ds) n h =
    let (other, rest) = or_eq_false (str_eq d x) (contains_str ds x) n in
    let kept = kept_id ss x d other in ground (arith, kept, kept_deps ss x ds rest)

-- After the removal of a step that none of `ss` depends on and that is not among them.
kept_refs :
    (all_steps ss : List Step) (x : String)
    → contains_str (step_ids ss) x ≡ false
    → filter (is_dependent x) ss ≡ []
    → refs_known (step_ids all_steps) ss ≡ true
    → refs_known (step_ids (remove_first (has_id x) all_steps)) ss ≡ true
kept_refs all_steps [] x n f r = refl
kept_refs all_steps (s ∷ ss) x n f r =
    let (other, fresh) = or_eq_false (has_id x s) (contains_str (step_ids ss) x) n in
    let (independent, rest) = filter-eq-nil (is_dependent x) s ss f in
    let (here, there) =
      and_eq_true (all (contains_str (step_ids all_steps)) s.depends_on_steps) _ r in
    and_true (kept_deps all_steps x s.depends_on_steps (unnamed other independent) here)
      (kept_refs all_steps ss x fresh rest there)

-- Of the steps with distinct ids, the ones that `remove_first` leaves behind.
removed_refs :
    (all_steps ss : List Step) (x : String)
    → distinct (step_ids ss) ≡ true
    → filter (is_dependent x) ss ≡ []
    → refs_known (step_ids all_steps) ss ≡ true
    → refs_known (step_ids (remove_first (has_id x) all_steps)) (remove_first (has_id x) ss) ≡ true
removed_refs all_steps [] x d f r = refl
removed_refs all_steps (s ∷ ss) x d f r =
    let (fresh, distinct_rest) = and_eq_true (not (contains_str (step_ids ss) s.id)) _ d in
    let (independent, rest) = filter-eq-nil (is_dependent x) s ss f in
    let (here, there) =
      and_eq_true (all (contains_str (step_ids all_steps)) s.depends_on_steps) _ r in
    elim (Bool-cases (has_id x s)) [
      | inl e ↦ rw e (
          kept_refs all_steps ss x
            (subst (λ i. contains_str (step_ids ss) i ≡ false) ((eq_iff s.id x).0 e)
              (not-true fresh))
            rest there)
      | inr e ↦ rw e (
          and_true (kept_deps all_steps x s.depends_on_steps (unnamed e independent) here)
            (removed_refs all_steps ss x distinct_rest rest there))
    ]

-- An accepted `remove_step` of a milestone with distinct step ids and no dangling dependency: the
-- step was there, it is not found any more, every other step is found as it was, and no
-- dependency dangles.
pub remove_step-refs_known :
    (today : String) (m m' : MilestoneFile) (step_id : String)
    → remove_step today m step_id ≡ ok m'
    → distinct (step_ids m.steps) ≡ true
    → refs_known (step_ids m.steps) m.steps ≡ true
    → (contains_str (step_ids m.steps) step_id ≡ true)
      × ((x : String)
          → find (has_id x) m'.steps ≡ (if str_eq step_id x then none else find (has_id x) m.steps))
      × (refs_known (step_ids m'.steps) m'.steps ≡ true)
unfolding remove_step
remove_step-refs_known today m m' step_id r d known =
    let (no_dependents, r1) =
      bail_if-eq-ok (not (is_nil (filter (is_dependent step_id) m.steps))) _ _ r in
    let (_, r2) = bail_if-eq-ok (not (is_nil (filter (is_child step_id) m.steps))) _ _ r1 in
    let (there, r3) = bail_if-eq-ok (not (any (has_id step_id) m.steps)) _ _ r2 in
    let stored : touch today (record m { steps = remove_first (has_id step_id) m.steps }) ≡ m' =
      ok-injective r3 in
    (
      sym (any-has_id m.steps step_id) ∙ not-false there,
      λ x.
          ap (λ (f : MilestoneFile). find (has_id x) f.steps) (sym stored)
          ∙ find-remove_first step_id m.steps x d,
      subst (λ (f : MilestoneFile). refs_known (step_ids f.steps) f.steps ≡ true) stored
          (removed_refs m.steps m.steps step_id d
            (nil_of (filter (is_dependent step_id) m.steps) no_dependents) known),
    )
