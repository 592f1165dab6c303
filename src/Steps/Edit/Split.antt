-- ===== src/Steps/Edit/Split.antt =====
-- `split_step` of crates/mp/src/step.rs.
use master_plan.Prelude.{
  suc, ◌<◌, String, ◌≡◌, refl, sym, ap, ◌∙◌, true, false, List, [], ◌∷◌, ◌++◌, arith, str_eq, any,
  contains_str, distinct, ok, bind-eq-ok, bail_if-eq-ok, ok-injective, distinct-snoc,
}
use master_plan.Model.Milestone.{Step, MilestoneFile, default_step}
use master_plan.Ids.{largest, child_suffix, child_id, next_split_child_suffix}
use master_plan.Ids.Fresh.{next_split_child-fresh, largest_child-snoc}
use master_plan.Prelude.Text.Decimal.{u32_max}
use master_plan.Steps.Keys.{sort_steps}
use master_plan.Steps.Keys.Sorting.{in_order, sort_steps-in_order, contains-sort, distinct-sort}
use master_plan.Steps.Edit.{
  step_ids, has_id, split_step, split_child, push_child, require_step, touch,
}
use master_plan.Steps.Edit.Unique.{any-has_id, step_ids-append}

-- The ids of the two children.
abbrev pub first_child : List Step → String → String
first_child steps id = child_id id (next_split_child_suffix (step_ids steps) id)

abbrev pub second_child : List Step → String → String
second_child steps id =
    child_id id (next_split_child_suffix (step_ids steps ++ first_child steps id ∷ []) id)

second_child-eq :
    (steps : List Step) (id : String)
    → child_id id (
        next_split_child_suffix
          (step_ids (steps ++ record default_step { id = first_child steps id } ∷ []))
          id)
      ≡ second_child steps id
second_child-eq steps id =
    ap (λ ids. child_id id (next_split_child_suffix ids id)) (step_ids-append steps _)

push_child-fresh :
    (steps created : List Step) (parent : Step) (id part : String)
    → contains_str (step_ids steps) id ≡ false
    → push_child (steps, created) parent id part ≡ (
      steps ++ split_child steps parent id part ∷ [],
      created ++ split_child steps parent id part ∷ [],
    )
push_child-fresh steps created parent id part h =
    let absent : any (has_id id) steps ≡ false = any-has_id steps id ∙ h in rw absent refl

children_fresh :
    (steps : List Step) (id : String)
    → suc (largest (child_suffix id) 0 (step_ids steps)) < u32_max
    → (contains_str (step_ids steps) (first_child steps id) ≡ false)
      × (contains_str (step_ids steps ++ first_child steps id ∷ []) (second_child steps id) ≡ false)
children_fresh steps id h =
    let below : largest (child_suffix id) 0 (step_ids steps) < u32_max = omega arith in
    (
      next_split_child-fresh (step_ids steps) id below,
      next_split_child-fresh (step_ids steps ++ first_child steps id ∷ []) id
          (rw (largest_child-snoc (step_ids steps) id below) h),
    )

-- The steps with one child, and with both.
abbrev pub with_one : List Step → Step → String → List Step
with_one steps parent id = steps ++ split_child steps parent (first_child steps id) "1" ∷ []

abbrev pub second : List Step → Step → String → Step
second steps parent id = split_child (with_one steps parent id) parent (second_child steps id) "2"

-- The id of the second child as the code computes it, from the steps with a bare first child.
abbrev second_id : List Step → String → String
second_id steps id = child_id id (
    next_split_child_suffix
      (step_ids (steps ++ record default_step { id = first_child steps id } ∷ [])) id)

abbrev both : List Step → Step → String → List Step × List Step
both steps parent id =
    push_child (push_child (steps, []) parent (first_child steps id) "1") parent
      (second_id steps id) "2"

both-eq :
    (steps : List Step) (parent : Step) (id : String)
    → suc (largest (child_suffix id) 0 (step_ids steps)) < u32_max
    → both steps parent id ≡ (
      with_one steps parent id ++ second steps parent id ∷ [],
      split_child steps parent (first_child steps id) "1" ∷ second steps parent id ∷ [],
    )
both-eq steps parent id h =
    let (fresh1, fresh2) = children_fresh steps id h in
    let ids1 : step_ids (with_one steps parent id) ≡ step_ids steps ++ first_child steps id ∷ [] =
      step_ids-append steps _ in
    ap
      (λ (i : String).
        push_child (push_child (steps, []) parent (first_child steps id) "1") parent i "2")
      (second_child-eq steps id)
    ∙ ap (λ (acc : List Step × List Step). push_child acc parent (second_child steps id) "2")
        (push_child-fresh steps [] parent (first_child steps id) "1" fresh1)
    ∙ push_child-fresh (with_one steps parent id) _ parent (second_child steps id) "2"
        (ap (λ ids. contains_str ids (second_child steps id)) ids1 ∙ fresh2)

-- The ids with both children.
both_ids :
    (steps : List Step) (parent : Step) (id : String)
    → step_ids (with_one steps parent id ++ second steps parent id ∷ [])
      ≡ (step_ids steps ++ first_child steps id ∷ []) ++ second_child steps id ∷ []
both_ids steps parent id =
    step_ids-append (with_one steps parent id) _
    ∙ ap (λ ids. ids ++ second_child steps id ∷ []) (step_ids-append steps _)

both_distinct :
    (steps : List Step) (id : String)
    → suc (largest (child_suffix id) 0 (step_ids steps)) < u32_max
    → distinct (step_ids steps) ≡ true
    → distinct ((step_ids steps ++ first_child steps id ∷ []) ++ second_child steps id ∷ []) ≡ true
both_distinct steps id h d =
    let (fresh1, fresh2) = children_fresh steps id h in
    distinct-snoc _ (second_child steps id) (distinct-snoc (step_ids steps) _ d fresh1) fresh2

abbrev split_of : String → MilestoneFile → List Step × List Step → MilestoneFile × List Step
split_of today m p = (touch today (record m { steps = sort_steps p.0 }), p.1)

-- An accepted `split_step` of a plan with distinct ids, whose largest child number is not near
-- `u32::MAX`. The step existed and was not done; exactly two children with the next two numbers are
-- created; the ids stay distinct and are the old ones with the two new ones; and the steps stand
-- in the order of their ids.
pub split_step-children :
    (today : String) (m m' : MilestoneFile) (id : String) (created : List Step)
    → split_step today m id ≡ ok (m', created)
    → distinct (step_ids m.steps) ≡ true
    → suc (largest (child_suffix id) 0 (step_ids m.steps)) < u32_max
    → (parent : Step) × (require_step m.steps id ≡ ok parent)
      × (str_eq parent.status "done" ≡ false)
      × (created
          ≡ split_child m.steps parent (first_child m.steps id) "1" ∷ second m.steps parent id ∷ [])
      × (distinct (step_ids m'.steps) ≡ true)
      × (in_order m'.steps ≡ true)
      × ((x : String)
          → contains_str (step_ids m'.steps) x
            ≡ contains_str
                ((step_ids m.steps ++ first_child m.steps id ∷ []) ++ second_child m.steps id ∷ [])
                x)
unfolding split_step
split_step-children today m m' id created r d h =
    let (parent, found, r1) = bind-eq-ok (require_step m.steps id) _ r in
    let (open_status, r2) = bail_if-eq-ok (str_eq parent.status "done") _ _ r1 in
    let stored : (
      touch today (record m {
        steps = sort_steps (with_one m.steps parent id ++ second m.steps parent id ∷ []);
      }),
      split_child m.steps parent (first_child m.steps id) "1" ∷ second m.steps parent id ∷ [],
    )
        ≡ (m', created) =
      ap (split_of today m) (sym (both-eq m.steps parent id h)) ∙ ok-injective r2 in
    let steps : sort_steps (with_one m.steps parent id ++ second m.steps parent id ∷ [])
        ≡ m'.steps =
      ap (λ (p : MilestoneFile × List Step). p.0.steps) stored in
    let ids = both_ids m.steps parent id in
    (
      parent,
      found,
      open_status,
      sym (ap (λ (p : MilestoneFile × List Step). p.1) stored),
      ap (λ ss. distinct (step_ids ss)) (sym steps)
          ∙ distinct-sort _
          ∙ ap distinct ids
          ∙ both_distinct m.steps id h d,
      ap in_order (sym steps) ∙ sort_steps-in_order _,
      λ x.
          ap (λ ss. contains_str (step_ids ss) x) (sym steps)
          ∙ contains-sort _ x
          ∙ ap (λ l. contains_str l x) ids,
    )
