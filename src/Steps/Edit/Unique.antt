-- ===== src/Steps/Edit/Unique.antt =====
-- Step ids stay distinct under the edits of crates/mp/src/step.rs.
use master_plan.Prelude.{
  ℕ, String, ◌≡◌, refl, sym, ap, ◌∙◌, true, ◌||◌, Option, none, some, List, [], ◌∷◌, ◌++◌, map,
  arith, str_eq, any, contains_str, distinct, ok, distinct-snoc,
}
use master_plan.Model.Milestone.{Step, MilestoneFile}
use master_plan.Steps.Edit.{
  step_ids, has_id, shift_order, place, AddStepInput, add_step, after_order,
}
use mathlib.Core.List.{map-append}
use master_plan.Steps.Edit.Inversion.{add_step-eq-ok, placed}

pub any-has_id :
    (steps : List Step) (id : String) → any (has_id id) steps ≡ contains_str (step_ids steps) id
any-has_id [] id = refl
any-has_id (s ∷ ss) id = ap (λ b. str_eq s.id id || b) (any-has_id ss id)

pub step_ids-append : (xs ys : List Step) → step_ids (xs ++ ys) ≡ step_ids xs ++ step_ids ys
step_ids-append xs ys = map-append (λ (s : Step). s.id) xs ys

step_ids-shift :
    (ao : ℕ) (steps : List Step) → step_ids (map (shift_order ao) steps) ≡ step_ids steps
step_ids-shift ao [] = refl
step_ids-shift ao (s ∷ ss) = ground (arith, step_ids-shift ao ss)

pub step_ids-place :
    (steps : List Step) (o : Option ℕ) → step_ids (place steps o).0 ≡ step_ids steps
step_ids-place steps none = refl
step_ids-place steps (some ao) = step_ids-shift ao steps

-- An accepted `add_step` appends one new id to the ids, and keeps them distinct.
pub add_step-distinct :
    (today : String) (m m' : MilestoneFile) (input : AddStepInput) (s : Step)
    → add_step today m input ≡ ok (m', s)
    → distinct (step_ids m.steps) ≡ true
    → (step_ids m'.steps ≡ step_ids m.steps ++ s.id ∷ []) × (distinct (step_ids m'.steps) ≡ true)
add_step-distinct today m m' input s r d =
    let (_, new, _, stored) = add_step-eq-ok today m m' input s r in
    let ids : step_ids m'.steps ≡ step_ids m.steps ++ s.id ∷ [] =
      ap step_ids stored
      ∙ step_ids-append (placed m input).0 (s ∷ [])
      ∙ ap (λ l. l ++ s.id ∷ []) (step_ids-place m.steps (after_order m.steps input.after)) in
    (ids, rw ids (distinct-snoc (step_ids m.steps) s.id d (sym (any-has_id m.steps s.id) ∙ new)))
