-- ===== src/Steps/Edit/Inversion.antt =====
-- What an accepted `add_step` of crates/mp/src/step.rs went through.
use master_plan.Prelude.{
  ℕ, String, ◌≡◌, sym, ap, subst, ◌∙◌, true, false, not, List, [], ◌∷◌, ◌++◌, arith, str_eq, any,
  ok, bind-eq-ok, bail_if-eq-ok, ok-injective,
}
use master_plan.Steps.Edit.{
  add_step, AddStepInput, has_id, place, after_order, known_after, choose_step_id, touch, new_step,
}
use master_plan.Model.Milestone.{MilestoneFile, Step}
use master_plan.Status.{spec_status_allows_steps, effective_spec_status}
use master_plan.Prelude.Text.{is_empty}

abbrev pub placed : MilestoneFile → AddStepInput → List Step × ℕ
placed m input = place m.steps (after_order m.steps input.after)

abbrev written : String → MilestoneFile → AddStepInput → String → MilestoneFile
written today m input id =
    touch today
      (record m { steps = (placed m input).0 ++ new_step input id (placed m input).1 ∷ [] })

-- What is written, and the guards that were passed.
pub add_step-eq-ok :
    (today : String) (m m' : MilestoneFile) (input : AddStepInput) (s : Step)
    → add_step today m input ≡ ok (m', s)
    → (spec_status_allows_steps (effective_spec_status m) ≡ true)
      × (any (has_id s.id) m.steps ≡ false)
      × (s.order ≡ (placed m input).1)
      × (m'.steps ≡ (placed m input).0 ++ s ∷ [])
unfolding add_step
add_step-eq-ok today m m' input s r =
    let (allowed, r1) =
      bail_if-eq-ok (not (spec_status_allows_steps (effective_spec_status m))) _ _ r in
    let (_, r2) = bail_if-eq-ok (not (any (λ wp. str_eq wp.id input.wp) m.work_packages)) _ _ r1 in
    let (_, r3) = bail_if-eq-ok (is_empty input.action) _ _ r2 in
    let (_, _, r4) = bind-eq-ok (known_after m.steps input.after) _ r3 in
    let (id, _, r5) = bind-eq-ok (choose_step_id m.steps input.after input.id) _ r4 in
    let (new, r6) = bail_if-eq-ok (any (has_id id) m.steps) _ _ r5 in
    let same : (written today m input id, new_step input id (placed m input).1) ≡ (m', s) =
      ok-injective r6 in
    let same_step = ap (λ p. p.1) same in
    (
      ground arith,
      subst (λ (t : Step). any (has_id t.id) m.steps ≡ false) same_step new,
      ap (λ (t : Step). t.order) (sym same_step),
      ap (λ (p : MilestoneFile × Step). p.0.steps) (sym same)
          ∙ ap (λ t. (placed m input).0 ++ t ∷ []) same_step,
    )
