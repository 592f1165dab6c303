-- ===== src/PathEngine/Build/Offers.antt =====
-- What `build_path` offers, crates/mp/src/path_engine.rs.
use master_plan.Prelude.{
  ℕ, ◌≡◌, refl, ap, inl, inr, Bool, true, not, ◌&&◌, some, List, [], ◌∷◌, leb, Bool-cases, length,
  all, Memᴰ,
}
use master_plan.Model.Milestone.{MilestoneFile, Step}
use master_plan.Steps.Keys.{sort_steps}
use master_plan.Steps.Progress.{step_is_actionable, step_deps_met}
use master_plan.PathEngine.Action.{PathAction}
use master_plan.PathEngine.Build.{Progress, visit_step, visit_steps, visit_milestones}
use mathlib.Core.List.Memᴰ
use master_plan.Steps.Keys.Sorting.{sort_steps-same}

-- What the loop over the steps tests before it offers one.
abbrev pub can_be_offered : (Step → Bool) → MilestoneFile → Step → Bool
can_be_offered claim_active m s =
    step_is_actionable s && (not (claim_active s) && step_deps_met s m.steps)

-- The action offers a step of one of the milestones, and the step can be worked on.
pub record Offers (claim_active : Step → Bool) (ready : List MilestoneFile) (a : PathAction)
    : Type 0 where
  pub owner : MilestoneFile
  pub offered : Step
  pub owner_ready : Memᴰ owner ready
  pub listed : Memᴰ offered owner.steps
  pub shown : a.step ≡ some offered
  pub workable : can_be_offered claim_active owner offered ≡ true

abbrev pub AllOffers : (Step → Bool) → List MilestoneFile → Progress → Type 0
AllOffers claim_active ready p = (a : PathAction) → Memᴰ a p.actions → Offers claim_active ready a

module _ (claim_active : Step → Bool) (horizon : ℕ) where
  visit_step-offers :
      (ready : List MilestoneFile) (m : MilestoneFile) (s : Step) (p : Progress)
      → Memᴰ m ready
      → Memᴰ s m.steps
      → AllOffers claim_active ready p
      → AllOffers claim_active ready (visit_step claim_active horizon m s p).1
  unfolding visit_step
  visit_step-offers ready m s p m_in s_in all = elim (Bool-cases (step_is_actionable s)) [
    | inr e ↦ rw e all
    | inl e ↦ elim (Bool-cases (claim_active s)) [
      | inl f ↦ rw (e, f) all
      | inr f ↦ elim (Bool-cases (step_deps_met s m.steps)) [
        | inr g ↦ rw (e, f, g) all
        | inl g ↦
            rw (e, f, g)
              (λ a a_in. elim (Memᴰ.append_cases p.actions a_in) [
                | inl old ↦ all a old
                | inr new ↦ record {
                  owner = m;
                  offered = s;
                  owner_ready = m_in;
                  listed = s_in;
                  shown = ap (λ (b : PathAction). b.step) (Memᴰ.eq_of_singleton new);
                  workable = rw (e, f, g) refl;
                }
              ])
      ]
    ]
  ]

  visit_steps-offers :
      (ready : List MilestoneFile) (m : MilestoneFile)
      → Memᴰ m ready
      → (ss : List Step) → ((s : Step) → Memᴰ s ss → Memᴰ s m.steps)
      → (p : Progress) → AllOffers claim_active ready p
      → AllOffers claim_active ready (visit_steps claim_active horizon m ss p).1
  unfolding visit_steps
  visit_steps-offers ready m m_in [] inside p all = all
  visit_steps-offers ready m m_in (s ∷ ss) inside p all =
      let here = visit_step-offers ready m s p m_in (inside s (Memᴰ.head refl)) all in
      elim (Bool-cases (visit_step claim_active horizon m s p).0) [
        | inl e ↦ rw e here
        | inr e ↦ rw e (visit_steps-offers ready m m_in ss (λ t h. inside t (Memᴰ.tail h)) _ here)
      ]

  pub visit_milestones-offers :
      (ready ms : List MilestoneFile)
      → ((m : MilestoneFile) → Memᴰ m ms → Memᴰ m ready)
      → (p : Progress) → AllOffers claim_active ready p
      → AllOffers claim_active ready (visit_milestones claim_active horizon ms p)
  unfolding visit_milestones
  visit_milestones-offers ready [] inside p all = all
  visit_milestones-offers ready (m ∷ ms) inside p all =
      let v = visit_steps claim_active horizon m (sort_steps m.steps) p in
      let here =
        visit_steps-offers ready m (inside m (Memᴰ.head refl)) (sort_steps m.steps)
          (λ s h. (sort_steps-same m.steps).known s h) p all in
      elim (Bool-cases v.0) [
        | inl e ↦ rw e here
        | inr e ↦ elim (Bool-cases (leb horizon (length v.1.actions))) [
          | inl f ↦ rw (e, f) here
          | inr f ↦
              rw (e, f) (visit_milestones-offers ready ms (λ n h. inside n (Memᴰ.tail h)) v.1 here)
        ]
      ]
