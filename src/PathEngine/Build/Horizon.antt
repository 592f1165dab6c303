-- ===== src/PathEngine/Build/Horizon.antt =====
-- How many actions `build_path` offers, and that it offers one where it can,
-- crates/mp/src/path_engine.rs.
use mathlib.Core.List.Memᴰ
use master_plan.Prelude.{
  ℕ, ◌≤◌, ◌<◌, ◌≡◌, refl, subst, inl, inr, Bool, false, List, [], ◌∷◌, arith, leb, Bool-cases,
  length, Memᴰ, length-append,
}
use master_plan.Model.Milestone.{MilestoneFile, Step}
use master_plan.Steps.Keys.{sort_steps}
use master_plan.Steps.Keys.Sorting.{sort_steps-same}
use master_plan.PathEngine.Build.{Progress, visit_step, visit_steps, visit_milestones, step_action}
use master_plan.PathEngine.Build.Offers.{can_be_offered}

module _ (claim_active : Step → Bool) (horizon : ℕ) where
  -- With room for another action before it, a visit fits, and leaves room unless it stops.
  module _ (limit : ℕ) (fits : horizon ≤ limit) where
    abbrev Fits : Bool × Progress → Type 0
    Fits r = (length r.1.actions ≤ limit) × (r.0 ≡ false → length r.1.actions < limit)

    visit_step-Fits :
        (m : MilestoneFile) (s : Step) (p : Progress)
        → length p.actions < limit
        → Fits (visit_step claim_active horizon m s p)
    unfolding visit_step
    visit_step-Fits m s p room =
        ground (arith, length-append p.actions (step_action p.rank m s ∷ []))

    visit_steps-Fits :
        (m : MilestoneFile) (ss : List Step) (p : Progress)
        → length p.actions < limit
        → Fits (visit_steps claim_active horizon m ss p)
    unfolding visit_steps
    visit_steps-Fits m [] p room = (omega (arith, room), λ _. room)
    visit_steps-Fits m (s ∷ ss) p room =
        let (small, more) = visit_step-Fits m s p room in
        elim (Bool-cases (visit_step claim_active horizon m s p).0) [
          | inl e ↦ rw e (small, λ f. cc)
          | inr e ↦ rw e (visit_steps-Fits m ss _ (more e))
        ]

    pub visit_milestones-fits :
        (ms : List MilestoneFile) (p : Progress)
        → length p.actions < limit
        → length (visit_milestones claim_active horizon ms p).actions ≤ limit
    unfolding visit_milestones
    visit_milestones-fits [] p room = omega (arith, room)
    visit_milestones-fits (m ∷ ms) p room =
        let v = visit_steps claim_active horizon m (sort_steps m.steps) p in
        let (small, more) = visit_steps-Fits m (sort_steps m.steps) p room in
        elim (Bool-cases v.0) [
          | inl e ↦ rw e small
          | inr e ↦ elim (Bool-cases (leb horizon (length v.1.actions))) [
            | inl f ↦ rw (e, f) small
            | inr f ↦ rw (e, f) (visit_milestones-fits ms v.1 (more e))
          ]
        ]

  -- A visit keeps the actions that are there, and adds one where it can.
  visit_step-grows :
      (m : MilestoneFile) (s : Step) (p : Progress)
      → length p.actions ≤ length (visit_step claim_active horizon m s p).1.actions
  unfolding visit_step
  visit_step-grows m s p = ground (arith, length-append p.actions (step_action p.rank m s ∷ []))

  visit_step_idle :
      (m : MilestoneFile) (s : Step) (p : Progress)
      → length (visit_step claim_active horizon m s p).1.actions ≡ 0
      → (can_be_offered claim_active m s ≡ false)
        × ((visit_step claim_active horizon m s p).0 ≡ false)
  unfolding visit_step
  visit_step_idle m s p idle = ground (arith, length-append p.actions (step_action p.rank m s ∷ []))

  visit_steps-grows :
      (m : MilestoneFile) (ss : List Step) (p : Progress)
      → length p.actions ≤ length (visit_steps claim_active horizon m ss p).1.actions
  unfolding visit_steps
  visit_steps-grows m [] p = omega arith
  visit_steps-grows m (s ∷ ss) p =
      let r = visit_step claim_active horizon m s p in
      let here = visit_step-grows m s p in
      elim (Bool-cases r.0) [
        | inl e ↦ rw e here
        | inr e ↦ rw e (omega (arith, here, visit_steps-grows m ss r.1))
      ]

  first_step_grows :
      (m : MilestoneFile) (s : Step) (ss : List Step) (p : Progress)
      → length (visit_step claim_active horizon m s p).1.actions
        ≤ length (visit_steps claim_active horizon m (s ∷ ss) p).1.actions
  unfolding visit_steps
  first_step_grows m s ss p = elim (Bool-cases (visit_step claim_active horizon m s p).0) [
    | inl e ↦ rw e (omega arith)
    | inr e ↦ rw e (visit_steps-grows m ss (visit_step claim_active horizon m s p).1)
  ]

  next_steps :
      (m : MilestoneFile) (s : Step) (ss : List Step) (p : Progress)
      → (visit_step claim_active horizon m s p).0 ≡ false
      → visit_steps claim_active horizon m (s ∷ ss) p
        ≡ visit_steps claim_active horizon m ss (visit_step claim_active horizon m s p).1
  unfolding visit_steps
  next_steps m s ss p e = rw e refl

  visit_steps_idle :
      (m : MilestoneFile) (ss : List Step) (p : Progress)
      → length (visit_steps claim_active horizon m ss p).1.actions ≡ 0
      → (s : Step) → Memᴰ s ss
      → can_be_offered claim_active m s ≡ false
  unfolding visit_steps
  visit_steps_idle m [] p idle s h = elim h [ ]
  visit_steps_idle m (t ∷ ts) p idle s h =
      let r = visit_step claim_active horizon m t p in
      let (blocked, stays) =
        visit_step_idle m t p (omega (arith, first_step_grows m t ts p, idle)) in
      elim (Memᴰ.cases_cons h) [
        | inl e ↦ rw e blocked
        | inr k ↦ visit_steps_idle m ts r.1 (rw (next_steps m t ts p stays) at idle) s k
      ]

  visit_steps_stays :
      (m : MilestoneFile) (ss : List Step) (p : Progress)
      → length (visit_steps claim_active horizon m ss p).1.actions ≡ 0
      → (visit_steps claim_active horizon m ss p).0 ≡ false
  unfolding visit_steps
  visit_steps_stays m [] p idle = refl
  visit_steps_stays m (t ∷ ts) p idle =
      let (blocked, stays) =
        visit_step_idle m t p (omega (arith, first_step_grows m t ts p, idle)) in
      rw (next_steps m t ts p stays)
        (visit_steps_stays m ts _ (rw (next_steps m t ts p stays) at idle))

  visit_milestones-grows :
      (ms : List MilestoneFile) (p : Progress)
      → length p.actions ≤ length (visit_milestones claim_active horizon ms p).actions
  unfolding visit_milestones
  visit_milestones-grows [] p = omega arith
  visit_milestones-grows (m ∷ ms) p =
      let v = visit_steps claim_active horizon m (sort_steps m.steps) p in
      let here = visit_steps-grows m (sort_steps m.steps) p in
      elim (Bool-cases v.0) [
        | inl e ↦ rw e here
        | inr e ↦ elim (Bool-cases (leb horizon (length v.1.actions))) [
          | inl f ↦ rw (e, f) here
          | inr f ↦ rw (e, f) (omega (arith, here, visit_milestones-grows ms v.1))
        ]
      ]

  first_milestone_grows :
      (m : MilestoneFile) (ms : List MilestoneFile) (p : Progress)
      → length (visit_steps claim_active horizon m (sort_steps m.steps) p).1.actions
        ≤ length (visit_milestones claim_active horizon (m ∷ ms) p).actions
  unfolding visit_milestones
  first_milestone_grows m ms p =
      let v = visit_steps claim_active horizon m (sort_steps m.steps) p in
      elim (Bool-cases v.0) [
        | inl e ↦ rw e (omega arith)
        | inr e ↦ elim (Bool-cases (leb horizon (length v.1.actions))) [
          | inl f ↦ rw (e, f) (omega arith)
          | inr f ↦ rw (e, f) (visit_milestones-grows ms v.1)
        ]
      ]

  next_milestones :
      (m : MilestoneFile) (ms : List MilestoneFile) (p : Progress)
      → 0 < horizon
      → length (visit_steps claim_active horizon m (sort_steps m.steps) p).1.actions ≡ 0
      → visit_milestones claim_active horizon (m ∷ ms) p
        ≡ visit_milestones claim_active horizon ms
            (visit_steps claim_active horizon m (sort_steps m.steps) p).1
  unfolding visit_milestones
  next_milestones m ms p some_room idle =
      let stays = visit_steps_stays m (sort_steps m.steps) p idle in
      let more : leb horizon
            (length (visit_steps claim_active horizon m (sort_steps m.steps) p).1.actions)
          ≡ false =
        rw idle (ground arith) in
      rw (stays, more) refl

  pub visit_milestones_idle :
      (ms : List MilestoneFile) (p : Progress)
      → 0 < horizon
      → length (visit_milestones claim_active horizon ms p).actions ≡ 0
      → (m : MilestoneFile) → Memᴰ m ms
      → (s : Step) → Memᴰ s m.steps
      → can_be_offered claim_active m s ≡ false
  visit_milestones_idle [] p some_room idle m h s k = elim h [ ]
  visit_milestones_idle (n ∷ ms) p some_room idle m h s k =
      let v = visit_steps claim_active horizon n (sort_steps n.steps) p in
      let none_here : length v.1.actions ≡ 0 = omega (arith, first_milestone_grows n ms p, idle) in
      elim (Memᴰ.cases_cons h) [
        | inl e ↦
            (let k2 : Memᴰ s n.steps = subst (λ (t : MilestoneFile). Memᴰ s t.steps) e k in
              rw e (
                visit_steps_idle n (sort_steps n.steps) p none_here s
                  ((sort_steps-same n.steps).kept s k2)))
        | inr l ↦
            visit_milestones_idle ms v.1 some_room
              (rw (next_milestones n ms p some_room none_here) at idle) m l s k
      ]
