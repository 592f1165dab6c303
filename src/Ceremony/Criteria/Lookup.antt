-- ===== src/Ceremony/Criteria/Lookup.antt =====
-- What a decision on an acceptance criterion changes, crates/mp/src/milestone/complete.rs.
use master_plan.Prelude.{
  String, ◌≡◌, refl, ap, inl, inr, Bool, Option, none, some, List, [], ◌∷◌, str_eq, Bool-cases,
  find, update_first, ok, some-injective,
}
use master_plan.Model.Milestone.{MilestoneFile, AcceptanceCriterion}
use master_plan.Ceremony.Criteria.{has_ac_id, decided, decide, criterion_pass, criterion_fail}

-- After a change of the first element that passes a test, which keeps the test, the search finds
-- the changed element.
find-updated {ℓ} :
    {A : Type ℓ} (p : A → Bool) (f : A → A) (xs : List A) (a : A)
    → ((x : A) → p (f x) ≡ p x)
    → find p xs ≡ some a
    → find p (update_first p f xs) ≡ some (f a)
find-updated {A = A} p f [] a k h = cc
find-updated {A = A} p f (x ∷ xs) a k h = elim (Bool-cases (p x)) [
  | inl e ↦
      (let same : some x ≡ some a = rw e at h in
        rw (e, k x, e) (ap (λ (y : A). some (f y)) (some-injective same)))
  | inr e ↦ rw (e, e) (find-updated p f xs a k (rw e at h))
]

decided-id :
    (status : String) (evidence : Option String) (ac : AcceptanceCriterion)
    → (decided status evidence ac).id ≡ ac.id
decided-id status none ac = refl
decided-id status (some e) ac = refl

decided-status :
    (status : String) (evidence : Option String) (ac : AcceptanceCriterion)
    → (decided status evidence ac).status ≡ status
decided-status status none ac = refl
decided-status status (some e) ac = refl

-- What the search for a criterion finds after a decision on it.
decide-found :
    (status : String) (m : MilestoneFile) (ac_id : String) (evidence : Option String)
    (ac : AcceptanceCriterion)
    → find (has_ac_id ac_id) m.acceptance_criteria ≡ some ac
    → find
        (has_ac_id ac_id)
        (update_first (has_ac_id ac_id) (decided status evidence) m.acceptance_criteria)
      ≡ some (decided status evidence ac)
decide-found status m ac_id evidence ac h =
    find-updated (has_ac_id ac_id) (decided status evidence) m.acceptance_criteria ac
      (λ x. ap (λ i. str_eq i ac_id) (decided-id status evidence x)) h

decide-eq :
    (status : String) (m : MilestoneFile) (ac_id : String) (evidence : Option String)
    (ac : AcceptanceCriterion)
    → find (has_ac_id ac_id) m.acceptance_criteria ≡ some ac
    → decide status m ac_id evidence
      ≡ ok (
        record m {
          acceptance_criteria =
              update_first (has_ac_id ac_id) (decided status evidence) m.acceptance_criteria;
        },
        decided status evidence ac,
      )
unfolding decide
decide-eq status m ac_id evidence ac h = rw (h, decide)

-- Passing a criterion and then failing it: both are accepted where the criterion exists, the last
-- decision stands, and a decision with no text keeps the evidence of the one before.
pub criterion_pass-criterion_fail :
    (m : MilestoneFile) (ac_id evidence : String) (ac : AcceptanceCriterion)
    → find (has_ac_id ac_id) m.acceptance_criteria ≡ some ac
    → (m1 : MilestoneFile) × (m2 : MilestoneFile) × (criterion_pass m ac_id (some evidence)
        ≡ ok (m1, record ac { status = "passed"; evidence = evidence }))
      × (criterion_fail m1 ac_id none
          ≡ ok (m2, record ac { status = "failed"; evidence = evidence }))
      × (find (has_ac_id ac_id) m2.acceptance_criteria
          ≡ some (record ac { status = "failed"; evidence = evidence }))
unfolding criterion_pass criterion_fail
criterion_pass-criterion_fail m ac_id evidence ac h =
    let passed : MilestoneFile = record m {
      acceptance_criteria =
          update_first (has_ac_id ac_id) (decided "passed" (some evidence)) m.acceptance_criteria;
    } in
    let failed : MilestoneFile = record passed {
      acceptance_criteria =
          update_first (has_ac_id ac_id) (decided "failed" none) passed.acceptance_criteria;
    } in
    let found = decide-found "passed" m ac_id (some evidence) ac h in
    let found_again = decide-found "failed" passed ac_id none _ found in
    (
      passed,
      failed,
      decide-eq "passed" m ac_id (some evidence) ac h,
      decide-eq "failed" passed ac_id none _ found,
      found_again,
    )
