-- ===== src/PathEngine/Prefs/Members.antt =====
-- The reordering of the ready milestones neither loses nor adds one, crates/mp/src/path_prefs.rs.
use master_plan.Prelude.{
  ℕ, zero, suc, String, ◌≡◌, subst, inl, inr, Option, none, some, List, [], ◌∷◌, ◌==◌, Bool-cases,
  Option-cases, length, filter, some-injective, take, position, SameMembers, members_refl,
  members_trans, members_cons, members_swap, sort_by-same, sort_by-same,
}
use master_plan.Prelude.Text.{is_empty}
use master_plan.Model.Milestone.{MilestoneFile}
use master_plan.Model.Plan.{AdoptionOrder, ExecutionConfig}
use master_plan.Paths.{normalize_milestone_id}
use master_plan.PathEngine.Prefs.{
  take_at, insert_at, move_item, has_id, is_active, apply_order, apply_adoption_order_indices,
  apply_focus_indices, sort_ready_milestone_indices, le_milestone,
}

module _ {A : Type 0} where
  insert_at-same : (n : ℕ) (x : A) (xs : List A) → SameMembers (x ∷ xs) (insert_at n x xs)
  insert_at-same zero x xs = members_refl (x ∷ xs)
  insert_at-same (suc n) x [] = members_refl (x ∷ [])
  insert_at-same (suc n) x (y ∷ ys) =
      members_trans (members_swap x y ys) (members_cons y (insert_at-same n x ys))

  take_at-same :
      (n : ℕ) (xs rest : List A) (x : A) → take_at n xs ≡ some (x, rest) → SameMembers xs (x ∷ rest)
  take_at-same n [] rest x h = cc
  take_at-same zero (y ∷ ys) rest x h =
      let e = some-injective h in
      subst (λ (p : A × List A). SameMembers (y ∷ ys) (p.0 ∷ p.1)) e (members_refl (y ∷ ys))
  take_at-same (suc n) (y ∷ ys) rest x h = elim (Option-cases (take_at n ys)) [
    | inl e ↦ (let no : ◌≡◌ {A = Option (A × List A)} none (some (x, rest)) = rw e at h in cc)
    | inr ((a, more), e) ↦
        (let f = some-injective (rw e at h) in
          subst (λ (p : A × List A). SameMembers (y ∷ ys) (p.0 ∷ p.1)) f
            (members_trans (members_cons y (take_at-same n ys more a e)) (members_swap y a more)))
  ]

  move_item-same : (from n : ℕ) (xs : List A) → SameMembers xs (move_item from n xs)
  move_item-same from n xs = elim (Option-cases (take_at from xs)) [
    | inl e ↦ rw (e, move_item) (members_refl xs)
    | inr ((item, rest), e) ↦
        rw (e, move_item)
          (members_trans (take_at-same from xs rest item e) (insert_at-same n item rest))
  ]

apply_order-same :
    (o : AdoptionOrder) (ready : List MilestoneFile) → SameMembers ready (apply_order o ready)
unfolding apply_order
apply_order-same o ready = elim (Bool-cases (is_empty (normalize_milestone_id o.before))) [
  | inl e ↦ rw e (members_refl ready)
  | inr e ↦ elim (Option-cases (position (has_id (normalize_milestone_id o.milestone)) ready)) [
    | inl f ↦ rw (e, f) (members_refl ready)
    | inr (from, f) ↦
        elim (Option-cases (position (has_id (normalize_milestone_id o.before)) ready)) [
          | inl g ↦ rw (e, f, g) (members_refl ready)
          | inr (to, g) ↦ elim (Bool-cases (from == to)) [
            | inl h ↦ rw (e, f, g, h) (members_refl ready)
            | inr h ↦ rw (e, f, g, h) (move_item-same from _ ready)
          ]
        ]
  ]
]

apply_adoption_order_indices-same :
    (ready : List MilestoneFile) (os : List AdoptionOrder)
    → SameMembers ready (apply_adoption_order_indices ready os)
unfolding apply_adoption_order_indices
apply_adoption_order_indices-same ready [] = members_refl ready
apply_adoption_order_indices-same ready (o ∷ os) =
    members_trans (apply_order-same o ready)
      (apply_adoption_order_indices-same (apply_order o ready) os)

apply_focus_indices-same :
    (ready : List MilestoneFile) (focus : String)
    → SameMembers ready (apply_focus_indices ready focus)
unfolding apply_focus_indices
apply_focus_indices-same ready focus = elim (Bool-cases (is_empty focus)) [
  | inl e ↦ rw e (members_refl ready)
  | inr e ↦ elim (Option-cases (position (has_id (normalize_milestone_id focus)) ready)) [
    | inl f ↦ rw (e, f) (members_refl ready)
    | inr (idx, f) ↦ elim (Option-cases (take_at idx ready)) [
      | inl g ↦ rw (e, f, g) (members_refl ready)
      | inr ((item, rest), g) ↦
          rw (e, f, g)
            (members_trans (take_at-same idx ready rest item g)
              (insert_at-same (length (filter is_active (take idx rest))) item rest))
    ]
  ]
]

-- The order of priorities, pins and focus holds the same milestones as the ready list, and
-- equally many.
pub sort_ready_milestone_indices-SameMembers :
    (ready : List MilestoneFile) (baseline : List String) (exec : ExecutionConfig)
    → SameMembers ready (sort_ready_milestone_indices ready baseline exec)
unfolding sort_ready_milestone_indices
sort_ready_milestone_indices-SameMembers ready baseline exec =
    members_trans (sort_by-same (le_milestone baseline exec) ready) (
      members_trans (apply_adoption_order_indices-same _ exec.adoption_order)
        (apply_focus_indices-same _ exec.focus_milestone))
