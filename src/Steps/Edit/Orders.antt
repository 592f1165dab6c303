-- ===== src/Steps/Edit/Orders.antt =====
-- The `order` numbers of the steps under `add_step` of crates/mp/src/step.rs.
use master_plan.Prelude.{
  ℕ, suc, ◌<◌, String, ◌≡◌, refl, ap, ◌∙◌, inl, inr, Bool, true, false, not, ◌&&◌, ◌||◌, Option,
  none, some, List, [], ◌∷◌, ◌++◌, map, arith, ltb, ◌==◌, if◌then◌else◌, Bool-cases, or_eq_false,
  any, all, ok,
}
use master_plan.Ids.{add_one_u32}
use master_plan.Model.Milestone.{Step, MilestoneFile}
use master_plan.Steps.Edit.{
  shift_order, place, max_order, next_step_order, AddStepInput, add_step, after_order, has_id,
}
use master_plan.Steps.Edit.Inversion.{add_step-eq-ok, placed}
use master_plan.Prelude.Text.Decimal.{u32_max}

-- The number of steps that carry an order.
abbrev pub has_order : ℕ → List Step → Bool
has_order n steps = any (λ s. s.order == n) steps

abbrev pub orders_distinct : List Step → Bool
orders_distinct [] = true
orders_distinct (s ∷ ss) = not (has_order s.order ss) && orders_distinct ss

-- No order is the largest `u32`, so that the next one does not overflow.
abbrev pub orders_bounded : List Step → Bool
orders_bounded steps = all (λ s. ltb s.order u32_max) steps

-- The order of a shifted step.
abbrev bump : ℕ → ℕ → ℕ
bump ao n = if ltb ao n then add_one_u32 n else n

shift_order-order : (ao : ℕ) (s : Step) → (shift_order ao s).order ≡ bump ao s.order
shift_order-order ao s = ground arith

bump-free : (ao n : ℕ) → ltb n u32_max ≡ true → bump ao n == suc ao ≡ false
bump-free ao n h = ground arith

bump-injective :
    (ao n k : ℕ) → ltb n u32_max ≡ true → ltb k u32_max ≡ true → bump ao n == bump ao k ≡ n == k
bump-injective ao n k h g = ground arith

bounded_head :
    (s : Step) (ss : List Step)
    → orders_bounded (s ∷ ss) ≡ true
    → (ltb s.order u32_max ≡ true) × (orders_bounded ss ≡ true)
bounded_head s ss b = ground arith

-- The order that a step behind `after` receives is free.
has_order-shift :
    (ao : ℕ) (steps : List Step)
    → orders_bounded steps ≡ true
    → has_order (suc ao) (map (shift_order ao) steps) ≡ false
has_order-shift ao [] b = refl
has_order-shift ao (s ∷ ss) b =
    let (h, hs) = bounded_head s ss b in
    rw (shift_order-order ao s, bump-free ao s.order h, has_order-shift ao ss hs)

-- Shifting maps different orders to different orders.
has_order-bump :
    (ao n : ℕ) (steps : List Step)
    → ltb n u32_max ≡ true
    → orders_bounded steps ≡ true
    → has_order (bump ao n) (map (shift_order ao) steps) ≡ has_order n steps
has_order-bump ao n [] g b = refl
has_order-bump ao n (s ∷ ss) g b =
    let (h, hs) = bounded_head s ss b in
    rw (shift_order-order ao s, bump-injective ao s.order n h g, has_order-bump ao n ss g hs)

orders_distinct-shift :
    (ao : ℕ) (steps : List Step)
    → orders_bounded steps ≡ true
    → orders_distinct (map (shift_order ao) steps) ≡ orders_distinct steps
orders_distinct-shift ao [] b = refl
orders_distinct-shift ao (s ∷ ss) b =
    let (h, hs) = bounded_head s ss b in
    rw (shift_order-order ao s, has_order-bump ao s.order ss h hs, orders_distinct-shift ao ss hs)

-- The order behind all steps is free.
has_order-above : (n : ℕ) (steps : List Step) → max_order steps < n → has_order n steps ≡ false
has_order-above n [] h = refl
has_order-above n (s ∷ ss) h =
    let rest = has_order-above n ss (omega arith) in
    let other : s.order == n ≡ false = ground arith in rw (other, rest)

max_order_bound : (steps : List Step) → orders_bounded steps ≡ true → max_order steps < u32_max
max_order_bound [] b = omega arith
max_order_bound (s ∷ ss) b =
    let (h, hs) = bounded_head s ss b in
    let rest = max_order_bound ss hs in let here : s.order < u32_max = ground arith in omega arith

has_order-snoc :
    (n : ℕ) (ss : List Step) (s : Step)
    → has_order n (ss ++ s ∷ []) ≡ has_order n ss || s.order == n
has_order-snoc n [] s = ground arith
has_order-snoc n (t ∷ ts) s = ground (arith, has_order-snoc n ts s)

eq_nat_comm : (a b : ℕ) → a == b ≡ b == a
eq_nat_comm a b = ground arith

orders_distinct-snoc :
    (ss : List Step) (s : Step)
    → orders_distinct ss ≡ true
    → has_order s.order ss ≡ false
    → orders_distinct (ss ++ s ∷ []) ≡ true
orders_distinct-snoc [] s d f = refl
orders_distinct-snoc (t ∷ ts) s d f =
    let (other, free) = or_eq_false (t.order == s.order) (has_order s.order ts) f in
    let rest = orders_distinct-snoc ts s (ground arith) free in
    rw (has_order-snoc t.order ts s, rest, eq_nat_comm s.order t.order, other) (ground arith)

abbrev below_max : Option ℕ → Bool
below_max none = true
below_max (some n) = ltb n u32_max

after_order_bound :
    (steps : List Step) (after : Option String)
    → orders_bounded steps ≡ true
    → below_max (after_order steps after) ≡ true
after_order_bound steps none b = refl
after_order_bound [] (some id) b = refl
after_order_bound (s ∷ ss) (some id) b =
    let (h, hs) = bounded_head s ss b in
    elim (Bool-cases (has_id id s)) [
      | inl e ↦ rw (e, after_order) h
      | inr e ↦ rw (e, after_order) (after_order_bound ss (some id) hs)
    ]

-- The order of the new step is free among the others, as `add_step` places them.
placed-distinct :
    (steps : List Step) (after : Option ℕ)
    → below_max after ≡ true
    → orders_bounded steps ≡ true
    → orders_distinct steps ≡ true
    → (has_order (place steps after).1 (place steps after).0 ≡ false)
      × (orders_distinct (place steps after).0 ≡ true)
placed-distinct steps none h b d =
    let largest = max_order_bound steps b in
    (has_order-above (next_step_order steps) steps (omega arith), d)
placed-distinct steps (some ao) h b d =
    let next : add_one_u32 ao ≡ suc ao = ground arith in
    (rw next (has_order-shift ao steps b), orders_distinct-shift ao steps b ∙ d)

-- An accepted `add_step` keeps the orders of the steps distinct, behind a given step and at the
-- end, as long as no order is the largest `u32`.
pub add_step-orders_distinct :
    (today : String) (m m' : MilestoneFile) (input : AddStepInput) (s : Step)
    → add_step today m input ≡ ok (m', s)
    → orders_bounded m.steps ≡ true
    → orders_distinct m.steps ≡ true
    → orders_distinct m'.steps ≡ true
add_step-orders_distinct today m m' input s r b d =
    let (_, _, order, stored) = add_step-eq-ok today m m' input s r in
    let (free, rest) =
      placed-distinct m.steps (after_order m.steps input.after)
        (after_order_bound m.steps input.after b) b d in
    ap orders_distinct stored
    ∙ orders_distinct-snoc (placed m input).0 s rest
        (ap (λ n. has_order n (placed m input).0) order ∙ free)
