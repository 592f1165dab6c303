-- ===== src/Ids/Fresh.antt =====
-- The identifiers of Ids.antt are not in use when they are handed out.
use master_plan.Prelude.{
  ◌++◌, ◌∙◌, refl, suc, ℕ, ◌≤◌, ◌<◌, max, ◌≡◌, String, true, false, List, [], ◌∷◌, Option, none,
  some, str_eq, arith, eq_iff, Bool-cases, inl, inr, Option-cases, contains_str,
}
use master_plan.Prelude.Text.{push_str, strip_prefix-push_str, until_char-plain, push_str-ne}
use master_plan.Prelude.Text.Decimal.{
  u32_max, show, show_02, parse_u32-show, parse_u32-show_02, show-plain,
}
use master_plan.Ids.{
  largest, add_one_u32, outline_major, next_step_id, child_suffix, next_split_child_suffix,
  child_id, parse_fragment_suffix, next_fragment_id,
}

module _ (number_of : String → Option ℕ) where
  largest_mono : (acc : ℕ) (xs : List String) → acc ≤ largest number_of acc xs
  unfolding largest
  largest_mono acc [] = omega arith
  largest_mono acc (x ∷ xs) = elim (Option-cases (number_of x)) [
    | inl e ↦ rw e (largest_mono acc xs)
    | inr (n, e) ↦ rw e (omega (arith, largest_mono (max acc n) xs))
  ]

  -- A number that some element has is at most the largest.
  number-le-largest :
      (acc n : ℕ) (xs : List String) (x : String)
      → contains_str xs x ≡ true
      → number_of x ≡ some n
      → n ≤ largest number_of acc xs
  unfolding largest
  number-le-largest acc n [] x h e = cc
  number-le-largest acc n (y ∷ ys) x h e = elim (Bool-cases (str_eq y x)) [
    | inl same ↦ rw ((eq_iff y x).0 same, e) (omega (arith, largest_mono (max acc n) ys))
    | inr other ↦
        number-le-largest (elim (number_of y) [ none ↦ acc | some k ↦ max acc k ]) n ys x
          (rw other at h) e
  ]

  largest-snoc :
      (acc : ℕ) (xs : List String) (x : String)
      → largest number_of acc (xs ++ x ∷ []) ≡ elim (number_of x) [
        | none ↦ largest number_of acc xs
        | some n ↦ max (largest number_of acc xs) n
      ]
  unfolding largest
  largest-snoc acc [] x = refl
  largest-snoc acc (y ∷ ys) x =
      largest-snoc (elim (number_of y) [ none ↦ acc | some n ↦ max acc n ]) ys x

  -- An element whose number is above the largest is not in the list.
  pub fresh_of_number :
      (xs : List String) (x : String)
      → number_of x ≡ some (add_one_u32 (largest number_of 0 xs))
      → largest number_of 0 xs < u32_max
      → contains_str xs x ≡ false
  fresh_of_number xs x e h = elim (Bool-cases (contains_str xs x)) [
    | inl there ↦ absurd (omega (arith, number-le-largest 0 _ xs x there e))
    | inr absent ↦ absent
  ]

outline_major-step_id : (n : ℕ) → n ≤ u32_max → outline_major (push_str "S" (show n)) ≡ some n
unfolding outline_major
outline_major-step_id n h =
    rw (strip_prefix-push_str "S" (show n), outline_major)
      (rw (until_char-plain b'.' (show n) (show-plain b'.' n (omega arith))) (parse_u32-show n h))

-- The next step id names no step, as long as the largest outline number is below `u32::MAX`.
pub next_step_id-fresh :
    (ids : List String)
    → largest outline_major 0 ids < u32_max
    → contains_str ids (next_step_id ids) ≡ false
unfolding next_step_id
next_step_id-fresh ids h =
    fresh_of_number outline_major ids _ (outline_major-step_id _ (omega arith)) h

child_suffix-child_id :
    (parent : String) (n : ℕ) → n ≤ u32_max → child_suffix parent (child_id parent n) ≡ some n
unfolding child_suffix
child_suffix-child_id parent n h = elim (Bool-cases (str_eq (child_id parent n) parent)) [
  | inl same ↦ absurd (push_str-ne parent (show n) "." ((eq_iff (child_id parent n) parent).0 same))
  | inr other ↦
      rw (other, strip_prefix-push_str (push_str parent ".") (show n))
        (rw (until_char-plain b'.' (show n) (show-plain b'.' n (omega arith))) (parse_u32-show n h))
]

-- The id of the next split child names no step, as long as the largest suffix in use is below
-- `u32::MAX`.
pub next_split_child-fresh :
    (ids : List String) (parent : String)
    → largest (child_suffix parent) 0 ids < u32_max
    → contains_str ids (child_id parent (next_split_child_suffix ids parent)) ≡ false
unfolding next_split_child_suffix
next_split_child-fresh ids parent h =
    fresh_of_number (child_suffix parent) ids _ (child_suffix-child_id parent _ (omega arith)) h

-- The largest suffix once the next child is there.
pub largest_child-snoc :
    (ids : List String) (parent : String)
    → largest (child_suffix parent) 0 ids < u32_max
    → largest
        (child_suffix parent)
        0
        (ids ++ child_id parent (next_split_child_suffix ids parent) ∷ [])
      ≡ suc (largest (child_suffix parent) 0 ids)
unfolding next_split_child_suffix
largest_child-snoc ids parent h =
    let next : add_one_u32 (largest (child_suffix parent) 0 ids)
        ≡ suc (largest (child_suffix parent) 0 ids) =
      omega arith in
    largest-snoc (child_suffix parent) 0 ids _
    ∙ rw
        (
          next,
          child_suffix-child_id parent (suc (largest (child_suffix parent) 0 ids)) (omega arith),
        )
        (omega arith)

parse_fragment-dash :
    (prefix : String) (n : ℕ)
    → n ≤ u32_max
    → parse_fragment_suffix prefix (push_str prefix (push_str "-" (show_02 n))) ≡ some n
unfolding parse_fragment_suffix
parse_fragment-dash prefix n h =
    rw (strip_prefix-push_str prefix (push_str "-" (show_02 n)), parse_fragment_suffix)
      (rw (strip_prefix-push_str "-" (show_02 n), parse_fragment_suffix) (parse_u32-show_02 n h))

next_fragment_id-shape :
    (prefix : String) (ids : List String)
    → next_fragment_id prefix ids
      ≡ push_str prefix
          (push_str "-" (show_02 (add_one_u32 (largest (parse_fragment_suffix prefix) 0 ids))))
unfolding next_fragment_id push_str
next_fragment_id-shape prefix ids = elim (Bool-cases (str_eq prefix "AC")) [
  | inl ac ↦ rw ((eq_iff prefix "AC").0 ac)
  | inr other ↦ rw other
]

-- The next fragment id (of an acceptance criterion or an open question) is not in use, as long as
-- the largest number in use is below `u32::MAX`.
pub next_fragment_id-fresh :
    (prefix : String) (ids : List String)
    → largest (parse_fragment_suffix prefix) 0 ids < u32_max
    → contains_str ids (next_fragment_id prefix ids) ≡ false
next_fragment_id-fresh prefix ids h = rw (next_fragment_id-shape prefix ids) (
    fresh_of_number (parse_fragment_suffix prefix) ids _
      (parse_fragment-dash prefix _ (omega arith)) h)
