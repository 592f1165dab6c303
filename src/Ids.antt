-- ===== src/Ids.antt =====
-- The identifiers that the program hands out: the largest number in use plus one. `next_step_id` and
-- `next_split_child_suffix` of crates/mp/src/step.rs, and `next_fragment_id` of
-- crates/mp/src/milestone/io.rs. A `u32` sum wraps, as in a release build.
pub mod Fresh
use master_plan.Prelude.{
  ℕ, ◌+◌, ◌%◌, max, String, List, [], ◌∷◌, Option, none, some, str_eq, if◌then◌else◌,
}
use master_plan.Prelude.Text.{push_str, strip_prefix, until_char}
use master_plan.Prelude.Text.Decimal.{u32_max, parse_u32, show, show_02}

-- The loop `max = max.max(n)` over the numbers that `number_of` reads.
module _ {ℓ} {A : Type ℓ} (number_of : A → Option ℕ) where
  unfoldable pub largest : ℕ → List A → ℕ
  largest acc [] = acc
  largest acc (x ∷ xs) = largest (elim (number_of x) [ none ↦ acc | some n ↦ max acc n ]) xs

abbrev pub add_one_u32 : ℕ → ℕ
add_one_u32 n = (n + 1) % (u32_max + 1)

-- `outline_major`: the number between `S` and the first dot.
unfoldable pub outline_major : String → Option ℕ
outline_major id = elim (strip_prefix "S" id) [
  | none ↦ none
  | some rest ↦ parse_u32 (until_char b'.' rest)
]

unfoldable pub next_step_id : List String → String
unfolding largest
next_step_id ids = push_str "S" (show (add_one_u32 (largest outline_major 0 ids)))

-- The suffix of a split child of `parent`, the number up to the next dot.
unfoldable pub child_suffix : String → String → Option ℕ
child_suffix parent id =
    if str_eq id parent then none else elim (strip_prefix (push_str parent ".") id) [
      | none ↦ none
      | some rest ↦ parse_u32 (until_char b'.' rest)
    ]

unfoldable pub next_split_child_suffix : List String → String → ℕ
unfolding largest
next_split_child_suffix ids parent = add_one_u32 (largest (child_suffix parent) 0 ids)

-- `format!("{parent}.{suffix}")`
abbrev pub child_id : String → ℕ → String
child_id parent n = push_str (push_str parent ".") (show n)

-- `parse_fragment_suffix`: the dash after the prefix is optional.
unfoldable pub parse_fragment_suffix : String → String → Option ℕ
parse_fragment_suffix prefix id = elim (strip_prefix prefix id) [
  | none ↦ none
  | some rest ↦ elim (strip_prefix "-" rest) [
    | none ↦ parse_u32 rest
    | some digits ↦ parse_u32 digits
  ]
]

-- Both arms of `if prefix == "AC"` print the same text.
unfoldable pub next_fragment_id : String → List String → String
unfolding largest
next_fragment_id prefix ids =
    let next = add_one_u32 (largest (parse_fragment_suffix prefix) 0 ids) in
    if str_eq prefix "AC"
    then push_str "AC-" (show_02 next)
    else push_str prefix (push_str "-" (show_02 next))
