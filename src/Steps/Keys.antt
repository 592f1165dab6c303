-- ===== src/Steps/Keys.antt =====
-- `step_sort_key` and `compare_step_ids` of crates/mp/src/path_engine.rs, and the sort by them.
pub mod Sorting
use master_plan.Prelude.{
  ℕ, Bool, true, false, String, List, [], ◌∷◌, none, some, ltb, ◌==◌, if◌then◌else◌,
}
use master_plan.Prelude.Text.{strip_prefix, split_char}
use master_plan.Prelude.Text.Decimal.{parse_u32}
use master_plan.Model.Milestone.{Step}

unfoldable pub parse_all : List String → List ℕ
parse_all [] = []
parse_all (p ∷ ps) =
    let rest = parse_all ps in elim (parse_u32 p) [ none ↦ rest | some n ↦ n ∷ rest ]

unfoldable pub step_sort_key : String → List ℕ
unfolding parse_all
step_sort_key id =
    parse_all (split_char b'.' (elim (strip_prefix "S" id) [ none ↦ id | some rest ↦ rest ]))

-- `a <= b` in the lexicographic order of `Vec<u32>`.
abbrev pub le_key : List ℕ → List ℕ → Bool
le_key [] ys = true
le_key (x ∷ xs) [] = false
le_key (x ∷ xs) (y ∷ ys) =
    let rest = le_key xs ys in if ltb x y then true else if x == y then rest else false

unfoldable pub le_step_id : String → String → Bool
le_step_id a b = le_key (step_sort_key a) (step_sort_key b)

-- `sort_by` is stable: an element goes before the first one that is larger.
unfoldable pub insert_step : Step → List Step → List Step
insert_step s [] = s ∷ []
insert_step s (t ∷ ts) =
    let rest = insert_step s ts in if le_step_id s.id t.id then s ∷ t ∷ ts else t ∷ rest

unfoldable pub sort_steps : List Step → List Step
unfolding insert_step
sort_steps [] = []
sort_steps (s ∷ ss) = insert_step s (sort_steps ss)
