-- ===== src/Paths.antt =====
-- The milestone ids of crates/mp/src/paths.rs.
use master_plan.Steps.Keys.{le_key, parse_all}
use master_plan.Prelude.{
  List, [], ◌∷◌, ℕ, String, Bool, ◌||◌, Option, none, some, ◌==◌, if◌then◌else◌,
}
use Prim.Native.Char.{Char, code}
use Prim.Native.String.{[] as nil, ◌∷◌ as ◌▹◌}
use master_plan.Prelude.Text.{push_str, split_once, trim, is_empty, skip_chars, split_char}
use master_plan.Prelude.Text.Decimal.{is_ascii_digit, parse_u32, show_02}

abbrev pub is_m : Char → Bool
is_m c = code c == b'M' || code c == b'm'

abbrev pub digits_of : String → String
digits_of nil = nil
digits_of (c ▹ s) = let rest = digits_of s in if is_ascii_digit c then c ▹ rest else rest

abbrev pub or_zero : Option ℕ → ℕ
or_zero none = 0
or_zero (some n) = n

unfoldable pub normalize_top_level_milestone_id : String → String
normalize_top_level_milestone_id id =
    let digits = digits_of id in
    if is_empty digits then id else show_02 (or_zero (parse_u32 digits))

unfoldable pub normalize_milestone_id : String → String
normalize_milestone_id raw =
    let id = skip_chars is_m (trim raw) in
    elim (split_once b'.' id) [
      | none ↦ normalize_top_level_milestone_id id
      | some (base, suffix) ↦ push_str (normalize_top_level_milestone_id base) (push_str "." suffix)
    ]

unfoldable pub milestone_sort_key : String → List ℕ
unfolding parse_all
milestone_sort_key id = parse_all (split_char b'.' (normalize_milestone_id id))

-- `compare_milestone_ids(a, b)` is not `Greater`.
unfoldable pub le_milestone_id : String → String → Bool
le_milestone_id a b = le_key (milestone_sort_key a) (milestone_sort_key b)

-- `sort_by(|a, b| compare_milestone_ids(a, b))`, which is stable.
unfoldable pub insert_id : String → List String → List String
insert_id x [] = x ∷ []
insert_id x (y ∷ ys) =
    let rest = insert_id x ys in if le_milestone_id x y then x ∷ y ∷ ys else y ∷ rest

unfoldable pub sort_ids : List String → List String
sort_ids [] = []
sort_ids (x ∷ xs) = insert_id x (sort_ids xs)

unfoldable pub display_milestone_id : String → String
display_milestone_id id = push_str "M" (normalize_milestone_id id)
