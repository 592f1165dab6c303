-- ===== src/Prelude/Text/Integers.antt =====
-- `parse::<i64>()` and `strip_suffix`.
use Prim.Native.Nat.{ℕ, ◌+◌, ◌-◌, ◌*◌}
use Prim.Native.Char.{code}
use Prim.Native.String.{String, [], ◌∷◌}
use mathlib.Core.Bool.{Bool, true, false, ◌&&◌}
use mathlib.Core.Option.{Option, none, some}
use text.Mathlib.Text.{◌==◌ as str_eq}
use mathlib.Core.Path.{◌≡◌}
use mathlib.Core.Logic.{inl, inr}
use Prim.Native.Nat.{◌%◌}
use native.Mathlib.Omega.{arith}
use master_plan.Prelude.Tests.{leb, ◌==◌, if◌then◌else◌, Bool-cases}
use master_plan.Prelude.Text.Decimal.{is_ascii_digit, parse_digits, parse_u32}

-- `i64` as its sign and its magnitude.
pub record Int64 : Type 0 where
  pub negative : Bool
  pub magnitude : ℕ

-- Digits up to a maximum; a character that is no digit fails.
unfoldable pub parse_up_to : ℕ → ℕ → String → Option ℕ
parse_up_to limit acc [] = some acc
parse_up_to limit acc (c ∷ s) =
    let next = acc * 10 + (code c - b'0') in
    let rest = parse_up_to limit next s in if is_ascii_digit c && leb next limit then rest else none

abbrev pub signed : Bool → Option ℕ → Option Int64
signed negative none = none
signed negative (some n) = some (record { negative = negative; magnitude = n })

-- A sign alone and the empty text are refused.
unfoldable pub parse_i64 : String → Option Int64
parse_i64 [] = none
parse_i64 (c ∷ []) = signed false (parse_up_to 9223372036854775807 0 (c ∷ []))
parse_i64 (c ∷ d ∷ s) =
    if code c == b'+'
    then signed false (parse_up_to 9223372036854775807 0 (d ∷ s))
    else if code c == b'-'
    then signed true (parse_up_to 9223372036854775808 0 (d ∷ s))
    else signed false (parse_up_to 9223372036854775807 0 (c ∷ d ∷ s))

unfoldable pub strip_suffix : String → String → Option String
strip_suffix suffix [] = if str_eq suffix [] then some [] else none
strip_suffix suffix (c ∷ s) =
    if str_eq suffix (c ∷ s)
    then some []
    else elim (strip_suffix suffix s) [ none ↦ none | some rest ↦ some (c ∷ rest) ]

abbrev pub usize_max : ℕ
usize_max = 18446744073709551615

-- `parse::<usize>()` on a 64-bit machine, and a sum that wraps.
unfoldable pub parse_usize : String → Option ℕ
parse_usize [] = none
parse_usize (c ∷ []) = parse_up_to usize_max 0 (c ∷ [])
parse_usize (c ∷ d ∷ s) =
    if code c == b'+' then parse_up_to usize_max 0 (d ∷ s) else parse_up_to usize_max 0 (c ∷ d ∷ s)

abbrev pub add_one_usize : ℕ → ℕ
add_one_usize n = (n + 1) % (usize_max + 1)

-- A text that is a `u32` is that number as a `usize` too.
parse_up_to-u32 :
    (acc n : ℕ) (s : String) → parse_digits acc s ≡ some n → parse_up_to usize_max acc s ≡ some n
unfolding parse_digits parse_up_to
parse_up_to-u32 acc n [] h = h
parse_up_to-u32 acc n (c ∷ s) h = ground (arith, parse_up_to-u32 (acc * 10 + (code c - b'0')) n s)

pub parse_usize-u32 : (n : ℕ) (s : String) → parse_u32 s ≡ some n → parse_usize s ≡ some n
unfolding parse_u32 parse_usize
parse_usize-u32 n [] h = cc
parse_usize-u32 n (c ∷ []) h = parse_up_to-u32 0 n (c ∷ []) h
parse_usize-u32 n (c ∷ d ∷ s) h = elim (Bool-cases (code c == b'+')) [
  | inl e ↦ rw e (parse_up_to-u32 0 n (d ∷ s) (rw e at h))
  | inr e ↦ rw e (parse_up_to-u32 0 n (c ∷ d ∷ s) (rw e at h))
]
