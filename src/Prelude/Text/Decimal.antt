-- ===== src/Prelude/Text/Decimal.antt =====
-- `format!("{n}")` and `parse::<u32>()`.
use Prim.Native.Nat.{ℕ, zero, suc, ◌+◌, ◌-◌, ◌*◌, ◌/◌, ◌%◌, ◌≤◌, ◌<◌}
use Prim.Native.Char.{Char, code}
use Prim.Native.String.{String, [], ◌∷◌}
use mathlib.Core.Path.{◌≡◌, refl, ◌∙◌}
use mathlib.Core.Bool.{Bool, false, ◌&&◌, ◌||◌}
use mathlib.Core.Option.{Option, none, some}
use mathlib.Core.Logic.{inl, inr}
use native.Mathlib.Omega.{arith}
use master_plan.Prelude.Tests.{leb, ltb, ◌==◌, if◌then◌else◌, Bool-cases}
use master_plan.Prelude.{ap, sym}

abbrev pub u32_max : ℕ
u32_max = 4294967295

abbrev pub is_ascii_digit : Char → Bool
is_ascii_digit c = leb b'0' (code c) && leb (code c) b'9'

-- The loop of `from_str_radix`: a character that is no digit, or a value past the maximum, fails.
unfoldable pub parse_digits : ℕ → String → Option ℕ
parse_digits acc [] = some acc
parse_digits acc (c ∷ s) =
    let next = acc * 10 + (code c - b'0') in
    let rest = parse_digits next s in if is_ascii_digit c && leb next u32_max then rest else none

-- A leading `+` is accepted before a digit; the empty text is refused.
unfoldable pub parse_u32 : String → Option ℕ
unfolding parse_digits
parse_u32 [] = none
parse_u32 (c ∷ []) = parse_digits 0 (c ∷ [])
parse_u32 (c ∷ d ∷ s) =
    if code c == b'+' then parse_digits 0 (d ∷ s) else parse_digits 0 (c ∷ d ∷ s)

abbrev pub digit_char : ℕ → Char
digit_char zero = "0"
digit_char (suc zero) = "1"
digit_char (suc (suc zero)) = "2"
digit_char (suc (suc (suc zero))) = "3"
digit_char (suc (suc (suc (suc zero)))) = "4"
digit_char (suc (suc (suc (suc (suc zero))))) = "5"
digit_char (suc (suc (suc (suc (suc (suc zero)))))) = "6"
digit_char (suc (suc (suc (suc (suc (suc (suc zero))))))) = "7"
digit_char (suc (suc (suc (suc (suc (suc (suc (suc zero)))))))) = "8"
digit_char _ = "9"

pub code-digit_char : (n : ℕ) → n < 10 → code (digit_char n) ≡ n + 48
code-digit_char zero h = refl
code-digit_char (suc zero) h = refl
code-digit_char (suc (suc zero)) h = refl
code-digit_char (suc (suc (suc zero))) h = refl
code-digit_char (suc (suc (suc (suc zero)))) h = refl
code-digit_char (suc (suc (suc (suc (suc zero))))) h = refl
code-digit_char (suc (suc (suc (suc (suc (suc zero)))))) h = refl
code-digit_char (suc (suc (suc (suc (suc (suc (suc zero))))))) h = refl
code-digit_char (suc (suc (suc (suc (suc (suc (suc (suc zero)))))))) h = refl
code-digit_char (suc (suc (suc (suc (suc (suc (suc (suc (suc zero))))))))) h = refl
code-digit_char (suc (suc (suc (suc (suc (suc (suc (suc (suc (suc n)))))))))) h =
    absurd (omega arith)

show_digits : ℕ → ℕ → String → String
show_digits zero n s = s
show_digits (suc f) n s =
    let rest = show_digits f (n / 10) (digit_char (n % 10) ∷ s) in
    if ltb n 10 then digit_char n ∷ s else rest

-- `n + 1` rounds are enough for the digits of `n`.
unfoldable pub show : ℕ → String
unfolding show_digits
show n = show_digits (suc n) n []

parse_digit :
    (acc n r : ℕ) (s : String)
    → n < 10
    → acc * 10 + n ≡ r
    → r ≤ u32_max
    → parse_digits acc (digit_char n ∷ s) ≡ parse_digits r s
unfolding parse_digits
parse_digit acc n r s h e le = ground (arith, code-digit_char n)

parse_digits-show_digits :
    (f n : ℕ) (s : String)
    → n < f
    → n ≤ u32_max
    → parse_digits 0 (show_digits f n s) ≡ parse_digits n s
unfolding show_digits
parse_digits-show_digits zero n s h le = elim h [ ]
parse_digits-show_digits (suc f) n s h le = elim (Bool-cases (ltb n 10)) [
  | inl small ↦ rw small (parse_digit 0 n n s (ground arith) (omega arith) le)
  | inr big ↦ rw big (
      parse_digits-show_digits f (n / 10) (digit_char (n % 10) ∷ s) (ground arith) (omega arith)
      ∙ parse_digit (n / 10) (n % 10) n s (omega arith) (omega arith) le)
]

-- What is printed begins with a digit.
show_digits-head :
    (f n : ℕ) (s : String)
    → n < f
    → (k : ℕ) × (t : String) × (k < 10) × (show_digits f n s ≡ digit_char k ∷ t)
unfolding show_digits
show_digits-head zero n s h = elim h [ ]
show_digits-head (suc f) n s h = elim (Bool-cases (ltb n 10)) [
  | inl small ↦ (n, s, ground arith, rw small)
  | inr big ↦
      let (k, t, lt, e) = show_digits-head f (n / 10) (digit_char (n % 10) ∷ s) (ground arith) in
      (k, t, lt, rw big e)
]

parse_u32-digit :
    (k : ℕ) (t : String) → k < 10 → parse_u32 (digit_char k ∷ t) ≡ parse_digits 0 (digit_char k ∷ t)
unfolding parse_u32
parse_u32-digit k [] h = refl
parse_u32-digit k (d ∷ t) h = ground (arith, code-digit_char k)

pub parse_digits-show : (n : ℕ) → n ≤ u32_max → parse_digits 0 (show n) ≡ some n
unfolding show parse_digits
parse_digits-show n h = parse_digits-show_digits (suc n) n [] (omega arith) h

-- A printed `u32` is parsed back.
pub parse_u32-show : (n : ℕ) → n ≤ u32_max → parse_u32 (show n) ≡ some n
unfolding show
parse_u32-show n h =
    let (k, t, lt, e) = show_digits-head (suc n) n [] (omega arith) in
    ap parse_u32 e ∙ parse_u32-digit k t lt ∙ ap (parse_digits 0) (sym e) ∙ parse_digits-show n h

-- `format!("{n:02}")`
unfoldable pub show_02 : ℕ → String
show_02 n = if ltb n 10 then "0" ∷ show n else show n

pub parse_u32-show_02 : (n : ℕ) → n ≤ u32_max → parse_u32 (show_02 n) ≡ some n
unfolding show_02
parse_u32-show_02 n h = elim (Bool-cases (ltb n 10)) [
  | inl small ↦ rw small (
      parse_u32-digit 0 (show n) (omega arith)
      ∙ parse_digit 0 0 0 (show n) (omega arith) (omega arith) (omega arith)
      ∙ parse_digits-show n h)
  | inr big ↦ rw big (parse_u32-show n h)
]

-- No character of a printed number is the dot or the dash.
abbrev pub has_char : ℕ → String → Bool
has_char c [] = false
has_char c (d ∷ s) = code d == c || has_char c s

show_digits-plain :
    (c f n : ℕ) (s : String)
    → c < 48
    → has_char c s ≡ false
    → has_char c (show_digits f n s) ≡ false
unfolding show_digits
show_digits-plain c zero n s l h = h
show_digits-plain c (suc f) n s l h = elim (Bool-cases (ltb n 10)) [
  | inl small ↦ rw small (ground (arith, code-digit_char n))
  | inr big ↦ rw big (
      show_digits-plain c f (n / 10) (digit_char (n % 10) ∷ s) l
        (ground (arith, code-digit_char (n % 10))))
]

pub show-plain : (c n : ℕ) → c < 48 → has_char c (show n) ≡ false
unfolding show
show-plain c n h = show_digits-plain c (suc n) n [] h refl
