-- ===== src/Prelude/Text.antt =====
-- The methods of Rust's `str` that the program calls, by recursion on the characters, and the
-- decimal numbers of `format!` and `parse`.
pub mod Decimal
pub mod Integers
use Prim.Native.Nat.{ℕ, zero, suc, ◌+◌, ◌-◌, ◌<◌}
use Prim.Native.Char.{Char, code}
use Prim.Native.String.{String, [], ◌∷◌}
use mathlib.Core.Path.{◌≡◌, refl, ap}
use mathlib.Core.Bool.{Bool, true, false, ◌&&◌, ◌||◌}
use mathlib.Core.Option.{Option, none, some}
use mathlib.Core.Logic.{◌≢◌}
use mathlib.Core.List.{List}
use native.Mathlib.Omega.{arith}
use text.Mathlib.Text.{◌==◌ as str_eq}
use text.Mathlib.TextEquality.{eq_iff}
use text.Mathlib.TextPositions.{eq_refl}
use master_plan.Prelude.Tests.{leb, ltb, ◌==◌, if◌then◌else◌}
use Decimal.{has_char}
use master_plan.Prelude.{◌<◌}

-- `push_str`: what `format!` does with its pieces.
unfoldable pub push_str : String → String → String
push_str [] t = t
push_str (c ∷ s) t = c ∷ push_str s t

abbrev pub is_empty : String → Bool
is_empty [] = true
is_empty (c ∷ s) = false

abbrev pub char_eq : Char → Char → Bool
char_eq c d = code c == code d

unfoldable pub strip_prefix : String → String → Option String
strip_prefix [] s = some s
strip_prefix (c ∷ p) [] = none
strip_prefix (c ∷ p) (d ∷ s) = let rest = strip_prefix p s in if char_eq c d then rest else none

pub strip_prefix-push_str : (p s : String) → strip_prefix p (push_str p s) ≡ some s
unfolding strip_prefix push_str
strip_prefix-push_str [] s = refl
strip_prefix-push_str (c ∷ p) s = ground (arith, strip_prefix-push_str p s)

-- A text with something behind it is another text.
pub push_str-ne : (s t : String) (c : Char) → push_str (push_str s (c ∷ [])) t ≢ s
unfolding push_str
push_str-ne [] t c e = cc
push_str-ne (d ∷ s) t c e = push_str-ne s t c (cc)

-- `&s[s.find(p)?..]`
unfoldable pub from_match : String → String → Option String
from_match p [] = elim (strip_prefix p []) [ none ↦ none | some _ ↦ some [] ]
from_match p (c ∷ s) = elim (strip_prefix p (c ∷ s)) [
  | none ↦ from_match p s
  | some _ ↦ some (c ∷ s)
]

-- `&s[..s.find(c)? + 1]` for an ASCII character `c`
unfoldable pub through_char : Char → String → Option String
through_char c [] = none
through_char c (d ∷ s) =
    if char_eq c d
    then some (d ∷ [])
    else elim (through_char c s) [ none ↦ none | some t ↦ some (d ∷ t) ]

-- `char::len_utf8`
abbrev pub char_len : Char → ℕ
char_len c =
    if ltb (code c) 0x80
    then 1
    else if ltb (code c) 0x800
    then 2
    else if ltb (code c) 0x10000
    then 3
    else 4

abbrev pub byte_len : String → ℕ
byte_len [] = 0
byte_len (c ∷ s) = char_len c + byte_len s

-- `char::is_whitespace`: the code points with the property White_Space.
abbrev pub is_whitespace : Char → Bool
is_whitespace c =
    let n = code c in
    (leb 9 n && leb n 13)
    || n == 32
    || n == 0x85
    || n == 0xA0
    || n == 0x1680
    || (leb 0x2000 n && leb n 0x200A)
    || n == 0x2028
    || n == 0x2029
    || n == 0x202F
    || n == 0x205F
    || n == 0x3000

unfoldable pub trim_start : String → String
trim_start [] = []
trim_start (c ∷ s) = let rest = trim_start s in if is_whitespace c then rest else c ∷ s

-- `&s[n..]`: `none` where Rust panics, past the end or inside a character.
unfoldable pub drop_bytes : ℕ → String → Option String
drop_bytes n [] = if n == 0 then some [] else none
drop_bytes n (c ∷ s) =
    let rest = drop_bytes (n - char_len c) s in
    if n == 0 then some (c ∷ s) else if leb (char_len c) n then rest else none

char_len-pos : (c : Char) → 0 < char_len c
char_len-pos c = ground arith

pub drop_bytes-push_str : (a s : String) → drop_bytes (byte_len a) (push_str a s) ≡ some s
unfolding drop_bytes push_str
drop_bytes-push_str [] [] = refl
drop_bytes-push_str [] (c ∷ s) = refl
drop_bytes-push_str (c ∷ a) s = ground (arith, char_len-pos c, drop_bytes-push_str a s)

-- The first `c` ends what is taken.
pub through_char-plain :
    (c : Char) (a rest : String)
    → has_char (code c) a ≡ false
    → through_char c (push_str a (c ∷ rest)) ≡ some (push_str a (c ∷ []))
unfolding through_char push_str
through_char-plain c [] rest h = ground arith
through_char-plain c (d ∷ a) rest h = ground (arith, through_char-plain c a rest)

from_match_here : (p t r : String) → strip_prefix p t ≡ some r → from_match p t ≡ some t
unfolding from_match
from_match_here p [] r e = rw (e, from_match)
from_match_here p (c ∷ t) r e = rw (e, from_match)

-- A text that begins with the pattern is found whole.
pub from_match-push_str : (p s : String) → from_match p (push_str p s) ≡ some (push_str p s)
from_match-push_str p s = from_match_here p (push_str p s) s (strip_prefix-push_str p s)

pub push_str_assoc : (a b c : String) → push_str (push_str a b) c ≡ push_str a (push_str b c)
unfolding push_str
push_str_assoc [] b c = refl
push_str_assoc (d ∷ a) b c = ap (λ s. d ∷ s) (push_str_assoc a b c)

-- `s.split(c).next()`: the text before the first `c`.
unfoldable pub until_char : ℕ → String → String
until_char c [] = []
until_char c (d ∷ s) = let rest = until_char c s in if code d == c then [] else d ∷ rest

pub until_char-plain : (c : ℕ) (s : String) → has_char c s ≡ false → until_char c s ≡ s
unfolding until_char
until_char-plain c [] h = refl
until_char-plain c (d ∷ s) h = ground (arith, until_char-plain c s)

add_to_head : Char → List String → List String
add_to_head c List.[] = List.◌∷◌ (c ∷ []) List.[]
add_to_head c (List.◌∷◌ t ts) = List.◌∷◌ (c ∷ t) ts

-- `s.split(c)`
unfoldable pub split_char : ℕ → String → List String
unfolding add_to_head
split_char c [] = List.◌∷◌ [] List.[]
split_char c (d ∷ s) =
    let rest = split_char c s in if code d == c then List.◌∷◌ [] rest else add_to_head d rest

-- `s.split_once(c)`
unfoldable pub split_once : ℕ → String → Option (String × String)
split_once c [] = none
split_once c (d ∷ s) =
    let rest = split_once c s in
    if code d == c then some ([], s) else elim rest [ none ↦ none | some (a, b) ↦ some (d ∷ a, b) ]

-- `String::push`
abbrev pub push : String → Char → String
push s c = push_str s (c ∷ [])

-- `s.trim_start_matches(p)`
unfoldable pub skip_chars : (Char → Bool) → String → String
skip_chars p [] = []
skip_chars p (c ∷ s) = let rest = skip_chars p s in if p c then rest else c ∷ s

-- `s.trim_end()`: a text of white space alone becomes empty.
unfoldable pub trim_end : String → String
trim_end [] = []
trim_end (c ∷ s) =
    let rest = trim_end s in if is_whitespace c && is_empty rest then [] else c ∷ rest

-- `s.trim()`
unfoldable pub trim : String → String
trim s = trim_end (trim_start s)

-- `s.chars().all(|c| c.is_ascii_digit())`
abbrev pub all_digits : String → Bool
all_digits [] = true
all_digits (c ∷ s) = leb b'0' (code c) && leb (code c) b'9' && all_digits s
