-- ===== src/Prelude/Counts.antt =====
-- How often a text stands in a list.
use Prim.Native.Nat.{ℕ, suc, ◌+◌, ◌≤◌, ◌<◌}
use Prim.Native.String.{String}
use mathlib.Core.Path.{◌≡◌, refl, ap}
use mathlib.Core.Logic.{inl, inr, ◌⊎◌}
use mathlib.Core.Bool.{Bool, true, false}
use mathlib.Core.List.{List, [], ◌∷◌, ◌++◌}
use text.Mathlib.Text.{◌==◌ as str_eq}
use text.Mathlib.TextEquality.{eq_iff}
use native.Mathlib.Omega.{arith}
use master_plan.Prelude.Tests.{Bool-cases, if◌then◌else◌}
use master_plan.Prelude.Lists.{length, contains_str, distinct, remove_first, filter, str_eq_refl}

-- One where the test holds.
abbrev pub one_if : Bool → ℕ
one_if true = 1
one_if false = 0

pub one_if-le : (b : Bool) → one_if b ≤ 1
one_if-le true = omega arith
one_if-le false = omega arith

abbrev pub count : String → List String → ℕ
count x [] = 0
count x (y ∷ ys) = one_if (str_eq y x) + count x ys

pub count-append : (x : String) (xs ys : List String) → count x (xs ++ ys) ≡ count x xs + count x ys
count-append x [] ys = omega arith
count-append x (z ∷ zs) ys = omega (arith, count-append x zs ys)

pub count-snoc :
    (x : String) (xs : List String) (y : String)
    → count x (xs ++ y ∷ []) ≡ count x xs + one_if (str_eq y x)
count-snoc x xs y = omega (arith, count-append x xs (y ∷ []))

pub contains_of_count : (x : String) (xs : List String) → 0 < count x xs → contains_str xs x ≡ true
contains_of_count x [] h = absurd (omega (arith, h))
contains_of_count x (y ∷ ys) h = ground (arith, contains_of_count x ys)

pub count_of_contains : (x : String) (xs : List String) → contains_str xs x ≡ true → 0 < count x xs
count_of_contains x [] h = cc
count_of_contains x (y ∷ ys) h = ground (arith, count_of_contains x ys)

pub count_of_absent : (x : String) (xs : List String) → contains_str xs x ≡ false → count x xs ≡ 0
count_of_absent x [] h = refl
count_of_absent x (y ∷ ys) h = ground (arith, count_of_absent x ys)

-- A list without repetition has each text once at most.
pub count-distinct : (x : String) (xs : List String) → distinct xs ≡ true → count x xs ≤ 1
count-distinct x [] d = omega arith
count-distinct x (y ∷ ys) d = elim (Bool-cases (str_eq y x)) [
  | inl e ↦
      (let same : y ≡ x = (eq_iff y x).0 e in
        ground (arith, count_of_absent x ys, ap (λ (z : String). contains_str ys z) same))
  | inr e ↦ ground (arith, count-distinct x ys)
]

drop_zero : (b : Bool) (n : ℕ) → b ≡ false → 0 < one_if b + n → 0 < n
drop_zero b n e h = ground arith

abbrev drop_one : String → List String → List String
drop_one x = remove_first (λ y. str_eq y x)

count-drop_one :
    (x z : String) (xs : List String)
    → 0 < count x xs
    → count z xs ≡ count z (drop_one x xs) + one_if (str_eq x z)
count-drop_one x z [] h = omega arith
count-drop_one x z (y ∷ ys) h = elim (Bool-cases (str_eq y x)) [
  | inl e ↦ rw (e, (eq_iff y x).0 e) (omega arith)
  | inr e ↦
      (let later : 0 < count x ys = omega (arith, drop_zero _ _ e h) in
        rw e (omega (arith, count-drop_one x z ys later)))
]

length-drop_one :
    (x : String) (xs : List String) → 0 < count x xs → length xs ≡ suc (length (drop_one x xs))
length-drop_one x [] h = omega arith
length-drop_one x (y ∷ ys) h = elim (Bool-cases (str_eq y x)) [
  | inl e ↦ rw e refl
  | inr e ↦
      (let later : 0 < count x ys = omega (arith, drop_zero _ _ e h) in
        rw e (omega (arith, length-drop_one x ys later)))
]

head_counted :
    (x : String) (xs ys : List String)
    → ((z : String) → count z (x ∷ xs) ≤ count z ys)
    → 0 < count x ys
head_counted x xs ys h = ground (arith, h x, str_eq_refl x)

tail_counted :
    (x : String) (xs ys : List String)
    → ((z : String) → count z (x ∷ xs) ≤ count z ys)
    → (z : String) → count z xs ≤ count z (drop_one x ys)
tail_counted x xs ys h z = omega (arith, h z, count-drop_one x z ys (head_counted x xs ys h))

-- A list inside another one is not longer.
pub length-le_of_counts :
    (xs ys : List String) → ((z : String) → count z xs ≤ count z ys) → length xs ≤ length ys
length-le_of_counts [] ys h = omega arith
length-le_of_counts (x ∷ xs) ys h = omega (
  arith,
  length-drop_one x ys (head_counted x xs ys h),
  length-le_of_counts xs (drop_one x ys) (tail_counted x xs ys h),
)

-- It holds the same texts where it is not shorter either.
pub counts_of_length :
    (xs ys : List String)
    → ((z : String) → count z xs ≤ count z ys)
    → length ys ≤ length xs
    → (z : String) → count z xs ≡ count z ys
counts_of_length [] [] h l z = refl
counts_of_length [] (y ∷ ys) h l z = omega arith
counts_of_length (x ∷ xs) ys h l z = omega (
  arith,
  count-drop_one x z ys (head_counted x xs ys h),
  counts_of_length xs (drop_one x ys) (tail_counted x xs ys h)
      (omega (arith, length-drop_one x ys (head_counted x xs ys h))) z,
)

module _ (p : String → Bool) where
  pub count-filter :
      (x : String) (xs : List String) → count x (filter p xs) ≡ (if p x then count x xs else 0)
  count-filter x [] = ground arith
  count-filter x (y ∷ ys) = elim (Bool-cases (str_eq y x)) [
    | inl e ↦ (let same : y ≡ x = (eq_iff y x).0 e in rw same (kept x ys (count-filter x ys)))
    | inr e ↦ rw e (other x y ys e (count-filter x ys))
  ]
    where
      kept :
          (x : String) (ys : List String)
          → count x (filter p ys) ≡ (if p x then count x ys else 0)
          → count x (if p x then x ∷ filter p ys else filter p ys)
            ≡ (if p x then one_if (str_eq x x) + count x ys else 0)
      kept x ys h = ground arith

      other :
          (x y : String) (ys : List String)
          → str_eq y x ≡ false
          → count x (filter p ys) ≡ (if p x then count x ys else 0)
          → count x (if p y then y ∷ filter p ys else filter p ys)
            ≡ (if p x then one_if false + count x ys else 0)
      other x y ys e h = ground arith

-- `f` stands in the list, and `t` behind its first occurrence.
abbrev pub before : String → String → List String → Bool
before f t [] = false
before f t (x ∷ xs) = if str_eq x f then contains_str xs t else before f t xs

contains-append_left :
    (xs ys : List String) (t : String) → contains_str xs t ≡ true → contains_str (xs ++ ys) t ≡ true
contains-append_left [] ys t h = cc
contains-append_left (x ∷ xs) ys t h = ground (arith, contains-append_left xs ys t)

contains-snoc_self : (xs : List String) (t : String) → contains_str (xs ++ t ∷ []) t ≡ true
contains-snoc_self [] t = ground (arith, str_eq_refl t)
contains-snoc_self (x ∷ xs) t = ground (arith, contains-snoc_self xs t)

pub before-append_left :
    (f t : String) (xs ys : List String) → before f t xs ≡ true → before f t (xs ++ ys) ≡ true
before-append_left f t [] ys h = cc
before-append_left f t (x ∷ xs) ys h =
    ground (arith, before-append_left f t xs ys, contains-append_left xs ys t)

pub before-snoc_self :
    (f t : String) (xs : List String) → 0 < count f xs → before f t (xs ++ t ∷ []) ≡ true
before-snoc_self f t [] h = absurd (omega (arith, h))
before-snoc_self f t (x ∷ xs) h = ground (arith, before-snoc_self f t xs, contains-snoc_self xs t)

pub contains_cases :
    (x : String) (xs : List String)
    → ((contains_str xs x ≡ true) × (0 < count x xs))
      ⊎ ((contains_str xs x ≡ false) × (count x xs ≡ 0))
contains_cases x xs = elim (Bool-cases (contains_str xs x)) [
  | inl e ↦ inl (e, count_of_contains x xs e)
  | inr e ↦ inr (e, count_of_absent x xs e)
]
