-- ===== src/Prelude/Lists.antt =====
-- Lists measured by native numbers, Boolean searches that run, and predicates on every element.
use Prim.Native.Nat.{ℕ, suc, ◌+◌}
use mathlib.Core.Path.{sym, ◌∙◌, ◌≡◌, refl}
use mathlib.Core.Bool.{Bool, true, false, not, ◌&&◌, ◌||◌}
use mathlib.Core.List.{List, [], ◌∷◌, ◌++◌}
use mathlib.Core.Option.{Option, none, some}
use Prim.Native.String.{String}
use text.Mathlib.Text.{◌==◌ as str_eq}
use text.Mathlib.TextEquality.{eq_iff}
use native.Mathlib.Omega.{arith}
use mathlib.Core.Logic.{inl, inr}
use master_plan.Prelude.Tests.{Bool-cases, if◌then◌else◌}

module _ {ℓ} {A : Type ℓ} where
  abbrev pub length : List A → ℕ
  length [] = 0
  length (x ∷ xs) = suc (length xs)

  pub length-append : (xs ys : List A) → length (xs ++ ys) ≡ length xs + length ys
  length-append [] ys = omega arith
  length-append (x ∷ xs) ys = omega (arith, length-append xs ys)

  abbrev pub is_nil : List A → Bool
  is_nil [] = true
  is_nil (x ∷ xs) = false

  pub is_nil-append : (xs ys : List A) → is_nil (xs ++ ys) ≡ is_nil xs && is_nil ys
  is_nil-append [] ys = refl
  is_nil-append (x ∷ xs) ys = refl

  pub append-eq-nil : (xs ys : List A) → xs ++ ys ≡ [] → (xs ≡ []) × (ys ≡ [])
  append-eq-nil [] ys h = (refl, h)
  append-eq-nil (x ∷ xs) ys h = cc

  pub nil_of : (xs : List A) → not (is_nil xs) ≡ false → xs ≡ []
  nil_of [] h = refl
  nil_of (x ∷ xs) h = cc

  -- `iter().any`, `iter().all`, `iter().find` and `iter().filter`.
  abbrev pub any : (A → Bool) → List A → Bool
  any p [] = false
  any p (x ∷ xs) = p x || any p xs

  abbrev pub all : (A → Bool) → List A → Bool
  all p [] = true
  all p (x ∷ xs) = p x && all p xs

  abbrev pub find : (A → Bool) → List A → Option A
  find p [] = none
  find p (x ∷ xs) = if p x then some x else find p xs

  abbrev pub filter : (A → Bool) → List A → List A
  filter p [] = []
  filter p (x ∷ xs) = let rest = filter p xs in if p x then x ∷ rest else rest

  pub filter-eq-nil :
      (p : A → Bool) (x : A) (xs : List A)
      → filter p (x ∷ xs) ≡ []
      → (p x ≡ false) × (filter p xs ≡ [])
  filter-eq-nil p x xs h = elim (Bool-cases (p x)) [
    | inl e ↦ (let absurd_list : x ∷ filter p xs ≡ [] = rw e at h in cc)
    | inr e ↦ (e, rw e at h)
  ]

  -- `iter_mut().find(p)` followed by a change of what it found.
  abbrev pub update_first : (A → Bool) → (A → A) → List A → List A
  update_first p f [] = []
  update_first p f (x ∷ xs) = let rest = update_first p f xs in if p x then f x ∷ xs else x ∷ rest

  -- `position(p)` followed by `remove`.
  abbrev pub remove_first : (A → Bool) → List A → List A
  remove_first p [] = []
  remove_first p (x ∷ xs) = let rest = remove_first p xs in if p x then xs else x ∷ rest

-- `contains(&x)` on a list of texts, and lists without repetition.
abbrev pub contains_str : List String → String → Bool
contains_str xs x = any (λ y. str_eq y x) xs

pub str_eq_comm : (x y : String) → str_eq x y ≡ str_eq y x
str_eq_comm x y = elim (Bool-cases (str_eq x y)) [
  | inl e ↦ rw ((eq_iff x y).0 e) refl
  | inr e ↦ elim (Bool-cases (str_eq y x)) [
    | inl f ↦ (let same = (eq_iff x y).1 (sym ((eq_iff y x).0 f)) in cc)
    | inr f ↦ e ∙ sym f
  ]
]

abbrev pub distinct : List String → Bool
distinct [] = true
distinct (x ∷ xs) = not (contains_str xs x) && distinct xs

pub contains-snoc :
    (xs : List String) (y x : String)
    → contains_str (xs ++ y ∷ []) x ≡ contains_str xs x || str_eq y x
contains-snoc [] y x = ground arith
contains-snoc (z ∷ zs) y x = ground (arith, contains-snoc zs y x)

pub distinct-snoc :
    (xs : List String) (x : String)
    → distinct xs ≡ true
    → contains_str xs x ≡ false
    → distinct (xs ++ x ∷ []) ≡ true
distinct-snoc [] x d h = refl
distinct-snoc (y ∷ ys) x d h =
    ground (arith, contains-snoc ys x y, distinct-snoc ys x, eq_iff x y, eq_iff y x)

pub str_eq_refl : (x : String) → str_eq x x ≡ true
str_eq_refl x = (eq_iff x x).1 refl
