-- ===== src/Prelude/Sorting.antt =====
-- Stable sorting by a test `a <= b`, and what filters, prefixes and sorts of a list hold.
use Prim.Native.Nat.{ℕ, zero, suc, ◌+◌, ◌≤◌}
use mathlib.Core.Path.{◌≡◌, refl, sym, ◌∙◌, ap}
use mathlib.Core.Logic.{inl, inr}
use mathlib.Core.Bool.{Bool, true}
use mathlib.Core.Option.{Option, none, some}
use mathlib.Core.List.{List, [], ◌∷◌, Memᴰ}
use mathlib.Core.List.Memᴰ
use native.Mathlib.Omega.{arith}
use master_plan.Prelude.Tests.{Bool-cases, if◌then◌else◌}
use master_plan.Prelude.Lists.{length, filter}

module _ {ℓ} {A : Type ℓ} where
  -- `sort_by`: an element goes before the first one that it is not larger than.
  abbrev pub insert_by : (A → A → Bool) → A → List A → List A
  insert_by le x [] = x ∷ []
  insert_by le x (y ∷ ys) = let rest = insert_by le x ys in if le x y then x ∷ y ∷ ys else y ∷ rest

  abbrev pub sort_by : (A → A → Bool) → List A → List A
  sort_by le [] = []
  sort_by le (x ∷ xs) = insert_by le x (sort_by le xs)

  abbrev pub take : ℕ → List A → List A
  take zero xs = []
  take (suc n) [] = []
  take (suc n) (x ∷ xs) = x ∷ take n xs

  -- `iter().position(p)`
  abbrev pub position : (A → Bool) → List A → Option ℕ
  position p [] = none
  position p (x ∷ xs) =
      let rest = position p xs in
      if p x then some 0 else elim rest [ none ↦ none | some n ↦ some (n + 1) ]

  pub length-take : (n : ℕ) (xs : List A) → length (take n xs) ≤ n
  length-take zero xs = omega arith
  length-take (suc n) [] = omega arith
  length-take (suc n) (x ∷ xs) = omega (arith, length-take n xs)

  pub mem-take : {a : A} (n : ℕ) (xs : List A) → Memᴰ a (take n xs) → Memᴰ a xs
  mem-take zero xs h = elim h [ ]
  mem-take (suc n) [] h = elim h [ ]
  mem-take (suc n) (x ∷ xs) (Memᴰ.head e) = Memᴰ.head e
  mem-take (suc n) (x ∷ xs) (Memᴰ.tail h) = Memᴰ.tail (mem-take n xs h)

  pub mem-insert_by :
      {a : A} (le : A → A → Bool) (x : A) (ys : List A)
      → Memᴰ a (insert_by le x ys)
      → Memᴰ a (x ∷ ys)
  mem-insert_by le x [] h = h
  mem-insert_by {a} le x (y ∷ ys) h = elim (Bool-cases (le x y)) [
    | inl e ↦ rw e at h
    | inr e ↦ elim (Memᴰ.cases_cons (rw e at h)) [
      | inl f ↦ Memᴰ.tail (Memᴰ.head f)
      | inr k ↦ elim (Memᴰ.cases_cons (mem-insert_by le x ys k)) [
        | inl f ↦ Memᴰ.head f
        | inr m ↦ Memᴰ.tail (Memᴰ.tail m)
      ]
    ]
  ]

  pub mem-sort_by : {a : A} (le : A → A → Bool) (xs : List A) → Memᴰ a (sort_by le xs) → Memᴰ a xs
  mem-sort_by le [] h = h
  mem-sort_by le (x ∷ xs) h = elim (Memᴰ.cases_cons (mem-insert_by le x (sort_by le xs) h)) [
    | inl e ↦ Memᴰ.head e
    | inr k ↦ Memᴰ.tail (mem-sort_by le xs k)
  ]

  pub length-insert_by :
      (le : A → A → Bool) (x : A) (ys : List A) → length (insert_by le x ys) ≡ suc (length ys)
  length-insert_by le x [] = refl
  length-insert_by le x (y ∷ ys) = ground (arith, length-insert_by le x ys)

  pub length-sort_by : (le : A → A → Bool) (xs : List A) → length (sort_by le xs) ≡ length xs
  length-sort_by le [] = refl
  length-sort_by le (x ∷ xs) =
      omega (arith, length-insert_by le x (sort_by le xs), length-sort_by le xs)

  pub mem-filter :
      {a : A} (p : A → Bool) (xs : List A) → Memᴰ a (filter p xs) → (p a ≡ true) × Memᴰ a xs
  mem-filter p [] h = elim h [ ]
  mem-filter {a} p (x ∷ xs) h = elim (Bool-cases (p x)) [
    | inl e ↦ elim (Memᴰ.cases_cons (rw e at h)) [
      | inl f ↦ (ap p f ∙ e, Memᴰ.head f)
      | inr k ↦ (let (t, m) = mem-filter p xs k in (t, Memᴰ.tail m))
    ]
    | inr e ↦ (let (t, m) = mem-filter p xs (rw e at h) in (t, Memᴰ.tail m))
  ]

  pub mem-filter_of :
      {a : A} (p : A → Bool) (xs : List A) → Memᴰ a xs → p a ≡ true → Memᴰ a (filter p xs)
  mem-filter_of p [] h e = elim h [ ]
  mem-filter_of p (x ∷ xs) (Memᴰ.head f) e = rw (sym f, e) (Memᴰ.head refl)
  mem-filter_of p (x ∷ xs) (Memᴰ.tail k) e = elim (Bool-cases (p x)) [
    | inl f ↦ rw f (Memᴰ.tail (mem-filter_of p xs k e))
    | inr f ↦ rw f (mem-filter_of p xs k e)
  ]
