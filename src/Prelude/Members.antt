-- ===== src/Prelude/Members.antt =====
-- Lists with the same elements in another order.
use Prim.Native.Nat.{suc}
use mathlib.Core.Path.{◌≡◌, refl, ap, ◌∙◌}
use mathlib.Core.Logic.{inl, inr}
use mathlib.Core.Bool.{Bool}
use mathlib.Core.List.{List, [], ◌∷◌, Memᴰ}
use mathlib.Core.List.Memᴰ
use master_plan.Prelude.Tests.{Bool-cases}
use master_plan.Prelude.Lists.{length}
use master_plan.Prelude.Sorting.{insert_by, sort_by}

-- Both lists hold the same elements, and equally many.
pub record SameMembers {A : Type 0} (xs ys : List A) : Type 0 where
  pub kept : (a : A) → Memᴰ a xs → Memᴰ a ys
  pub known : (a : A) → Memᴰ a ys → Memᴰ a xs
  pub same_length : length ys ≡ length xs

module _ {A : Type 0} where
  pub members_refl : (xs : List A) → SameMembers xs xs
  members_refl xs = record { kept = λ a h. h; known = λ a h. h; same_length = refl }

  pub members_trans :
      {xs ys zs : List A} → SameMembers xs ys → SameMembers ys zs → SameMembers xs zs
  members_trans p q = record {
    kept = λ a h. q.kept a (p.kept a h);
    known = λ a h. p.known a (q.known a h);
    same_length = q.same_length ∙ p.same_length;
  }

  pub members_cons : (x : A) {xs ys : List A} → SameMembers xs ys → SameMembers (x ∷ xs) (x ∷ ys)
  members_cons x {xs} {ys} p = record {
    kept = λ a h. elim (Memᴰ.cases_cons h) [ inl e ↦ Memᴰ.head e | inr k ↦ Memᴰ.tail (p.kept a k) ];
    known =
        λ a h. elim (Memᴰ.cases_cons h) [ inl e ↦ Memᴰ.head e | inr k ↦ Memᴰ.tail (p.known a k) ];
    same_length = ap (λ n. suc n) p.same_length;
  }

  pub members_swap : (x y : A) (xs : List A) → SameMembers (x ∷ y ∷ xs) (y ∷ x ∷ xs)
  members_swap x y xs = record { kept = exchange x y; known = exchange y x; same_length = refl }
    where
      exchange : (u v a : A) → Memᴰ a (u ∷ v ∷ xs) → Memᴰ a (v ∷ u ∷ xs)
      exchange u v a h = elim (Memᴰ.cases_cons h) [
        | inl e ↦ Memᴰ.tail (Memᴰ.head e)
        | inr k ↦ elim (Memᴰ.cases_cons k) [ inl e ↦ Memᴰ.head e | inr l ↦ Memᴰ.tail (Memᴰ.tail l) ]
      ]

  insert_by-same :
      (le : A → A → Bool) (x : A) (xs : List A) → SameMembers (x ∷ xs) (insert_by le x xs)
  insert_by-same le x [] = members_refl (x ∷ [])
  insert_by-same le x (y ∷ ys) = elim (Bool-cases (le x y)) [
    | inl e ↦ rw e (members_refl (x ∷ y ∷ ys))
    | inr e ↦ rw e (members_trans (members_swap x y ys) (members_cons y (insert_by-same le x ys)))
  ]

  pub sort_by-same : (le : A → A → Bool) (xs : List A) → SameMembers xs (sort_by le xs)
  sort_by-same le [] = members_refl []
  sort_by-same le (x ∷ xs) =
      members_trans (members_cons x (sort_by-same le xs)) (insert_by-same le x (sort_by le xs))
