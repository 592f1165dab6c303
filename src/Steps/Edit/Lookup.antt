-- ===== src/Steps/Edit/Lookup.antt =====
-- Looking a step up by its id after one step was changed or removed, as the writers of
-- crates/mp/src/step.rs and crates/mp/src/step_claim.rs do.
use master_plan.Prelude.{
  String, ◌≡◌, refl, ap, inl, inr, Bool, true, false, not, Option, none, some, List, [], ◌∷◌,
  str_eq, eq_iff, if◌then◌else◌, Bool-cases, find, update_first, remove_first, contains_str,
  distinct, not-true, and_eq_true, or_eq_false, some-injective, sym, arith, subst, ◌∙◌,
}
use master_plan.Model.Milestone.{Step}
use master_plan.Steps.Edit.{has_id, step_ids}

-- A lookup skips an element in front.
skip :
    (s : Step) (b : Bool) {o o2 : Option Step}
    → o ≡ o2
    → (if b then some s else o) ≡ (if b then some s else o2)
skip s b e = ap (λ (o : Option Step). if b then some s else o) e

-- A step is found once more after a change that keeps what it is found by.
pub find_updated :
    (p : Step → Bool) (g : Step → Step)
    → ((s : Step) → p (g s) ≡ p s)
    → {s : Step} (xs : List Step) → find p xs ≡ some s
    → find p (update_first p g xs) ≡ some (g s)
find_updated p g kept [] h = cc
find_updated p g kept {s} (x ∷ xs) h = elim (Bool-cases (p x)) [
  | inl e ↦ (let same : x ≡ s = some-injective (rw e at h) in rw (e, kept x, e, same) refl)
  | inr e ↦ rw (e, e) (find_updated p g kept xs (rw e at h))
]

module _ (id : String) (g : Step → Step) (kept : (s : Step) → (g s).id ≡ s.id) where
  pub find_other :
      (x : String) (xs : List Step)
      → str_eq id x ≡ false
      → find (has_id x) (update_first (has_id id) g xs) ≡ find (has_id x) xs
  find_other x [] h = refl
  find_other x (s ∷ ss) h = elim (Bool-cases (str_eq s.id id)) [
    | inl e ↦
        (let other : str_eq s.id x ≡ false = rw ((eq_iff s.id id).0 e) h in
          rw (e, kept s, other) refl)
    | inr e ↦ rw e (skip s (str_eq s.id x) (find_other x ss h))
  ]

  -- The step with the id is changed, and every other one is found as before.
  pub find-update_first :
      {s : Step} (xs : List Step) (x : String)
      → find (has_id id) xs ≡ some s
      → find (has_id x) (update_first (has_id id) g xs)
        ≡ (if str_eq id x then some (g s) else find (has_id x) xs)
  find-update_first {s} xs x h = elim (Bool-cases (str_eq id x)) [
    | inl e ↦ rw e (
        rw (sym ((eq_iff id x).0 e))
          (find_updated (has_id id) g (λ t. ap (λ i. str_eq i id) (kept t)) xs h))
    | inr e ↦ rw e (find_other x xs e)
  ]

find_absent :
    (xs : List Step) (x : String) → contains_str (step_ids xs) x ≡ false → find (has_id x) xs ≡ none
find_absent [] x h = refl
find_absent (s ∷ ss) x h =
    let (other, rest) = or_eq_false (str_eq s.id x) (contains_str (step_ids ss) x) h in
    rw other (find_absent ss x rest)

-- Of steps with distinct ids the one with the id is gone, and every other one is found as before.
pub find-remove_first :
    (id : String) (xs : List Step) (x : String)
    → distinct (step_ids xs) ≡ true
    → find (has_id x) (remove_first (has_id id) xs)
      ≡ (if str_eq id x then none else find (has_id x) xs)
find-remove_first id [] x d = ground arith
find-remove_first id (s ∷ ss) x d =
    let (fresh, rest) = and_eq_true (not (contains_str (step_ids ss) s.id)) _ d in
    let later = find-remove_first id ss x rest in
    elim (Bool-cases (str_eq s.id id)) [
      | inl e ↦ elim (Bool-cases (str_eq id x)) [
        | inl f ↦
            (let gone : contains_str (step_ids ss) x ≡ false =
                subst (λ i. contains_str (step_ids ss) i ≡ false)
                  ((eq_iff s.id id).0 e ∙ (eq_iff id x).0 f) (not-true fresh) in
              rw (e, f) (find_absent ss x gone))
        | inr f ↦
            (let other : str_eq s.id x ≡ false = rw ((eq_iff s.id id).0 e) f in
              rw (e, f, other) refl)
      ]
      | inr e ↦ elim (Bool-cases (str_eq id x)) [
        | inl f ↦
            (let other : str_eq s.id x ≡ false = rw (sym ((eq_iff id x).0 f)) e in
              rw (e, f, other) (rw f at later))
        | inr f ↦ rw (e, f) (skip s (str_eq s.id x) (rw f at later))
      ]
    ]
