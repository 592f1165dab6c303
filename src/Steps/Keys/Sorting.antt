-- ===== src/Steps/Keys/Sorting.antt =====
-- The sort of the steps by their ids, crates/mp/src/path_engine.rs.
use master_plan.Prelude.{
  ℕ, String, ◌≡◌, refl, ap, ◌∙◌, inl, inr, Bool, true, false, not, ◌&&◌, ◌||◌, List, [], ◌∷◌, arith,
  str_eq, Bool-cases, and_true, contains_str, distinct, and_eq_true, str_eq_comm, SameMembers,
  members_refl, members_trans, members_cons, members_swap,
}
use master_plan.Model.Milestone.{Step}
use master_plan.Steps.Keys.{le_key, le_step_id, step_sort_key, insert_step, sort_steps}
use master_plan.Steps.Edit.{step_ids}

le_key-total : (xs ys : List ℕ) → le_key xs ys ≡ false → le_key ys xs ≡ true
le_key-total [] ys h = cc
le_key-total (x ∷ xs) [] h = refl
le_key-total (x ∷ xs) (y ∷ ys) h = ground (arith, le_key-total xs ys)

-- Each step's key is at most the next one's.
abbrev pub in_order : List Step → Bool
in_order [] = true
in_order (s ∷ []) = true
in_order (s ∷ t ∷ ts) = le_step_id s.id t.id && in_order (t ∷ ts)

or_swap : (a b c : Bool) → a || (b || c) ≡ b || (a || c)
or_swap a b c = ground arith

distinct_swap : (e p q d : Bool) → not (e || p) && (not q && d) ≡ not (e || q) && (not p && d)
distinct_swap e p q d = ground arith

le_step_id-total : (a b : String) → le_step_id a b ≡ false → le_step_id b a ≡ true
unfolding le_step_id
le_step_id-total a b h = le_key-total (step_sort_key a) (step_sort_key b) h

-- Inserting behind a smaller step keeps the order.
insert_behind :
    (t s : Step) (us : List Step)
    → le_step_id t.id s.id ≡ true
    → in_order (t ∷ us) ≡ true
    → in_order (t ∷ insert_step s us) ≡ true
unfolding insert_step
insert_behind t s [] l h = rw l refl
insert_behind t s (u ∷ us) l h =
    let (here, there) = and_eq_true (le_step_id t.id u.id) (in_order (u ∷ us)) h in
    elim (Bool-cases (le_step_id s.id u.id)) [
      | inl e ↦ rw e (and_true l (and_true e there))
      | inr e ↦ rw e (and_true here (insert_behind u s us (le_step_id-total s.id u.id e) there))
    ]

insert_step-in_order :
    (s : Step) (ts : List Step) → in_order ts ≡ true → in_order (insert_step s ts) ≡ true
unfolding insert_step
insert_step-in_order s [] h = refl
insert_step-in_order s (t ∷ ts) h = elim (Bool-cases (le_step_id s.id t.id)) [
  | inl e ↦ rw e (and_true e h)
  | inr e ↦ rw e (insert_behind t s ts (le_step_id-total s.id t.id e) h)
]

-- Sorted steps stand in the order of their keys.
pub sort_steps-in_order : (ss : List Step) → in_order (sort_steps ss) ≡ true
unfolding sort_steps
sort_steps-in_order [] = refl
sort_steps-in_order (s ∷ ss) = insert_step-in_order s (sort_steps ss) (sort_steps-in_order ss)

-- The ids are the same ones, in another order.
contains-insert :
    (s : Step) (ts : List Step) (x : String)
    → contains_str (step_ids (insert_step s ts)) x ≡ str_eq s.id x || contains_str (step_ids ts) x
unfolding insert_step
contains-insert s [] x = refl
contains-insert s (t ∷ ts) x = elim (Bool-cases (le_step_id s.id t.id)) [
  | inl e ↦ rw e refl
  | inr e ↦ rw (e, contains-insert s ts x) (or_swap (str_eq t.id x) (str_eq s.id x) _)
]

distinct-insert :
    (s : Step) (ts : List Step)
    → distinct (step_ids (insert_step s ts)) ≡ distinct (s.id ∷ step_ids ts)
unfolding insert_step
distinct-insert s [] = refl
distinct-insert s (t ∷ ts) = elim (Bool-cases (le_step_id s.id t.id)) [
  | inl e ↦ rw e refl
  | inr e ↦
      rw (e, contains-insert s ts t.id, distinct-insert s ts, str_eq_comm t.id s.id)
        (distinct_swap (str_eq s.id t.id) (contains_str (step_ids ts) t.id)
          (contains_str (step_ids ts) s.id) (distinct (step_ids ts)))
]

pub contains-sort :
    (ss : List Step) (x : String)
    → contains_str (step_ids (sort_steps ss)) x ≡ contains_str (step_ids ss) x
unfolding sort_steps
contains-sort [] x = refl
contains-sort (s ∷ ss) x =
    contains-insert s (sort_steps ss) x ∙ ap (λ b. str_eq s.id x || b) (contains-sort ss x)

pub distinct-sort : (ss : List Step) → distinct (step_ids (sort_steps ss)) ≡ distinct (step_ids ss)
unfolding sort_steps
distinct-sort [] = refl
distinct-sort (s ∷ ss) =
    rw (distinct-insert s (sort_steps ss), contains-sort ss s.id, distinct-sort ss)

insert_step-same : (s : Step) (ts : List Step) → SameMembers (s ∷ ts) (insert_step s ts)
unfolding insert_step
insert_step-same s [] = members_refl (s ∷ [])
insert_step-same s (t ∷ ts) = elim (Bool-cases (le_step_id s.id t.id)) [
  | inl e ↦ rw e (members_refl (s ∷ t ∷ ts))
  | inr e ↦ rw e (members_trans (members_swap s t ts) (members_cons t (insert_step-same s ts)))
]

pub sort_steps-same : (ss : List Step) → SameMembers ss (sort_steps ss)
unfolding sort_steps
sort_steps-same [] = members_refl []
sort_steps-same (s ∷ ss) =
    members_trans (members_cons s (sort_steps-same ss)) (insert_step-same s (sort_steps ss))
