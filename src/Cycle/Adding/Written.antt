-- ===== src/Cycle/Adding/Written.antt =====
-- The graph of a plan after a write of one milestone.
use master_plan.Prelude.{
  String, ◌≡◌, refl, sym, ap, ◌∙◌, inl, inr, Bool, true, false, not, none, some, List, [], ◌∷◌, map,
  str_eq, eq_iff, Bool-cases, or_eq_false, find, contains_str, distinct, not-true, and_eq_true,
  some-injective,
}
use master_plan.Model.Milestone.{MilestoneFile}
use master_plan.Paths.{normalize_milestone_id}
use master_plan.PathEngine.Action.{id_of}
use master_plan.Cycle.{build_depends_on_graph, deps_of}
use master_plan.Cycle.Adding.{write_back}

module _ (id : String) (w : MilestoneFile) (named : id_of w ≡ id) where
  pub others_kept :
      (ms : List MilestoneFile) (x : String)
      → str_eq id x ≡ false
      → deps_of (build_depends_on_graph (write_back id w ms)) x
        ≡ deps_of (build_depends_on_graph ms) x
  others_kept [] x h = refl
  others_kept (m ∷ ms) x h = elim (Bool-cases (str_eq (id_of m) id)) [
    | inl e ↦
        (let other : str_eq (id_of m) x ≡ false = rw ((eq_iff (id_of m) id).0 e) h in
          let other_w : str_eq (id_of w) x ≡ false = rw named h in rw (e, other, other_w) refl)
    | inr e ↦ rw (e, others_kept ms x h) refl
  ]

absent :
    (ms : List MilestoneFile) (id : String)
    → contains_str (map id_of ms) id ≡ false
    → deps_of (build_depends_on_graph ms) id ≡ none
absent [] id h = refl
absent (m ∷ ms) id h =
    let (apart, rest) = or_eq_false (str_eq (id_of m) id) (contains_str (map id_of ms) id) h in
    rw (absent ms id rest, apart) refl

abbrev pub named : String → MilestoneFile → Bool
named id x = str_eq (id_of x) id

pub find-named :
    (id : String) (ms : List MilestoneFile) {m : MilestoneFile}
    → find (named id) ms ≡ some m
    → id_of m ≡ id
find-named id [] h = cc
find-named id (x ∷ xs) {m} h = elim (Bool-cases (named id x)) [
  | inl e ↦
      (let same : x ≡ m = some-injective (rw e at h) in
        ap id_of (sym same) ∙ (eq_iff (id_of x) id).0 e)
  | inr e ↦ find-named id xs (rw e at h)
]

pub write_back_self :
    (id : String) (ms : List MilestoneFile) {m : MilestoneFile}
    → find (named id) ms ≡ some m
    → write_back id m ms ≡ ms
write_back_self id [] h = refl
write_back_self id (x ∷ xs) {m} h = elim (Bool-cases (named id x)) [
  | inl e ↦ (let same : x ≡ m = some-injective (rw e at h) in rw e (ap (λ y. y ∷ xs) (sym same)))
  | inr e ↦ rw e (ap (λ ys. x ∷ ys) (write_back_self id xs (rw e at h)))
]

pub target_written :
    (id : String) (w : MilestoneFile)
    → id_of w ≡ id
    → (ms : List MilestoneFile) {m : MilestoneFile} → distinct (map id_of ms) ≡ true
    → find (named id) ms ≡ some m
    → deps_of (build_depends_on_graph (write_back id w ms)) id
      ≡ some (map normalize_milestone_id w.milestone.depends_on)
target_written id w k [] d h = cc
target_written id w k (x ∷ xs) {m} d h = elim (Bool-cases (named id x)) [
  | inl e ↦
      (let fresh : contains_str (map id_of xs) (id_of x) ≡ false =
          not-true
            (and_eq_true (not (contains_str (map id_of xs) (id_of x))) (distinct (map id_of xs))
              d).0 in
        let none_left : deps_of (build_depends_on_graph xs) id ≡ none =
          absent xs id (rw ((eq_iff (id_of x) id).0 e) at fresh) in
        let at_id : str_eq (id_of w) id ≡ true = (eq_iff (id_of w) id).1 k in
        rw (e, none_left, at_id) refl)
  | inr e ↦
      rw
        (
          e,
          target_written id w k xs
              (and_eq_true (not (contains_str (map id_of xs) (id_of x))) (distinct (map id_of xs))
                d).1
              (rw e at h),
        )
        refl
]
