-- ===== src/PathEngine/Topo/Degrees.antt =====
-- What `indegree` counts in `topo_sort_milestones`, crates/mp/src/path_engine.rs.
use master_plan.Prelude.{
  ℕ, ◌+◌, String, ◌≡◌, refl, inl, inr, Bool, ◌&&◌, List, [], ◌∷◌, ◌++◌, arith, str_eq, eq_iff, ◌==◌,
  Bool-cases, str_eq_comm, str_eq_refl, one_if, count, count-snoc,
}
use master_plan.Paths.{sort_ids, insert_id, le_milestone_id}
use master_plan.PathEngine.Topo.{children}

count-insert :
    (z x : String) (ys : List String) → count z (insert_id x ys) ≡ one_if (str_eq x z) + count z ys
unfolding insert_id
count-insert z x [] = refl
count-insert z x (y ∷ ys) = elim (Bool-cases (le_milestone_id x y)) [
  | inl e ↦ rw e refl
  | inr e ↦ rw (e, count-insert z x ys) (omega arith)
]

pub count-sort : (z : String) (xs : List String) → count z (sort_ids xs) ≡ count z xs
unfolding sort_ids
count-sort z [] = refl
count-sort z (x ∷ xs) = omega (arith, count-insert z x (sort_ids xs), count-sort z xs)

-- The edges to `x` whose source is not in `out` yet.
abbrev pub pending : List String → String → List (String × String) → ℕ
pending out x [] = 0
pending out x ((from, to) ∷ es) = one_if (str_eq to x && count from out == 0) + pending out x es

pub pending-append :
    (out : List String) (x : String) (es fs : List (String × String))
    → pending out x (es ++ fs) ≡ pending out x es + pending out x fs
pending-append out x [] fs = omega arith
pending-append out x (e ∷ es) fs = omega (arith, pending-append out x es fs)

counts_one :
    (a : Bool) (n k p q r : ℕ)
    → n ≡ 0
    → k ≡ n + 1
    → p ≡ q + r
    → one_if (a && n == 0) + p ≡ one_if (a && k == 0) + q + (one_if a + r)
counts_one a n k p q r e f h = ground arith

counts_same :
    (a : Bool) (n k p q r : ℕ)
    → k ≡ n + 0
    → p ≡ q + r
    → one_if (a && n == 0) + p ≡ one_if (a && k == 0) + q + r
counts_same a n k p q r f h = ground arith

-- Moving a node to `out` takes its outgoing edges off what is pending.
pub pending-snoc :
    (node : String) (out : List String) (x : String) (es : List (String × String))
    → count node out ≡ 0
    → pending out x es ≡ pending (out ++ node ∷ []) x es + count x (children node es)
pending-snoc node out x [] h = refl
pending-snoc node out x ((from, to) ∷ es) h =
    let ih = pending-snoc node out x es h in
    elim (Bool-cases (str_eq from node)) [
      | inl e ↦
          (let same : from ≡ node = (eq_iff from node).0 e in
            let now : count from out ≡ 0 = rw same h in
            let then_ : count from (out ++ node ∷ []) ≡ count from out + 1 =
              rw (count-snoc from out node, same, str_eq_refl node) refl in
            rw e (counts_one (str_eq to x) _ _ _ _ _ now then_ ih))
      | inr e ↦
          (let then_ : count from (out ++ node ∷ []) ≡ count from out + 0 =
              rw (count-snoc from out node, str_eq_comm node from, e) refl in
            rw e (counts_same (str_eq to x) _ _ _ _ _ then_ ih))
    ]
