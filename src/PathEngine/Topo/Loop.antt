-- ===== src/PathEngine/Topo/Loop.antt =====
-- The main loop of `topo_sort_milestones`, crates/mp/src/path_engine.rs: its invariant and its fuel.
use master_plan.Prelude.{
  ℕ, zero, suc, ◌+◌, ◌≤◌, ◌<◌, String, ◌≡◌, refl, sym, ◌∙◌, inl, inr, Bool, true, false, Option,
  some, List, [], ◌∷◌, ◌++◌, arith, str_eq, eq_iff, ◌==◌, if◌then◌else◌, Bool-cases, Option-cases,
  length, str_eq_refl, one_if, count, count-append, count-snoc, length-le_of_counts, length-append,
}
use master_plan.PathEngine.Topo.{
  decrement, children, put, Sorting, visit_child, visit_children, drain,
}
use master_plan.PathEngine.Topo.Degrees.{pending, pending-snoc, count-sort}
use master_plan.Paths.{or_zero, sort_ids}

-- With `out` taken off the queue and the children `cs` still to be visited.
pub record Inv (ids : List String) (es : List (String × String)) (out cs : List String)
    (s : Sorting) : Type 0 where
  pub degrees : (x : String) → or_zero (s.indegree x) ≡ pending out x es + count x cs
  pub waiting :
      (x : String)
      → count x s.queue + count x out ≡ (if or_zero (s.indegree x) == 0 then count x ids else 0)

degree_after : (d p n : ℕ) (b : Bool) → d ≡ p + (one_if b + n) → b ≡ true → decrement d ≡ p + n
degree_after d p n b h e = ground arith

queue_after :
    (b : Bool) (q : List String) (c x : String)
    → count x (if b then sort_ids (q ++ c ∷ []) else q)
      ≡ count x q + (if b then one_if (str_eq c x) else 0)
queue_after true q c x = count-sort x (q ++ c ∷ []) ∙ count-snoc x q c
queue_after false q c x = omega arith

now_waiting :
    (q o i d d2 : ℕ)
    → 0 < d
    → i ≡ 1
    → q + o ≡ (if d == 0 then i else 0)
    → q + (if d2 == 0 then 1 else 0) + o ≡ (if d2 == 0 then i else 0)
now_waiting q o i d d2 h k w = ground arith

still_waiting : (b : Bool) (q o r : ℕ) → q + o ≡ r → q + (if b then 0 else 0) + o ≡ r
still_waiting b q o r h = ground arith

module _ (ids : List String) (es : List (String × String)) (out : List String) where
  module _ (c : String) (cs : List String) (s : Sorting) (listed : count c ids ≡ 1)
      (v : Inv ids es out (c ∷ cs) s) where
    positive : 0 < or_zero (s.indegree c)
    positive = rw (v.degrees c, str_eq_refl c) (omega arith)

    same_degree :
        (x : String) (b : Bool)
        → b ≡ false
        → one_if (str_eq c x) ≡ one_if b
        → or_zero (s.indegree x) ≡ pending out x es + count x cs
    same_degree x b h k = ground (arith, v.degrees x)

    degrees_after :
        (d : ℕ)
        → s.indegree c ≡ some d
        → (x : String) → or_zero (put c (decrement d) s.indegree x) ≡ pending out x es + count x cs
    degrees_after d e x = elim (Bool-cases (str_eq c x)) [
      | inl h ↦
          (let same : x ≡ c = sym ((eq_iff c x).0 h) in
            let before : d ≡ pending out c es + (one_if (str_eq c c) + count c cs) =
              rw e at (v.degrees c) in
            rw (same, str_eq_refl c)
              (degree_after d (pending out c es) (count c cs) (str_eq c c) before (str_eq_refl c)))
      | inr h ↦ rw h (omega (arith, same_degree x (str_eq c x) h refl))
    ]

    waiting_after :
        (d : ℕ)
        → s.indegree c ≡ some d
        → (x : String)
        → count x (if decrement d == 0 then sort_ids (s.queue ++ c ∷ []) else s.queue) + count x out
          ≡ (if or_zero (put c (decrement d) s.indegree x) == 0 then count x ids else 0)
    waiting_after d e x =
        rw (queue_after (decrement d == 0) s.queue c x) (elim (Bool-cases (str_eq c x)) [
          | inl h ↦
              (let same : x ≡ c = sym ((eq_iff c x).0 h) in
                rw (same, str_eq_refl c)
                  (now_waiting (count c s.queue) (count c out) (count c ids)
                    (or_zero (s.indegree c)) (decrement d) positive listed (v.waiting c)))
          | inr h ↦
              rw h
                (still_waiting (decrement d == 0) (count x s.queue) (count x out) _ (v.waiting x))
        ])

    visit_child-Inv : Inv ids es out cs (visit_child c s)
    unfolding visit_child
    visit_child-Inv = elim (Option-cases (s.indegree c)) [
      | inl e ↦ (let zero_degree : 0 < 0 = rw e at positive in absurd (omega (arith, zero_degree)))
      | inr (d, e) ↦
          rw (e, visit_child) (record { degrees = degrees_after d e; waiting = waiting_after d e })
    ]

  visit_children-Inv :
      (cs : List String) (s : Sorting)
      → ((x : String) → 0 < count x cs → count x ids ≡ 1)
      → Inv ids es out cs s
      → Inv ids es out [] (visit_children cs s)
  unfolding visit_children
  visit_children-Inv [] s listed v = v
  visit_children-Inv (c ∷ cs) s listed v =
      visit_children-Inv cs (visit_child c s) (λ x h. listed x (omega (arith, h)))
        (visit_child-Inv c cs s (listed c (rw (str_eq_refl c) (omega arith))) v)

  -- Taking a node off the queue makes its children the ones to visit.
  take_node-Inv :
      (node : String) (queue : List String) (f : String → Option ℕ)
      → ((x : String) → count x ids ≤ 1)
      → Inv ids es out [] (record { indegree = f; queue = node ∷ queue })
      → (count node out ≡ 0)
        × (pending out node es ≡ 0)
        × Inv ids es (out ++ node ∷ []) (children node es) (record { indegree = f; queue = queue })
  take_node-Inv node queue f once v =
      let fresh : count node out ≡ 0 =
        ground (arith, v.waiting node, once node, str_eq_refl node) in
      let idle : pending out node es ≡ 0 =
        ground (arith, v.waiting node, once node, str_eq_refl node, v.degrees node) in
      (
        fresh,
        idle,
        record {
          degrees = λ x. omega (arith, v.degrees x, pending-snoc node out x es fresh);
          waiting = λ x. rw (count-snoc x out node) (omega (arith, v.waiting x));
        },
      )

-- What holds of `out` when the queue is empty.
pub record Drained (ids : List String) (es : List (String × String)) (out : List String)
    : Type 0 where
  pub reached : (x : String) → count x out ≡ (if pending out x es == 0 then count x ids else 0)

-- What waits and what is placed fits into the ids.
waiting_fits :
    (ids : List String) (es : List (String × String)) (out queue : List String)
    (f : String → Option ℕ)
    → Inv ids es out [] (record { indegree = f; queue = queue })
    → length queue + length out ≤ length ids
waiting_fits ids es out queue f v = omega (
  arith,
  length-append {0} queue out,
  length-le_of_counts (queue ++ out) ids
      (λ x. rw (count-append x queue out) (ground (arith, v.waiting x))),
)

-- The loop ends within `length ids` rounds, and keeps what each of them keeps.
pub drain_ind :
    (ids : List String)
    → ((x : String) → count x ids ≤ 1)
    → (es : List (String × String))
    → ((node x : String) → 0 < count x (children node es) → count x ids ≡ 1)
    → (P : List String → Type 0)
    → ((out : List String) (node : String)
        → count node out ≡ 0
        → pending out node es ≡ 0
        → P out
        → P (out ++ node ∷ []))
    → (fuel : ℕ) (f : String → Option ℕ) (queue out : List String)
    → Inv ids es out [] (record { indegree = f; queue = queue })
    → length ids ≤ length out + fuel
    → P out
    → (result : List String) × (drain es fuel f queue out ≡ some result)
      × Drained ids es result
      × P result
unfolding drain
drain_ind ids once es targets P rule fuel f [] out v enough p =
    (out, refl, record { reached = λ x. ground (arith, v.waiting x, v.degrees x) }, p)
drain_ind ids once es targets P rule zero f (node ∷ queue) out v enough p =
    absurd (omega (arith, waiting_fits ids es out (node ∷ queue) f v))
drain_ind ids once es targets P rule (suc fuel) f (node ∷ queue) out v enough p =
    let (fresh, idle, taken) = take_node-Inv ids es out node queue f once v in
    let visited =
      visit_children-Inv ids es (out ++ node ∷ []) (children node es)
        (record { indegree = f; queue = queue }) (targets node) taken in
    drain_ind ids once es targets P rule fuel _ _ (out ++ node ∷ []) visited
      (omega (arith, length-append {0} out (node ∷ []))) (rule out node fresh idle p)
