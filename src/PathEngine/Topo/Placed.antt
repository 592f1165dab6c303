-- ===== src/PathEngine/Topo/Placed.antt =====
-- What the main loop leaves behind in `topo_sort_milestones`, crates/mp/src/path_engine.rs.
use master_plan.Prelude.{
  ℕ, zero, suc, ◌+◌, ◌≤◌, ◌<◌, String, ◌≡◌, refl, sym, ap, inl, inr, true, false, not, List, [],
  ◌∷◌, ◌++◌, arith, str_eq, eq_iff, ltb, ◌==◌, if◌then◌else◌, Bool-cases, length, filter,
  contains_str, str_eq_refl, one_if, count, count-append, count-snoc, counts_of_length, one_if-le,
  count-filter, before, before-append_left, before-snoc_self, contains_cases,
}
use master_plan.Model.Milestone.{MilestoneFile}
use master_plan.Paths.{or_zero, normalize_milestone_id, sort_ids}
use mathlib.Core.List.{Memᴰ}
use master_plan.PathEngine.Topo.{
  hash_set, milestone_ids, Graph, empty_graph, add_milestones, with_rest, roots,
}
use master_plan.PathEngine.Topo.Degrees.{pending, count-sort}
use master_plan.PathEngine.Topo.Edges.{Built, empty_graph-Built, add_edge-Built, add_milestones_ind}
use master_plan.PathEngine.Topo.Loop.{Inv, Drained}

-- A hash table hands out each of its keys once.
abbrev pub IsHashOrder : (List String → List String) → Type 0
IsHashOrder hash_order = (xs : List String) (x : String) → count x (hash_order xs) ≡ count x xs

once_more :
    (x : String) (xs : List String)
    → count x xs ≤ 1
    → count x (if contains_str xs x then xs else x ∷ xs) ≡ 1
once_more x xs h = ground (arith, contains_cases x xs, str_eq_refl x)

another :
    (x y : String) (xs : List String) (n : ℕ)
    → str_eq y x ≡ false
    → count x xs ≡ n
    → count x (if contains_str xs y then xs else y ∷ xs) ≡ n
another x y xs n e h = ground arith

pub count-hash_set :
    (x : String) (xs : List String) → count x (hash_set xs) ≡ one_if (contains_str xs x)
unfolding hash_set
count-hash_set x [] = refl
count-hash_set x (y ∷ ys) =
    let ih = count-hash_set x ys in
    elim (Bool-cases (str_eq y x)) [
      | inl e ↦
          rw ((eq_iff y x).0 e, str_eq_refl x)
            (once_more x (hash_set ys) (omega (arith, ih, one_if-le (contains_str ys x))))
      | inr e ↦ rw e (another x y (hash_set ys) _ e ih)
    ]

pub contains-hash_set :
    (x : String) (xs : List String) → contains_str (hash_set xs) x ≡ contains_str xs x
contains-hash_set x xs = ground (arith, count-hash_set x xs, contains_cases x (hash_set xs))

-- The graph of the milestones.
abbrev pub graph_of : List MilestoneFile → Graph
graph_of ms = let ids = hash_set (milestone_ids ms) in add_milestones ids ms (empty_graph ids)

pub milestone_id-listed :
    (m : MilestoneFile) (ms : List MilestoneFile)
    → Memᴰ m ms
    → contains_str (milestone_ids ms) (normalize_milestone_id m.milestone.id) ≡ true
unfolding milestone_ids
milestone_id-listed m [] h = elim h [ ]
milestone_id-listed m (n ∷ ms) (Memᴰ.head e) = ground (
  arith,
  str_eq_refl (normalize_milestone_id m.milestone.id),
  ap (λ (k : MilestoneFile). normalize_milestone_id k.milestone.id) e,
)
milestone_id-listed m (n ∷ ms) (Memᴰ.tail h) = ground (arith, milestone_id-listed m ms h)

pub graph_of-Built : (ms : List MilestoneFile) → Built (hash_set (milestone_ids ms)) (graph_of ms)
graph_of-Built ms =
    let ids = hash_set (milestone_ids ms) in
    add_milestones_ind ids (Built ids) ms
      (λ m dep g h _ _ v.
        add_edge-Built ids _ _ g
          (rw
            (
              count-hash_set (normalize_milestone_id m.milestone.id) (milestone_ids ms),
              milestone_id-listed m ms h,
            )
            (omega arith))
          v)
      (empty_graph ids) (empty_graph-Built ids)

pub start-Inv :
    (hash_order : List String → List String)
    → IsHashOrder hash_order
    → (ids : List String) (g : Graph) → Built ids g
    → Inv ids g.edges [] []
        (record { indegree = g.indegree; queue = sort_ids (roots g.indegree (hash_order ids)) })
unfolding roots
start-Inv hash_order fair ids g v = record {
  degrees = λ x. omega (arith, v.counted x);
  waiting = λ x.
      rw
        (
          count-sort x (filter (λ id. or_zero (g.indegree id) == 0) (hash_order ids)),
          count-filter (λ id. or_zero (g.indegree id) == 0) x (hash_order ids),
          fair ids x,
        )
        (omega arith);
}

-- `before` holds along each edge that leads to a node of the list.
abbrev pub EdgesKept : List (String × String) → List String → Type 0
EdgesKept es out =
    (from to : String) → Memᴰ (from, to) es → 0 < count to out → before from to out ≡ true

edge_closed : (n p : ℕ) → one_if (n == 0) + p ≡ 0 → 0 < n
edge_closed n p h = ground arith

sources_placed :
    (out : List String) (from to : String) (es : List (String × String))
    → pending out to es ≡ 0
    → Memᴰ (from, to) es
    → 0 < count from out
sources_placed out from to [] h k = elim k [ ]
sources_placed out from to ((a, b) ∷ es) h (Memᴰ.head e) =
    let same_from : a ≡ from = sym (ap (λ (p : String × String). p.0) e) in
    let same_to : b ≡ to = sym (ap (λ (p : String × String). p.1) e) in
    edge_closed (count from out) (pending out to es) (rw (same_from, same_to, str_eq_refl to) at h)
sources_placed out from to ((a, b) ∷ es) h (Memᴰ.tail k) =
    sources_placed out from to es (omega (arith, h)) k

last_one :
    (to : String) (out : List String) (node : String)
    → count to out ≡ 0
    → 0 < count to (out ++ node ∷ [])
    → to ≡ node
last_one to out node n listed = elim (Bool-cases (str_eq node to)) [
  | inl e ↦ sym ((eq_iff node to).0 e)
  | inr e ↦ absurd (ground (arith, count-snoc to out node))
]

pub snoc-EdgesKept :
    (es : List (String × String)) (out : List String) (node : String)
    → pending out node es ≡ 0
    → EdgesKept es out
    → EdgesKept es (out ++ node ∷ [])
snoc-EdgesKept es out node idle kept from to edge listed = elim (contains_cases to out) [
  | inl (c, n) ↦ before-append_left from to out (node ∷ []) (kept from to edge n)
  | inr (c, n) ↦
      (let same : to ≡ node = last_one to out node n listed in
        rw same
          (before-snoc_self from node out (sources_placed out from node es idle (rw same at edge))))
]

pub before-with_rest :
    (hash_order : List String → List String) (ids out : List String) (from to : String)
    → before from to out ≡ true
    → before from to (with_rest hash_order ids out) ≡ true
unfolding with_rest
before-with_rest hash_order ids out from to h = elim (Bool-cases (ltb (length out) (length ids))) [
  | inl e ↦ rw e (before-append_left from to out _ h)
  | inr e ↦ rw e h
]

pub with_rest-counts :
    (hash_order : List String → List String)
    → IsHashOrder hash_order
    → (ids : List String) (es : List (String × String)) (out : List String) → Drained ids es out
    → (x : String) → count x (with_rest hash_order ids out) ≡ count x ids
unfolding with_rest
with_rest-counts hash_order fair ids es out v x =
    elim (Bool-cases (ltb (length out) (length ids))) [
      | inl e ↦
          rw
            (
              e,
              count-append x out
                  (sort_ids (filter (λ id. not (contains_str out id)) (hash_order ids))),
              count-sort x (filter (λ id. not (contains_str out id)) (hash_order ids)),
              count-filter (λ id. not (contains_str out id)) x (hash_order ids),
              fair ids x,
            )
            (ground (arith, contains_cases x out, v.reached x))
      | inr e ↦ rw e (counts_of_length out ids (λ z. ground (arith, v.reached z)) (ground arith) x)
    ]

pending_zero :
    (out : List String) (x : String) (es : List (String × String))
    → ((from : String) → Memᴰ (from, x) es → 0 < count from out)
    → pending out x es ≡ 0
pending_zero out x [] h = refl
pending_zero out x ((a, b) ∷ es) h =
    let rest = pending_zero out x es (λ from k. h from (Memᴰ.tail k)) in
    elim (Bool-cases (str_eq b x)) [
      | inl e ↦
          (let placed : 0 < count a out =
              h a (Memᴰ.head (ap (λ (y : String). (a, y)) (sym ((eq_iff b x).0 e)))) in
            ground arith)
      | inr e ↦ rw e (omega (arith, rest))
    ]

-- Where the plan has no cycle, the loop reaches every id.
pub all_placed :
    (ids : List String) (es : List (String × String)) (out : List String) (rank : String → ℕ)
    → Drained ids es out
    → ((from to : String) → Memᴰ (from, to) es → rank from < rank to)
    → ((from to : String) → Memᴰ (from, to) es → 0 < count from ids)
    → (n : ℕ) (x : String) → rank x < n
    → count x out ≡ count x ids
all_placed ids es out rank v falls sources zero x h = absurd (omega (arith, h))
all_placed ids es out rank v falls sources (suc n) x h =
    let closed : pending out x es ≡ 0 = pending_zero out x es (λ from edge. omega (
      arith,
      all_placed ids es out rank v falls sources n from (omega (arith, falls from x edge)),
      sources from x edge,
    )) in
    rw (v.reached x, closed) refl
