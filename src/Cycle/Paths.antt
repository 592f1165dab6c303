-- ===== src/Cycle/Paths.antt =====
-- What the answer of the cycle search in crates/mp/src/milestone/spec.rs means.
use master_plan.Prelude.{
  ℕ, zero, suc, ◌+◌, String, ◌≡◌, refl, sym, ap, subst, ◌∙◌, ◌⊎◌, inl, inr, Bool, true, false, ◌||◌,
  Option, some, List, [], ◌∷◌, arith, str_eq, eq_iff, Bool-cases, length, contains_str, str_eq_refl,
}
use master_plan.Paths.{normalize_milestone_id}
use master_plan.Cycle.{
  Graph, deps_or_nil, push_unvisited, cycle_loop, unvisited_edges, rev_onto,
  depends_on_creates_cycle_in_graph,
}

-- `Leads g s t`: a chain of dependencies leads from `s` to `t`.
pub data Leads (g : Graph) : String → String → Type 0 where
  arrived : {s : String} → Leads g s s
  hop :
      {s t : String} (d : String)
      → contains_str (deps_or_nil g s) d ≡ true
      → Leads g d t
      → Leads g s t

-- A chain from one of the prospective dependencies.
abbrev pub Reached : Graph → List String → String → Type 0
Reached g ds x = (d : String) × (contains_str ds d ≡ true) × Leads g d x

or-cases : (a b : Bool) → a || b ≡ true → (a ≡ true) ⊎ (b ≡ true)
or-cases true b h = inl refl
or-cases false b h = inr h

or_left : {a : Bool} (b : Bool) → a ≡ true → a || b ≡ true
or_left {a} b h = ground arith

or_right : (a : Bool) {b : Bool} → b ≡ true → a || b ≡ true
or_right a {b} h = ground arith

extend :
    (g : Graph) {s t : String} (x : String)
    → Leads g s t
    → contains_str (deps_or_nil g t) x ≡ true
    → Leads g s x
extend g x arrived h = hop x h arrived
extend g x (hop d e l) h = hop d e (extend g x l h)

pushed-cases :
    (visited ds stack : List String) (x : String)
    → contains_str (push_unvisited visited ds stack) x ≡ true
    → (contains_str ds x ≡ true) ⊎ (contains_str stack x ≡ true)
pushed-cases visited [] stack x h = inr h
pushed-cases visited (d ∷ ds) stack x h = elim (Bool-cases (contains_str visited d)) [
  | inl e ↦ elim (pushed-cases visited ds stack x (rw e at h)) [
    | inl there ↦ inl (or_right _ there)
    | inr old ↦ inr old
  ]
  | inr e ↦ elim (pushed-cases visited ds (d ∷ stack) x (rw e at h)) [
    | inl there ↦ inl (or_right _ there)
    | inr new ↦ elim (or-cases (str_eq d x) (contains_str stack x) new) [
      | inl same ↦ inl (or_left _ same)
      | inr old ↦ inr old
    ]
  ]
]

stays_pushed :
    (visited ds stack : List String) (x : String)
    → contains_str stack x ≡ true
    → contains_str (push_unvisited visited ds stack) x ≡ true
stays_pushed visited [] stack x h = h
stays_pushed visited (d ∷ ds) stack x h = elim (Bool-cases (contains_str visited d)) [
  | inl e ↦ rw e (stays_pushed visited ds stack x h)
  | inr e ↦ rw e (stays_pushed visited ds (d ∷ stack) x (or_right _ h))
]

gets_pushed :
    (visited ds stack : List String) (x : String)
    → contains_str ds x ≡ true
    → contains_str visited x ≡ false
    → contains_str (push_unvisited visited ds stack) x ≡ true
gets_pushed visited [] stack x h n = cc
gets_pushed visited (d ∷ ds) stack x h n = elim (or-cases (str_eq d x) (contains_str ds x) h) [
  | inl same ↦
      (let e : contains_str visited d ≡ false =
          ap (λ i. contains_str visited i) ((eq_iff d x).0 same) ∙ n in
        rw e (stays_pushed visited ds (d ∷ stack) x (or_left _ same)))
  | inr there ↦ elim (Bool-cases (contains_str visited d)) [
    | inl e ↦ rw e (gets_pushed visited ds stack x there n)
    | inr e ↦ rw e (gets_pushed visited ds (d ∷ stack) x there n)
  ]
]

-- Where the loop answers `true`, the id is reached from what reaches the stack.
loop_sound :
    (g : Graph) (id : String) (fuel : ℕ) (visited stack ds : List String)
    → ((x : String) → contains_str stack x ≡ true → Reached g ds x)
    → cycle_loop g id fuel visited stack ≡ some true
    → Reached g ds id
unfolding cycle_loop
loop_sound g id zero visited stack ds r h = cc
loop_sound g id (suc fuel) visited [] ds r h = cc
loop_sound g id (suc fuel) visited (cur ∷ stack) ds r h = elim (Bool-cases (str_eq cur id)) [
  | inl e ↦ subst (λ i. Reached g ds i) ((eq_iff cur id).0 e) (r cur (or_left _ (str_eq_refl cur)))
  | inr e ↦ elim (Bool-cases (contains_str visited cur)) [
    | inl f ↦ loop_sound g id fuel visited stack ds (λ x k. r x (or_right _ k)) (rw (e, f) at h)
    | inr f ↦
        loop_sound g id fuel (cur ∷ visited)
          (push_unvisited (cur ∷ visited) (deps_or_nil g cur) stack) ds
          (λ x k. elim (pushed-cases (cur ∷ visited) (deps_or_nil g cur) stack x k) [
            | inl dep ↦
                (let (d, there, chain) = r cur (or_left _ (str_eq_refl cur)) in
                  (d, there, extend g x chain dep))
            | inr old ↦ r x (or_right _ old)
          ])
          (rw (e, f) at h)
  ]
]

-- What holds of the visited ids and the stack: the id is not among the visited, the dependencies of
-- a visited id are visited or on the stack, and so are the prospective dependencies.
abbrev Explored : Graph → String → List String → List String → List String → Type 0
Explored g id ds visited stack =
    ((x : String) → contains_str visited x ≡ true → str_eq x id ≡ false)
    × ((x y : String)
        → contains_str visited x ≡ true
        → contains_str (deps_or_nil g x) y ≡ true
        → contains_str visited y || contains_str stack y ≡ true)
    × ((x : String)
        → contains_str ds x ≡ true
        → contains_str visited x || contains_str stack x ≡ true)

-- The top of the stack is popped where it was visited before.
pop_visited :
    (visited stack : List String) (cur y : String)
    → contains_str visited cur ≡ true
    → contains_str visited y || contains_str (cur ∷ stack) y ≡ true
    → contains_str visited y || contains_str stack y ≡ true
pop_visited visited stack cur y v h =
    elim (or-cases (contains_str visited y) (contains_str (cur ∷ stack) y) h) [
      | inl there ↦ or_left _ there
      | inr on ↦ elim (or-cases (str_eq cur y) (contains_str stack y) on) [
        | inl same ↦
            or_left _ (subst (λ i. contains_str visited i ≡ true) ((eq_iff cur y).0 same) v)
        | inr old ↦ or_right _ old
      ]
    ]

-- The top of the stack is visited, and its dependencies are pushed.
push_visited :
    (visited stack ds : List String) (cur y : String)
    → contains_str visited y || contains_str (cur ∷ stack) y ≡ true
    → contains_str (cur ∷ visited) y || contains_str (push_unvisited (cur ∷ visited) ds stack) y
      ≡ true
push_visited visited stack ds cur y h =
    elim (or-cases (contains_str visited y) (contains_str (cur ∷ stack) y) h) [
      | inl there ↦ or_left _ (or_right _ there)
      | inr on ↦ elim (or-cases (str_eq cur y) (contains_str stack y) on) [
        | inl same ↦ or_left _ (or_left _ same)
        | inr old ↦ or_right _ (stays_pushed (cur ∷ visited) ds stack y old)
      ]
    ]

push_deps :
    (visited stack ds : List String) (y : String)
    → contains_str ds y ≡ true
    → contains_str visited y || contains_str (push_unvisited visited ds stack) y ≡ true
push_deps visited stack ds y h = elim (Bool-cases (contains_str visited y)) [
  | inl there ↦ or_left _ there
  | inr fresh ↦ or_right _ (gets_pushed visited ds stack y h fresh)
]

-- Where the loop answers `false`, it leaves a set of visited ids with nothing on the stack.
loop_complete :
    (g : Graph) (id : String) (fuel : ℕ) (visited stack ds : List String)
    → Explored g id ds visited stack
    → cycle_loop g id fuel visited stack ≡ some false
    → (closed : List String) × Explored g id ds closed []
unfolding cycle_loop
loop_complete g id zero visited stack ds i h = cc
loop_complete g id (suc fuel) visited [] ds i h = (visited, i)
loop_complete g id (suc fuel) visited (cur ∷ stack) ds (apart, closed, start) h =
    elim (Bool-cases (str_eq cur id)) [
      | inl e ↦ (let stopped : ◌≡◌ {A = Option Bool} (some true) (some false) = rw e at h in cc)
      | inr e ↦ elim (Bool-cases (contains_str visited cur)) [
        | inl f ↦
            loop_complete g id fuel visited stack ds
              (
                apart,
                λ x y v k. pop_visited visited stack cur y f (closed x y v k),
                λ x k. pop_visited visited stack cur x f (start x k),
              )
              (rw (e, f) at h)
        | inr f ↦
            loop_complete g id fuel (cur ∷ visited)
              (push_unvisited (cur ∷ visited) (deps_or_nil g cur) stack) ds
              (
                λ x v. elim (or-cases (str_eq cur x) (contains_str visited x) v) [
                  | inl same ↦ subst (λ i. str_eq i id ≡ false) ((eq_iff cur x).0 same) e
                  | inr there ↦ apart x there
                ],
                λ x y v k. elim (or-cases (str_eq cur x) (contains_str visited x) v) [
                  | inl same ↦ push_deps (cur ∷ visited) stack (deps_or_nil g cur) y (
                      subst (λ i. contains_str (deps_or_nil g i) y ≡ true)
                        (sym ((eq_iff cur x).0 same)) k)
                  | inr there ↦
                      push_visited visited stack (deps_or_nil g cur) cur y (closed x y there k)
                ],
                λ x k. push_visited visited stack (deps_or_nil g cur) cur x (start x k),
              )
              (rw (e, f) at h)
      ]
    ]

or_swapped : (a b c : Bool) → a || (b || c) ≡ (b || a) || c
or_swapped a b c = ground arith

no_stack : {a : Bool} → a || false ≡ true → a ≡ true
no_stack {a} h = ground arith

contains-rev_onto :
    (ds acc : List String) (x : String)
    → contains_str (rev_onto ds acc) x ≡ contains_str ds x || contains_str acc x
contains-rev_onto [] acc x = refl
contains-rev_onto (d ∷ ds) acc x =
    contains-rev_onto ds (d ∷ acc) x
    ∙ or_swapped (contains_str ds x) (str_eq d x) (contains_str acc x)

-- No chain leads out of a closed set, and so none to the id.
no_chain :
    (g : Graph) (id : String) (ds closed : List String) {s : String}
    → Explored g id ds closed []
    → contains_str closed s ≡ true
    → Leads g s id
    → ⊥
no_chain g id ds closed (apart, edges, start) v arrived = cc (apart id v, str_eq_refl id)
no_chain g id ds closed {s = s} (apart, edges, start) v (hop d e l) =
    no_chain g id ds closed (apart, edges, start) (no_stack (edges s d v e)) l

-- Where the search answers `true`, a chain of dependencies leads from a prospective dependency to
-- the milestone.
pub depends_on_creates_cycle_in_graph_sound :
    (g : Graph) (id : String) (prospective_deps : List String)
    → depends_on_creates_cycle_in_graph g id prospective_deps ≡ some true
    → Reached g prospective_deps (normalize_milestone_id id)
unfolding depends_on_creates_cycle_in_graph
depends_on_creates_cycle_in_graph_sound g id ds h =
    loop_sound g (normalize_milestone_id id) (suc (length ds + unvisited_edges [] g)) []
      (rev_onto ds []) ds (λ x k. (x, no_stack (sym (contains-rev_onto ds [] x) ∙ k), arrived)) h

-- Where the search answers `false`, no chain of dependencies leads from a prospective dependency to
-- the milestone.
pub depends_on_creates_cycle_in_graph_complete :
    (g : Graph) (id : String) (prospective_deps : List String)
    → depends_on_creates_cycle_in_graph g id prospective_deps ≡ some false
    → ¬ Reached g prospective_deps (normalize_milestone_id id)
unfolding depends_on_creates_cycle_in_graph
depends_on_creates_cycle_in_graph_complete g id ds h (d, there, chain) =
    let (closed, explored) =
      loop_complete g (normalize_milestone_id id) (suc (length ds + unvisited_edges [] g)) []
        (rev_onto ds []) ds
        (λ x v. cc, λ x y v k. cc, λ x k. contains-rev_onto ds [] x ∙ or_left _ k) h in
    no_chain g (normalize_milestone_id id) ds closed explored (no_stack (explored.2 d there)) chain
