-- ===== src/PathEngine/Prefs.antt =====
-- crates/mp/src/path_prefs.rs: pins, focus and the order of the ready milestones. A loaded plan is
-- its `execution` settings, which are all that these operations read and change. A list of indices
-- into the milestones is the list of the milestones that they stand for.
pub mod Members
use master_plan.Prelude.{
  ℕ, zero, suc, ◌+◌, ◌-◌, ◌*◌, ◌/◌, ◌%◌, ◌≤◌, ◌<◌, max, String, ◌≡◌, refl, sym, ap, subst, ◌∙◌, ◌≢◌,
  ◌↔◌, ◌⊎◌, inl, inr, Bool, true, false, not, ◌&&◌, ◌||◌, Option, none, some, List, [], ◌∷◌, ◌++◌,
  map, arith, str_eq, eq_iff, ltb, leb, ◌==◌, if◌then◌else◌, Bool-cases, Option-cases, and_true,
  or_eq_false, or_false, length, any, all, find, filter, update_first, remove_first, contains_str,
  distinct, filter-eq-nil, not-true, and_eq_true, str_eq_comm, str_eq_refl, Result, ok, err, ◌>>=◌,
  ◌>>◌, bail_if, is_nil, nil_of, append-eq-nil, is_nil-append, not-false, bind-eq-ok, bail_if-eq-ok,
  ok-injective, some-injective, distinct-snoc, one_if, count, count-append, count-snoc,
  contains_of_count, count_of_contains, count_of_absent, count-distinct, length-le_of_counts,
  counts_of_length, one_if-le, count-filter, before, before-append_left, before-snoc_self,
  contains_cases, Memᴰ, insert_by, sort_by, take, position, length-take, mem-take, mem-insert_by,
  mem-sort_by, length-sort_by, length-insert_by, mem-filter,
}
use master_plan.Prelude.Text.{is_empty}
use master_plan.Lifecycle.Meta.{MilestoneMeta}
use master_plan.Model.Milestone.{MilestoneFile}
use master_plan.Model.Plan.{AdoptionOrder, ExecutionConfig}
use master_plan.Ceremony.Complete.{or_default}
use master_plan.Paths.{normalize_milestone_id, or_zero}
use master_plan.PathEngine.Action.{id_of}
use master_plan.Prelude.Text.Integers.{usize_max}

pub data PrefsError : Type 0 where
  before_or_rank_required : PrefsError
  no_pin : String → PrefsError

abbrev pub is_pin_of : String → AdoptionOrder → Bool
is_pin_of norm o = str_eq (normalize_milestone_id o.milestone) norm

-- `adoption_order.retain(..)`
abbrev pub without_pin : String → ExecutionConfig → ExecutionConfig
without_pin norm e = record e {
  adoption_order = filter (λ o. not (is_pin_of norm o)) e.adoption_order;
}

abbrev pub normalized : Option String → Option String
normalized none = none
normalized (some id) = some (normalize_milestone_id id)

abbrev pub is_none {ℓ} : {A : Type ℓ} → Option A → Bool
is_none none = true
is_none (some a) = false

unfoldable pub pin_milestone :
    ExecutionConfig
    → String
    → Option String
    → Option ℕ
    → Option String
    → Result PrefsError ExecutionConfig
pin_milestone e milestone before rank reason = do
  let norm = normalize_milestone_id milestone
  bail_if (is_none before && is_none rank) before_or_rank_required
  let rest = without_pin norm e
  ok (record rest {
    adoption_order =
        rest.adoption_order
        ++ record {
          milestone = norm;
          before = or_default (normalized before);
          rank = or_zero rank;
          reason = or_default reason;
        }
          ∷ [];
  })

unfoldable pub unpin_milestone : ExecutionConfig → String → Result PrefsError ExecutionConfig
unpin_milestone e milestone = do
  let norm = normalize_milestone_id milestone
  let rest = without_pin norm e
  bail_if (length rest.adoption_order == length e.adoption_order) (no_pin norm)
  ok rest

unfoldable pub focus_milestone : ExecutionConfig → String → Option String → ExecutionConfig
focus_milestone e milestone through = record e {
  focus_milestone = normalize_milestone_id milestone;
  focus_through_step = or_default through;
}

unfoldable pub clear_focus : ExecutionConfig → ExecutionConfig
clear_focus e = record e { focus_milestone = ""; focus_through_step = "" }

unfoldable pub priority_rank : String → ℕ
priority_rank priority =
    if str_eq priority "urgent"
    then 4
    else if str_eq priority "high"
    then 3
    else if str_eq priority "normal"
    then 2
    else if str_eq priority "low"
    then 1
    else 2

-- `iter().position(..).unwrap_or(usize::MAX)`
abbrev pub baseline_position : List String → MilestoneFile → ℕ
baseline_position baseline m = elim (position (λ id. str_eq id (id_of m)) baseline) [
  | none ↦ usize_max
  | some n ↦ n
]

abbrev pub is_active : MilestoneFile → Bool
is_active m = str_eq m.milestone.execution_status "in-progress"

abbrev pub uses_priority : ExecutionConfig → Bool
uses_priority e = str_eq e.strategy "priority_first" || str_eq e.strategy "resume_then_ready"

-- `compare_milestones(a, b, ..)` is not `Greater`. `true` is larger than `false`.
unfoldable pub le_milestone : List String → ExecutionConfig → MilestoneFile → MilestoneFile → Bool
le_milestone baseline exec a b =
    let positions = leb (baseline_position baseline a) (baseline_position baseline b) in
    let a_pri = priority_rank a.milestone.priority in
    let b_pri = priority_rank b.milestone.priority in
    if is_active a && not (is_active b)
    then true
    else if not (is_active a) && is_active b
    then false
    else if uses_priority exec && not (a_pri == b_pri)
    then leb b_pri a_pri
    else positions

-- `Vec::remove(i)` and `Vec::insert(i, x)`. Both panic out of range; `insert_at` is then at the
-- end, and `take_at` is `none`.
abbrev pub take_at {ℓ} : {A : Type ℓ} → ℕ → List A → Option (A × List A)
take_at n [] = none
take_at zero (x ∷ xs) = some (x, xs)
take_at (suc n) (x ∷ xs) = elim (take_at n xs) [ none ↦ none | some (a, rest) ↦ some (a, x ∷ rest) ]

abbrev pub insert_at {ℓ} : {A : Type ℓ} → ℕ → A → List A → List A
insert_at zero x xs = x ∷ xs
insert_at (suc n) x [] = x ∷ []
insert_at (suc n) x (y ∷ ys) = y ∷ insert_at n x ys

abbrev pub has_id : String → MilestoneFile → Bool
has_id id m = str_eq (id_of m) id

-- `vec.remove(from)` and `vec.insert(..)`
abbrev pub move_item {ℓ} : {A : Type ℓ} → ℕ → ℕ → List A → List A
move_item from insert_index xs = elim (take_at from xs) [
  | none ↦ xs
  | some (item, rest) ↦ insert_at insert_index item rest
]

-- One round of `apply_adoption_order_indices`.
unfoldable pub apply_order : AdoptionOrder → List MilestoneFile → List MilestoneFile
apply_order order ready =
    let mid = normalize_milestone_id order.milestone in
    let before = normalize_milestone_id order.before in
    if is_empty before then ready else elim (position (has_id mid) ready) [
      | none ↦ ready
      | some from ↦ elim (position (has_id before) ready) [
        | none ↦ ready
        | some to ↦
            if from == to then ready else move_item from (if ltb from to then to - 1 else to) ready
      ]
    ]

unfoldable pub apply_adoption_order_indices :
    List MilestoneFile → List AdoptionOrder → List MilestoneFile
apply_adoption_order_indices ready [] = ready
apply_adoption_order_indices ready (o ∷ os) = apply_adoption_order_indices (apply_order o ready) os

unfoldable pub apply_focus_indices : List MilestoneFile → String → List MilestoneFile
apply_focus_indices ready focus =
    if is_empty focus
    then ready
    else elim (position (has_id (normalize_milestone_id focus)) ready) [
      | none ↦ ready
      | some idx ↦ elim (take_at idx ready) [
        | none ↦ ready
        | some (item, rest) ↦ insert_at (length (filter is_active (take idx rest))) item rest
      ]
    ]

unfoldable pub sort_ready_milestone_indices :
    List MilestoneFile → List String → ExecutionConfig → List MilestoneFile
sort_ready_milestone_indices ready baseline exec =
    apply_focus_indices
      (apply_adoption_order_indices (sort_by (le_milestone baseline exec) ready)
        exec.adoption_order)
      exec.focus_milestone
