-- ===== src/Reviews/Sweep.antt =====
-- The sweep of pending reviews in crates/mp/src/reviews.rs, and the filter on them.
use master_plan.Prelude.{
  ℕ, ◌+◌, String, ◌≡◌, refl, ◌⊎◌, inl, inr, Bool, true, false, ◌||◌, Option, none, some, List, [],
  ◌∷◌, map, arith, str_eq, if◌then◌else◌, length, all, filter, is_nil,
}
use master_plan.Prelude.Text.{trim, strip_prefix}
use master_plan.Paths.{normalize_milestone_id}
use master_plan.Model.Milestone.{MilestoneFile, AcceptanceCriterion}
use master_plan.Status.{effective_execution_status}
use master_plan.PathEngine.Lanes.Backlog.{contains}
use master_plan.Reviews.{PendingReview}

-- A `HashMap` from ids to milestones; of two entries for an id the later one stands.
abbrev pub DoneMap : Type 0
DoneMap = List (String × MilestoneFile)

unfoldable pub load_done_milestones_map : List MilestoneFile → DoneMap
load_done_milestones_map all_of =
    map (λ m. (normalize_milestone_id m.milestone.id, m))
      (filter (λ m. str_eq (effective_execution_status m) "done") all_of)

abbrev pub later_milestone : Option MilestoneFile → Option MilestoneFile → Option MilestoneFile
later_milestone none o = o
later_milestone (some m) o = some m

abbrev pub get_done : DoneMap → String → Option MilestoneFile
get_done [] id = none
get_done ((k, m) ∷ entries) id =
    later_milestone (get_done entries id) (if str_eq k id then some m else none)

abbrev pub is_force_bypassed : MilestoneFile → Bool
is_force_bypassed m =
    contains m.verification.evidence "[force-bypassed"
    || contains m.verification.evidence "[step-tests force-bypassed"

-- `none` for an unknown preset.
unfoldable pub pending_matches_preset : DoneMap → PendingReview → String → Option Bool
pending_matches_preset lookup pr preset =
    if str_eq preset "force-bypassed"
    then some
        (elim (get_done lookup pr.milestone_id) [ none ↦ false | some m ↦ is_force_bypassed m ])
    else none

abbrev pub is_manual : AcceptanceCriterion → Bool
is_manual ac = elim (strip_prefix "manual:" (trim ac.verification)) [ none ↦ false | some s ↦ true ]

unfoldable pub all_acs_manual : MilestoneFile → Bool
all_acs_manual m =
    if is_nil m.acceptance_criteria then false else all is_manual m.acceptance_criteria

pub data SweepKind : Type 0 where
  force_bypassed manual_only runnable : SweepKind

-- The bucket that a pending review goes to.
unfoldable pub sweep_kind : DoneMap → PendingReview → SweepKind
sweep_kind lookup pr = elim (get_done lookup pr.milestone_id) [
  | none ↦ runnable
  | some m ↦
      (if is_force_bypassed m
        then force_bypassed
        else if all_acs_manual m
        then manual_only
        else runnable)
]

abbrev pub same_kind : SweepKind → SweepKind → Bool
same_kind force_bypassed force_bypassed = true
same_kind manual_only manual_only = true
same_kind runnable runnable = true
same_kind _ _ = false

pub record SweepBucket : Type 0 where
  pub kind : SweepKind
  pub count : ℕ
  pub milestone_ids : List String

pub record ReviewSweep : Type 0 where
  pub total : ℕ
  pub buckets : List SweepBucket

abbrev pub ids_of : DoneMap → SweepKind → List PendingReview → List String
ids_of lookup k pending =
    map (λ pr. pr.milestone_id) (filter (λ pr. same_kind k (sweep_kind lookup pr)) pending)

abbrev pub bucket : DoneMap → List PendingReview → SweepKind → SweepBucket
bucket lookup pending k = record {
  kind = k;
  count = length (ids_of lookup k pending);
  milestone_ids = ids_of lookup k pending;
}

-- The reasons of the buckets are fixed texts.
unfoldable pub sweep_pending_reviews : List MilestoneFile → List PendingReview → ReviewSweep
sweep_pending_reviews all_of pending =
    let lookup = load_done_milestones_map all_of in
    record {
      total = length pending;
      buckets =
          bucket lookup pending force_bypassed
          ∷ bucket lookup pending manual_only
          ∷ bucket lookup pending runnable
          ∷ [];
    }

-- Each pending review is counted in one of the three buckets.
pub buckets_total :
    (lookup : DoneMap) (pending : List PendingReview)
    → length (ids_of lookup force_bypassed pending)
        + length (ids_of lookup manual_only pending)
        + length (ids_of lookup runnable pending)
      ≡ length pending
buckets_total lookup [] = refl
buckets_total lookup (pr ∷ prs) =
    let rest = buckets_total lookup prs in
    elim (sweep_kind-cases (sweep_kind lookup pr)) [
      | inl e ↦ rw e (omega (arith, rest))
      | inr (inl e) ↦ rw e (omega (arith, rest))
      | inr (inr e) ↦ rw e (omega (arith, rest))
    ]
  where
    sweep_kind-cases : (k : SweepKind) → (k ≡ force_bypassed) ⊎ (k ≡ manual_only) ⊎ (k ≡ runnable)
    sweep_kind-cases force_bypassed = inl refl
    sweep_kind-cases manual_only = inr (inl refl)
    sweep_kind-cases runnable = inr (inr refl)
