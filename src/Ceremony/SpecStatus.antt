-- ===== src/Ceremony/SpecStatus.antt =====
-- The gated promotion of crates/mp/src/milestone/spec.rs, and its writers of plain fields.
pub mod Gated
use master_plan.Prelude.{
  ℕ, zero, suc, ◌+◌, ◌-◌, ◌*◌, ◌/◌, ◌%◌, ◌≤◌, ◌<◌, max, String, ◌≡◌, refl, sym, ap, subst, ◌∙◌, ◌≢◌,
  ◌↔◌, ◌⊎◌, inl, inr, Bool, true, false, not, ◌&&◌, ◌||◌, Option, none, some, List, [], ◌∷◌, ◌++◌,
  map, arith, str_eq, eq_iff, ltb, leb, ◌==◌, if◌then◌else◌, Bool-cases, Option-cases, and_true,
  or_eq_false, or_false, length, any, all, find, filter, update_first, remove_first, contains_str,
  distinct, filter-eq-nil, not-true, and_eq_true, str_eq_comm, str_eq_refl, Result, ok, err, ◌>>=◌,
  ◌>>◌, bail_if, is_nil, nil_of, append-eq-nil, is_nil-append, not-false, bind-eq-ok, bail_if-eq-ok,
  ok-injective, some-injective, distinct-snoc, one_if, count, count-append, count-snoc,
  contains_of_count, count_of_contains, count_of_absent, count-distinct, length-le_of_counts,
  counts_of_length, one_if-le, count-filter, before, before-append_left, before-snoc_self,
  contains_cases, Memᴰ, insert_by, sort_by, take, position, length-take, mem-take, mem-insert_by,
  mem-sort_by, length-sort_by, length-insert_by, mem-filter, mem-filter_of, Result-cases,
  SameMembers, members_refl, members_trans, members_cons, members_swap, sort_by-same,
}
use master_plan.Paths.{normalize_milestone_id}
use master_plan.Prelude.Text.{is_empty}
use master_plan.Model.Milestone.{MilestoneFile}
use master_plan.Lifecycle.Meta.{MilestoneMeta}
use master_plan.Lifecycle.Phase.{lifecycle_states}
use master_plan.Validate.{ValidationIssue, validate_milestone_review, validate_milestone_ready}
use master_plan.Validate.Approvals.{AnnotationItem, check_g14_approval_requests}
use master_plan.Ceremony.Errors.{Error, invalid_spec_status}
use master_plan.Ceremony.Apply.{apply_transition, event_for_spec_status}
use master_plan.Ceremony.Ops.{apply_spec_status, spec_statuses, JournalEntry}

pub data ApplySpecStatusResult : Type 0 where
  applied : MilestoneFile → ApplySpecStatusResult
  blocked : (gate_errors : List ValidationIssue) (current : MilestoneFile) → ApplySpecStatusResult

unfoldable pub gate_errors_for_spec_status : MilestoneFile → String → ℕ → List ValidationIssue
gate_errors_for_spec_status m status min_out_of_scope =
    if str_eq status "review"
    then validate_milestone_review m min_out_of_scope
    else if str_eq status "ready"
    then validate_milestone_ready m min_out_of_scope
    else []

-- What stands against the status: the gates, and for `ready` the open approval requests too.
unfoldable pub promotion_errors :
    Option (List AnnotationItem) → String → MilestoneFile → String → ℕ → List ValidationIssue
promotion_errors annotations id current status min_out_of_scope =
    gate_errors_for_spec_status current status min_out_of_scope
    ++ (if str_eq status "ready" then check_g14_approval_requests annotations id else [])

-- What is written, `none` where nothing is, and the answer.
unfoldable pub apply_spec_status_with_gates :
    String
    → ℕ
    → Option (List AnnotationItem)
    → String
    → MilestoneFile
    → String
    → Bool
    → Result Error (Option (MilestoneFile × List JournalEntry) × ApplySpecStatusResult)
apply_spec_status_with_gates now min_out_of_scope annotations id current status commit = do
  let errors = promotion_errors annotations id current status min_out_of_scope
  bail_if (not (contains_str spec_statuses status)) (invalid_spec_status status)
  (if not (is_nil errors)
      then ok (none, blocked errors current)
      else if not commit
      then (do
        event ← event_for_spec_status current status
        r ← apply_transition now current event
        ok (none, applied r.0))
      else (do w ← apply_spec_status now current status; ok (some w, applied w.0)))

pub data SettingError : Type 0 where
  invalid_priority invalid_lifecycle : String → SettingError
  migration_only : SettingError

abbrev pub valid_priorities : List String
valid_priorities = "urgent" ∷ "high" ∷ "normal" ∷ "low" ∷ []

abbrev pub with_priority : String → MilestoneFile → MilestoneFile
with_priority priority m = record m { milestone = record m.milestone { priority = priority } }

unfoldable pub set_priority : MilestoneFile → String → Result SettingError MilestoneFile
set_priority m priority = do
  bail_if (not (contains_str valid_priorities priority)) (invalid_priority priority)
  ok (with_priority priority m)

-- Every lifecycle is refused: an unknown one with a message of its own.
unfoldable pub set_lifecycle : String → Result SettingError MilestoneFile
set_lifecycle lifecycle = do
  bail_if (not (is_empty lifecycle) && not (contains_str lifecycle_states lifecycle))
      (invalid_lifecycle lifecycle)
  err migration_only

pub record ReleaseEntry : Type 0 where
  pub version : String
  pub status : String
  pub date : String
  pub milestones : List String

abbrev pub is_version : String → ReleaseEntry → Bool
is_version version r = str_eq r.version version

abbrev pub list_milestone : String → ReleaseEntry → ReleaseEntry
list_milestone norm_id r =
    if not (contains_str r.milestones norm_id)
    then record r { milestones = r.milestones ++ norm_id ∷ [] }
    else r

abbrev pub new_release : String → String → ReleaseEntry
new_release version norm_id = record {
  version = version;
  status = "planned";
  date = "";
  milestones = norm_id ∷ [];
}

-- The milestone and the `releases` of the plan.
unfoldable pub set_target_version :
    MilestoneFile → List ReleaseEntry → String → String → MilestoneFile × List ReleaseEntry
set_target_version m releases id version =
    let norm_id = normalize_milestone_id id in
    let changed : MilestoneFile = record m {
      milestone = record m.milestone { target_version = version };
    } in
    (
      changed,
      if any (is_version version) releases
          then update_first (is_version version) (list_milestone norm_id) releases
          else releases ++ new_release version norm_id ∷ [],
    )
