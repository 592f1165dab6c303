-- ===== src/Reviews.antt =====
-- crates/mp/src/reviews.rs: the verdicts, which milestones wait for one, and the review state. What
-- `load_reviews` answers is an argument, and what is saved is part of the answer. The sentinel of
-- `mp watch` that a promotion prints is left out.
pub mod Sweep
pub mod Audit
pub mod Findings
pub mod Handoffs
pub mod Passing
use master_plan.Prelude.{
  ℕ, zero, suc, ◌+◌, ◌-◌, ◌*◌, ◌/◌, ◌%◌, ◌≤◌, ◌<◌, max, String, ◌≡◌, refl, sym, ap, subst, ◌∙◌, ◌≢◌,
  ◌↔◌, ◌⊎◌, inl, inr, Bool, true, false, not, ◌&&◌, ◌||◌, Option, none, some, List, [], ◌∷◌, ◌++◌,
  map, arith, str_eq, eq_iff, ltb, leb, ◌==◌, if◌then◌else◌, Bool-cases, Option-cases, and_true,
  or_eq_false, or_false, length, any, all, find, filter, update_first, remove_first, contains_str,
  distinct, filter-eq-nil, not-true, and_eq_true, str_eq_comm, str_eq_refl, Result, ok, err, ◌>>=◌,
  ◌>>◌, bail_if, is_nil, nil_of, append-eq-nil, is_nil-append, not-false, bind-eq-ok, bail_if-eq-ok,
  ok-injective, some-injective, distinct-snoc, one_if, count, count-append, count-snoc,
  contains_of_count, count_of_contains, count_of_absent, count-distinct, length-le_of_counts,
  counts_of_length, one_if-le, count-filter, before, before-append_left, before-snoc_self,
  contains_cases, Memᴰ, insert_by, sort_by, take, position, length-take, mem-take, mem-insert_by,
  mem-sort_by, length-sort_by, length-insert_by, mem-filter, mem-filter_of, Result-cases,
  SameMembers, members_refl, members_trans, members_cons, members_swap, sort_by-same,
}
use Prim.Native.String.{compare}
use Prim.Native.Nat.{Ordering}
use master_plan.Prelude.Text.{is_empty, trim, push_str}
use master_plan.Model.Milestone.{MilestoneFile, Finding, Verification}
use master_plan.Model.Review.{ReviewRecord, ReviewsFile}
use master_plan.Lifecycle.Meta.{MilestoneMeta}
use master_plan.Lifecycle.Machine.{complete_event}
use master_plan.Status.{effective_spec_status, effective_execution_status}
use master_plan.Paths.{normalize_milestone_id, display_milestone_id, le_milestone_id}
use master_plan.Ceremony.Apply.{apply_transition}
use master_plan.Ceremony.Errors.{Error}
use master_plan.Ceremony.Complete.{or_default}

-- The order of `String`, by the bytes: `a > b` and `a >= b`.
abbrev pub str_gt : String → String → Bool
str_gt a b = elim (compare a b) [ Ordering.gt ↦ true | _ ↦ false ]

abbrev pub str_ge : String → String → Bool
str_ge a b = elim (compare a b) [ Ordering.lt ↦ false | _ ↦ true ]

unfoldable pub milestone_completed_at : MilestoneFile → String
milestone_completed_at m =
    if not (is_empty m.verification.date) then m.verification.date else m.milestone.updated

-- `max_by`: the last one of the largest.
abbrev pub latest_of : Option ReviewRecord → List ReviewRecord → Option ReviewRecord
latest_of best [] = best
latest_of none (r ∷ rs) = latest_of (some r) rs
latest_of (some b) (r ∷ rs) =
    latest_of (some (if str_ge r.reviewed_at b.reviewed_at then r else b)) rs

unfoldable pub latest_review_for : ReviewsFile → String → Option ReviewRecord
latest_review_for file milestone_id =
    latest_of none (filter (λ r. str_eq r.milestone_id milestone_id) file.reviews)

unfoldable pub is_pending_review : MilestoneFile → ReviewsFile → Bool
is_pending_review m file =
    if not (str_eq (effective_execution_status m) "done")
    then false
    else elim (latest_review_for file m.milestone.id) [
      | none ↦ true
      | some r ↦ str_gt (milestone_completed_at m) r.milestone_completed_at
    ]

pub record PendingReview : Type 0 where
  pub milestone_id : String
  pub display : String
  pub title : String
  pub completed_at : String
  pub spec_path : String

abbrev pub pending_review : MilestoneFile → PendingReview
pending_review m = record {
  milestone_id = m.milestone.id;
  display = display_milestone_id m.milestone.id;
  title = m.milestone.title;
  completed_at = milestone_completed_at m;
  spec_path =
      push_str "milestones/"
        (push_str m.milestone.id (push_str "-" (push_str m.milestone.slug ".json")));
}

unfoldable pub pending_reviews_from : ReviewsFile → List MilestoneFile → List PendingReview
pending_reviews_from reviews milestones =
    sort_by (λ a b. le_milestone_id a.milestone_id b.milestone_id)
      (map pending_review (filter (λ m. is_pending_review m reviews) milestones))

unfoldable pub review_state : MilestoneFile → Bool → String
review_state m has_review =
    let exec = effective_execution_status m in
    if not (str_eq exec "done") && not (str_eq m.milestone.lifecycle "remediation")
    then ""
    else if not has_review
    then "pending-review"
    else if ltb 0 (length (filter (λ f. str_eq f.status "open") m.findings))
    then "open-findings"
    else if not (is_nil m.findings)
    then (if all (λ f. str_eq f.status "fixed") m.findings then "remediated" else "reviewed-clean")
    else "reviewed-clean"

unfoldable pub milestone_review_state : ReviewsFile → MilestoneFile → String
milestone_review_state reviews m =
    let norm = normalize_milestone_id m.milestone.id in
    review_state m (any (λ r. str_eq (normalize_milestone_id r.milestone_id) norm) reviews.reviews)

pub data ReviewError : Type 0 where
  bad_verdict reviewer_required : ReviewError
  not_done : (id execution_status : String) → ReviewError
  refused : Error → ReviewError
  reviews_unreadable : ReviewError

abbrev pub lifted {ℓ} : {A : Type ℓ} → Result Error A → Result ReviewError A
lifted (ok a) = ok a
lifted (err e) = err (refused e)

abbrev pub keep_timestamp : Option String → MilestoneMeta → MilestoneMeta
keep_timestamp none m = m
keep_timestamp (some t) m = record m { lifecycle_at = some t }

abbrev pub is_promotable : MilestoneFile → Bool
is_promotable m =
    let lc = m.milestone.lifecycle in
    let spec = effective_spec_status m in
    let spec_ok = str_eq spec "verified" || str_eq spec "implemented" || str_eq spec "ready" in
    (str_eq lc "executed" || str_eq lc "done") && spec_ok && not (str_eq lc "complete")

-- The promotion of a passing review: the milestone that is written, `none` where none is.
unfoldable pub promote :
    String → String → MilestoneFile → String → Result ReviewError (Option MilestoneFile)
promote now today m verdict =
    if str_eq verdict "ok" && is_promotable m
    then (do
      r ← lifted (apply_transition now m complete_event)
      let kept = keep_timestamp m.milestone.lifecycle_at r.0.milestone
      ok (some (record r.0 { milestone = record kept { updated = today } })))
    else ok none

abbrev pub written_or : Option MilestoneFile → MilestoneFile → MilestoneFile
written_or none m = m
written_or (some w) m = w

-- The milestone that is written, and the reviews file that is saved with its new record. The
-- milestone is written first: it stays written where the reviews file cannot be read.
unfoldable pub record_review_pass :
    String
    → String
    → MilestoneFile
    → Option ReviewsFile
    → String
    → String
    → String
    → Option String
    → Result ReviewError (Option MilestoneFile × Result ReviewError (ReviewsFile × ReviewRecord))
record_review_pass now today m reviews milestone_id raw_verdict reviewer notes = do
  let verdict = trim raw_verdict
  let id = normalize_milestone_id milestone_id
  let exec = effective_execution_status m
  bail_if (not (str_eq verdict "ok") && not (str_eq verdict "changes-needed")) bad_verdict
  bail_if (is_empty (trim reviewer)) reviewer_required
  bail_if (not (str_eq exec "done")) (not_done id exec)
  written ← promote now today m verdict
  let entry : ReviewRecord = record {
    milestone_id = id;
    verdict = verdict;
    reviewer = reviewer;
    reviewed_at = today;
    notes = or_default notes;
    milestone_completed_at = milestone_completed_at (written_or written m);
  }
  ok (
    written,
    elim reviews [
      | none ↦ err reviews_unreadable
      | some file ↦ ok (record file { reviews = file.reviews ++ entry ∷ [] }, entry)
    ],
  )
