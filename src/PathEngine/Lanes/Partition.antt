-- ===== src/PathEngine/Lanes/Partition.antt =====
-- Which lanes a milestone stands in, crates/mp/src/path_engine.rs.
use master_plan.Prelude.{
  ◌+◌, String, ◌≡◌, refl, ◌⊎◌, inl, inr, Bool, true, false, not, ◌&&◌, ◌||◌, List, arith, str_eq,
  eq_iff, if◌then◌else◌, Bool-cases, one_if, ℕ, ap, ◌∙◌,
}
use master_plan.Model.Milestone.{MilestoneFile}
use master_plan.Status.{effective_spec_status, model_execution_status}
use master_plan.PathEngine.Action.{milestone_deps_met}
use master_plan.PathEngine.Lanes.{
  lifecycle_of, is_pending_approval, is_executing, is_overlaid, in_execution, in_blocked,
  in_awaiting_approval, in_grooming,
}
use master_plan.Lifecycle.Phase.{
  MilestonePhase, as_str, complete, executed, draft, approved, remediation, groomed, in_progress,
}
use master_plan.Lifecycle.Machine.{phase_eq}
use master_plan.PathEngine.Lanes.Review.{review_phase, has_phase, in_review}

open_stages :
    (lc : String)
    → is_pending_approval lc || is_executing lc ≡ true
    → (lc ≡ "draft") ⊎ ((lc ≡ "groomed") ⊎ ((lc ≡ "approved") ⊎ (lc ≡ "in-progress")))
open_stages lc h = elim (Bool-cases (str_eq lc "draft")) [
  | inl e ↦ inl ((eq_iff lc "draft").0 e)
  | inr e ↦ elim (Bool-cases (str_eq lc "groomed")) [
    | inl f ↦ inr (inl ((eq_iff lc "groomed").0 f))
    | inr f ↦ elim (Bool-cases (str_eq lc "approved")) [
      | inl g ↦ inr (inr (inl ((eq_iff lc "approved").0 g)))
      | inr g ↦ inr (inr (inr ((eq_iff lc "in-progress").0 (rw (e, f, g) at h))))
    ]
  ]
]

-- A lifecycle of the planning or the executing stages is of one of them only, and not a finished
-- one.
stage_open :
    (lc : String)
    → is_pending_approval lc || is_executing lc ≡ true
    → (is_pending_approval lc && is_executing lc ≡ false)
      × (str_eq lc "complete" || str_eq lc "reviewed" ≡ false)
stage_open lc h = elim (open_stages lc h) [
  | inl e ↦ rw e (refl, refl)
  | inr (inl e) ↦ rw e (refl, refl)
  | inr (inr (inl e)) ↦ rw e (refl, refl)
  | inr (inr (inr e)) ↦ rw e (refl, refl)
]

-- Before the end of its execution, a milestone that is not deferred or cancelled stands in exactly
-- one of the lanes execution, blocked, awaiting-approval and grooming, up to their horizon.
pub lanes_partition :
    (done_ids : List String) (m : MilestoneFile)
    → is_pending_approval (lifecycle_of m) || is_executing (lifecycle_of m) ≡ true
    → str_eq (model_execution_status m) "deferred" ≡ false
    → str_eq (model_execution_status m) "cancelled" ≡ false
    → m.milestone.cancelled ≡ false
    → one_if (in_execution done_ids m)
        + one_if (in_blocked done_ids m)
        + one_if (in_awaiting_approval m)
        + one_if (in_grooming m)
      ≡ 1
unfolding in_execution in_blocked in_awaiting_approval in_grooming
lanes_partition done_ids m stage not_deferred not_cancelled kept =
    let (exclusive, open_stage) = stage_open (lifecycle_of m) stage in
    split (is_pending_approval (lifecycle_of m)) (is_executing (lifecycle_of m))
      (str_eq (lifecycle_of m) "complete") (str_eq (lifecycle_of m) "reviewed")
      (str_eq (effective_spec_status m) "ready") (str_eq (model_execution_status m) "blocked")
      (str_eq (model_execution_status m) "deferred") (str_eq (model_execution_status m) "cancelled")
      m.milestone.cancelled (milestone_deps_met m done_ids) stage exclusive open_stage not_deferred
      not_cancelled kept
  where
    split :
        (p x co re sr b df cn ca deps : Bool)
        → p || x ≡ true
        → p && x ≡ false
        → co || re ≡ false
        → df ≡ false
        → cn ≡ false
        → ca ≡ false
        → one_if (if not x then false else if b || df || cn then false else deps)
            + one_if (
                if co || re || ca
                then false
                else if df || cn
                then false
                else b || (x && not b && not deps))
            + one_if (if not sr then false else if not p then false else not (b || df || cn))
            + one_if (if not p then false else if sr then false else not (b || df || cn))
          ≡ 1
    split p x co re sr b df cn ca deps h1 h2 h3 h4 h5 h6 = ground arith

-- How many of the lanes let a milestone through, from what they read of it.
abbrev lanes_at : String → String → Bool → Bool → Bool → ℕ
lanes_at lc exec ready cancelled deps =
    one_if (if not (is_executing lc) then false else if is_overlaid exec then false else deps)
    + one_if (
        if str_eq lc "complete" || str_eq lc "reviewed" || cancelled
        then false
        else if str_eq exec "deferred" || str_eq exec "cancelled"
        then false
        else str_eq exec "blocked" || (is_executing lc && not (str_eq exec "blocked") && not deps))
    + one_if (
        if not ready
        then false
        else if not (is_pending_approval lc)
        then false
        else not (is_overlaid exec))
    + one_if (
        if not (is_pending_approval lc)
        then false
        else if ready
        then false
        else not (is_overlaid exec))
    + one_if (has_phase (review_phase lc exec))

lanes_of_phase :
    (p : MilestonePhase) (exec : String) (ready deps : Bool)
    → str_eq exec "blocked" ≡ false
    → str_eq exec "deferred" ≡ false
    → str_eq exec "cancelled" ≡ false
    → lanes_at (as_str p) exec ready false deps
      ≡ (if phase_eq p complete || phase_eq p executed then 0 else 1)
unfolding review_phase
lanes_of_phase draft exec ready deps b d c = rw (b, d, c) (ground arith)
lanes_of_phase groomed exec ready deps b d c = rw (b, d, c) (ground arith)
lanes_of_phase approved exec ready deps b d c = rw (b, d, c) (ground arith)
lanes_of_phase in_progress exec ready deps b d c = rw (b, d, c) (ground arith)
lanes_of_phase executed exec ready deps b d c = rw (b, d, c) (ground arith)
lanes_of_phase complete exec ready deps b d c = ground arith
lanes_of_phase remediation exec ready deps b d c = rw (b, d, c) (ground arith)

-- A milestone whose lifecycle is a canonical phase, whose execution status is not blocked, deferred
-- or cancelled, and that is not cancelled, stands in exactly one of the five lanes of milestones, up
-- to their horizon, unless it is complete or executed: it then stands in none of them.
pub lanes_cover :
    (done_ids : List String) (m : MilestoneFile) (p : MilestonePhase)
    → lifecycle_of m ≡ as_str p
    → str_eq (model_execution_status m) "blocked" ≡ false
    → str_eq (model_execution_status m) "deferred" ≡ false
    → str_eq (model_execution_status m) "cancelled" ≡ false
    → m.milestone.cancelled ≡ false
    → one_if (in_execution done_ids m)
        + one_if (in_blocked done_ids m)
        + one_if (in_awaiting_approval m)
        + one_if (in_grooming m)
        + one_if (in_review m)
      ≡ (if phase_eq p complete || phase_eq p executed then 0 else 1)
unfolding in_execution in_blocked in_awaiting_approval in_grooming
lanes_cover done_ids m p e b d c k =
    let ready = str_eq (effective_spec_status m) "ready" in
    let deps = milestone_deps_met m done_ids in
    ap (λ (l : String). lanes_at l (model_execution_status m) ready m.milestone.cancelled deps) e
    ∙ ap (λ (x : Bool). lanes_at (as_str p) (model_execution_status m) ready x deps) k
    ∙ lanes_of_phase p (model_execution_status m) ready deps b d c
