-- ===== src/Watch/Verdict/Complete.antt =====
-- The verdicts of crates/mp/src/watch/state_machine.rs fit together.
use master_plan.Prelude.{
  String, ◌≡◌, refl, sym, ap, ◌∙◌, inl, inr, Bool, true, false, not, ◌&&◌, ◌||◌, Option, none, some,
  arith, str_eq, eq_iff, if◌then◌else◌, Bool-cases, str_eq_comm,
}
use master_plan.Model.Milestone.{MilestoneFile}
use master_plan.Lifecycle.Phase.{is_watch_drivable_lifecycle}
use master_plan.Watch.Stage.{execute, remediate, to_complete}
use master_plan.Watch.Verdict.{is_ready, should_skip, next_stage, StagePlan}

abbrev pub is_none {ℓ} : {A : Type ℓ} → Option A → Bool
is_none none = true
is_none (some a) = false

-- A milestone that the driver works on.
abbrev pub drivable : MilestoneFile → Bool
drivable m =
    (not m.milestone.cancelled && (not m.milestone.deferred && not m.milestone.blocked))
    && (is_ready m
        || (str_eq m.milestone.lifecycle "in-progress"
            || str_eq m.milestone.lifecycle "remediation"))

ready_approved :
    (m : MilestoneFile) → is_ready m && not (str_eq m.milestone.lifecycle "approved") ≡ false
unfolding is_ready
ready_approved m = ground arith

drivable_lifecycle :
    (l : String)
    → is_watch_drivable_lifecycle l
      ≡ str_eq l "approved" || (str_eq l "in-progress" || str_eq l "remediation")
unfolding is_watch_drivable_lifecycle
drivable_lifecycle l =
    rw (str_eq_comm l "approved", str_eq_comm l "in-progress", str_eq_comm l "remediation")
      (ground arith)

not_ready : (r : Bool) → r && true ≡ false → r ≡ false
not_ready r h = ground arith

if_not : (b : Bool) (y : String) → is_none (if not b then some y else none) ≡ b || false
if_not true y = refl
if_not false y = refl

if_not-plain : (b : Bool) (y : String) → is_none (if not b then some y else none) ≡ b
if_not-plain true y = refl
if_not-plain false y = refl

-- The part of the verdict behind the overlays, for the readiness `r`.
lifecycle_verdict :
    (l : String) (r : Bool) (x y z : String)
    → r && not (str_eq l "approved") ≡ false
    → is_none (
        if str_eq l "complete"
        then some x
        else if str_eq l "approved" && not r
        then some y
        else if not (is_watch_drivable_lifecycle l)
        then some z
        else none)
      ≡ r || (str_eq l "in-progress" || str_eq l "remediation")
lifecycle_verdict l r x y z h = elim (Bool-cases (str_eq l "complete")) [
  | inl e ↦
      (let is_complete = (eq_iff l "complete").0 e in
        let unready = not_ready r (rw is_complete at h) in rw (is_complete, unready) refl)
  | inr e ↦ elim (Bool-cases (str_eq l "approved")) [
    | inl a ↦ rw (e, drivable_lifecycle l, (eq_iff l "approved").0 a) (if_not r y)
    | inr a ↦
        (let unready = not_ready r (rw a at h) in
          rw (e, drivable_lifecycle l, a, unready)
            (if_not-plain (str_eq l "in-progress" || str_eq l "remediation") z))
  ]
]

overlays_verdict :
    (c d b : Bool) (x y z : String) (rest : Option String)
    → is_none (if c then some x else if d then some y else if b then some z else rest)
      ≡ (not c && (not d && not b)) && is_none rest
overlays_verdict true d b x y z rest = refl
overlays_verdict false true b x y z rest = refl
overlays_verdict false false true x y z rest = refl
overlays_verdict false false false x y z rest = refl

-- A milestone is not skipped exactly where it carries none of the three overlays, and is ready, in
-- progress or in remediation.
pub should_skip-is_none : (m : MilestoneFile) → is_none (should_skip m) ≡ drivable m
unfolding should_skip
should_skip-is_none m =
    overlays_verdict m.milestone.cancelled m.milestone.deferred m.milestone.blocked _ _ _ _
    ∙ ap
        (λ b.
          (not m.milestone.cancelled && (not m.milestone.deferred && not m.milestone.blocked)) && b)
        (lifecycle_verdict m.milestone.lifecycle (is_ready m) _ _ _ (ready_approved m))

ready_of_drivable :
    (m : MilestoneFile)
    → drivable m ≡ true
    → str_eq m.milestone.lifecycle "approved"
        || (str_eq m.milestone.lifecycle "in-progress"
            || str_eq m.milestone.lifecycle "remediation")
      ≡ true
unfolding is_ready
ready_of_drivable m d = ground arith

abbrev pub plan_for : String → StagePlan
plan_for l = record {
  stage = if str_eq l "remediation" then remediate else execute;
  target = to_complete;
}

stage_of :
    (l : String)
    → str_eq l "approved" || (str_eq l "in-progress" || str_eq l "remediation") ≡ true
    → (if str_eq l "approved"
        then some (record { stage = execute; target = to_complete })
        else if str_eq l "in-progress"
        then some (record { stage = execute; target = to_complete })
        else if str_eq l "remediation"
        then some (record { stage = remediate; target = to_complete })
        else none)
      ≡ some (plan_for l)
stage_of l h = elim (Bool-cases (str_eq l "approved")) [
  | inl e ↦ rw ((eq_iff l "approved").0 e) refl
  | inr a ↦ elim (Bool-cases (str_eq l "in-progress")) [
    | inl e ↦ rw ((eq_iff l "in-progress").0 e) refl
    | inr i ↦ (let r : str_eq l "remediation" ≡ true = ground arith in rw (a, i, r) refl)
  ]
]

-- The plan of a milestone that is not skipped exists, so the loop never stops for want of one.
pub next_stage-of_drivable :
    (m : MilestoneFile)
    → should_skip m ≡ none
    → next_stage m ≡ some (plan_for m.milestone.lifecycle)
unfolding next_stage
next_stage-of_drivable m h =
    let d : drivable m ≡ true = sym (should_skip-is_none m) ∙ ap is_none h in
    stage_of m.milestone.lifecycle (ready_of_drivable m d)
