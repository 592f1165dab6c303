-- ===== src/Reviews/Passing.antt =====
-- What a recorded verdict does, crates/mp/src/reviews.rs.
use master_plan.Prelude.{
  String, ◌≡◌, refl, sym, ap, ◌∙◌, inl, inr, true, not, ◌&&◌, Option, none, some, arith, str_eq,
  eq_iff, Bool-cases, Result, ok, err, not-false, bind-eq-ok, bail_if-eq-ok, ok-injective,
  some-injective,
}
use master_plan.Prelude.Text.{is_empty, trim}
use master_plan.Model.Milestone.{MilestoneFile}
use master_plan.Model.Review.{ReviewRecord, ReviewsFile}
use master_plan.Lifecycle.Meta.{MilestoneMeta, MilestoneState}
use master_plan.Lifecycle.Phase.{as_str}
use master_plan.Lifecycle.Machine.{complete_event, transition, default_context, TransitionEffects}
use master_plan.Status.{effective_execution_status}
use master_plan.Ceremony.Apply.{apply_transition}
use master_plan.Ceremony.Apply.Faithful.{apply_transition-eq-ok}
use master_plan.Ceremony.Errors.{Error}
use master_plan.Reviews.{
  ReviewError, record_review_pass, promote, is_promotable, keep_timestamp, lifted,
}

lifted-eq-ok : {A : Type 0} (r : Result Error A) {a : A} → lifted r ≡ ok a → r ≡ ok a
lifted-eq-ok (ok b) h = ap ok (ok-injective h)
lifted-eq-ok (err e) h = cc

transition_complete :
    (s : MilestoneState) (fx : TransitionEffects)
    → transition s complete_event default_context ≡ ok fx
    → as_str fx.phase ≡ "complete"
unfolding transition
transition_complete s fx r = ground arith

keep_timestamp-lifecycle :
    (t : Option String) (m : MilestoneMeta) → (keep_timestamp t m).lifecycle ≡ m.lifecycle
keep_timestamp-lifecycle none m = refl
keep_timestamp-lifecycle (some t) m = refl

keep_timestamp-at :
    (t : String) (m : MilestoneMeta) → (keep_timestamp (some t) m).lifecycle_at ≡ some t
keep_timestamp-at t m = refl

-- A promotion happens on the verdict ok and a promotable milestone only, and completes it.
promoted :
    (now today : String) (m w : MilestoneFile) (verdict : String)
    → promote now today m verdict ≡ ok (some w)
    → (str_eq verdict "ok" && is_promotable m ≡ true)
      × (w.milestone.lifecycle ≡ "complete")
      × (w.findings ≡ m.findings)
      × (w.steps ≡ m.steps)
unfolding promote
promoted now today m w verdict h = elim (Bool-cases (str_eq verdict "ok" && is_promotable m)) [
  | inr e ↦
      (let no : ◌≡◌ {A = Result ReviewError (Option MilestoneFile)} (ok none) (ok (some w)) =
          rw (promote, e) at h in
        cc)
  | inl e ↦
      (let ((a, fx), applied, h1) =
          bind-eq-ok (lifted (apply_transition now m complete_event)) _ (rw (promote, e) at h) in
        let (s, _, accepted, stored) =
          apply_transition-eq-ok now m a complete_event fx
            (lifted-eq-ok (apply_transition now m complete_event) applied) in
        let same = some-injective (ok-injective h1) in
        (
          e,
          sym (ap (λ (x : MilestoneFile). x.milestone.lifecycle) same)
              ∙ keep_timestamp-lifecycle m.milestone.lifecycle_at a.milestone
              ∙ ap (λ (x : MilestoneFile). x.milestone.lifecycle) stored
              ∙ transition_complete s fx accepted,
          sym (ap (λ (x : MilestoneFile). x.findings) same)
              ∙ ap (λ (x : MilestoneFile). x.findings) stored,
          sym (ap (λ (x : MilestoneFile). x.steps) same)
              ∙ ap (λ (x : MilestoneFile). x.steps) stored,
        ))
]

-- A verdict changes a milestone in one case only: the verdict is `ok`, the milestone counts as
-- done and its lifecycle is `executed` or `done` with a spec that is ready, implemented or
-- verified. It is then complete, with the findings and steps that it had.
pub record_review_pass-promotes :
    (now today : String) (m w : MilestoneFile) (reviews : Option ReviewsFile)
    (milestone_id verdict reviewer : String) (notes : Option String)
    (saved : Result ReviewError (ReviewsFile × ReviewRecord))
    → record_review_pass now today m reviews milestone_id verdict reviewer notes
      ≡ ok (some w, saved)
    → (str_eq (trim verdict) "ok" && is_promotable m ≡ true)
      × (effective_execution_status m ≡ "done")
      × (w.milestone.lifecycle ≡ "complete")
      × (w.findings ≡ m.findings)
      × (w.steps ≡ m.steps)
unfolding record_review_pass
record_review_pass-promotes now today m w reviews milestone_id verdict reviewer notes saved passed =
    let (_, h1) =
      bail_if-eq-ok
        (not (str_eq (trim verdict) "ok") && not (str_eq (trim verdict) "changes-needed")) _ _
        passed in
    let (_, h2) = bail_if-eq-ok (is_empty (trim reviewer)) _ _ h1 in
    let (done, h3) = bail_if-eq-ok (not (str_eq (effective_execution_status m) "done")) _ _ h2 in
    let (written, moved, h4) = bind-eq-ok (promote now today m (trim verdict)) _ h3 in
    let same : written ≡ some w =
      ap (λ (r : Option MilestoneFile × Result ReviewError (ReviewsFile × ReviewRecord)). r.0)
        (ok-injective h4) in
    let (guard, lifecycle, findings, steps) =
      promoted now today m w (trim verdict) (moved ∙ ap ok same) in
    (guard, (eq_iff _ _).0 (not-false done), lifecycle, findings, steps)
