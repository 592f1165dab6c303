-- ===== src/Ceremony/Complete/Gate.antt =====
-- The review gate of `complete_milestone` in crates/mp/src/milestone/complete.rs.
use master_plan.Prelude.{
  String, ◌≡◌, refl, sym, ap, ◌∙◌, inl, inr, Bool, true, false, ◌&&◌, ◌||◌, Option, none, some,
  List, [], ◌∷◌, arith, str_eq, if◌then◌else◌, Bool-cases, any, Result, ok, bind-eq-ok,
  bail_if-eq-ok, ok-injective,
}
use master_plan.Lifecycle.Machine.{
  transition, default_context, MilestoneEvent, complete_event, TransitionEffects, finish_execution,
}
use master_plan.Ceremony.Complete.{
  complete_milestone, ReviewRow, with_criteria, prepared, promote_to_complete, new_evidence,
  evidence_text, is_given, finished, merge_if_delta, is_track_kind, is_ok_for, with_executor,
}
use master_plan.Model.Milestone.{MilestoneFile}
use master_plan.Lifecycle.Meta.{MilestoneState}
use master_plan.Lifecycle.Meta.Reading.{from_meta-eq-ok}
use master_plan.Ceremony.Ops.{JournalEntry}
use master_plan.Lifecycle.Phase.{as_str}
use master_plan.Model.Findings.{has_open_self_findings}
use master_plan.Ceremony.Apply.{apply_transition}
use master_plan.Prelude.Text.{is_empty}
use master_plan.Ceremony.Apply.Faithful.{apply_transition-eq-ok}

-- The event of the ceremony.
abbrev pub ceremony_event : Bool → MilestoneEvent
ceremony_event promote = if promote then complete_event else finish_execution

ceremony_effects :
    (s : MilestoneState) (promote : Bool) (fx : TransitionEffects)
    → transition s (ceremony_event promote) default_context ≡ ok fx
    → (as_str fx.phase ≡ (if promote then "complete" else "executed"))
      × (fx.overlays.blocked ≡ (if promote then false else s.overlays.blocked))
unfolding transition
ceremony_effects s true fx r = ground arith
ceremony_effects s false fx r = ground arith

with_executor-blocked :
    (executor : Option String) (m : MilestoneFile)
    → (with_executor executor m).milestone.blocked ≡ m.milestone.blocked
with_executor-blocked none m = refl
with_executor-blocked (some e) m = ground arith

finished_fields :
    (today text : String) (m f : MilestoneFile)
    → ((finished today m text f).milestone.lifecycle ≡ f.milestone.lifecycle)
      × ((finished today m text f).milestone.blocked ≡ f.milestone.blocked)
      × (is_empty m.milestone.block_reason
            || is_empty (finished today m text f).milestone.block_reason
          ≡ true)
finished_fields today text m f = elim (Bool-cases (is_empty m.milestone.block_reason)) [
  | inl e ↦ rw e (refl, refl, refl)
  | inr e ↦ rw e (refl, refl, refl)
]

-- The legacy marker check of the gate is implied by the check behind it.
passing_review-any :
    (id updated : String) (reviews : List ReviewRow)
    → any
          (λ r. str_eq r.milestone_id id && (str_eq r.reviewed_at updated && str_eq r.verdict "ok"))
          reviews
        || any (is_ok_for id) reviews
      ≡ any (is_ok_for id) reviews
passing_review-any id updated [] = refl
passing_review-any id updated (r ∷ rs) = ground (arith, passing_review-any id updated rs)

promote-eq :
    (m : MilestoneFile) (reviews : List ReviewRow) (skip_review : Bool)
    → promote_to_complete m reviews skip_review
      ≡ is_track_kind m || skip_review || any (is_ok_for m.milestone.id) reviews
promote-eq m reviews skip_review =
    ground (arith, passing_review-any m.milestone.id m.milestone.updated reviews)

module _ (merge_delta : MilestoneFile → Result String (Unit {0})) where
  -- What an accepted completion went through.
  pub complete_milestone-eq-ok :
      (now today : String) (reviews : List ReviewRow) (m m' : MilestoneFile)
      (evidence executor : Option String) (skip_review : Bool) (j : List JournalEntry)
      → complete_milestone merge_delta now today reviews m evidence executor skip_review
        ≡ ok (m', j)
      → (f : MilestoneFile) × (fx : TransitionEffects) × (text : String) × (has_open_self_findings m
          ≡ false)
        × (apply_transition now
              (prepared m evidence executor skip_review)
              (ceremony_event (promote_to_complete m reviews skip_review))
            ≡ ok (f, fx))
        × (new_evidence
              (evidence_text m evidence skip_review)
              (is_given evidence)
              m.milestone.block_reason
              f.verification.evidence
            ≡ ok text)
        × (m' ≡ finished today m text f)
  unfolding complete_milestone
  complete_milestone-eq-ok now today reviews m m' evidence executor skip_review j r =
      let (closed, r1) = bail_if-eq-ok (has_open_self_findings m) _ _ r in
      let (_, _, r2) =
        bind-eq-ok (merge_if_delta merge_delta (with_criteria m evidence skip_review)) _ r1 in
      let ((f, fx), applied, r3) =
        bind-eq-ok
          (apply_transition now (prepared m evidence executor skip_review)
            (ceremony_event (promote_to_complete m reviews skip_review)))
          _ r2 in
      let (text, written, r4) =
        bind-eq-ok
          (new_evidence (evidence_text m evidence skip_review) (is_given evidence)
            m.milestone.block_reason f.verification.evidence)
          _ r3 in
      (f, fx, text, closed, applied, written, sym (ap (λ p. p.0) (ok-injective r4)))

  -- The review gate. An accepted completion had no open self-review finding. It stores the lifecycle
  -- `complete` if the milestone is a track, or the review is skipped, or a review of it says `ok`,
  -- and otherwise `executed`. It clears the blocked overlay in the first case and leaves it as it
  -- was in the second; the block reason is gone in both, if there was one.
  pub complete_milestone-gate :
      (now today : String) (reviews : List ReviewRow) (m m' : MilestoneFile)
      (evidence executor : Option String) (skip_review : Bool) (j : List JournalEntry)
      → complete_milestone merge_delta now today reviews m evidence executor skip_review
        ≡ ok (m', j)
      → let reviewed = is_track_kind m || skip_review || any (is_ok_for m.milestone.id) reviews in
        (has_open_self_findings m ≡ false)
        × (m'.milestone.lifecycle ≡ (if reviewed then "complete" else "executed"))
        × (m'.milestone.blocked ≡ (if reviewed then false else m.milestone.blocked))
        × (is_empty m.milestone.block_reason || is_empty m'.milestone.block_reason ≡ true)
  complete_milestone-gate now today reviews m m' evidence executor skip_review j r =
      let (f, fx, text, closed, applied, _, stored) =
        complete_milestone-eq-ok now today reviews m m' evidence executor skip_review j r in
      let (s, read, tr, written) = apply_transition-eq-ok now _ f _ fx applied in
      let (phase, blocked) = ceremony_effects s (promote_to_complete m reviews skip_review) fx tr in
      let fields = finished_fields today text m f in
      let promoted = promote-eq m reviews skip_review in
      (
        closed,
        ap (λ (t : MilestoneFile). t.milestone.lifecycle) stored
            ∙ fields.0
            ∙ ap (λ (t : MilestoneFile). t.milestone.lifecycle) written
            ∙ phase
            ∙ ap (λ b. if b then "complete" else "executed") promoted,
        ap (λ (t : MilestoneFile). t.milestone.blocked) stored
            ∙ fields.1
            ∙ ap (λ (t : MilestoneFile). t.milestone.blocked) written
            ∙ blocked
            ∙ ap (λ b. if promote_to_complete m reviews skip_review then false else b)
                ((from_meta-eq-ok _ s read).1 ∙ with_executor-blocked executor _)
            ∙ ap (λ b. if b then false else m.milestone.blocked) promoted,
        ap
              (λ (t : MilestoneFile).
                is_empty m.milestone.block_reason || is_empty t.milestone.block_reason)
              stored
            ∙ fields.2,
      )
