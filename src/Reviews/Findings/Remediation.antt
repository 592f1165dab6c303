-- ===== src/Reviews/Findings/Remediation.antt =====
-- Findings and remediation, crates/mp/src/reviews.rs.
use master_plan.Prelude.{
  String, ◌≡◌, refl, sym, ap, ◌∙◌, inl, inr, Bool, true, false, not, ◌&&◌, ◌||◌, List, [], ◌∷◌,
  ◌++◌, arith, str_eq, Bool-cases, any, Result, ok, err, bind-eq-ok, bail_if-eq-ok, ok-injective,
  Result-cases,
}
use master_plan.Prelude.Text.{is_empty}
use master_plan.Model.Milestone.{MilestoneFile, Finding}
use master_plan.Model.Findings.{
  FindingDraft, validate_draft, has_open_self_findings, has_open_external_findings, is_open_self,
  is_open_in, finding_phase_self, finding_phase_external,
}
use master_plan.Lifecycle.Meta.{MilestoneMeta}
use master_plan.Lifecycle.Machine.{
  enter_remediation, TransitionEffects, transition, default_context,
}
use master_plan.Lifecycle.Meta.{MilestoneState}
use master_plan.Lifecycle.Phase.{as_str}
use master_plan.Ceremony.Apply.{apply_transition}
use master_plan.Ceremony.Apply.Faithful.{apply_transition-eq-ok}
use master_plan.Reviews.Findings.{
  FindingsError, add_finding_with_phase, escalate_to_remediation, enters_remediation, escalate,
  new_finding, next_finding_id, touch, lifted, checked_draft, check_threads, invalid_draft,
}
use master_plan.Ceremony.Errors.{Error}

abbrev phase_guard : FindingDraft → Bool
phase_guard draft =
    not (is_empty draft.phase)
    && not (str_eq draft.phase finding_phase_self || str_eq draft.phase finding_phase_external)

pub validated_phase :
    (is_rfc3339 : String → Bool) (draft : FindingDraft) (u : Unit {0})
    → validate_draft is_rfc3339 draft ≡ ok u
    → phase_guard draft ≡ false
unfolding validate_draft
validated_phase is_rfc3339 draft u h =
    let (_, h1) = bail_if-eq-ok _ _ _ h in let (phase, _) = bail_if-eq-ok _ _ _ h1 in phase

-- A draft that is accepted is for the self phase, the external one or for none.
pub accepted_phase :
    (is_rfc3339 : String → Bool) (draft : FindingDraft) (u : Unit {0})
    → checked_draft is_rfc3339 draft ≡ ok u
    → is_empty draft.phase || (str_eq draft.phase "self" || str_eq draft.phase "external") ≡ true
accepted_phase is_rfc3339 draft u h = elim (Result-cases (validate_draft is_rfc3339 draft)) [
  | inl (v, e) ↦ (let guard = validated_phase is_rfc3339 draft v e in ground arith)
  | inr (problem, e) ↦
      (let no : ◌≡◌ {A = Result FindingsError (Unit {0})} (err (invalid_draft problem)) (ok u) =
          rw (checked_draft, e) at h in
        cc)
]

any-snoc :
    {A : Type 0} (p : A → Bool) (xs : List A) (x : A) → p x ≡ true → any p (xs ++ x ∷ []) ≡ true
any-snoc p [] x h = rw h refl
any-snoc p (y ∷ ys) x h = ground (arith, any-snoc p ys x h)

abbrev pub with_finding : String → MilestoneFile → FindingDraft → MilestoneFile
with_finding today m draft = record m {
  findings = m.findings ++ new_finding today (next_finding_id m) draft ∷ [];
}

-- A new finding counts for the phase of its draft.
pub opens_a_phase :
    (today fid : String) (draft : FindingDraft) (m : MilestoneFile)
    → is_empty draft.phase || (str_eq draft.phase "self" || str_eq draft.phase "external") ≡ true
    → has_open_self_findings
          (record m { findings = m.findings ++ new_finding today fid draft ∷ [] })
        || has_open_external_findings
            (record m { findings = m.findings ++ new_finding today fid draft ∷ [] })
      ≡ true
unfolding has_open_self_findings has_open_external_findings
opens_a_phase today fid draft m h =
    let f = new_finding today fid draft in
    elim (Bool-cases (str_eq draft.phase "external")) [
      | inl e ↦
          (let last = any-snoc (is_open_in "external") m.findings f (rw e refl) in
            ground (arith, last))
      | inr e ↦
          (let self_phase : is_open_self f ≡ true = ground arith in
            let last = any-snoc is_open_self m.findings f self_phase in ground (arith, last))
    ]

transition-enter :
    (s : MilestoneState) (fx : TransitionEffects)
    → transition s enter_remediation default_context ≡ ok fx
    → as_str fx.phase ≡ "remediation"
unfolding transition
transition-enter s fx r = ground arith

abbrev pub is_checkpoint : MilestoneFile → Bool
is_checkpoint m =
    str_eq m.milestone.lifecycle "done"
    || str_eq m.milestone.lifecycle "executed"
    || str_eq m.milestone.lifecycle "complete"

pub escalate-lifecycle : (m : MilestoneMeta) → (escalate m).lifecycle ≡ m.lifecycle
escalate-lifecycle m = ground arith

pub lifted-eq-ok : {A : Type 0} (r : Result Error A) {a : A} → lifted r ≡ ok a → r ≡ ok a
lifted-eq-ok (ok b) h = ap ok (ok-injective h)
lifted-eq-ok (err e) h = cc

pub entering :
    (now : String) (m e : MilestoneFile)
    → enters_remediation m ≡ true
    → escalate_to_remediation now m ≡ ok e
    → (e.milestone.lifecycle ≡ "remediation") × (e.findings ≡ m.findings)
unfolding escalate_to_remediation
entering now m e enters moved =
    let ((w, fx), applied, h1) =
      bind-eq-ok (lifted (apply_transition now m enter_remediation)) _
        (rw (enters, escalate_to_remediation) at moved) in
    let (s, _, accepted, stored) =
      apply_transition-eq-ok now m w enter_remediation fx
        (lifted-eq-ok (apply_transition now m enter_remediation) applied) in
    let same : record w { milestone = escalate w.milestone } ≡ e = ok-injective h1 in
    let phase : w.milestone.lifecycle ≡ "remediation" =
      ap (λ (x : MilestoneFile). x.milestone.lifecycle) stored ∙ transition-enter s fx accepted in
    (
      sym (ap (λ (x : MilestoneFile). x.milestone.lifecycle) same)
          ∙ escalate-lifecycle w.milestone
          ∙ phase,
      sym (ap (λ (x : MilestoneFile). x.findings) same)
          ∙ ap (λ (x : MilestoneFile). x.findings) stored,
    )

pub checkpoint_enters :
    (m : MilestoneFile)
    → is_checkpoint m ≡ true
    → has_open_self_findings m || has_open_external_findings m ≡ true
    → enters_remediation m ≡ true
unfolding enters_remediation
checkpoint_enters m h k = ground arith

-- An accepted finding is stored behind the others and is open. On a milestone whose execution has
-- ended (`executed`, its old name `done`, or `complete`) it puts the milestone into remediation.
pub add_finding_with_phase_enters_remediation :
    (is_rfc3339 : String → Bool) (now today : String) (m m' : MilestoneFile) (draft : FindingDraft)
    (f : Finding)
    → add_finding_with_phase is_rfc3339 now today m draft ≡ ok (m', f)
    → is_checkpoint m ≡ true
    → (m'.milestone.lifecycle ≡ "remediation")
      × (m'.findings ≡ m.findings ++ f ∷ [])
      × (f.status ≡ "open")
unfolding add_finding_with_phase escalate_to_remediation enters_remediation
add_finding_with_phase_enters_remediation is_rfc3339 now today m m' draft f added checkpoint =
    let (u, checked, h1) = bind-eq-ok (checked_draft is_rfc3339 draft) _ added in
    let (v, threads, h2) = bind-eq-ok (check_threads is_rfc3339 m.findings) _ h1 in
    let (entered, moved, h3) =
      bind-eq-ok (escalate_to_remediation now (with_finding today m draft)) _ h2 in
    let phase = accepted_phase is_rfc3339 draft u checked in
    let opens = opens_a_phase today (next_finding_id m) draft m phase in
    let (lifecycle, findings) =
      entering now (with_finding today m draft) entered
        (checkpoint_enters (with_finding today m draft) checkpoint opens) moved in
    let pair = ok-injective h3 in
    let same_m : touch today entered ≡ m' = ap (λ (r : MilestoneFile × Finding). r.0) pair in
    let same_f : new_finding today (next_finding_id m) draft ≡ f =
      ap (λ (r : MilestoneFile × Finding). r.1) pair in
    (
      sym (ap (λ (x : MilestoneFile). x.milestone.lifecycle) same_m) ∙ lifecycle,
      sym (ap (λ (x : MilestoneFile). x.findings) same_m)
          ∙ findings
          ∙ ap (λ (g : Finding). m.findings ++ g ∷ []) same_f,
      sym (ap (λ (g : Finding). g.status) same_f),
    )
