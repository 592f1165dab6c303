-- ===== src/Reviews/Findings/RoundTrip.antt =====
-- Filing a finding and resolving it again, crates/mp/src/reviews.rs.
use master_plan.Prelude.{
  String, ◌≡◌, refl, sym, ap, ◌∙◌, inl, inr, Bool, true, false, ◌&&◌, Option, none, some, List, [],
  ◌∷◌, ◌++◌, map, arith, str_eq, eq_iff, ltb, Bool-cases, or_eq_false, find, filter, update_first,
  contains_str, filter-eq-nil, str_eq_refl, ok, bind-eq-ok, ok-injective,
}
use master_plan.Model.Milestone.{MilestoneFile, Finding}
use master_plan.Model.Findings.{FindingDraft}
use master_plan.Lifecycle.Meta.{
  MilestoneMeta, MilestoneState, from_meta, effective_lifecycle, parse_pre_state,
}
use master_plan.Lifecycle.Meta.Reading.{from_meta-eq-ok}
use master_plan.Lifecycle.Phase.{as_str, draft, remediation, from_lifecycle, from_lifecycle-as_str}
use master_plan.Lifecycle.Machine.{
  enter_remediation, exit_remediation, TransitionEffects, transition, default_context, effects_of,
  phase_eq,
}
use master_plan.Lifecycle.Machine.Runs.{state_of}
use master_plan.Lifecycle.Machine.Remediation.{enter_exit}
use master_plan.Ceremony.Apply.{apply_transition, write_effects}
use master_plan.Ceremony.Apply.Faithful.{apply_transition-eq-ok, from_meta-write_effects}
use master_plan.Reviews.Findings.{
  finding_priority_rank, add_finding_with_phase, resolve_finding, leave_remediation,
  escalate_to_remediation, escalate, new_finding, next_finding_id, touch, lifted, checked_draft,
  check_threads, is_open, fixed,
}
use master_plan.Reviews.Findings.Remediation.{
  with_finding, lifted-eq-ok, checkpoint_enters, opens_a_phase, accepted_phase, is_checkpoint,
  escalate-lifecycle,
}
use master_plan.Ceremony.Complete.{or_default}
use master_plan.Lifecycle.Machine.Inversion.{transition-eq-ok}

abbrev has_finding_id : String → Finding → Bool
has_finding_id id g = str_eq g.id id

find-last :
    (xs : List Finding) (f : Finding)
    → contains_str (map (λ g. g.id) xs) f.id ≡ false
    → find (has_finding_id f.id) (xs ++ f ∷ []) ≡ some f
find-last [] f h = rw (str_eq_refl f.id) refl
find-last (x ∷ xs) f h =
    let (here, later) = or_eq_false (str_eq x.id f.id) (contains_str (map (λ g. g.id) xs) f.id) h in
    rw here (find-last xs f later)

update-last :
    (change : Finding → Finding) (xs : List Finding) (f : Finding)
    → contains_str (map (λ g. g.id) xs) f.id ≡ false
    → update_first (has_finding_id f.id) change (xs ++ f ∷ []) ≡ xs ++ change f ∷ []
update-last change [] f h = rw (str_eq_refl f.id) refl
update-last change (x ∷ xs) f h =
    let (here, later) = or_eq_false (str_eq x.id f.id) (contains_str (map (λ g. g.id) xs) f.id) h in
    rw (here, update-last change xs f later) refl

none_open :
    (xs : List Finding) (f : Finding)
    → filter is_open xs ≡ []
    → is_open f ≡ false
    → filter is_open (xs ++ f ∷ []) ≡ []
none_open [] f h e = rw e refl
none_open (x ∷ xs) f h e =
    let (here, later) = filter-eq-nil is_open x xs h in rw here (none_open xs f later e)

-- The priority and the date are not part of the state.
from_meta-escalate :
    (today : String) (m : MilestoneMeta)
    → from_meta (record (escalate m) { updated = today }) ≡ from_meta m
unfolding from_meta effective_lifecycle
from_meta-escalate today m =
    elim (Bool-cases (ltb (finding_priority_rank m.priority) (finding_priority_rank "high"))) [
      | inl e ↦ rw e refl
      | inr e ↦ rw e refl
    ]

-- What an accepted finding on a finished milestone went through.
added_through :
    (is_rfc3339 : String → Bool) (now today : String) (m m' : MilestoneFile) (draft_ : FindingDraft)
    (f : Finding)
    → add_finding_with_phase is_rfc3339 now today m draft_ ≡ ok (m', f)
    → is_checkpoint m ≡ true
    → (s : MilestoneState) × (fx : TransitionEffects) × (from_meta m.milestone ≡ ok s)
      × (transition s enter_remediation default_context ≡ ok fx)
      × (record m {
        findings = m.findings ++ f ∷ [];
        milestone = record (escalate (write_effects now m.milestone fx)) { updated = today };
      }
          ≡ m')
      × (is_open f ≡ true)
unfolding add_finding_with_phase escalate_to_remediation
added_through is_rfc3339 now today m m' draft_ f added checkpoint =
    let (u, checked, h1) = bind-eq-ok (checked_draft is_rfc3339 draft_) _ added in
    let (v, threads, h2) = bind-eq-ok (check_threads is_rfc3339 m.findings) _ h1 in
    let (entered, moved, h3) =
      bind-eq-ok (escalate_to_remediation now (with_finding today m draft_)) _ h2 in
    let enters = checkpoint_enters (with_finding today m draft_) checkpoint (
      opens_a_phase today (next_finding_id m) draft_ m
        (accepted_phase is_rfc3339 draft_ u checked)) in
    let ((w, fx), applied, h4) =
      bind-eq-ok (lifted (apply_transition now (with_finding today m draft_) enter_remediation)) _
        (rw (enters, escalate_to_remediation) at moved) in
    let (s, read, accepted, stored) =
      apply_transition-eq-ok now (with_finding today m draft_) w enter_remediation fx (
        lifted-eq-ok (apply_transition now (with_finding today m draft_) enter_remediation)
          applied) in
    let pair = ok-injective h3 in
    let same_m : touch today entered ≡ m' = ap (λ (r : MilestoneFile × Finding). r.0) pair in
    let same_f : new_finding today (next_finding_id m) draft_ ≡ f =
      ap (λ (r : MilestoneFile × Finding). r.1) pair in
    let same_w : record w { milestone = escalate w.milestone } ≡ entered = ok-injective h4 in
    (
      s,
      fx,
      read,
      accepted,
      ap
            (λ (g : Finding). record m {
              findings = m.findings ++ g ∷ [];
              milestone = record (escalate (write_effects now m.milestone fx)) { updated = today };
            })
            (sym same_f)
          ∙ ap (λ (x : MilestoneFile). touch today (record x { milestone = escalate x.milestone }))
              (sym stored)
          ∙ ap (touch today) same_w
          ∙ same_m,
      rw (sym same_f) refl,
    )

exit_of_entered :
    (s : MilestoneState) (fx : TransitionEffects)
    → s.overlays.cancelled ≡ false
    → s.remediation_pre_state ≡ none
    → transition s enter_remediation default_context ≡ ok fx
    → transition (state_of fx) exit_remediation default_context ≡ ok (effects_of remediation s)
exit_of_entered s fx c p t = enter_exit s default_context fx c p t

entered_phase :
    (s : MilestoneState) (fx : TransitionEffects)
    → transition s enter_remediation default_context ≡ ok fx
    → (phase_eq fx.phase draft && fx.overlays.cancelled ≡ false) × (as_str fx.phase ≡ "remediation")
unfolding transition
entered_phase s fx t = ground arith

read_back :
    (now today : String) (m : MilestoneMeta) (s : MilestoneState) (fx : TransitionEffects)
    → transition s enter_remediation default_context ≡ ok fx
    → from_meta (record (escalate (write_effects now m fx)) { updated = today }) ≡ ok (state_of fx)
read_back now today m s fx accepted =
    let (t, _, is_t, _, _) = transition-eq-ok s enter_remediation default_context fx accepted in
    let (not_draft, _) = entered_phase s fx accepted in
    from_meta-escalate today (write_effects now m fx)
    ∙ rw is_t (from_meta-write_effects now m s.phase t (rw is_t at not_draft))

pre_state_read :
    (m : MilestoneMeta) (s : MilestoneState)
    → from_meta m ≡ ok s
    → m.remediation_pre_state ≡ none
    → s.remediation_pre_state ≡ none
unfolding from_meta
pre_state_read m s read none_stored =
    let (phase, _, r1) = bind-eq-ok (from_lifecycle (effective_lifecycle m)) _ read in
    let (pre, parsed_pre, r2) = bind-eq-ok (parse_pre_state m.remediation_pre_state) _ r1 in
    let no_pre : none ≡ pre = ok-injective (rw none_stored at parsed_pre) in
    sym (ap (λ (t : MilestoneState). t.remediation_pre_state) (ok-injective r2)) ∙ sym no_pre

-- Leaving remediation restores the state that was read back.
exit_applied :
    (later : String) (m : MilestoneFile) (s : MilestoneState) (fx : TransitionEffects)
    → from_meta m.milestone ≡ ok (state_of fx)
    → transition (state_of fx) exit_remediation default_context ≡ ok (effects_of remediation s)
    → apply_transition later m exit_remediation
      ≡ ok (
        record m { milestone = write_effects later m.milestone (effects_of remediation s) },
        effects_of remediation s,
      )
unfolding apply_transition
exit_applied later m s fx read accepted = rw (apply_transition, read, accepted) refl

left_again :
    (later : String) (m : MilestoneFile) (s : MilestoneState) (fx : TransitionEffects)
    → from_meta m.milestone ≡ ok (state_of fx)
    → transition (state_of fx) exit_remediation default_context ≡ ok (effects_of remediation s)
    → filter is_open m.findings ≡ []
    → str_eq m.milestone.lifecycle "remediation" ≡ true
    → leave_remediation later m
      ≡ ok (record m { milestone = write_effects later m.milestone (effects_of remediation s) })
unfolding leave_remediation
left_again later m s fx read accepted closed lifecycle =
    rw (closed, lifecycle, leave_remediation, exit_applied later m s fx read accepted) refl

-- What is stored after the finding `g` replaced the filed one.
abbrev resolved_in : String → String → MilestoneFile → TransitionEffects → Finding → MilestoneFile
resolved_in now today m fx g = record m {
  findings = m.findings ++ g ∷ [];
  milestone = record (escalate (write_effects now m.milestone fx)) { updated = today };
}

abbrev restored :
    String
    → String
    → String
    → String
    → MilestoneFile
    → TransitionEffects
    → MilestoneState
    → Finding
    → MilestoneFile
restored now today later today2 m fx s g =
    let r = resolved_in now today m fx g in
    touch today2
      (record r { milestone = write_effects later r.milestone (effects_of remediation s) })

-- On a finished milestone (`executed`, its old name `done`, or `complete`) that is not cancelled,
-- has no open finding and stores no phase from before a remediation, an accepted finding with a new
-- id can be resolved at once: that is accepted too, and leaves no finding open, no phase from before
-- a remediation, and the milestone in the phase that it was in when the finding was filed.
pub add_finding-resolve_finding :
    (is_rfc3339 : String → Bool) (now today : String) (m m' : MilestoneFile) (draft_ : FindingDraft)
    (f : Finding)
    → add_finding_with_phase is_rfc3339 now today m draft_ ≡ ok (m', f)
    → is_checkpoint m ≡ true
    → m.milestone.cancelled ≡ false
    → m.milestone.remediation_pre_state ≡ none
    → filter is_open m.findings ≡ []
    → contains_str (map (λ g. g.id) m.findings) f.id ≡ false
    → (later today2 : String) (commit : Option String)
    → (m2 : MilestoneFile) × (resolve_finding later today2 m' f.id commit
        ≡ ok (m2, fixed today2 (or_default commit) f))
      × (from_lifecycle (effective_lifecycle m.milestone) ≡ from_lifecycle m2.milestone.lifecycle)
      × (filter is_open m2.findings ≡ [])
      × (m2.milestone.remediation_pre_state ≡ none)
unfolding resolve_finding leave_remediation
add_finding-resolve_finding is_rfc3339 now today m m' draft_ f added checkpoint kept fresh_state
      closed new later today2 commit =
    let (s, fx, read, accepted, stored, opened) =
      added_through is_rfc3339 now today m m' draft_ f added checkpoint in
    let (phase_read, _, _, cancelled_read) = from_meta-eq-ok m.milestone s read in
    let exits =
      exit_of_entered s fx (cancelled_read ∙ kept) (pre_state_read m.milestone s read fresh_state)
        accepted in
    let back = read_back now today m.milestone s fx accepted in
    let all_closed = none_open m.findings (fixed today2 (or_default commit) f) closed refl in
    let in_remediation =
      escalate-lifecycle (write_effects now m.milestone fx) ∙ (entered_phase s fx accepted).1 in
    let left =
      left_again later
        (record m {
          findings = m.findings ++ fixed today2 (or_default commit) f ∷ [];
          milestone = record (escalate (write_effects now m.milestone fx)) { updated = today };
        })
        s fx back exits all_closed ((eq_iff _ _).1 in_remediation) in
    rw (sym stored) (
      restored now today later today2 m fx s (fixed today2 (or_default commit) f),
      rw
          (
            find-last m.findings f new,
            update-last (fixed today2 (or_default commit)) m.findings f new,
            left,
          )
          refl,
      phase_read ∙ sym (from_lifecycle-as_str s.phase),
      all_closed,
      rw (pre_state_read m.milestone s read fresh_state) refl,
    )
