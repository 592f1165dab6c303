-- ===== src/Ceremony/Ops/Terminal.antt =====
-- Terminal milestones under `set_execution_status` and `reopen_milestone` of
-- crates/mp/src/milestone/complete.rs.
use master_plan.Prelude.{
  String, ◌≡◌, sym, ap, ◌∙◌, ◌⊎◌, inl, inr, Bool, true, false, not, ◌&&◌, ◌||◌, List, [], arith,
  str_eq, eq_iff, Bool-cases, contains_str, ok, is_nil, nil_of, not-false, bind-eq-ok,
  bail_if-eq-ok, ok-injective,
}
use master_plan.Ceremony.Ops.{
  set_execution_status, event_for_execution_status, JournalEntry, exec_statuses,
  collect_set_execution_status_gates,
}
use master_plan.Lifecycle.Meta.{MilestoneState, from_meta, effective_lifecycle}
use master_plan.Lifecycle.Phase.{complete, from_lifecycle, as_str}
use master_plan.Ceremony.Apply.Faithful.{apply_transition-eq-ok}
use master_plan.Lifecycle.Machine.{
  complete_event, cancel, phase_eq, transition, default_context, TransitionEffects,
}
use master_plan.Validate.{LoadedPlan}
use master_plan.Model.Milestone.{MilestoneFile}
use master_plan.Status.{is_terminal}
use master_plan.Ceremony.Apply.{apply_transition}
use master_plan.Lifecycle.Meta.Reading.{from_meta-eq-ok}

-- What an accepted `set_execution_status` went through.
pub set_execution_status-eq-ok :
    (now : String) (plan : LoadedPlan) (m m' : MilestoneFile) (status : String)
    (j : List JournalEntry)
    → set_execution_status now plan m status ≡ ok (m', j)
    → (fx : TransitionEffects) × (contains_str exec_statuses status ≡ true)
      × (is_terminal m && not (str_eq status "done" || str_eq status "cancelled") ≡ false)
      × (collect_set_execution_status_gates plan m status ≡ [])
      × (apply_transition now m (event_for_execution_status m status) ≡ ok (m', fx))
unfolding set_execution_status
set_execution_status-eq-ok now plan m m' status j r =
    let (known, r1) = bail_if-eq-ok (not (contains_str exec_statuses status)) _ _ r in
    let (terminal, r2) =
      bail_if-eq-ok (is_terminal m && not (str_eq status "done" || str_eq status "cancelled")) _ _
        r1 in
    let (passed, r3) =
      bail_if-eq-ok (not (is_nil (collect_set_execution_status_gates plan m status))) _ _ r2 in
    let ((f, fx), applied, r4) =
      bind-eq-ok (apply_transition now m (event_for_execution_status m status)) _ r3 in
    (
      fx,
      not-false known,
      terminal,
      nil_of (collect_set_execution_status_gates plan m status) passed,
      cc (applied, ap (λ p. p.0) (ok-injective r4)),
    )

is_terminal-eq :
    (m : MilestoneFile)
    → is_terminal m ≡ str_eq "complete" (effective_lifecycle m.milestone) || m.milestone.cancelled
unfolding is_terminal
is_terminal-eq m = ground arith

terminal_rest : {a b : Bool} → a ≡ false → a || b ≡ true → b ≡ true
terminal_rest {a} {b} e h = ground arith

-- The phase that is read from a terminal milestone.
terminal_cases :
    (m : MilestoneFile) (s : MilestoneState)
    → is_terminal m ≡ true
    → from_meta m.milestone ≡ ok s
    → (s.phase ≡ complete) ⊎ (s.overlays.cancelled ≡ true)
unfolding from_lifecycle
terminal_cases m s h r =
    let (parsed, _, _, cancelled) = from_meta-eq-ok m.milestone s r in
    elim (Bool-cases (str_eq "complete" (effective_lifecycle m.milestone))) [
      | inl e ↦ inl (
          ok-injective (
            sym parsed
            ∙ ap from_lifecycle (sym ((eq_iff "complete" (effective_lifecycle m.milestone)).0 e))))
      | inr e ↦ inr (cancelled ∙ terminal_rest e (sym (is_terminal-eq m) ∙ h))
    ]

complete_effects :
    (s : MilestoneState) (fx : TransitionEffects)
    → transition s complete_event default_context ≡ ok fx
    → (s.overlays.cancelled ≡ false) × (fx.phase ≡ complete)
unfolding transition
complete_effects s fx r = ground arith

cancel_effects :
    (s : MilestoneState) (fx : TransitionEffects)
    → transition s cancel default_context ≡ ok fx
    → (s.overlays.cancelled ≡ false) × (phase_eq s.phase complete ≡ false)
unfolding transition
cancel_effects s fx r = ground arith

event_for-done :
    (m : MilestoneFile) (status : String)
    → str_eq status "done" ≡ true
    → event_for_execution_status m status ≡ complete_event
unfolding event_for_execution_status
event_for-done m status e = rw ((eq_iff status "done").0 e)

event_for-cancelled :
    (m : MilestoneFile) (status : String)
    → str_eq status "cancelled" ≡ true
    → event_for_execution_status m status ≡ cancel
unfolding event_for_execution_status
event_for-cancelled m status e = rw ((eq_iff status "cancelled").0 e)

cancelled_left : {t d c : Bool} → t ≡ true → d ≡ false → t && not (d || c) ≡ false → c ≡ true
cancelled_left {t} {d} {c} h e g = ground arith

not_cancelled :
    (s : MilestoneState)
    → (s.phase ≡ complete) ⊎ (s.overlays.cancelled ≡ true)
    → s.overlays.cancelled ≡ false
    → phase_eq s.phase complete ≡ false
    → ⊥
not_cancelled s (inl c) h p = cc (c, p)
not_cancelled s (inr c) h p = cc (c, h)

-- On a terminal milestone `set_execution_status` accepts the status `done` only: the guard lets
-- `cancelled` through as well, but the transition table refuses it. What is then stored is the
-- lifecycle `complete`, and the milestone is not cancelled.
pub set_execution_status-terminal :
    (now : String) (plan : LoadedPlan) (m m' : MilestoneFile) (status : String)
    (j : List JournalEntry)
    → is_terminal m ≡ true
    → set_execution_status now plan m status ≡ ok (m', j)
    → (status ≡ "done") × (m'.milestone.lifecycle ≡ "complete") × (m.milestone.cancelled ≡ false)
set_execution_status-terminal now plan m m' status j t r =
    let (fx, known, guard, _, applied) = set_execution_status-eq-ok now plan m m' status j r in
    let (s, read, tr, stored) =
      apply_transition-eq-ok now m m' (event_for_execution_status m status) fx applied in
    let phase = terminal_cases m s t read in
    elim (Bool-cases (str_eq status "done")) [
      | inl e ↦
          (let (live, complete_phase) =
              complete_effects s fx (rw (event_for-done m status e) at tr) in
            (
              (eq_iff status "done").0 e,
              ap (λ (f : MilestoneFile). f.milestone.lifecycle) stored ∙ ap as_str complete_phase,
              sym (from_meta-eq-ok m.milestone s read).3 ∙ live,
            ))
      | inr e ↦
          (let is_cancel = event_for-cancelled m status (cancelled_left t e guard) in
            let (live, not_complete) = cancel_effects s fx (rw is_cancel at tr) in
            absurd (not_cancelled s phase live not_complete))
    ]
