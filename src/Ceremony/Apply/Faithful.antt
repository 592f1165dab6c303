-- ===== src/Ceremony/Apply/Faithful.antt =====
-- What `apply_transition` of crates/mp/src/milestone/spec.rs stores is read back by
-- `MilestoneState::from_meta`.
use master_plan.Prelude.{
  ◌≡◌, refl, String, Bool, true, false, ◌&&◌, Option, none, some, Result, ok, err, bind-eq-ok,
  ok-injective, ap, ◌∙◌, sym,
}
use master_plan.Lifecycle.Phase.{
  MilestonePhase, ParseError, from_lifecycle-as_str, draft, groomed, approved, in_progress,
  executed, complete, remediation, as_str, from_lifecycle, unknown_lifecycle, from_lifecycle-as_str,
  ParseError,
}
use master_plan.Lifecycle.Meta.{
  MilestoneMeta, MilestoneState, from_meta, effective_lifecycle, parse_pre_state,
}
use master_plan.Lifecycle.Machine.{
  TransitionEffects, effects_of, MilestoneEvent, default_context, TransitionError, phase_eq,
  transition, cancel,
}
use master_plan.Model.Milestone.{MilestoneFile}
use master_plan.Ceremony.Apply.{
  phase_name, write_effects, apply_transition, parsed, transitioned, parse_error,
}
use master_plan.Lifecycle.Machine.Runs.{state_of}
use master_plan.Lifecycle.Machine.Inversion.{transition-eq-ok}

abbrev state : MilestonePhase → Bool → Bool → Bool → Bool → Option MilestonePhase → MilestoneState
state p b d c r pre = record {
  phase = p;
  overlays = record { blocked = b; deferred = d; cancelled = c; needs_regrooming = r };
  remediation_pre_state = pre;
}

-- The lifecycle that a reader derives from what was written, by cases on the overlays.
derived :
    (now : String) (m : MilestoneMeta) (before p : MilestonePhase) (b d c r : Bool)
    (pre : Option MilestonePhase)
    → phase_eq p draft && c ≡ false
    → effective_lifecycle (write_effects now m (effects_of before (state p b d c r pre))) ≡ as_str p
unfolding effective_lifecycle
derived now m before draft true d false r pre h = refl
derived now m before draft false true false r pre h = refl
derived now m before draft false false false r pre h = refl
derived now m before draft b d true r pre h = cc
derived now m before groomed b d c r pre h = refl
derived now m before approved b d c r pre h = refl
derived now m before in_progress b d c r pre h = refl
derived now m before executed b d c r pre h = refl
derived now m before complete b d c r pre h = refl
derived now m before remediation b d c r pre h = refl

parse_pre_state-phase_name :
    (pre : Option MilestonePhase) → parse_pre_state (phase_name pre) ≡ ok pre
parse_pre_state-phase_name none = refl
parse_pre_state-phase_name (some p) = rw (from_lifecycle-as_str p)

-- `MilestoneState::from_meta` reads back the state whose effects were written, unless that state is
-- a cancelled draft.
pub from_meta-write_effects :
    (now : String) (m : MilestoneMeta) (before : MilestonePhase) (s : MilestoneState)
    → phase_eq s.phase draft && s.overlays.cancelled ≡ false
    → from_meta (write_effects now m (effects_of before s)) ≡ ok s
unfolding from_meta
from_meta-write_effects now m before s h = rw (
  derived now m before s.phase s.overlays.blocked s.overlays.deferred s.overlays.cancelled
      s.overlays.needs_regrooming s.remediation_pre_state h,
  from_lifecycle-as_str s.phase,
  parse_pre_state-phase_name s.remediation_pre_state,
)

parsed-eq-ok : {A : Type 0} (r : Result ParseError A) {a : A} → parsed r ≡ ok a → r ≡ ok a
parsed-eq-ok (ok a) h = cc
parsed-eq-ok (err e) h = cc

transitioned-eq-ok :
    {A : Type 0} (r : Result TransitionError A) {a : A} → transitioned r ≡ ok a → r ≡ ok a
transitioned-eq-ok (ok a) h = cc
transitioned-eq-ok (err e) h = cc

-- What an accepted event went through.
pub apply_transition-eq-ok :
    (now : String) (m m' : MilestoneFile) (e : MilestoneEvent) (fx : TransitionEffects)
    → apply_transition now m e ≡ ok (m', fx)
    → (s : MilestoneState) × (from_meta m.milestone ≡ ok s)
      × (transition s e default_context ≡ ok fx)
      × (m' ≡ record m { milestone = write_effects now m.milestone fx })
unfolding apply_transition
apply_transition-eq-ok now m m' e fx r =
    let (s, ps, r1) = bind-eq-ok (parsed (from_meta m.milestone)) _ r in
    let (fx', pt, r2) = bind-eq-ok (transitioned (transition s e default_context)) _ r1 in
    let same : (record m { milestone = write_effects now m.milestone fx' }, fx') ≡ (m', fx) =
      ok-injective r2 in
    let same_fx : fx' ≡ fx = ap (λ p. p.1) same in
    (
      s,
      parsed-eq-ok (from_meta m.milestone) ps,
      transitioned-eq-ok (transition s e default_context) pt ∙ ap ok same_fx,
      sym (ap (λ (p : MilestoneFile × TransitionEffects). p.0) same)
          ∙ ap (λ (x : TransitionEffects). record m { milestone = write_effects now m.milestone x })
              same_fx,
    )

-- An accepted event whose result is not a cancelled draft can be read back from the stored
-- milestone: the next reader starts from the state that the transition table returned.
pub apply_transition-from_meta :
    (now : String) (m m' : MilestoneFile) (e : MilestoneEvent) (fx : TransitionEffects)
    → apply_transition now m e ≡ ok (m', fx)
    → phase_eq fx.phase draft && fx.overlays.cancelled ≡ false
    → from_meta m'.milestone ≡ ok (state_of fx)
apply_transition-from_meta now m m' e fx r h =
    let (s, _, tr, stored) = apply_transition-eq-ok now m m' e fx r in
    let (t, _, is_t, _, _) = transition-eq-ok s e default_context fx tr in
    rw (ap (λ f. f.milestone) stored, is_t)
      (from_meta-write_effects now m.milestone s.phase t (rw is_t at h))

abbrev cancelled_draft : MilestoneState → MilestoneState
cancelled_draft s = record s {
  phase = draft;
  overlays = record s.overlays { cancelled = true; blocked = false; deferred = false };
}

transition-cancel_draft :
    (s : MilestoneState)
    → s.phase ≡ draft
    → s.overlays.cancelled ≡ false
    → transition s cancel default_context ≡ ok (effects_of draft (cancelled_draft s))
unfolding transition
transition-cancel_draft s d c = rw (c, d)

from_meta-cancelled_draft :
    (now : String) (m : MilestoneMeta) (s : MilestoneState)
    → from_meta (write_effects now m (effects_of draft (cancelled_draft s)))
      ≡ err (unknown_lifecycle "cancelled")
unfolding effective_lifecycle from_meta from_lifecycle
from_meta-cancelled_draft now m s = refl

-- Cancelling a draft: the write is accepted, and no later event can be applied to what is stored,
-- since its derived lifecycle is the string `cancelled`, which is no phase.
pub cancel_draft_unreadable :
    (now : String) (m : MilestoneFile) (s : MilestoneState)
    → from_meta m.milestone ≡ ok s
    → s.phase ≡ draft
    → s.overlays.cancelled ≡ false
    → (m' : MilestoneFile) × (fx : TransitionEffects) × (apply_transition now m cancel
        ≡ ok (m', fx))
      × ((later : String) (e : MilestoneEvent)
          → apply_transition later m' e ≡ err (parse_error (unknown_lifecycle "cancelled")))
unfolding apply_transition
cancel_draft_unreadable now m s h d c =
    let fx : TransitionEffects = effects_of draft (cancelled_draft s) in
    (
      record m { milestone = write_effects now m.milestone fx },
      fx,
      rw (h, transition-cancel_draft s d c),
      λ later e. rw (from_meta-cancelled_draft now m.milestone s),
    )
