-- ===== src/Watch/Drive/Within.antt =====
-- Computations of the driver in crates/mp/src/watch/state_machine.rs that send a bounded number of
-- prompts, each of which fits its milestone.
use master_plan.Prelude.{
  ℕ, suc, ◌+◌, ◌≤◌, String, ◌≡◌, refl, inl, inr, Bool, true, false, not, ◌&&◌, List, [], ◌∷◌, arith,
  str_eq, eq_iff, if◌then◌else◌, Bool-cases, and_true, all, Result, ok, err,
}
use master_plan.Model.Milestone.{MilestoneFile}
use master_plan.Watch.Stage.{PromptStage, label, remediate, execute}
use master_plan.Watch.Verdict.{should_skip}
use master_plan.Watch.Verdict.Complete.{is_none}
use master_plan.Watch.Drive.{
  DriveOps, DriveEvent, milestone_read, prompt_sent, waited, handed_off, DriveOutcome, DriveError,
  Driving, iteration, drive_loop, drive_milestone, Run, ask, call, emit, silently, pure, fail,
  continue_with, log_refused, is_execute, skipped, no_stage_plan, ◌>>◌, completed, shutdown,
  max_iterations_exhausted, dispatch, drive_stage, drive_read, already_dispatched, lifted,
}

-- The prompt of a stage that fits the milestone: it is not skipped, not already in progress, and a
-- remediation gets the remediation prompt.
abbrev pub fits : MilestoneFile → PromptStage → Bool
fits m stage =
    is_none (should_skip m)
    && (not (str_eq m.milestone.lifecycle "in-progress")
        && str_eq (label stage)
            (if str_eq m.milestone.lifecycle "remediation" then "remediate" else "execute"))

abbrev pub fitting : DriveEvent → Bool
fitting (prompt_sent m stage) = fits m stage
fitting (milestone_read m) = true
fitting (waited target) = true
fitting (handed_off tag) = true

abbrev pub prompts : List DriveEvent → ℕ
prompts [] = 0
prompts (prompt_sent m stage ∷ es) = suc (prompts es)
prompts (milestone_read m ∷ es) = prompts es
prompts (waited target ∷ es) = prompts es
prompts (handed_off tag ∷ es) = prompts es

-- A computation sends fitting prompts only, and at most `n` of them.
abbrev pub Within : {W A : Type 0} → Driving W A → ℕ → Type 0
Within {W} x n =
    (st : W × List DriveEvent)
    → all fitting st.1 ≡ true
    → (all fitting (x st).1.1 ≡ true) × (prompts (x st).1.1 ≤ prompts st.1 + n)

pub pure-Within : {W A : Type 0} (a : A) (n : ℕ) → Within (pure {W = W} a) n
pure-Within a n (w, es) h = (h, omega arith)

pub fail-Within :
    {W : Type 0} (A : Type 0) (e : DriveError) (n : ℕ) → Within (fail {W = W} {A = A} e) n
fail-Within A e n (w, es) h = (h, omega arith)

pub ask-Within : {W A : Type 0} (op : W → A × W) → Within (ask op) 0
unfolding ask
ask-Within op (w, es) h = (h, omega arith)

pub call-Within : {W A : Type 0} (op : W → Result String A × W) → Within (call op) 0
unfolding call
call-Within op (w, es) h = (h, omega arith)

pub silently-Within : {W : Type 0} (op : W → W) → Within (silently op) 0
silently-Within op (w, es) h = (h, omega arith)

pub prompt-Within :
    {W : Type 0} (m : MilestoneFile) (stage : PromptStage)
    → fits m stage ≡ true
    → Within (emit {W = W} (prompt_sent m stage)) 1
prompt-Within m stage f (w, es) h = (and_true f h, omega arith)

continue-Within :
    {W A B : Type 0} (f : A → Driving W B) (r : Result DriveError A) (st : W × List DriveEvent)
    (before n k : ℕ)
    → ((a : A) → Within (f a) k)
    → (all fitting st.1 ≡ true) × (prompts st.1 ≤ before + n)
    → (all fitting (continue_with f (r, st)).1.1 ≡ true)
      × (prompts (continue_with f (r, st)).1.1 ≤ before + (n + k))
continue-Within f (ok a) st before n k g (h, le) = let (h', le') = g a st h in (h', omega arith)
continue-Within f (err e) st before n k g (h, le) = (h, omega arith)

pub bind-Within :
    {W A B : Type 0} (x : Driving W A) (f : A → Driving W B) (n k : ℕ)
    → Within x n
    → ((a : A) → Within (f a) k)
    → Within (master_plan.Watch.Drive.◌>>=◌ x f) (n + k)
unfolding master_plan.Watch.Drive.◌>>=◌
bind-Within x f n k g h st a = continue-Within f (x st).0 (x st).1 (prompts st.1) n k h (g st a)

pub emit-Within :
    {W : Type 0} (e : DriveEvent)
    → fitting e ≡ true
    → prompts (e ∷ []) ≡ 0
    → Within (emit {W = W} e) 0
emit-Within (milestone_read m) f z (w, es) h = (h, omega arith)
emit-Within (prompt_sent m stage) f z st h = absurd (omega arith)
emit-Within (waited target) f z (w, es) h = (h, omega arith)
emit-Within (handed_off tag) f z (w, es) h = (h, omega arith)

pub if-Within :
    {W A : Type 0} (b : Bool) (x y : Driving W A) (n : ℕ)
    → (b ≡ true → Within x n)
    → (b ≡ false → Within y n)
    → Within (if b then x else y) n
if-Within true x y n h k = h refl
if-Within false x y n h k = k refl

pub implied : {b f : Bool} → b ≡ true → b && not f ≡ false → f ≡ true
implied {b} {f} e h = ground arith

-- The prompt of the stage that `next_stage` plans fits, unless it was dispatched before.
pub planned_fits :
    (l : String) (k : Bool)
    → k ≡ true
    → let stage = if str_eq l "remediation" then remediate else execute in
      not (str_eq l "in-progress" && is_execute stage)
        && not (
            k
            && (not (str_eq l "in-progress")
                && str_eq
                    (label stage)
                    (if str_eq l "remediation" then "remediate" else "execute")))
      ≡ false
planned_fits l k e = elim (Bool-cases (str_eq l "in-progress")) [
  | inl i ↦ rw (e, (eq_iff l "in-progress").0 i) refl
  | inr i ↦ elim (Bool-cases (str_eq l "remediation")) [
    | inl r ↦ rw (e, i, r) refl
    | inr r ↦ rw (e, i, r) refl
  ]
]
