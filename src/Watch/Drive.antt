-- ===== src/Watch/Drive.antt =====
-- `drive_milestone` of crates/mp/src/watch/state_machine.rs. The state `W` is that of the operations
-- and of the process around them; a fallible operation answers with a result and the new state.
pub mod Within
pub mod Prompts
pub mod Bound
use master_plan.Prelude.{
  ℕ, zero, suc, ◌+◌, ◌-◌, max, String, Bool, not, ◌&&◌, Option, none, some, List, [], ◌∷◌, ◌++◌,
  str_eq, ltb, if◌then◌else◌, Result, ok, err, true, false,
}
use master_plan.Prelude.Text.{push_str}
use master_plan.Model.Milestone.{MilestoneFile}
use master_plan.Watch.Stage.{
  PromptStage, execute, remediate, Role, LifecycleTarget, WaitOutcome, label, role, target_as_str,
}
use master_plan.Watch.Verdict.{should_skip, next_stage, StagePlan}

pub data DriveOutcome : Type 0 where
  completed : DriveOutcome
  skipped : String → DriveOutcome
  max_iterations_exhausted : ℕ → DriveOutcome
  shutdown : DriveOutcome

pub data DriveError : Type 0 where
  operation_failed : String → DriveError
  no_stage_plan : String → String → DriveError

-- `build_prompt_full`'s answer: the text, the messages on refused overrides, and the source's name.
pub record Rendered : Type 0 where
  pub text : String
  pub override_diagnostics : List String
  pub source : String

-- The trait `DriveOps`, the shutdown flag, and the prompt builder, which reads override files.
pub record DriveOps (W : Type 0) : Type 0 where
  pub shutdown_requested : W → Bool × W
  pub read_milestone : W → Result String MilestoneFile × W
  pub ensure_pane : Role → W → Result String String × W
  pub build_prompt : PromptStage → MilestoneFile → W → Rendered × W
  pub send_prompt_to : String → String → W → Result String (Unit {0}) × W
  pub log_event : String → String → W → W
  pub wait_for_lifecycle : LifecycleTarget → W → Result String WaitOutcome × W
  pub record_handoff : String → W → Result String (Unit {0}) × W
  pub set_active_stage : PromptStage → LifecycleTarget → W → Result String (Unit {0}) × W

-- The calls that matter to the milestone. A run keeps them with the latest first.
pub data DriveEvent : Type 0 where
  milestone_read : MilestoneFile → DriveEvent
  prompt_sent : MilestoneFile → PromptStage → DriveEvent
  waited : LifecycleTarget → DriveEvent
  handed_off : String → DriveEvent

-- A computation of the driver: an error leaves the state that was reached.
abbrev pub Driving : Type 0 → Type 0 → Type 0
Driving W A = W × List DriveEvent → Result DriveError A × (W × List DriveEvent)

abbrev pub pure : {W A : Type 0} → A → Driving W A
pure a st = (ok a, st)

abbrev pub fail : {W A : Type 0} → DriveError → Driving W A
fail e st = (err e, st)

abbrev pub continue_with :
    {W A B : Type 0}
    → (A → Driving W B)
    → Result DriveError A × (W × List DriveEvent)
    → Result DriveError B × (W × List DriveEvent)
continue_with f (ok a, st) = f a st
continue_with f (err e, st) = (err e, st)

infixl 5 ◌>>=◌ ◌>>◌
unfoldable pub ◌>>=◌ : {W A B : Type 0} → Driving W A → (A → Driving W B) → Driving W B
(x >>= f) st = continue_with f (x st)

abbrev pub ◌>>◌ : {W B : Type 0} → Driving W (Unit {0}) → Driving W B → Driving W B
x >> y = x >>= λ _. y

abbrev pub emit : {W : Type 0} → DriveEvent → Driving W (Unit {0})
emit e (w, events) = (ok tt, (w, e ∷ events))

-- An infallible operation.
unfoldable pub ask : {W A : Type 0} → (W → A × W) → Driving W A
ask op (w, events) = (ok (op w).0, ((op w).1, events))

abbrev pub lifted : {A : Type 0} → Result String A → Result DriveError A
lifted (ok a) = ok a
lifted (err e) = err (operation_failed e)

-- A fallible operation, with `?`.
unfoldable pub call : {W A : Type 0} → (W → Result String A × W) → Driving W A
call op (w, events) = (lifted (op w).0, ((op w).1, events))

abbrev pub silently : {W : Type 0} → (W → W) → Driving W (Unit {0})
silently op (w, events) = (ok tt, (op w, events))

abbrev pub is_execute : PromptStage → Bool
is_execute execute = true
is_execute _ = false

module _ {W : Type 0} (ops : DriveOps W) where
  unfoldable pub log_refused : PromptStage → List String → Driving W (Unit {0})
  log_refused stage [] = pure tt
  log_refused stage (d ∷ ds) =
      silently (ops.log_event "override_refused" (push_str (label stage) (push_str ": " d)))
      >> log_refused stage ds

  -- The body of `if !already_dispatched`.
  unfoldable pub dispatch : MilestoneFile → StagePlan → Driving W (Unit {0})
  dispatch m plan = do
    pane ← call (ops.ensure_pane (role plan.stage))
    rendered ← ask (ops.build_prompt plan.stage m)
    log_refused plan.stage rendered.override_diagnostics
    silently (
        ops.log_event "prompt_source"
          (push_str (label plan.stage) (push_str " → " rendered.source)))
    emit (prompt_sent m plan.stage)
    call (ops.send_prompt_to pane rendered.text)

  abbrev pub already_dispatched : MilestoneFile → StagePlan → Bool
  already_dispatched m plan = str_eq m.milestone.lifecycle "in-progress" && is_execute plan.stage

  -- One stage, from `set_active_stage` to the end of the loop's body.
  unfoldable pub drive_stage : MilestoneFile → StagePlan → Driving W (Unit {0})
  drive_stage m plan = do
    call (ops.set_active_stage plan.stage plan.target)
    if not (already_dispatched m plan) then dispatch m plan else pure tt
    outcome ← call (ops.wait_for_lifecycle plan.target)
    emit (waited plan.target)
    emit (handed_off (push_str "→" (target_as_str plan.target)))
    call (ops.record_handoff (push_str "→" (target_as_str plan.target)))

  -- What follows the second look at the shutdown flag; `none` goes round again.
  unfoldable pub drive_read : MilestoneFile → Driving W (Option DriveOutcome)
  drive_read m =
      if str_eq m.milestone.lifecycle "complete"
      then pure (some completed)
      else elim (should_skip m) [
        | some reason ↦ pure (some (skipped reason))
        | none ↦ elim (next_stage m) [
          | none ↦ fail (no_stage_plan m.milestone.lifecycle m.milestone.id)
          | some plan ↦ drive_stage m plan >> pure none
        ]
      ]

  -- One round of the loop.
  unfoldable pub iteration : ℕ → ℕ → Driving W (Option DriveOutcome)
  iteration limit iter = do
    stop ← ask ops.shutdown_requested
    if stop
        then pure (some shutdown)
        else if ltb limit iter
        then pure (some (max_iterations_exhausted (iter - 1)))
        else (do
          m ← call ops.read_milestone
          emit (milestone_read m)
          stop_now ← ask ops.shutdown_requested
          if stop_now then pure (some shutdown) else drive_read m)

  abbrev pub Run : Type 0
  Run = Result DriveError DriveOutcome × (W × List DriveEvent)

  -- The loop on fuel: `none` where the fuel runs out.
  unfoldable pub drive_loop : ℕ → ℕ → ℕ → W × List DriveEvent → Option Run
  drive_loop zero limit iter st = none
  drive_loop (suc fuel) limit iter st =
      let (result, st') = iteration limit iter st in
      elim result [
        | ok next ↦ elim next [
          | none ↦ drive_loop fuel limit (suc iter) st'
          | some outcome ↦ some (ok outcome, st')
        ]
        | err e ↦ some (err e, st')
      ]

  -- One round more than the limit suffices.
  unfoldable pub drive_milestone : ℕ → W → Option Run
  drive_milestone max_iterations w =
      drive_loop (suc (max max_iterations 1)) (max max_iterations 1) 1 (w, [])
