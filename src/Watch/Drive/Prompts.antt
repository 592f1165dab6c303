-- ===== src/Watch/Drive/Prompts.antt =====
-- Which prompts `drive_milestone` of crates/mp/src/watch/state_machine.rs sends, and how many.
use master_plan.Prelude.{
  ℕ, zero, suc, ◌+◌, ◌-◌, ◌≤◌, max, String, ◌≡◌, refl, sym, ap, subst, ◌∙◌, inl, inr, true, false,
  not, ◌&&◌, Option, none, some, List, [], ◌∷◌, arith, str_eq, ltb, if◌then◌else◌, Bool-cases, all,
  Result, ok, err, some-injective,
}
use master_plan.Prelude.Text.{push_str}
use master_plan.Watch.Drive.Within.{
  fits, fitting, prompts, Within, pure-Within, fail-Within, ask-Within, call-Within,
  silently-Within, prompt-Within, bind-Within, emit-Within, if-Within, implied, planned_fits,
}
use master_plan.Model.Milestone.{MilestoneFile}
use master_plan.Watch.Stage.{PromptStage, label, role, target_as_str}
use master_plan.Watch.Verdict.{should_skip, next_stage, StagePlan}
use master_plan.Watch.Verdict.Complete.{plan_for, is_none, next_stage-of_drivable}
use master_plan.Watch.Drive.{
  DriveOps, DriveEvent, milestone_read, waited, handed_off, DriveOutcome, DriveError, iteration,
  drive_loop, drive_milestone, Run, pure, fail, log_refused, skipped, no_stage_plan, ◌>>◌,
  completed, shutdown, max_iterations_exhausted, dispatch, drive_stage, drive_read,
  already_dispatched,
}

module _ {W : Type 0} (ops : DriveOps W) where
  log_refused-Within :
      (stage : PromptStage) (ds : List String) → Within (log_refused ops stage ds) 0
  unfolding log_refused
  log_refused-Within stage [] = pure-Within tt 0
  log_refused-Within stage (d ∷ ds) =
      bind-Within _ _ 0 0
        (silently-Within
          (ops.log_event "override_refused" (push_str (label stage) (push_str ": " d))))
        (λ u. log_refused-Within stage ds)

  dispatch-Within :
      (m : MilestoneFile) (plan : StagePlan)
      → fits m plan.stage ≡ true
      → Within (dispatch ops m plan) 1
  unfolding dispatch
  dispatch-Within m plan f =
      bind-Within _ _ 0 1 (call-Within (ops.ensure_pane (role plan.stage))) (λ pane.
        bind-Within _ _ 0 1 (ask-Within (ops.build_prompt plan.stage m)) (λ rendered.
          bind-Within _ _ 0 1 (log_refused-Within plan.stage rendered.override_diagnostics) (λ u.
            bind-Within _ _ 0 1
              (silently-Within (
                ops.log_event "prompt_source"
                  (push_str (label plan.stage) (push_str " → " rendered.source))))
              (λ v.
                bind-Within _ _ 1 0 (prompt-Within m plan.stage f)
                  (λ x. call-Within (ops.send_prompt_to pane rendered.text))))))

  -- The prompt of a stage is sent unless it was dispatched before.
  maybe_dispatch-Within :
      (m : MilestoneFile) (plan : StagePlan)
      → not (already_dispatched ops m plan) && not (fits m plan.stage) ≡ false
      → Within (if not (already_dispatched ops m plan) then dispatch ops m plan else pure tt) 1
  maybe_dispatch-Within m plan f =
      if-Within (not (already_dispatched ops m plan)) _ _ 1
        (λ b. dispatch-Within m plan (implied b f)) (λ b. pure-Within tt 1)

  drive_stage-Within :
      (m : MilestoneFile) (plan : StagePlan)
      → not (already_dispatched ops m plan) && not (fits m plan.stage) ≡ false
      → Within (drive_stage ops m plan) 1
  unfolding drive_stage
  drive_stage-Within m plan f =
      bind-Within _ _ 0 1 (call-Within (ops.set_active_stage plan.stage plan.target)) (λ u.
        bind-Within _ _ 1 0 (maybe_dispatch-Within m plan f) (λ v.
          bind-Within _ _ 0 0 (call-Within (ops.wait_for_lifecycle plan.target)) (λ outcome.
            bind-Within _ _ 0 0 (emit-Within (waited plan.target) refl refl) (λ x.
              bind-Within _ _ 0 0
                (emit-Within (handed_off (push_str "→" (target_as_str plan.target))) refl refl)
                (λ y.
                  call-Within (ops.record_handoff (push_str "→" (target_as_str plan.target))))))))

  -- After the verdict on the milestone.
  verdict-Within :
      (m : MilestoneFile) (skip : Option String) (next : Option StagePlan)
      → ((plan : StagePlan)
          → skip ≡ none
          → next ≡ some plan
          → not (already_dispatched ops m plan) && not (fits m plan.stage) ≡ false)
      → Within {W = W} {A = Option DriveOutcome}
          (elim skip [
            | some reason ↦ pure (some (skipped reason))
            | none ↦ elim next [
              | none ↦ fail (no_stage_plan m.milestone.lifecycle m.milestone.id)
              | some plan ↦ drive_stage ops m plan >> pure none
            ]
          ])
          1
  verdict-Within m (some reason) next h = pure-Within (some (skipped reason)) 1
  verdict-Within m none none h =
      fail-Within (Option DriveOutcome) (no_stage_plan m.milestone.lifecycle m.milestone.id) 1
  verdict-Within m none (some plan) h =
      bind-Within _ _ 1 0 (drive_stage-Within m plan (h plan refl refl))
        (λ u. pure-Within {A = Option DriveOutcome} none 0)

  drive_read-Within : (m : MilestoneFile) → Within (drive_read ops m) 1
  unfolding drive_read
  drive_read-Within m =
      if-Within (str_eq m.milestone.lifecycle "complete") _ _ 1
        (λ c. pure-Within (some completed) 1)
        (λ c. verdict-Within m (should_skip m) (next_stage m) (λ plan kept planned.
          (let same : plan_for m.milestone.lifecycle ≡ plan =
              some-injective (sym (next_stage-of_drivable m kept) ∙ planned) in
            subst
              (λ (p : StagePlan). not (already_dispatched ops m p) && not (fits m p.stage) ≡ false)
              same
              (planned_fits m.milestone.lifecycle (is_none (should_skip m)) (ap is_none kept)))))

  iteration-Within : (limit iter : ℕ) → Within (iteration ops limit iter) 1
  unfolding iteration
  iteration-Within limit iter = bind-Within _ _ 0 1 (ask-Within ops.shutdown_requested) (λ stop.
      if-Within stop _ _ 1 (λ e. pure-Within (some shutdown) 1)
        (λ e.
          if-Within (ltb limit iter) _ _ 1
            (λ l. pure-Within (some (max_iterations_exhausted (iter - 1))) 1)
            (λ l. bind-Within _ _ 0 1 (call-Within ops.read_milestone) (λ m.
              bind-Within _ _ 0 1 (emit-Within (milestone_read m) refl refl) (λ u.
                bind-Within _ _ 0 1 (ask-Within ops.shutdown_requested) (λ stop_now.
                  if-Within stop_now _ _ 1 (λ n. pure-Within (some shutdown) 1)
                    (λ n. drive_read-Within m)))))))

  -- Past the limit a round sends nothing.
  last_round-Within : (limit iter : ℕ) → ltb limit iter ≡ true → Within (iteration ops limit iter) 0
  unfolding iteration
  last_round-Within limit iter h = bind-Within _ _ 0 0 (ask-Within ops.shutdown_requested) (λ stop.
      if-Within stop _ _ 0 (λ e. pure-Within (some shutdown) 0)
        (λ e.
          if-Within (ltb limit iter) _ _ 0
            (λ l. pure-Within (some (max_iterations_exhausted (iter - 1))) 0) (λ l. cc)))

  ended :
      (st : W × List DriveEvent) (before bound : ℕ)
      → (all fitting st.1 ≡ true) × (prompts st.1 ≤ before)
      → before ≤ bound
      → (run : Run ops) → st ≡ run.1
      → (all fitting run.1.1 ≡ true) × (prompts run.1.1 ≤ bound)
  ended st before bound (h, le) le' run e = (
    sym (ap (λ (t : W × List DriveEvent). all fitting t.1) e) ∙ h,
    subst (λ (t : W × List DriveEvent). prompts t.1 ≤ bound) e (omega arith),
  )

  -- What a run that ended may have added to the `before` prompts of its start.
  abbrev EndsWithin : ℕ → Option (Run ops) → Type 0
  EndsWithin bound o =
      (r : Run ops) → o ≡ some r → (all fitting r.1.1 ≡ true) × (prompts r.1.1 ≤ bound)

  next-EndsWithin :
      (fuel limit iter before bound : ℕ) (r : Result DriveError (Option DriveOutcome))
      (st : W × List DriveEvent)
      → (all fitting st.1 ≡ true) × (prompts st.1 ≤ before)
      → before ≤ bound
      → EndsWithin bound (drive_loop ops fuel limit (suc iter) st)
      → EndsWithin bound (elim r [
        | ok next ↦ elim next [
          | none ↦ drive_loop ops fuel limit (suc iter) st
          | some outcome ↦ some (ok outcome, st)
        ]
        | err e ↦ some (err e, st)
      ])
  next-EndsWithin fuel limit iter before bound (ok none) st h le k run e = k run e
  next-EndsWithin fuel limit iter before bound (ok (some outcome)) st h le k run e =
      ended st before bound h le run (ap (λ (x : Run ops). x.1) (some-injective e))
  next-EndsWithin fuel limit iter before bound (err e') st h le k run e =
      ended st before bound h le run (ap (λ (x : Run ops). x.1) (some-injective e))

  loop-EndsWithin :
      (fuel limit iter : ℕ) (st : W × List DriveEvent)
      → all fitting st.1 ≡ true
      → EndsWithin (prompts st.1 + (suc limit - iter)) (drive_loop ops fuel limit iter st)
  unfolding drive_loop
  loop-EndsWithin zero limit iter st h = λ run e. cc
  loop-EndsWithin (suc fuel) limit iter st h = elim (Bool-cases (ltb limit iter)) [
    | inl past ↦
        (let (h', le) = last_round-Within limit iter past st h in
          next-EndsWithin fuel limit iter (prompts st.1) _ (iteration ops limit iter st).0
            (iteration ops limit iter st).1 (h', omega arith) (omega arith)
            (λ run e.
              (let (good, bound) =
                  loop-EndsWithin fuel limit (suc iter) (iteration ops limit iter st).1 h' run e in
                (good, omega arith))))
    | inr on ↦
        (let (h', le) = iteration-Within limit iter st h in
          let below : iter ≤ limit = ground arith in
          next-EndsWithin fuel limit iter (prompts st.1 + 1) _ (iteration ops limit iter st).0
            (iteration ops limit iter st).1 (h', omega arith) (omega arith)
            (λ run e.
              (let (good, bound) =
                  loop-EndsWithin fuel limit (suc iter) (iteration ops limit iter st).1 h' run e in
                (good, omega arith))))
  ]

  -- A run of `drive_milestone` hands a prompt to the pane for milestones only that are not to be
  -- skipped and are not in progress already: the remediation prompt for one in remediation, else
  -- the prompt to execute. It sends at most `max_iterations` prompts, or one if that is 0.
  pub drive_milestone-prompts :
      (max_iterations : ℕ) (w : W) (r : Run ops)
      → drive_milestone ops max_iterations w ≡ some r
      → (all fitting r.1.1 ≡ true) × (prompts r.1.1 ≤ max max_iterations 1)
  unfolding drive_milestone
  drive_milestone-prompts max_iterations w r e =
      let (h, le) =
        loop-EndsWithin (suc (max max_iterations 1)) (max max_iterations 1) 1 (w, []) refl r e in
      (h, omega arith)
