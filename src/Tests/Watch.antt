-- ===== src/Tests/Watch.antt =====
-- The driver over scripted operations: the world is the list of milestones that reading answers.
use master_plan.Prelude.{
  ◌≤◌, String, ◌≡◌, refl, true, false, Option, none, some, List, [], ◌∷◌, all, Result, ok, err,
  ◌++◌,
}
use master_plan.Model.Milestone.{MilestoneFile}
use master_plan.Watch.Stage.{reached}
use master_plan.Watch.Verdict.{should_skip, next_stage}
use master_plan.Watch.Drive.{DriveOps, drive_milestone, Run, DriveEvent}
use master_plan.Watch.Drive.Within.{fitting, prompts}
use master_plan.Watch.Drive.Bound.{drive_milestone-ends}
use master_plan.Watch.Drive.Prompts.{drive_milestone-prompts}
use master_plan.Watch.Sequence.{SequencerOps, SequencerReport, run_milestones}
use master_plan.Watch.Sequence.InOrder.{Follows, run_milestones-Follows}
use master_plan.Watch.Drive.{DriveError}
use master_plan.Tests.Samples.{sample, in_lifecycle}

abbrev World : Type 0
World = List MilestoneFile

abbrev read_next : World → Result String MilestoneFile × World
read_next [] = (err "no milestone", [])
read_next (m ∷ ms) = (ok m, ms)

abbrev scripted : DriveOps World
scripted = record {
  shutdown_requested = λ w. (false, w);
  read_milestone = read_next;
  ensure_pane = λ r w. (ok "pane-1", w);
  build_prompt =
      λ s m w. (record { text = "go"; override_diagnostics = []; source = "default" }, w);
  send_prompt_to = λ p t w. (ok tt, w);
  log_event = λ k t w. w;
  wait_for_lifecycle = λ t w. (ok reached, w);
  record_handoff = λ t w. (ok tt, w);
  set_active_stage = λ s t w. (ok tt, w);
}

abbrev story : World
story = sample ∷ in_lifecycle "remediation" ∷ in_lifecycle "complete" ∷ []

drive_milestone-ends_example : (r : Run scripted) × (drive_milestone scripted 10 story ≡ some r)
drive_milestone-ends_example = drive_milestone-ends scripted 10 story

abbrev run_of : Option (Run scripted) → Run scripted
run_of none = (err (master_plan.Watch.Drive.operation_failed ""), ([], []))
run_of (some r) = r

drive_milestone-prompts_example :
    (all fitting (run_of (drive_milestone scripted 10 story)).1.1 ≡ true)
    × (prompts (run_of (drive_milestone scripted 10 story)).1.1 ≤ 10)
unfolding drive_milestone master_plan.Watch.Drive.drive_loop master_plan.Watch.Drive.iteration
    master_plan.Watch.Drive.◌>>=◌ master_plan.Watch.Drive.ask master_plan.Watch.Drive.call
    master_plan.Watch.Drive.drive_read should_skip master_plan.Watch.Verdict.is_ready
    master_plan.Lifecycle.Phase.is_watch_drivable_lifecycle next_stage
    master_plan.Watch.Drive.drive_stage master_plan.Watch.Drive.dispatch
    master_plan.Watch.Drive.log_refused
drive_milestone-prompts_example =
    drive_milestone-prompts scripted 10 story (run_of (drive_milestone scripted 10 story)) refl

abbrev queue_ops : SequencerOps World
queue_ops = record {
  drive = scripted;
  set_active_milestone = λ id w. (ok tt, w);
  record_milestone_outcome = λ id o w. (ok tt, w);
  transition_run = λ o w. (ok tt, w);
  append_outcome = λ o w. w;
}

run_milestones-Follows_example :
    (r : Result DriveError SequencerReport × World) × (run_milestones queue_ops 10
        ("M01" ∷ "M02" ∷ [])
        (story ++ story)
      ≡ some r)
    × ((report : SequencerReport) → r.0 ≡ ok report → Follows ("M01" ∷ "M02" ∷ []) report.outcomes)
run_milestones-Follows_example =
    run_milestones-Follows queue_ops 10 ("M01" ∷ "M02" ∷ []) (story ++ story)
