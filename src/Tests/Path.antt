-- ===== src/Tests/Path.antt =====
-- The path and its lanes at a plan of two milestones.
use master_plan.Prelude.{
  ℕ, zero, suc, ◌+◌, ◌-◌, ◌*◌, ◌/◌, ◌%◌, ◌<◌, String, ◌≡◌, refl, sym, ap, subst, ◌∙◌, ◌≢◌, ◌↔◌, ◌⊎◌,
  inl, inr, Bool, true, not, ◌&&◌, ◌||◌, Option, none, List, [], ◌∷◌, ◌++◌, map, arith, str_eq,
  eq_iff, ltb, leb, ◌==◌, if◌then◌else◌, Bool-cases, Option-cases, and_true, or_eq_false, or_false,
  any, all, find, update_first, remove_first, contains_str, distinct, filter-eq-nil, not-true,
  and_eq_true, str_eq_comm, str_eq_refl, Result, ok, err, ◌>>=◌, ◌>>◌, bail_if, is_nil, nil_of,
  append-eq-nil, is_nil-append, not-false, bind-eq-ok, bail_if-eq-ok, ok-injective, some-injective,
  distinct-snoc, one_if, count, count-append, count-snoc, contains_of_count, count_of_contains,
  count_of_absent, count-distinct, length-le_of_counts, counts_of_length, one_if-le, count-filter,
  before, before-append_left, before-snoc_self, contains_cases, insert_by, sort_by, take, position,
  length-take, mem-take, mem-insert_by, mem-sort_by, length-sort_by, length-insert_by, mem-filter,
  mem-filter_of, Result-cases, SameMembers, members_refl, members_trans, members_cons, members_swap,
  sort_by-same,
}
use master_plan.Model.Milestone.{MilestoneFile, Step, default_step}
use master_plan.Lifecycle.Meta.{MilestoneMeta}
use master_plan.Lifecycle.Phase.{executed}
use master_plan.Tests.Samples.{sample, in_lifecycle}
use master_plan.PathEngine.Action.{PathAction, depends_on_not_done}
use master_plan.PathEngine.Build.{PathReport, step_action}
use master_plan.PathEngine.Build.Offers.{Offers}
use master_plan.PathEngine.Lanes.{in_execution, in_blocked, in_awaiting_approval, in_grooming}
use master_plan.PathEngine.Lanes.Review.{in_review}
use master_plan.PathEngine.Lanes.Partition.{lanes_partition, lanes_cover}
use master_plan.Status.{model_execution_status}
use master_plan.Prelude.Text.{is_empty}

abbrev has_holder : Step → Bool
has_holder s = not (is_empty s.claimed_by)

-- The second step of the milestone that waits for none.
abbrev second_step : Step
second_step = record default_step {
  id = "S2";
  work_package = "WP1";
  order = 2;
  status = "pending";
  depends_on_steps = "S1" ∷ [];
}

abbrev report : PathReport
report = record {
  strategy = "resume_then_ready";
  interleave = "milestone";
  baseline_milestone_order = "01" ∷ "02" ∷ [];
  ready_milestones = "01" ∷ [];
  actions = step_action 1 sample second_step ∷ [];
  blocked = depends_on_not_done "02" ("M001" ∷ []) ∷ [];
}

-- With the second step claimed nothing is left to work on.
abbrev claimed_step : Step
claimed_step = record second_step { claimed_by = "ana" }

abbrev claimed_sample : MilestoneFile
claimed_sample = record sample { steps = claimed_step ∷ [] }

lanes_partition_example :
    one_if (in_execution [] sample)
      + one_if (in_blocked [] sample)
      + one_if (in_awaiting_approval sample)
      + one_if (in_grooming sample)
    ≡ 1
unfolding master_plan.Lifecycle.Meta.effective_lifecycle model_execution_status
lanes_partition_example = lanes_partition [] sample refl refl refl refl

lanes_cover_example :
    one_if (in_execution [] (in_lifecycle "executed"))
      + one_if (in_blocked [] (in_lifecycle "executed"))
      + one_if (in_awaiting_approval (in_lifecycle "executed"))
      + one_if (in_grooming (in_lifecycle "executed"))
      + one_if (in_review (in_lifecycle "executed"))
    ≡ 0
unfolding master_plan.Lifecycle.Meta.effective_lifecycle model_execution_status
lanes_cover_example = lanes_cover [] (in_lifecycle "executed") executed refl refl refl refl refl
