-- ===== src/Watch/Sequence.antt =====
-- `run_milestones` of crates/mp/src/watch/sequencer.rs, over the driver of one milestone.
pub mod InOrder
use master_plan.Prelude.{
  ℕ, zero, suc, ◌+◌, ◌-◌, ◌*◌, ◌/◌, ◌%◌, ◌≤◌, ◌<◌, max, String, ◌≡◌, refl, sym, ap, subst, ◌∙◌, ◌≢◌,
  ◌↔◌, ◌⊎◌, inl, inr, Bool, true, false, not, ◌&&◌, ◌||◌, Option, none, some, List, [], ◌∷◌, ◌++◌,
  map, arith, str_eq, eq_iff, ltb, leb, ◌==◌, if◌then◌else◌, Bool-cases, Option-cases, and_true,
  or_eq_false, or_false, length, any, all, find, filter, update_first, remove_first, contains_str,
  distinct, filter-eq-nil, not-true, and_eq_true, str_eq_comm, str_eq_refl, Result, ok, err, ◌>>=◌,
  ◌>>◌, bail_if, is_nil, nil_of, append-eq-nil, is_nil-append, not-false, bind-eq-ok, bail_if-eq-ok,
  ok-injective, some-injective, distinct-snoc, one_if, count, count-append, count-snoc,
  contains_of_count, count_of_contains, count_of_absent, count-distinct, length-le_of_counts,
  counts_of_length, one_if-le, count-filter, before, before-append_left, before-snoc_self,
  contains_cases, Memᴰ, insert_by, sort_by, take, position, length-take, mem-take, mem-insert_by,
  mem-sort_by, length-sort_by, length-insert_by, mem-filter, mem-filter_of, Result-cases,
  SameMembers, members_refl, members_trans, members_cons, members_swap, sort_by-same,
}
use master_plan.Watch.Drive.{
  DriveOps, DriveError, operation_failed, DriveOutcome, completed, skipped,
  max_iterations_exhausted, shutdown, drive_milestone,
}

pub record MilestoneOutcome : Type 0 where
  pub id : String
  pub outcome : DriveOutcome

pub record SequencerReport : Type 0 where
  pub outcomes : List MilestoneOutcome
  pub all_complete : Bool
  pub any_skipped : Bool
  pub any_exhausted : Bool

-- `RunOutcome` of crates/mp/src/watch/run_state.rs
pub data RunOutcome : Type 0 where
  run_completed partial_failure gracefully_stopped : RunOutcome
  run_skipped : String → RunOutcome
  run_exhausted : ℕ → RunOutcome

-- The methods of `SystemDriveOps` that the sequencer calls; the last one appends to the journal.
pub record SequencerOps (W : Type 0) : Type 0 where
  pub drive : DriveOps W
  pub set_active_milestone : String → W → Result String (Unit {0}) × W
  pub record_milestone_outcome : String → RunOutcome → W → Result String (Unit {0}) × W
  pub transition_run : RunOutcome → W → Result String (Unit {0}) × W
  pub append_outcome : RunOutcome → W → W

abbrev pub halts : DriveOutcome → Bool
halts completed = false
halts (skipped reason) = false
halts (max_iterations_exhausted n) = true
halts shutdown = true

abbrev pub is_complete : MilestoneOutcome → Bool
is_complete item = elim item.outcome [
  | completed ↦ true
  | skipped r ↦ false
  | max_iterations_exhausted n ↦ false
  | shutdown ↦ false
]

abbrev pub is_skipped : MilestoneOutcome → Bool
is_skipped item = elim item.outcome [
  | completed ↦ false
  | skipped r ↦ true
  | max_iterations_exhausted n ↦ false
  | shutdown ↦ false
]

abbrev pub is_shutdown : MilestoneOutcome → Bool
is_shutdown item = elim item.outcome [
  | completed ↦ false
  | skipped r ↦ false
  | max_iterations_exhausted n ↦ false
  | shutdown ↦ true
]

abbrev pub exhausted_after : DriveOutcome → Option ℕ
exhausted_after (max_iterations_exhausted n) = some n
exhausted_after completed = none
exhausted_after (skipped r) = none
exhausted_after shutdown = none

abbrev pub skip_reason : DriveOutcome → Option String
skip_reason (skipped r) = some r
skip_reason completed = none
skip_reason (max_iterations_exhausted n) = none
skip_reason shutdown = none

-- `iter().find_map(..)` on the outcomes.
abbrev pub find_outcome {ℓ} :
    {A : Type ℓ} → (DriveOutcome → Option A) → List MilestoneOutcome → Option A
find_outcome f [] = none
find_outcome f (item ∷ items) = elim (f item.outcome) [
  | none ↦ find_outcome f items
  | some a ↦ some a
]

abbrev pub run_outcome : DriveOutcome → RunOutcome
run_outcome completed = run_completed
run_outcome (skipped reason) = run_skipped reason
run_outcome (max_iterations_exhausted n) = run_exhausted n
run_outcome shutdown = gracefully_stopped

abbrev pub is_some {ℓ} : {A : Type ℓ} → Option A → Bool
is_some none = false
is_some (some a) = true

unfoldable pub aggregate : List MilestoneOutcome → RunOutcome
aggregate outcomes =
    let complete = length (filter is_complete outcomes) in
    let skips = length (filter is_skipped outcomes) in
    let exhausted = find_outcome exhausted_after outcomes in
    if any is_shutdown outcomes
    then gracefully_stopped
    else if complete == length outcomes
    then run_completed
    else if ltb 0 complete || (ltb 0 skips && is_some exhausted)
    then partial_failure
    else elim exhausted [
      | some n ↦ run_exhausted n
      | none ↦ elim (find_outcome skip_reason outcomes) [
        | some reason ↦ run_skipped reason
        | none ↦ run_skipped "queue did not complete"
      ]
    ]

-- The flags of the loop, each of which is set by one of the outcomes.
abbrev pub report_of : List MilestoneOutcome → SequencerReport
report_of outcomes = record {
  outcomes = outcomes;
  all_complete = all is_complete outcomes;
  any_skipped = any is_skipped outcomes;
  any_exhausted = is_some (find_outcome exhausted_after outcomes);
}

-- An answer and the state that is reached; `none` where the fuel of the driver runs out.
abbrev pub Ran : Type 0 → Type 0 → Type 0
Ran W A = Option (Result DriveError A × W)

module _ {W : Type 0} where
  abbrev pub prepend :
      MilestoneOutcome → Ran W (List MilestoneOutcome) → Ran W (List MilestoneOutcome)
  prepend item none = none
  prepend item (some r) = elim r.0 [
    | ok items ↦ some (ok (item ∷ items), r.1)
    | err e ↦ some (err e, r.1)
  ]

  -- A call of the ops with `?`, and what comes after it.
  abbrev pub after : {A : Type 0} → Result String (Unit {0}) × W → (W → Ran W A) → Ran W A
  after r f = elim r.0 [ ok u ↦ f r.1 | err e ↦ some (err (operation_failed e), r.1) ]

  module _ (ops : SequencerOps W) (max_iterations : ℕ) where
    abbrev pub keep_outcome : String → Result DriveError DriveOutcome × W → Ran W DriveOutcome
    keep_outcome id r = elim r.0 [
      | err e ↦ some (err e, r.1)
      | ok outcome ↦
          after (ops.record_milestone_outcome id (run_outcome outcome) r.1)
            (λ v. some (ok outcome, v))
    ]

    abbrev pub driven : String → W → Ran W DriveOutcome
    driven id w = elim (drive_milestone ops.drive max_iterations w) [
      | none ↦ none
      | some run ↦ keep_outcome id (run.0, run.1.0)
    ]

    -- The body of the loop up to the test that halts it.
    unfoldable pub run_one : String → W → Ran W DriveOutcome
    run_one id w = after (ops.set_active_milestone id w) (driven id)

    unfoldable pub run_each : List String → W → Ran W (List MilestoneOutcome)
    run_each [] w = some (ok [], w)
    run_each (id ∷ ids) w = elim (run_one id w) [
      | none ↦ none
      | some r ↦ elim r.0 [
        | err e ↦ some (err e, r.1)
        | ok outcome ↦
            (let rest = run_each ids r.1 in
              let item : MilestoneOutcome = record { id = id; outcome = outcome } in
              if halts outcome then some (ok (item ∷ []), r.1) else prepend item rest)
      ]
    ]

    abbrev pub finish : Result DriveError (List MilestoneOutcome) × W → Ran W SequencerReport
    finish r = elim r.0 [
      | err e ↦ some (err e, r.1)
      | ok outcomes ↦
          (if is_nil outcomes
            then some (ok (report_of outcomes), r.1)
            else after (ops.transition_run (aggregate outcomes) r.1)
                (λ v. some (ok (report_of outcomes), ops.append_outcome (aggregate outcomes) v)))
    ]

    -- `none` only where the driver of a milestone runs out of fuel.
    unfoldable pub run_milestones : List String → W → Ran W SequencerReport
    run_milestones ids w = elim (run_each ids w) [ none ↦ none | some r ↦ finish r ]
