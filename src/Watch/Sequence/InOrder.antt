-- ===== src/Watch/Sequence/InOrder.antt =====
-- A run takes the milestones in order and ends.
use master_plan.Prelude.{
  ℕ, String, ◌≡◌, refl, sym, subst, inl, inr, true, false, some, List, [], ◌∷◌, Bool-cases, Result,
  ok, err, is_nil, ok-injective, Result-cases,
}
use master_plan.Watch.Drive.{DriveOutcome, DriveError, operation_failed}
use master_plan.Watch.Drive.Bound.{drive_milestone-ends}
use master_plan.Watch.Sequence.{
  MilestoneOutcome, SequencerReport, SequencerOps, halts, run_one, run_each, run_milestones, Ran,
  driven, after, report_of, finish, run_outcome, aggregate,
}

-- The outcomes of a queue: one for each milestone in order, up to the first that halts the run.
pub data Follows : List String → List MilestoneOutcome → Type 0 where
  queue_done : Follows [] []
  halted :
      (id : String) (ids : List String) (o : DriveOutcome)
      → halts o ≡ true
      → Follows (id ∷ ids) (record { id = id; outcome = o } ∷ [])
  and_next :
      (id : String) (ids : List String) (o : DriveOutcome) (os : List MilestoneOutcome)
      → halts o ≡ false
      → Follows ids os
      → Follows (id ∷ ids) (record { id = id; outcome = o } ∷ os)

module _ {W : Type 0} (ops : SequencerOps W) (max_iterations : ℕ) where
  after_total :
      {A : Type 0} (p : Result String (Unit {0}) × W) (f : W → Ran W A)
      → ((v : W) → (r : Result DriveError A × W) × (f v ≡ some r))
      → (r : Result DriveError A × W) × (after p f ≡ some r)
  after_total p f h = elim (Result-cases p.0) [
    | inl (u, e) ↦ (let (r, k) = h p.1 in (r, rw e k))
    | inr (x, e) ↦ ((err (operation_failed x), p.1), rw e refl)
  ]

  run_one_total :
      (id : String) (w : W)
      → (r : Result DriveError DriveOutcome × W) × (run_one ops max_iterations id w ≡ some r)
  unfolding run_one
  run_one_total id w =
      after_total (ops.set_active_milestone id w) (driven ops max_iterations id) (λ v.
        let (run, e) = drive_milestone-ends ops.drive max_iterations v in
        elim (Result-cases run.0) [
          | inl (o, f) ↦
              (let (r, k) =
                  after_total (ops.record_milestone_outcome id (run_outcome o) run.1.0)
                    (λ u. some (ok o, u)) (λ u. ((ok o, u), refl)) in
                (r, rw (driven, e, f) k))
          | inr (x, f) ↦ ((err x, run.1.0), rw (driven, e, f) refl)
        ])

  run_each-Follows :
      (ids : List String) (w : W)
      → (r : Result DriveError (List MilestoneOutcome) × W) × (run_each ops max_iterations ids w
          ≡ some r)
        × ((os : List MilestoneOutcome) → r.0 ≡ ok os → Follows ids os)
  unfolding run_each
  run_each-Follows [] w =
      ((ok [], w), refl, λ os h. subst (λ xs. Follows [] xs) (ok-injective h) queue_done)
  run_each-Follows (id ∷ ids) w =
      let (one, e) = run_one_total id w in
      elim (Result-cases one.0) [
        | inr (x, f) ↦ ((err x, one.1), rw (run_each, e, f) refl, λ os h. cc)
        | inl (o, f) ↦
            (let item : MilestoneOutcome = record { id = id; outcome = o } in
              elim (Bool-cases (halts o)) [
                | inl g ↦ (
                  (ok (item ∷ []), one.1),
                  rw (run_each, e, f, g) refl,
                  λ os h. subst (λ xs. Follows (id ∷ ids) xs) (ok-injective h) (halted id ids o g),
                )
                | inr g ↦
                    (let (rest, e2, follows) = run_each-Follows ids one.1 in
                      elim (Result-cases rest.0) [
                        | inr (x, k) ↦
                            ((err x, rest.1), rw (run_each, e, f, g, e2, k) refl, λ os h. cc)
                        | inl (items, k) ↦ (
                          (ok (item ∷ items), rest.1),
                          rw (run_each, e, f, g, e2, k) refl,
                          λ os h.
                              subst (λ xs. Follows (id ∷ ids) xs) (ok-injective h)
                                (and_next id ids o items g (follows items k)),
                        )
                      ])
              ])
      ]

  finish_total :
      (r : Result DriveError (List MilestoneOutcome) × W)
      → (s : Result DriveError SequencerReport × W) × (finish ops max_iterations r ≡ some s)
        × ((report : SequencerReport)
            → s.0 ≡ ok report
            → (os : List MilestoneOutcome) × (r.0 ≡ ok os) × (report ≡ report_of os))
  finish_total r = elim (Result-cases r.0) [
    | inr (x, e) ↦ ((err x, r.1), rw e refl, λ report h. cc)
    | inl (os, e) ↦ elim (Bool-cases (is_nil os)) [
      | inl f ↦
          ((ok (report_of os), r.1), rw (e, f) refl, λ report h. (os, e, sym (ok-injective h)))
      | inr f ↦ elim (Result-cases (ops.transition_run (aggregate os) r.1).0) [
        | inl (u, g) ↦ (
          (
            ok (report_of os),
            ops.append_outcome (aggregate os) (ops.transition_run (aggregate os) r.1).1,
          ),
          rw (e, f, g) refl,
          λ report h. (os, e, sym (ok-injective h)),
        )
        | inr (x, g) ↦ (
          (err (operation_failed x), (ops.transition_run (aggregate os) r.1).1),
          rw (e, f, g) refl,
          λ report h. cc,
        )
      ]
    ]
  ]

  -- A run over a queue always ends. Where it reports, its outcomes are those of the milestones of
  -- the queue in order, up to the first whose driving is exhausted or shut down; completed and
  -- skipped milestones do not halt it.
  pub run_milestones-Follows :
      (ids : List String) (w : W)
      → (r : Result DriveError SequencerReport × W) × (run_milestones ops max_iterations ids w
          ≡ some r)
        × ((report : SequencerReport) → r.0 ≡ ok report → Follows ids report.outcomes)
  unfolding run_milestones
  run_milestones-Follows ids w =
      let (each, e, follows) = run_each-Follows ids w in
      let (done, f, reported) = finish_total each in
      (
        done,
        rw (run_milestones, e) f,
        λ report h.
            let (os, k, same) = reported report h in
            subst (λ (s : SequencerReport). Follows ids s.outcomes) (sym same) (follows os k),
      )
