-- ===== src/Watch/Drive/Bound.antt =====
-- The loop of `drive_milestone` in crates/mp/src/watch/state_machine.rs ends.
use master_plan.Prelude.{
  ℕ, zero, suc, ◌+◌, ◌≤◌, ◌<◌, max, ◌≡◌, refl, inl, inr, Bool, true, false, Option, none, some,
  List, [], arith, ltb, Bool-cases, Result, ok, err,
}
use master_plan.Watch.Drive.{
  DriveOps, DriveEvent, DriveOutcome, DriveError, Driving, iteration, drive_loop, drive_milestone,
  Run, ask, call,
}

abbrev pub is_some {ℓ} : {A : Type ℓ} → Option A → Bool
is_some none = false
is_some (some a) = true

-- The round asks for another one.
abbrev pub goes_on : Result DriveError (Option DriveOutcome) → Bool
goes_on (ok none) = true
goes_on (ok (some outcome)) = false
goes_on (err e) = false

some_of {ℓ} : {A : Type ℓ} (o : Option A) → is_some o ≡ true → (a : A) × (o ≡ some a)
some_of none h = cc
some_of (some a) h = (a, refl)

module _ {W : Type 0} (ops : DriveOps W) where
  past_limit :
      (limit iter : ℕ) (st : W × List DriveEvent)
      → ltb limit iter ≡ true
      → goes_on (iteration ops limit iter st).0 ≡ false
  unfolding iteration master_plan.Watch.Drive.◌>>=◌ ask
  past_limit limit iter (w, events) h = elim (Bool-cases (ops.shutdown_requested w).0) [
    | inl e ↦ rw e refl
    | inr e ↦ rw (e, h) refl
  ]

  within_limit :
      (limit iter : ℕ) (st : W × List DriveEvent)
      → goes_on (iteration ops limit iter st).0 ≡ true
      → suc iter ≤ suc limit
  within_limit limit iter st g = elim (Bool-cases (ltb limit iter)) [
    | inl e ↦ (let stopped = past_limit limit iter st e in cc)
    | inr e ↦ ground arith
  ]

  -- What the loop makes of the result of a round.
  loop_next :
      (fuel limit iter : ℕ) (r : Result DriveError (Option DriveOutcome)) (st : W × List DriveEvent)
      → (goes_on r ≡ true → is_some (drive_loop ops fuel limit (suc iter) st) ≡ true)
      → is_some {A = Run ops} (elim r [
        | ok next ↦ elim next [
          | none ↦ drive_loop ops fuel limit (suc iter) st
          | some outcome ↦ some (ok outcome, st)
        ]
        | err e ↦ some (err e, st)
      ])
        ≡ true
  loop_next fuel limit iter (ok none) st h = h refl
  loop_next fuel limit iter (ok (some outcome)) st h = refl
  loop_next fuel limit iter (err e) st h = refl

  loop_ends :
      (fuel limit iter : ℕ) (st : W × List DriveEvent)
      → suc limit < fuel + iter
      → iter ≤ suc limit
      → is_some (drive_loop ops fuel limit iter st) ≡ true
  unfolding drive_loop
  loop_ends zero limit iter st h le = absurd (omega arith)
  loop_ends (suc fuel) limit iter st h le =
      loop_next fuel limit iter (iteration ops limit iter st).0 (iteration ops limit iter st).1
        (λ g.
          loop_ends fuel limit (suc iter) (iteration ops limit iter st).1 (omega arith)
            (within_limit limit iter st g))

  -- Driving a milestone ends, whatever the operations answer: a run takes at most one round more than
  -- `max_iterations`, or two if that is 0.
  pub drive_milestone-ends :
      (max_iterations : ℕ) (w : W) → (r : Run ops) × (drive_milestone ops max_iterations w ≡ some r)
  unfolding drive_milestone
  drive_milestone-ends max_iterations w = some_of _ (
      loop_ends (suc (max max_iterations 1)) (max max_iterations 1) 1 (w, []) (omega arith)
        (omega arith))
