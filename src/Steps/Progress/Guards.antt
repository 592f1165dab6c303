-- ===== src/Steps/Progress/Guards.antt =====
-- What `set_step_status` of crates/mp/src/step.rs checks and writes.
use master_plan.Prelude.{
  String, ◌≡◌, refl, sym, ap, ◌∙◌, inl, inr, Bool, true, false, not, ◌&&◌, ◌||◌, List, [], ◌∷◌,
  arith, str_eq, if◌then◌else◌, Bool-cases, all, update_first, contains_str, ok, bail_if, is_nil,
  not-false, bind-eq-ok, bail_if-eq-ok, ok-injective, find, some, Option-cases,
}
use master_plan.Model.Milestone.{Step, MilestoneFile}
use master_plan.Model.Track.{TrackFile}
use master_plan.Steps.Edit.Lookup.{find-update_first}
use master_plan.Steps.Edit.{step_ids, has_id, require_step, StepError, touch}
use master_plan.Steps.TrackRefs.{Tracks}
use master_plan.Steps.Progress.{
  step_statuses, is_finished, dep_finished, with_status, start_guard, close_done_refs,
  set_step_status, step_deps_met,
}

bail_passed : (b : Bool) (e : StepError) → bail_if b e ≡ ok tt → b ≡ false
bail_passed true e h = cc
bail_passed false e h = refl

deps_guard :
    (p : String → Bool) (deps : List String)
    → not (is_nil deps) && not (all p deps) ≡ not (all p deps)
deps_guard p [] = refl
deps_guard p (d ∷ ds) = refl

passed_and : {a b : Bool} → a ≡ true → b ≡ false → a && b ≡ false
passed_and {a} {b} e h = ground arith

-- The guard lets a step start only when its dependencies are finished.
start_guard-passed :
    (steps : List Step) (id status : String) (p : Step)
    → require_step steps id ≡ ok p
    → start_guard steps id status ≡ ok tt
    → str_eq status "in-progress" && not (step_deps_met p steps) ≡ false
unfolding step_deps_met
start_guard-passed steps id status p found h = elim (Bool-cases (str_eq status "in-progress")) [
  | inl e ↦
      (let passed = bail_passed _ _ (rw (e, found, start_guard) at h) in
        rw (sym (deps_guard (dep_finished steps) p.depends_on_steps)) (passed_and e passed))
  | inr e ↦ rw e refl
]

require_step_found :
    (steps : List Step) (id : String) (p : Step)
    → require_step steps id ≡ ok p
    → find (has_id id) steps ≡ some p
require_step_found steps id p h = elim (Option-cases (find (has_id id) steps)) [
  | inl e ↦ (let refused = rw (require_step, e) at h in cc)
  | inr (s, e) ↦ e ∙ ap some (ok-injective (rw (require_step, e) at h))
]

with_status-claims :
    (status : String) (p : Step)
    → ((with_status status p).status ≡ status)
      × ((with_status status p).id ≡ p.id)
      × ((with_status status p).claimed_by
          ≡ (if str_eq status "done" || str_eq status "skipped" then "" else p.claimed_by))
      × ((with_status status p).claimed_at
          ≡ (if str_eq status "done" || str_eq status "skipped" then "" else p.claimed_at))
      × ((with_status status p).lease_expires_at
          ≡ (if str_eq status "done" || str_eq status "skipped" then "" else p.lease_expires_at))
with_status-claims status p = elim (Bool-cases (str_eq status "done" || str_eq status "skipped")) [
  | inl e ↦ rw e (refl, refl, refl, refl, refl)
  | inr e ↦ rw e (refl, refl, refl, refl, refl)
]

-- Changing the first step with an id keeps the ids, if the change keeps them.
step_ids-update_first :
    (f : Step → Step) (id : String) (steps : List Step)
    → ((s : Step) → (f s).id ≡ s.id)
    → step_ids (update_first (has_id id) f steps) ≡ step_ids steps
step_ids-update_first f id [] k = refl
step_ids-update_first f id (s ∷ ss) k = elim (Bool-cases (has_id id s)) [
  | inl e ↦ rw (e, k s) refl
  | inr e ↦ rw (e, step_ids-update_first f id ss k) refl
]

module _ (today : String) (accepts : TrackFile → Bool) where
  -- An accepted `set_step_status`. The status is one of the five; the step exists, and if it is started,
  -- each step it depends on is done or skipped; the step that is returned has the new status, and
  -- no claim, claim time and lease if it is done or skipped, else those that it had; it is stored
  -- under the id, and every other step is found as it was; the ids of the steps stay the same, and
  -- so does the rest of the milestone, but for the date of its update; and the track files stay the
  -- same unless the status is `done` and all steps are done or skipped after the change.
  pub set_step_status-guards :
      (tracks tracks' : Tracks) (m m' : MilestoneFile) (id status : String) (s : Step)
      → set_step_status today accepts tracks m id status ≡ ok (m', s, tracks')
      → (p : Step) × (contains_str step_statuses status ≡ true)
        × (require_step m.steps id ≡ ok p)
        × (str_eq status "in-progress" && not (step_deps_met p m.steps) ≡ false)
        × (s.status ≡ status)
        × (s.claimed_by
            ≡ (if str_eq status "done" || str_eq status "skipped" then "" else p.claimed_by))
        × (s.claimed_at
            ≡ (if str_eq status "done" || str_eq status "skipped" then "" else p.claimed_at))
        × (s.lease_expires_at
            ≡ (if str_eq status "done" || str_eq status "skipped" then "" else p.lease_expires_at))
        × ((x : String)
            → find (has_id x) m'.steps ≡ (if str_eq id x then some s else find (has_id x) m.steps))
        × (step_ids m'.steps ≡ step_ids m.steps)
        × (m' ≡ touch today (record m { steps = m'.steps }))
        × (tracks' ≡ (
            if str_eq status "done" && all is_finished m'.steps
            then close_done_refs today accepts tracks m'.steps
            else tracks))
  unfolding set_step_status
  set_step_status-guards tracks tracks' m m' id status s r =
      let (known, r1) = bail_if-eq-ok (not (contains_str step_statuses status)) _ _ r in
      let (_, guard, r2) = bind-eq-ok (start_guard m.steps id status) _ r1 in
      let (p, found, r3) = bind-eq-ok (require_step m.steps id) _ r2 in
      let same = ok-injective r3 in
      let steps : update_first (has_id id) (with_status status) m.steps ≡ m'.steps =
        ap (λ (t : MilestoneFile × Step × Tracks). t.0.steps) same in
      let step : with_status status p ≡ s = ap (λ (t : MilestoneFile × Step × Tracks). t.1) same in
      let (stored, _, by, at_time, until) = with_status-claims status p in
      (
        p,
        not-false known,
        found,
        start_guard-passed m.steps id status p found guard,
        ap (λ (t : Step). t.status) (sym step) ∙ stored,
        ap (λ (t : Step). t.claimed_by) (sym step) ∙ by,
        ap (λ (t : Step). t.claimed_at) (sym step) ∙ at_time,
        ap (λ (t : Step). t.lease_expires_at) (sym step) ∙ until,
        λ x.
            ap (find (has_id x)) (sym steps)
            ∙ find-update_first id (with_status status) (λ t. (with_status-claims status t).1)
                m.steps x (require_step_found m.steps id p found)
            ∙ ap (λ (t : Step). if str_eq id x then some t else find (has_id x) m.steps) step,
        ap step_ids (sym steps)
            ∙ step_ids-update_first (with_status status) id m.steps
                (λ t. (with_status-claims status t).1),
        sym (ap (λ (t : MilestoneFile × Step × Tracks). t.0) same)
            ∙ ap (λ (ss : List Step). touch today (record m { steps = ss })) steps,
        sym (ap (λ (t : MilestoneFile × Step × Tracks). t.2) same)
            ∙ ap
                (λ (ss : List Step).
                  if str_eq status "done" && all is_finished ss
                  then close_done_refs today accepts tracks ss
                  else tracks)
                steps,
      )
