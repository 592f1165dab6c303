-- ===== src/Validate/Gates.antt =====
-- What an empty list of issues means for the gates of crates/mp/src/validate/gates.rs.
use master_plan.Prelude.{
  ℕ, String, ◌≡◌, refl, sym, ap, ◌∙◌, inl, inr, Bool, true, false, not, ◌&&◌, ◌||◌, List, [], ◌∷◌,
  ◌++◌, arith, str_eq, ltb, if◌then◌else◌, Bool-cases, length, all, ok, err, is_nil, append-eq-nil,
  is_nil-append,
}
use master_plan.Validate.{
  StatusMap, is_no_dep, is_done_in, g8_issues, check_gate_g8, check_gate_g1, check_gate_g4,
  g2_issues, validate_milestone_review, validate_milestone_ready,
  validate_milestone_start_execution, LoadedPlan, execution_statuses,
}
use master_plan.Status.{spec_status_allows_steps, effective_spec_status}
use master_plan.Model.Milestone.{MilestoneFile, OpenQuestion}
use master_plan.Paths.{normalize_milestone_id}
use master_plan.Prelude.Text.{is_empty}
use master_plan.Status.{effective_spec_status}

-- A dependency that holds no milestone back.
abbrev pub dep_done : StatusMap → String → Bool
dep_done exec dep = is_no_dep dep || is_done_in exec (normalize_milestone_id dep)

g8_issues-is_nil :
    (exec : StatusMap) (id : String) (deps : List String)
    → is_nil (g8_issues exec id deps) ≡ all (dep_done exec) deps
unfolding g8_issues
g8_issues-is_nil exec id [] = refl
g8_issues-is_nil exec id (d ∷ ds) = elim (Bool-cases (is_no_dep d)) [
  | inl e ↦ rw (e, g8_issues-is_nil exec id ds)
  | inr e ↦ elim (Bool-cases (is_done_in exec (normalize_milestone_id d))) [
    | inl f ↦ rw (e, f, g8_issues-is_nil exec id ds)
    | inr f ↦ rw (e, f)
  ]
]

-- G8 passes exactly where each dependency that names a milestone is done in the map.
pub check_gate_g8-is_nil :
    (m : MilestoneFile) (exec : StatusMap)
    → is_nil (check_gate_g8 m exec) ≡ all (dep_done exec) m.milestone.depends_on
unfolding check_gate_g8
check_gate_g8-is_nil m exec = g8_issues-is_nil exec m.milestone.id m.milestone.depends_on

abbrev pub is_closed_question : OpenQuestion → Bool
is_closed_question q = not (str_eq q.status "open")

g2_issues-is_nil :
    (id : String) (qs : List OpenQuestion) → is_nil (g2_issues id qs) ≡ all is_closed_question qs
unfolding g2_issues
g2_issues-is_nil id [] = refl
g2_issues-is_nil id (q ∷ qs) = elim (Bool-cases (str_eq q.status "open")) [
  | inl e ↦ rw e
  | inr e ↦ rw (e, g2_issues-is_nil id qs)
]

-- The shape of the ready gate: four checks of one issue, and the issues of the questions.
gates-is_nil :
    {A : Type 0} (a b c d : Bool) (w x y z : A) (qs : List A)
    → is_nil (
        ((if a then w ∷ [] else []) ++ (if b then x ∷ [] else []))
        ++ (qs ++ ((if c then y ∷ [] else []) ++ (if d then z ∷ [] else []))))
      ≡ (not a && not b) && (is_nil qs && (not c && not d))
gates-is_nil true b c d w x y z qs = refl
gates-is_nil false true c d w x y z qs = refl
gates-is_nil false false true d w x y z qs = is_nil-append qs _
gates-is_nil false false false true w x y z qs = is_nil-append qs _
gates-is_nil false false false false w x y z qs = is_nil-append qs _

-- The ready gate passes exactly where there is an acceptance criterion, enough items are out of
-- scope, no question is open, and the outcome and the problem are described.
pub validate_milestone_ready-is_nil :
    (m : MilestoneFile) (min_out_of_scope : ℕ)
    → is_nil (validate_milestone_ready m min_out_of_scope)
      ≡ (not (is_nil m.acceptance_criteria)
          && not (ltb (length m.scope.out_of_scope) min_out_of_scope))
        && (all is_closed_question m.open_questions
            && (not (is_empty m.intent.outcome) && not (is_empty m.problem.description)))
unfolding validate_milestone_ready validate_milestone_review check_gate_g4
validate_milestone_ready-is_nil m k = rw (sym (g2_issues-is_nil m.milestone.id m.open_questions)) (
    gates-is_nil (is_nil m.acceptance_criteria) (ltb (length m.scope.out_of_scope) k)
      (is_empty m.intent.outcome) (is_empty m.problem.description) _ _ _ _
      (g2_issues m.milestone.id m.open_questions))

g1-passed :
    (m : MilestoneFile)
    → check_gate_g1 m ≡ []
    → spec_status_allows_steps (effective_spec_status m) ≡ true
unfolding check_gate_g1 spec_status_allows_steps
g1-passed m h = ground arith

-- Where the start gate passes, the plan was loaded, the spec status is `ready` or later, and each
-- dependency is done among the milestones of the plan.
pub start_gate-passed :
    (plan : LoadedPlan) (m : MilestoneFile)
    → validate_milestone_start_execution plan m ≡ []
    → (milestones : List MilestoneFile) × (plan ≡ ok milestones)
      × (all (dep_done (execution_statuses milestones)) m.milestone.depends_on ≡ true)
      × (spec_status_allows_steps (effective_spec_status m) ≡ true)
unfolding validate_milestone_start_execution
start_gate-passed (err e) m h = cc (append-eq-nil (check_gate_g1 m) _ h).1
start_gate-passed (ok ms) m h =
    let (g1, g8) = append-eq-nil (check_gate_g1 m) _ h in
    (ms, refl, sym (check_gate_g8-is_nil m (execution_statuses ms)) ∙ ap is_nil g8, g1-passed m g1)
