-- ===== src/Reviews/Findings.antt =====
-- `add_finding_with_phase` and `resolve_finding` of crates/mp/src/reviews.rs. The entry of the
-- activity log and the notice on the terminal are left out.
pub mod Remediation
pub mod RoundTrip
use master_plan.Prelude.{
  ℕ, zero, suc, ◌+◌, ◌-◌, ◌*◌, ◌/◌, ◌%◌, ◌≤◌, ◌<◌, max, String, ◌≡◌, refl, sym, ap, subst, ◌∙◌, ◌≢◌,
  ◌↔◌, ◌⊎◌, inl, inr, Bool, true, false, not, ◌&&◌, ◌||◌, Option, none, some, List, [], ◌∷◌, ◌++◌,
  map, arith, str_eq, eq_iff, ltb, leb, ◌==◌, if◌then◌else◌, Bool-cases, Option-cases, and_true,
  or_eq_false, or_false, length, any, all, find, filter, update_first, remove_first, contains_str,
  distinct, filter-eq-nil, not-true, and_eq_true, str_eq_comm, str_eq_refl, Result, ok, err, ◌>>=◌,
  ◌>>◌, bail_if, is_nil, nil_of, append-eq-nil, is_nil-append, not-false, bind-eq-ok, bail_if-eq-ok,
  ok-injective, some-injective, distinct-snoc, one_if, count, count-append, count-snoc,
  contains_of_count, count_of_contains, count_of_absent, count-distinct, length-le_of_counts,
  counts_of_length, one_if-le, count-filter, before, before-append_left, before-snoc_self,
  contains_cases, Memᴰ, insert_by, sort_by, take, position, length-take, mem-take, mem-insert_by,
  mem-sort_by, length-sort_by, length-insert_by, mem-filter, mem-filter_of, Result-cases,
  SameMembers, members_refl, members_trans, members_cons, members_swap, sort_by-same,
}
use master_plan.Prelude.Text.{is_empty}
use master_plan.Model.Milestone.{MilestoneFile, Finding, FindingThreadEntry}
use master_plan.Model.Findings.{
  FindingDraft, FindingError, validate_draft, validate_entry, has_open_self_findings,
  has_open_external_findings,
}
use master_plan.Model.Review.{number_behind, next_number}
use master_plan.Lifecycle.Meta.{MilestoneMeta}
use master_plan.Lifecycle.Machine.{enter_remediation, exit_remediation}
use master_plan.Ceremony.Apply.{apply_transition}
use master_plan.Ceremony.Errors.{Error}
use master_plan.Ceremony.Complete.{or_default}

pub data FindingsError : Type 0 where
  invalid_draft : FindingError → FindingsError
  invalid_thread_entry : (finding_id : String) → FindingError → FindingsError
  refused : Error → FindingsError
  finding_not_found : String → FindingsError

-- `priority_rank` of this file: 0 for what it does not know.
unfoldable pub finding_priority_rank : String → ℕ
finding_priority_rank value =
    if str_eq value "urgent"
    then 4
    else if str_eq value "high"
    then 3
    else if str_eq value "normal"
    then 2
    else if str_eq value "low"
    then 1
    else 0

unfoldable pub next_finding_id : MilestoneFile → String
next_finding_id m = next_number "F-" (map (λ f. f.id) m.findings)

abbrev pub lifted {ℓ} : {A : Type ℓ} → Result Error A → Result FindingsError A
lifted (ok a) = ok a
lifted (err e) = err (refused e)

abbrev pub escalate : MilestoneMeta → MilestoneMeta
escalate m =
    if ltb (finding_priority_rank m.priority) (finding_priority_rank "high")
    then record m { priority = "high" }
    else m

abbrev pub new_finding : String → String → FindingDraft → Finding
new_finding today fid draft = record {
  id = fid;
  severity = draft.severity;
  category = draft.category;
  description = draft.description;
  status = "open";
  author = draft.author;
  fixed_in = "";
  created = today;
  resolved = "";
  phase = draft.phase;
  anchor = draft.anchor;
  thread = draft.thread;
  summary = draft.summary;
  rationale = draft.rationale;
  confidence = draft.confidence;
  tags = draft.tags;
}

-- The guards of the match on the lifecycle.
unfoldable pub enters_remediation : MilestoneFile → Bool
enters_remediation m =
    let lc = m.milestone.lifecycle in
    if (str_eq lc "done" || str_eq lc "executed" || str_eq lc "complete")
      && (has_open_self_findings m || has_open_external_findings m)
    then true
    else (str_eq lc "self-reviewed" || str_eq lc "reviewed") && has_open_external_findings m

unfoldable pub escalate_to_remediation : String → MilestoneFile → Result FindingsError MilestoneFile
escalate_to_remediation now m =
    if enters_remediation m
    then (do
      r ← lifted (apply_transition now m enter_remediation)
      ok (record r.0 { milestone = escalate r.0.milestone }))
    else ok m

abbrev pub touch : String → MilestoneFile → MilestoneFile
touch today m = record m { milestone = record m.milestone { updated = today } }

module _ (is_rfc3339 : String → Bool) where
  abbrev pub entries_of : String → List FindingThreadEntry → Result FindingsError (Unit {0})
  entries_of id [] = ok tt
  entries_of id (e ∷ es) =
      let rest = entries_of id es in
      elim (validate_entry is_rfc3339 e) [
        | ok _ ↦ rest
        | err msg ↦ err (invalid_thread_entry id msg)
      ]

  -- The check of the threads that are there already.
  unfoldable pub check_threads : List Finding → Result FindingsError (Unit {0})
  check_threads [] = ok tt
  check_threads (f ∷ fs) = let rest = check_threads fs in entries_of f.id f.thread >> rest

  abbrev pub checked_draft : FindingDraft → Result FindingsError (Unit {0})
  checked_draft draft = elim (validate_draft is_rfc3339 draft) [
    | ok _ ↦ ok tt
    | err e ↦ err (invalid_draft e)
  ]

  unfoldable pub add_finding_with_phase :
      String
      → String
      → MilestoneFile
      → FindingDraft
      → Result FindingsError (MilestoneFile × Finding)
  add_finding_with_phase now today m draft = do
    checked_draft draft
    check_threads m.findings
    let finding = new_finding today (next_finding_id m) draft
    entered ← escalate_to_remediation now (record m { findings = m.findings ++ finding ∷ [] })
    ok (touch today entered, finding)

abbrev pub fixed : String → String → Finding → Finding
fixed today commit f = record f { status = "fixed"; fixed_in = commit; resolved = today }

abbrev pub is_open : Finding → Bool
is_open f = str_eq f.status "open"

unfoldable pub leave_remediation : String → MilestoneFile → Result FindingsError MilestoneFile
leave_remediation now m =
    if length (filter is_open m.findings) == 0 && str_eq m.milestone.lifecycle "remediation"
    then (do r ← lifted (apply_transition now m exit_remediation); ok r.0)
    else ok m

unfoldable pub resolve_finding :
    String
    → String
    → MilestoneFile
    → String
    → Option String
    → Result FindingsError (MilestoneFile × Finding)
resolve_finding now today m finding_id commit = do
  found ← elim (find (λ f. str_eq f.id finding_id) m.findings) [
    | none ↦ err (finding_not_found finding_id)
    | some f ↦ ok f
  ]
  let change = fixed today (or_default commit)
  left ←
      leave_remediation now
        (record m { findings = update_first (λ f. str_eq f.id finding_id) change m.findings })
  ok (touch today left, change found)

unfoldable pub list_findings : MilestoneFile → Bool → List Finding
list_findings m open_only = filter (λ f. not open_only || is_open f) m.findings

-- Resolving one finding after the other, each from what the one before left.
unfoldable pub resolve_each :
    String
    → String
    → MilestoneFile
    → List Finding
    → Option String
    → Result FindingsError (MilestoneFile × List Finding)
resolve_each now today m [] commit = ok (m, [])
resolve_each now today m (f ∷ fs) commit = do
  r ← resolve_finding now today m f.id commit
  rest ← resolve_each now today r.0 fs commit
  ok (rest.0, r.1 ∷ rest.1)

unfoldable pub resolve_all_open_findings :
    String
    → String
    → MilestoneFile
    → Option String
    → Result FindingsError (MilestoneFile × List Finding)
resolve_all_open_findings now today m commit =
    resolve_each now today m (list_findings m true) commit
