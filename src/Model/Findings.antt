-- ===== src/Model/Findings.antt =====
-- Findings in crates/mp-model/src/milestone.rs: which are open in which phase, and the validation of
-- ranges, threads and drafts.
use master_plan.Prelude.{
  ℕ, String, Bool, not, ◌&&◌, ◌||◌, Option, none, some, List, [], ◌∷◌, str_eq, ltb, if◌then◌else◌,
  length, any, filter, contains_str, Result, ok, err, ◌>>◌, bail_if,
}
use master_plan.Model.Milestone.{Finding, MilestoneFile, Range, FindingAnchor, FindingThreadEntry}
use master_plan.Prelude.Text.{is_empty}

abbrev pub finding_phase_self : String
finding_phase_self = "self"

abbrev pub finding_phase_external : String
finding_phase_external = "external"

abbrev pub is_open_self : Finding → Bool
is_open_self f = str_eq f.status "open" && (str_eq f.phase finding_phase_self || is_empty f.phase)

abbrev pub is_open_in : String → Finding → Bool
is_open_in phase f = str_eq f.status "open" && str_eq f.phase phase

unfoldable pub open_findings_by_phase : MilestoneFile → String → List Finding
open_findings_by_phase m phase =
    if is_empty phase
    then filter (λ f. str_eq f.status "open") m.findings
    else if str_eq phase finding_phase_self
    then filter is_open_self m.findings
    else filter (is_open_in phase) m.findings

unfoldable pub has_open_self_findings : MilestoneFile → Bool
has_open_self_findings m = any is_open_self m.findings

unfoldable pub has_open_external_findings : MilestoneFile → Bool
has_open_external_findings m = any (is_open_in finding_phase_external) m.findings

unfoldable pub open_self_findings_count : MilestoneFile → ℕ
open_self_findings_count m = length (filter is_open_self m.findings)

unfoldable pub open_external_findings_count : MilestoneFile → ℕ
open_external_findings_count m = length (filter (is_open_in finding_phase_external) m.findings)

-- One constructor for each message of the validators.
pub data FindingError : Type 0 where
  range_inverted : ℕ → ℕ → FindingError
  invalid_severity invalid_phase invalid_confidence invalid_timestamp : String → FindingError
  invalid_side : Option String → FindingError
  anchor_new_range anchor_old_range thread_entry : FindingError → FindingError

unfoldable pub validate_range : Range → Result FindingError (Unit {0})
validate_range r = bail_if (ltb r.end_line r.start_line) (range_inverted r.start_line r.end_line)

pub is_valid_side : String → Bool
is_valid_side value = is_empty value || str_eq value "old" || str_eq value "new"

pub is_valid_confidence : String → Bool
is_valid_confidence value =
    str_eq value "low" || str_eq value "medium" || str_eq value "high" || is_empty value

pub record FindingDraft : Type 0 where
  pub milestone_id : String
  pub severity : String
  pub category : String
  pub description : String
  pub author : String
  pub phase : String
  pub summary : String
  pub rationale : String
  pub confidence : String
  pub tags : List String
  pub anchor : Option FindingAnchor
  pub thread : List FindingThreadEntry

abbrev pub map_err :
    (FindingError → FindingError) → Result FindingError (Unit {0}) → Result FindingError (Unit {0})
map_err f (ok u) = ok u
map_err f (err e) = err (f e)

abbrev pub validate_range? : Option Range → Result FindingError (Unit {0})
validate_range? none = ok tt
validate_range? (some r) = validate_range r

abbrev pub or_empty : Option String → String
or_empty none = ""
or_empty (some s) = s

abbrev pub validate_anchor : Option FindingAnchor → Result FindingError (Unit {0})
validate_anchor none = ok tt
validate_anchor (some a) = do
  bail_if (not (is_valid_side (or_empty a.side))) (invalid_side a.side)
  map_err anchor_new_range (validate_range? a.new_range)
  map_err anchor_old_range (validate_range? a.old_range)

-- `is_rfc3339` is the timestamp parser of crates/mp-model/src/datetime.rs, an argument here.
module _ (is_rfc3339 : String → Bool) where
  unfoldable pub validate_entry : FindingThreadEntry → Result FindingError (Unit {0})
  validate_entry e = bail_if (not (is_empty e.at) && not (is_rfc3339 e.at)) (invalid_timestamp e.at)

  unfoldable pub validate_thread : List FindingThreadEntry → Result FindingError (Unit {0})
  validate_thread [] = ok tt
  validate_thread (e ∷ es) =
      let rest = validate_thread es in map_err thread_entry (validate_entry e) >> rest

  unfoldable pub validate_draft : FindingDraft → Result FindingError (Unit {0})
  unfolding is_valid_side is_valid_confidence validate_range validate_entry validate_thread
  validate_draft d = do
    bail_if (not (contains_str ("high" ∷ "medium" ∷ "low" ∷ []) d.severity))
        (invalid_severity d.severity)
    bail_if
        (not (is_empty d.phase)
          && not (str_eq d.phase finding_phase_self || str_eq d.phase finding_phase_external))
        (invalid_phase d.phase)
    bail_if (not (is_valid_confidence d.confidence)) (invalid_confidence d.confidence)
    validate_anchor d.anchor
    validate_thread d.thread
