-- ===== src/Specs.antt =====
-- crates/mp/src/delta.rs: domain specs and the deltas that milestones make to them. The file system
-- answers by `spec`: `none` where the spec does not exist, an error where it cannot be loaded. The
-- scenarios and the interface of a spec are kept as they are, and are left out.
pub mod Merging
use master_plan.Prelude.{
  ℕ, zero, suc, ◌+◌, ◌-◌, ◌*◌, ◌/◌, ◌%◌, ◌≤◌, ◌<◌, max, String, ◌≡◌, refl, sym, ap, subst, ◌∙◌, ◌≢◌,
  ◌↔◌, ◌⊎◌, inl, inr, Bool, true, false, not, ◌&&◌, ◌||◌, Option, none, some, List, [], ◌∷◌, ◌++◌,
  map, arith, str_eq, eq_iff, ltb, leb, ◌==◌, if◌then◌else◌, Bool-cases, Option-cases, and_true,
  or_eq_false, or_false, length, any, all, find, filter, update_first, remove_first, contains_str,
  distinct, filter-eq-nil, not-true, and_eq_true, str_eq_comm, str_eq_refl, Result, ok, err, ◌>>=◌,
  ◌>>◌, bail_if, is_nil, nil_of, append-eq-nil, is_nil-append, not-false, bind-eq-ok, bail_if-eq-ok,
  ok-injective, some-injective, distinct-snoc, one_if, count, count-append, count-snoc,
  contains_of_count, count_of_contains, count_of_absent, count-distinct, length-le_of_counts,
  counts_of_length, one_if-le, count-filter, before, before-append_left, before-snoc_self,
  contains_cases, Memᴰ, insert_by, sort_by, take, position, length-take, mem-take, mem-insert_by,
  mem-sort_by, length-sort_by, length-insert_by, mem-filter, mem-filter_of, Result-cases,
  SameMembers, members_refl, members_trans, members_cons, members_swap, sort_by-same,
}
use master_plan.Prelude.Text.{is_empty, push_str}
use master_plan.Prelude.Text.Decimal.{show, show_02, parse_u32, u32_max}
use master_plan.Model.Milestone.{
  MilestoneFile, MilestoneDelta, DeltaAdded, DeltaModified, DeltaRemoved,
}
use master_plan.Lifecycle.Meta.{MilestoneMeta}
use master_plan.Validate.{ValidationIssue, issue}
use master_plan.Ids.{largest, add_one_u32}
use master_plan.Prelude.Text.{strip_prefix}

pub record DomainMeta : Type 0 where
  pub id : String
  pub title : String
  pub version : ℕ
  pub updated : String
  pub summary : String

pub record DomainRequirement : Type 0 where
  pub id : String
  pub statement : String
  pub scenarios : List String

pub record DomainSpecFile : Type 0 where
  pub domain : DomainMeta
  pub requirements : List DomainRequirement

-- `MilestoneDelta::is_set` and `MilestoneFile::is_delta_kind`.
unfoldable pub is_set : MilestoneDelta → Bool
is_set d = not (is_empty d.domain)

unfoldable pub is_delta_kind : MilestoneFile → Bool
unfolding is_set
is_delta_kind m = str_eq m.milestone.change_kind "delta" || is_set m.delta

abbrev pub req_ids : List DomainRequirement → List String
req_ids rs = map (λ r. r.id) rs

-- What loading a domain spec answers.
pub data Loaded : Type 0 where
  missing : Loaded
  failed : String → Loaded
  found : DomainSpecFile → Loaded

abbrev pub unknown_targets :
    String → String → Option String → List String → List String → List ValidationIssue
unknown_targets word domain id known [] = []
unknown_targets word domain id known (t ∷ ts) =
    let rest = unknown_targets word domain id known ts in
    if not (contains_str known t)
    then issue "G12"
        (push_str "delta " (
          push_str word
            (push_str " target " (push_str t (push_str " not found in domain " domain)))))
        id
      ∷ rest
    else rest

abbrev pub version_issues : MilestoneFile → DomainSpecFile → List ValidationIssue
version_issues m spec =
    let id = some m.milestone.id in
    (if m.delta.base_version == 0 then issue "G11" "delta.base_version must be set" id ∷ [] else [])
    ++ (if not (spec.domain.version == m.delta.base_version)
        then issue "G13"
            (push_str "domain version " (
              push_str (show spec.domain.version) (
                push_str " does not match delta.base_version "
                  (push_str (show m.delta.base_version) " (rebase required)"))))
            id
          ∷ []
        else [])

unfoldable pub validate_delta_milestone : MilestoneFile → (String → Loaded) → List ValidationIssue
validate_delta_milestone m load =
    let id = some m.milestone.id in
    if not (is_delta_kind m)
    then []
    else if is_empty m.delta.domain
    then issue "G11" "delta.domain is required when change_kind is delta" id ∷ []
    else elim (load m.delta.domain) [
      | missing ↦
          issue "G11"
            (push_str "domain spec specs/" (push_str m.delta.domain ".json does not exist")) id
          ∷ []
      | failed e ↦ issue "G11" (push_str "failed to load domain spec: " e) id ∷ []
      | found spec ↦
          version_issues m spec
          ++ (unknown_targets "modified" m.delta.domain id (req_ids spec.requirements)
                (map (λ d. d.target) m.delta.modified)
              ++ unknown_targets "removed" m.delta.domain id (req_ids spec.requirements)
                  (map (λ d. d.target) m.delta.removed))
    ]

pub data DeltaError : Type 0 where
  not_a_delta domain_required : DeltaError
  gate_errors : List ValidationIssue → DeltaError
  load_failed : DeltaError
  modified_target_missing duplicate_requirement : String → DeltaError

abbrev pub has_req_id : String → DomainRequirement → Bool
has_req_id id r = str_eq r.id id

unfoldable pub apply_removed : List DeltaRemoved → List DomainRequirement → List DomainRequirement
apply_removed [] rs = rs
apply_removed (d ∷ ds) rs = apply_removed ds (filter (λ r. not (has_req_id d.target r)) rs)

unfoldable pub apply_modified :
    List DeltaModified → List DomainRequirement → Result DeltaError (List DomainRequirement)
apply_modified [] rs = ok rs
apply_modified (d ∷ ds) rs = do
  bail_if (not (any (has_req_id d.target) rs)) (modified_target_missing d.target)
  apply_modified ds (update_first (has_req_id d.target) (λ r. record r { statement = d.after }) rs)

abbrev pub req_number : String → Option ℕ
req_number id = elim (strip_prefix "REQ-" id) [ none ↦ none | some s ↦ parse_u32 s ]

unfoldable pub next_req_id : List DomainRequirement → String
next_req_id rs = push_str "REQ-" (show_02 (add_one_u32 (largest req_number 0 (req_ids rs))))

unfoldable pub domain_requirement_from_added : DeltaAdded → DomainRequirement
domain_requirement_from_added added = record {
  id = added.id;
  statement = added.statement;
  scenarios = added.scenarios;
}

abbrev pub with_id : List DomainRequirement → DeltaAdded → DeltaAdded
with_id rs a = if is_empty a.id then record a { id = next_req_id rs } else a

unfoldable pub apply_added :
    List DeltaAdded → List DomainRequirement → Result DeltaError (List DomainRequirement)
apply_added [] rs = ok rs
apply_added (a ∷ as_) rs = do
  let item = with_id rs a
  bail_if (any (has_req_id item.id) rs) (duplicate_requirement item.id)
  apply_added as_ (rs ++ domain_requirement_from_added item ∷ [])

-- `u32::saturating_add(1)`
abbrev pub saturating_suc : ℕ → ℕ
saturating_suc n = if ltb n u32_max then n + 1 else u32_max

abbrev pub loaded : Loaded → Result DeltaError DomainSpecFile
loaded missing = err load_failed
loaded (failed e) = err load_failed
loaded (found spec) = ok spec

unfoldable pub merge_delta_into_domain :
    String → MilestoneFile → (String → Loaded) → Result DeltaError DomainSpecFile
merge_delta_into_domain today m load = do
  let issues = validate_delta_milestone m load
  bail_if (not (is_delta_kind m)) not_a_delta
  bail_if (not (is_nil issues)) (gate_errors issues)
  spec ← loaded (load m.delta.domain)
  modified ← apply_modified m.delta.modified (apply_removed m.delta.removed spec.requirements)
  added ← apply_added m.delta.added modified
  ok (record spec {
    requirements = added;
    domain = record spec.domain { version = saturating_suc m.delta.base_version; updated = today };
  })

unfoldable pub delta_rebase :
    String → MilestoneFile → (String → Loaded) → Result DeltaError MilestoneFile
delta_rebase today m load = do
  bail_if (not (is_delta_kind m)) not_a_delta
  bail_if (is_empty m.delta.domain) domain_required
  spec ← loaded (load m.delta.domain)
  ok (record m {
    delta = record m.delta { base_version = spec.domain.version };
    milestone = record m.milestone { updated = today };
  })
