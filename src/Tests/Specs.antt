-- ===== src/Tests/Specs.antt =====
-- The merge of a delta into a domain spec.
use master_plan.Prelude.{
  ℕ, zero, suc, ◌+◌, ◌-◌, ◌*◌, ◌/◌, ◌%◌, ◌≤◌, ◌<◌, max, String, ◌≡◌, refl, sym, ap, subst, ◌∙◌, ◌≢◌,
  ◌↔◌, ◌⊎◌, inl, inr, Bool, true, false, not, ◌&&◌, ◌||◌, Option, none, some, List, [], ◌∷◌, ◌++◌,
  map, arith, str_eq, eq_iff, ltb, leb, ◌==◌, if◌then◌else◌, Bool-cases, Option-cases, and_true,
  or_eq_false, or_false, length, any, all, find, filter, update_first, remove_first, contains_str,
  distinct, filter-eq-nil, not-true, and_eq_true, str_eq_comm, str_eq_refl, Result, ok, err, ◌>>=◌,
  ◌>>◌, bail_if, is_nil, nil_of, append-eq-nil, is_nil-append, not-false, bind-eq-ok, bail_if-eq-ok,
  ok-injective, some-injective, distinct-snoc, one_if, count, count-append, count-snoc,
  contains_of_count, count_of_contains, count_of_absent, count-distinct, length-le_of_counts,
  counts_of_length, one_if-le, count-filter, before, before-append_left, before-snoc_self,
  contains_cases, Memᴰ, insert_by, sort_by, take, position, length-take, mem-take, mem-insert_by,
  mem-sort_by, length-sort_by, length-insert_by, mem-filter, mem-filter_of, Result-cases,
  SameMembers, members_refl, members_trans, members_cons, members_swap, sort_by-same,
}
use master_plan.Prelude.Text.Decimal.{u32_max}
use master_plan.Model.Milestone.{MilestoneFile}
use master_plan.Tests.Samples.{sample, value_of}
use master_plan.Specs.{
  DomainSpecFile, Loaded, merge_delta_into_domain, validate_delta_milestone, req_ids, gate_errors,
  found, missing,
}
use master_plan.Specs.Merging.{merge_delta_into_domain-distinct, merge_delta_into_domain_once}

abbrev delta_milestone : MilestoneFile
delta_milestone = record sample {
  delta = record {
    domain = "store";
    base_version = 3;
    added = record { id = ""; statement = "locks are released"; scenarios = [] } ∷ [];
    modified =
        record { target = "REQ-02"; before = "files are replaced"; after = "renames are atomic" }
        ∷ [];
    removed = record { target = "REQ-01"; reason = "obsolete"; replacement = "" } ∷ [];
  };
}

abbrev store_spec : DomainSpecFile
store_spec = record {
  domain = record { id = "store"; title = "Store"; version = 3; updated = "d"; summary = "" };
  requirements =
      record { id = "REQ-01"; statement = "files are locked"; scenarios = [] }
      ∷ record { id = "REQ-02"; statement = "files are replaced"; scenarios = [] }
      ∷ [];
}

abbrev on_disk : DomainSpecFile → String → Loaded
on_disk spec domain = if str_eq domain "store" then found spec else missing

abbrev merged : DomainSpecFile
merged = value_of (merge_delta_into_domain "e" delta_milestone (on_disk store_spec)) store_spec

merge_delta_into_domain-distinct_example : distinct (req_ids merged.requirements) ≡ true
unfolding merge_delta_into_domain master_plan.Specs.is_delta_kind validate_delta_milestone
    master_plan.Specs.apply_modified master_plan.Specs.apply_removed master_plan.Specs.apply_added
    master_plan.Specs.next_req_id master_plan.Prelude.Text.push_str
    master_plan.Prelude.Text.Decimal.show_02 master_plan.Ids.largest
    master_plan.Prelude.Text.strip_prefix master_plan.Prelude.Text.Decimal.parse_u32
    master_plan.Prelude.Text.Decimal.show
merge_delta_into_domain-distinct_example =
    merge_delta_into_domain-distinct "e" delta_milestone (on_disk store_spec) store_spec merged refl
      refl refl

merge_delta_into_domain_once_example :
    (merged.domain.version ≡ 4)
    × (merge_delta_into_domain "f" delta_milestone (on_disk merged)
        ≡ err (gate_errors (validate_delta_milestone delta_milestone (on_disk merged))))
unfolding merge_delta_into_domain master_plan.Specs.is_delta_kind validate_delta_milestone
    master_plan.Specs.apply_modified master_plan.Specs.apply_removed master_plan.Specs.apply_added
    master_plan.Specs.next_req_id master_plan.Prelude.Text.push_str
    master_plan.Prelude.Text.Decimal.show_02 master_plan.Ids.largest
    master_plan.Prelude.Text.strip_prefix master_plan.Prelude.Text.Decimal.parse_u32
    master_plan.Prelude.Text.Decimal.show
merge_delta_into_domain_once_example =
    merge_delta_into_domain_once "e" delta_milestone (on_disk store_spec) merged refl (omega arith)
      "f" (on_disk merged) refl
