-- ===== src/Specs/Merging.antt =====
-- What merging a delta does to a domain spec, crates/mp/src/delta.rs.
use master_plan.Prelude.{
  ◌+◌, ◌<◌, String, ◌≡◌, refl, sym, ap, ◌∙◌, ◌≢◌, inl, inr, Bool, true, false, not, List, [], ◌∷◌,
  ◌++◌, arith, str_eq, Bool-cases, any, filter, update_first, contains_str, distinct, ok, err,
  is_nil, is_nil-append, not-false, bind-eq-ok, bail_if-eq-ok, ok-injective, distinct-snoc,
}
use master_plan.Prelude.Text.{is_empty}
use master_plan.Prelude.Text.Decimal.{u32_max}
use master_plan.Model.Milestone.{MilestoneFile, DeltaAdded, DeltaModified, DeltaRemoved}
use master_plan.Specs.{
  DomainRequirement, DomainSpecFile, Loaded, is_delta_kind, req_ids, has_req_id, apply_removed,
  apply_modified, apply_added, with_id, merge_delta_into_domain, validate_delta_milestone, loaded,
  saturating_suc, version_issues, domain_requirement_from_added, delta_rebase, gate_errors,
}
use master_plan.Ceremony.Errors.{gate_errors}

contains-filter :
    (p : DomainRequirement → Bool) (rs : List DomainRequirement) (x : String)
    → contains_str (req_ids rs) x ≡ false
    → contains_str (req_ids (filter p rs)) x ≡ false
contains-filter p [] x h = refl
contains-filter p (r ∷ rs) x h = ground (arith, contains-filter p rs x)

distinct-filter :
    (p : DomainRequirement → Bool) (rs : List DomainRequirement)
    → distinct (req_ids rs) ≡ true
    → distinct (req_ids (filter p rs)) ≡ true
distinct-filter p [] h = refl
distinct-filter p (r ∷ rs) h = ground (arith, distinct-filter p rs, contains-filter p rs r.id)

apply_removed-distinct :
    (ds : List DeltaRemoved) (rs : List DomainRequirement)
    → distinct (req_ids rs) ≡ true
    → distinct (req_ids (apply_removed ds rs)) ≡ true
unfolding apply_removed
apply_removed-distinct [] rs h = h
apply_removed-distinct (d ∷ ds) rs h =
    apply_removed-distinct ds _ (distinct-filter (λ r. not (has_req_id d.target r)) rs h)

reworded_ids :
    (target after : String) (rs : List DomainRequirement)
    → req_ids (update_first (has_req_id target) (λ r. record r { statement = after }) rs)
      ≡ req_ids rs
reworded_ids target after [] = refl
reworded_ids target after (r ∷ rs) = elim (Bool-cases (str_eq r.id target)) [
  | inl e ↦ rw e refl
  | inr e ↦ rw (e, reworded_ids target after rs) refl
]

apply_modified-ids :
    (ds : List DeltaModified) (rs rs' : List DomainRequirement)
    → apply_modified ds rs ≡ ok rs'
    → req_ids rs' ≡ req_ids rs
unfolding apply_modified
apply_modified-ids [] rs rs' h = ap req_ids (sym (ok-injective h))
apply_modified-ids (d ∷ ds) rs rs' h =
    let (_, h1) = bail_if-eq-ok _ _ _ h in
    apply_modified-ids ds _ rs' h1 ∙ reworded_ids d.target d.after rs

ids-snoc :
    (rs : List DomainRequirement) (r : DomainRequirement)
    → req_ids (rs ++ r ∷ []) ≡ req_ids rs ++ r.id ∷ []
ids-snoc [] r = refl
ids-snoc (q ∷ rs) r = ap (λ (l : List String). q.id ∷ l) (ids-snoc rs r)

any-ids :
    (rs : List DomainRequirement) (x : String) → any (has_req_id x) rs ≡ contains_str (req_ids rs) x
any-ids [] x = refl
any-ids (r ∷ rs) x = rw (any-ids rs x) refl

apply_added-distinct :
    (as_ : List DeltaAdded) (rs rs' : List DomainRequirement)
    → distinct (req_ids rs) ≡ true
    → apply_added as_ rs ≡ ok rs'
    → distinct (req_ids rs') ≡ true
unfolding apply_added domain_requirement_from_added
apply_added-distinct [] rs rs' d h = rw (sym (ok-injective h)) d
apply_added-distinct (a ∷ as_) rs rs' d h =
    let item = with_id rs a in
    let (new, h1) = bail_if-eq-ok (any (has_req_id item.id) rs) _ _ h in
    apply_added-distinct as_ (rs ++ domain_requirement_from_added item ∷ []) rs'
      (rw (ids-snoc rs (domain_requirement_from_added item))
        (distinct-snoc (req_ids rs) item.id d (sym (any-ids rs item.id) ∙ new)))
      h1

-- What an accepted merge went through.
merge-eq-ok :
    (today : String) (m : MilestoneFile) (load : String → Loaded) (spec' : DomainSpecFile)
    → merge_delta_into_domain today m load ≡ ok spec'
    → (spec : DomainSpecFile) × (modified added : List DomainRequirement) × (is_delta_kind m ≡ true)
      × (is_nil (validate_delta_milestone m load) ≡ true)
      × (loaded (load m.delta.domain) ≡ ok spec)
      × (apply_modified m.delta.modified (apply_removed m.delta.removed spec.requirements)
          ≡ ok modified)
      × (apply_added m.delta.added modified ≡ ok added)
      × (record spec {
        requirements = added;
        domain = record spec.domain {
          version = saturating_suc m.delta.base_version;
          updated = today;
        };
      }
          ≡ spec')
unfolding merge_delta_into_domain
merge-eq-ok today m load spec' h =
    let (kind, h1) = bail_if-eq-ok _ _ _ h in
    let (clean, h2) = bail_if-eq-ok _ _ _ h1 in
    let (spec, a, h3) = bind-eq-ok (loaded (load m.delta.domain)) _ h2 in
    let (modified, b, h4) =
      bind-eq-ok (apply_modified m.delta.modified (apply_removed m.delta.removed spec.requirements))
        _ h3 in
    let (added, c, h5) = bind-eq-ok (apply_added m.delta.added modified) _ h4 in
    (spec, modified, added, not-false kind, not-false clean, a, b, c, ok-injective h5)

-- Merging a delta into a domain whose requirement ids are distinct keeps them distinct.
pub merge_delta_into_domain-distinct :
    (today : String) (m : MilestoneFile) (load : String → Loaded) (spec spec' : DomainSpecFile)
    → load m.delta.domain ≡ Loaded.found spec
    → distinct (req_ids spec.requirements) ≡ true
    → merge_delta_into_domain today m load ≡ ok spec'
    → distinct (req_ids spec'.requirements) ≡ true
merge_delta_into_domain-distinct today m load spec spec' loads d merged =
    let (spec0, modified, added, _, _, a, b, c, e) = merge-eq-ok today m load spec' merged in
    let same : spec ≡ spec0 = ok-injective (sym (ap loaded loads) ∙ a) in
    let start = apply_removed-distinct m.delta.removed spec.requirements d in
    let kept : distinct (req_ids modified) ≡ true =
      ap distinct (apply_modified-ids m.delta.modified _ modified b)
      ∙ ap
          (λ (s : DomainSpecFile).
            distinct (req_ids (apply_removed m.delta.removed s.requirements)))
          (sym same)
      ∙ start in
    rw (sym e) (apply_added-distinct m.delta.added modified added kept c)

refused :
    (today : String) (m : MilestoneFile) (load : String → Loaded)
    → is_delta_kind m ≡ true
    → is_nil (validate_delta_milestone m load) ≡ false
    → merge_delta_into_domain today m load ≡ err (gate_errors (validate_delta_milestone m load))
unfolding merge_delta_into_domain
refused today m load kind problems = rw (kind, problems) refl

stale :
    (m : MilestoneFile) (spec : DomainSpecFile)
    → spec.domain.version ≢ m.delta.base_version
    → is_nil (version_issues m spec) ≡ false
stale m spec h = ground arith

outdated :
    (m : MilestoneFile) (load : String → Loaded) (spec : DomainSpecFile)
    → is_delta_kind m ≡ true
    → load m.delta.domain ≡ Loaded.found spec
    → spec.domain.version ≢ m.delta.base_version
    → is_nil (validate_delta_milestone m load) ≡ false
unfolding validate_delta_milestone
outdated m load spec kind loads h = elim (Bool-cases (is_empty m.delta.domain)) [
  | inl e ↦ rw (kind, e) refl
  | inr e ↦ rw (kind, e, loads, is_nil-append (version_issues m spec) _, stale m spec h) refl
]

-- A delta is merged once: after an accepted merge the spec has the next version, and the same
-- delta is refused against it by the gates, unless the version counter is at its maximum.
pub merge_delta_into_domain_once :
    (today : String) (m : MilestoneFile) (load : String → Loaded) (spec' : DomainSpecFile)
    → merge_delta_into_domain today m load ≡ ok spec'
    → m.delta.base_version < u32_max
    → (later : String) (reload : String → Loaded) → reload m.delta.domain ≡ Loaded.found spec'
    → (spec'.domain.version ≡ m.delta.base_version + 1)
      × (merge_delta_into_domain later m reload
          ≡ err (gate_errors (validate_delta_milestone m reload)))
merge_delta_into_domain_once today m load spec' merged small later reload loads =
    let (spec, modified, added, kind, _, _, _, _, e) = merge-eq-ok today m load spec' merged in
    let next : spec'.domain.version ≡ m.delta.base_version + 1 =
      sym (ap (λ (s : DomainSpecFile). s.domain.version) e) ∙ ground arith in
    (next, refused later m reload kind (outdated m reload spec' kind loads (omega (arith, next))))

-- A delta that was rebased onto a spec has no version issue against it, if the spec has a version.
pub delta_rebase_current :
    (today : String) (m m' : MilestoneFile) (load : String → Loaded) (spec : DomainSpecFile)
    → load m.delta.domain ≡ Loaded.found spec
    → spec.domain.version ≢ 0
    → delta_rebase today m load ≡ ok m'
    → (version_issues m' spec ≡ [])
      × (m'.delta.added ≡ m.delta.added)
      × (m'.delta.modified ≡ m.delta.modified)
      × (m'.delta.removed ≡ m.delta.removed)
unfolding delta_rebase
delta_rebase_current today m m' load spec loads some_version rebased =
    let (_, h1) = bail_if-eq-ok (not (is_delta_kind m)) _ _ rebased in
    let (_, h2) = bail_if-eq-ok (is_empty m.delta.domain) _ _ h1 in
    let (spec0, found_spec, h3) = bind-eq-ok (loaded (load m.delta.domain)) _ h2 in
    let same_spec : spec ≡ spec0 = ok-injective (sym (ap loaded loads) ∙ found_spec) in
    rw (same_spec, sym (ok-injective h3)) (ground arith, refl, refl, refl)
