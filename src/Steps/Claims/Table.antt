-- ===== src/Steps/Claims/Table.antt =====
-- The claims of a milestone as an abstract table of leases, crates/mp/src/step_claim.rs.
use master_plan.Prelude.{
  String, ◌≡◌, refl, sym, ◌∙◌, inl, inr, Bool, true, false, Option, none, some, str_eq, eq_iff,
  if◌then◌else◌, Bool-cases, Option-cases, find, str_eq_refl, ok, ok-injective,
}
use master_plan.Prelude.Text.{is_empty}
use master_plan.Model.Milestone.{MilestoneFile, Step}
use master_plan.Steps.Edit.{has_id}
use master_plan.Steps.Edit.Lookup.{find_updated, find_other}
use master_plan.Steps.Claims.{Duration, parse_duration, step_claim_active, claimed, claim_step}
use master_plan.Steps.Claims.Laws.{claim_step_active_until_expiry, inverted, lease_due, filled}

-- A step is free, or held by someone, for good or up to a time.
pub data Lease (Instant : Type 0) : Type 0 where
  free : Lease Instant
  held : String → Option Instant → Lease Instant

abbrev pub is_held :
    {Instant : Type 0} → (Instant → Instant → Bool) → Instant → Lease Instant → Bool
is_held is_after now free = false
is_held is_after now (held _ none) = true
is_held is_after now (held _ (some end_)) = is_after end_ now

-- A table gives the lease of each step id.
abbrev pub Table : Type 0 → Type 0
Table Instant = String → Option (Lease Instant)

abbrev pub set_lease : {Instant : Type 0} → String → Lease Instant → Table Instant → Table Instant
set_lease id l table x = if str_eq id x then some l else table x

module _ {Instant : Type 0} (is_after : Instant → Instant → Bool)
    (parse_from_rfc3339 : String → Option Instant) (to_rfc3339 : Instant → String)
    (plus : Instant → Duration → Instant) where
  -- What the fields of a step stand for.
  abbrev pub lease_of : Step → Lease Instant
  lease_of s =
      if is_empty s.claimed_by
      then free
      else held s.claimed_by
          (if is_empty s.lease_expires_at then none else parse_from_rfc3339 s.lease_expires_at)

  abbrev pub table_of : MilestoneFile → Table Instant
  table_of m x = elim (find (has_id x) m.steps) [ none ↦ none | some s ↦ some (lease_of s) ]

  -- `step_claim_active` is the test of the abstract lease.
  pub step_claim_active-is_held :
      (now : Instant) (s : Step)
      → step_claim_active is_after parse_from_rfc3339 to_rfc3339 plus now s
        ≡ is_held is_after now (lease_of s)
  unfolding step_claim_active
  step_claim_active-is_held now s = elim (Bool-cases (is_empty s.claimed_by)) [
    | inl e ↦ rw e refl
    | inr e ↦ elim (Bool-cases (is_empty s.lease_expires_at)) [
      | inl f ↦ rw (e, f) refl
      | inr f ↦ elim (Option-cases (parse_from_rfc3339 s.lease_expires_at)) [
        | inl g ↦ rw (e, f, g) refl
        | inr (t, g) ↦ rw (e, f, g) refl
      ]
    ]
  ]

  -- Claiming a step for a time sets its lease in the table of leases, from the holder up to the
  -- time of the claim plus the duration that is asked for, and changes no other lease, where
  -- printed times are read back; a step counts as claimed exactly while its lease is held.
  pub claim_step_refines_table :
      (today now : String) (m m' : MilestoneFile) (step_id claimed_by raw : String) (s : Step)
      → claim_step is_after parse_from_rfc3339 to_rfc3339 plus today now m step_id claimed_by
          (some raw)
        ≡ ok (m', s)
      → ((t : Instant) → parse_from_rfc3339 (to_rfc3339 t) ≡ some t)
      → ((t : Instant) → is_empty (to_rfc3339 t) ≡ false)
      → (start : Instant) → parse_from_rfc3339 now ≡ some start
      → (duration : Duration) → parse_duration raw ≡ ok duration
      → (x : String) (utc_now : Instant)
      → (table_of m' x
          ≡ set_lease step_id (held claimed_by (some (plus start duration))) (table_of m) x)
        × (step_claim_active is_after parse_from_rfc3339 to_rfc3339 plus utc_now s
            ≡ is_after (plus start duration) utc_now)
  claim_step_refines_table today now m m' step_id claimed_by raw s claim read_back not_blank start
        at duration asked x utc_now =
      let (old, expires, found, text, stored, given, by) =
        inverted is_after parse_from_rfc3339 to_rfc3339 plus today now m m' step_id claimed_by
          (some raw) s claim in
      let due : expires ≡ to_rfc3339 (plus start duration) = sym (
        ok-injective (
          sym (
            lease_due is_after parse_from_rfc3339 to_rfc3339 plus today now m m' step_id claimed_by
              (some raw) s claim raw start duration refl at asked)
          ∙ text)) in
      let named = filled claimed_by by in
      (
        elim (Bool-cases (str_eq step_id x)) [
          | inl e ↦
              (let same : x ≡ step_id = sym ((eq_iff step_id x).0 e) in
                rw (same, sym stored)
                  (rw
                    (
                      find_updated (has_id step_id) (claimed claimed_by now expires) (λ t. refl)
                          m.steps found,
                      table_of,
                      lease_of,
                      str_eq_refl step_id,
                      named,
                      due,
                      not_blank (plus start duration),
                      read_back (plus start duration),
                    )
                    refl))
          | inr e ↦ rw (sym stored) (
              rw
                (
                  find_other step_id (claimed claimed_by now expires) (λ t. refl) x m.steps e,
                  table_of,
                  e,
                )
                refl)
        ],
        claim_step_active_until_expiry is_after parse_from_rfc3339 to_rfc3339 plus today now m m'
            step_id claimed_by (some raw) s claim read_back not_blank raw refl start at duration
            asked utc_now,
      )
