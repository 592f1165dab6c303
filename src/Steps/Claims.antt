-- ===== src/Steps/Claims.antt =====
-- crates/mp/src/step_claim.rs: claims on steps and their leases. chrono is a parameter: its instants
-- with their order, RFC 3339 texts, and the sum of an instant and a duration.
pub mod Laws
pub mod Table
use master_plan.Prelude.{
  ℕ, zero, suc, ◌+◌, ◌-◌, ◌*◌, ◌/◌, ◌%◌, ◌≤◌, ◌<◌, max, String, ◌≡◌, refl, sym, ap, subst, ◌∙◌, ◌≢◌,
  ◌↔◌, ◌⊎◌, inl, inr, Bool, true, false, not, ◌&&◌, ◌||◌, Option, none, some, List, [], ◌∷◌, ◌++◌,
  map, arith, str_eq, eq_iff, ltb, leb, ◌==◌, if◌then◌else◌, Bool-cases, Option-cases, and_true,
  or_eq_false, or_false, length, any, all, find, filter, update_first, remove_first, contains_str,
  distinct, filter-eq-nil, not-true, and_eq_true, str_eq_comm, str_eq_refl, Result, ok, err, ◌>>=◌,
  ◌>>◌, bail_if, is_nil, nil_of, append-eq-nil, is_nil-append, not-false, bind-eq-ok, bail_if-eq-ok,
  ok-injective, some-injective, distinct-snoc, one_if, count, count-append, count-snoc,
  contains_of_count, count_of_contains, count_of_absent, count-distinct, length-le_of_counts,
  counts_of_length, one_if-le, count-filter, before, before-append_left, before-snoc_self,
  contains_cases, Memᴰ, insert_by, sort_by, take, position, length-take, mem-take, mem-insert_by,
  mem-sort_by, length-sort_by, length-insert_by, mem-filter,
}
use master_plan.Prelude.Text.{is_empty, trim}
use master_plan.Prelude.Text.Integers.{Int64, parse_i64, strip_suffix}
use master_plan.Model.Milestone.{MilestoneFile, Step}
use master_plan.Lifecycle.Meta.{MilestoneMeta}
use master_plan.Steps.Edit.{has_id, touch}
use master_plan.Steps.Progress.{clear_claim}

pub data ClaimError : Type 0 where
  by_required : ClaimError
  step_not_found invalid_timestamp invalid_duration : String → ClaimError
  invalid_minutes invalid_hours invalid_days : ClaimError

-- `Duration::minutes(n)`, `Duration::hours(n)` and `Duration::days(n)`.
pub data Duration : Type 0 where
  minutes hours days : Int64 → Duration

abbrev pub or_err {μ ℓ} : {E : Type μ} {A : Type ℓ} → Option A → E → Result E A
or_err none e = err e
or_err (some a) e = ok a

abbrev pub or_else {ℓ} : {A : Type ℓ} → Option A → Option A → Option A
or_else none b = b
or_else (some a) b = some a

unfoldable pub parse_duration : String → Result ClaimError Duration
parse_duration raw =
    let s = trim raw in
    elim (or_else (strip_suffix "m" s) (strip_suffix "min" s)) [
      | some mins ↦ (do n ← or_err (parse_i64 mins) invalid_minutes; ok (minutes n))
      | none ↦ elim (strip_suffix "h" s) [
        | some text ↦ (do n ← or_err (parse_i64 text) invalid_hours; ok (hours n))
        | none ↦ elim (strip_suffix "d" s) [
          | some text ↦ (do n ← or_err (parse_i64 text) invalid_days; ok (days n))
          | none ↦ err (invalid_duration raw)
        ]
      ]
    ]

abbrev pub claimed : String → String → String → Step → Step
claimed claimed_by now lease s = record s {
  claimed_by = claimed_by;
  claimed_at = now;
  lease_expires_at = lease;
}

module _ {Instant : Type 0} (is_after : Instant → Instant → Bool)
    (parse_from_rfc3339 : String → Option Instant) (to_rfc3339 : Instant → String)
    (plus : Instant → Duration → Instant) where
  unfoldable pub parse_lease_expiry : String → String → Result ClaimError String
  parse_lease_expiry from lease = do
    start ← or_err (parse_from_rfc3339 from) (invalid_timestamp from)
    duration ← parse_duration lease
    ok (to_rfc3339 (plus start duration))

  -- `utc_now` is the time of the call.
  unfoldable pub step_claim_active : Instant → Step → Bool
  step_claim_active utc_now step =
      if is_empty step.claimed_by
      then false
      else if is_empty step.lease_expires_at
      then true
      else elim (parse_from_rfc3339 step.lease_expires_at) [
        | none ↦ true
        | some expires ↦ is_after expires utc_now
      ]

  unfoldable pub lease_text : String → Option String → Result ClaimError String
  lease_text now none = ok ""
  lease_text now (some raw) = parse_lease_expiry now raw

  -- `now` is the text of `now_rfc3339`. The answer is the milestone that is written and the step.
  unfoldable pub claim_step :
      String
      → String
      → MilestoneFile
      → String
      → String
      → Option String
      → Result ClaimError (MilestoneFile × Step)
  claim_step today now m step_id claimed_by lease = do
    bail_if (is_empty (trim claimed_by)) by_required
    step ← or_err (find (has_id step_id) m.steps) (step_not_found step_id)
    expires ← lease_text now lease
    ok (
      touch today (record m {
        steps = update_first (has_id step_id) (claimed claimed_by now expires) m.steps;
      }),
      claimed claimed_by now expires step,
    )

unfoldable pub release_step :
    String → MilestoneFile → String → Result ClaimError (MilestoneFile × Step)
release_step today m step_id = do
  step ← or_err (find (has_id step_id) m.steps) (step_not_found step_id)
  ok (
    touch today (record m { steps = update_first (has_id step_id) clear_claim m.steps }),
    clear_claim step,
  )
