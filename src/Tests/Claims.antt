-- ===== src/Tests/Claims.antt =====
-- Claims on a step, with times written in unary.
use master_plan.Prelude.{
  ℕ, zero, suc, ◌+◌, ◌-◌, ◌*◌, ◌/◌, ◌%◌, ◌≤◌, ◌<◌, max, String, ◌≡◌, refl, sym, ap, subst, ◌∙◌, ◌≢◌,
  ◌↔◌, ◌⊎◌, inl, inr, Bool, true, false, not, ◌&&◌, ◌||◌, Option, none, some, ◌++◌, map, arith,
  str_eq, eq_iff, ltb, leb, ◌==◌, if◌then◌else◌, Bool-cases, Option-cases, and_true, or_eq_false,
  or_false, length, any, all, find, filter, update_first, remove_first, contains_str, distinct,
  filter-eq-nil, not-true, and_eq_true, str_eq_comm, str_eq_refl, Result, ok, err, ◌>>=◌, ◌>>◌,
  bail_if, is_nil, nil_of, append-eq-nil, is_nil-append, not-false, bind-eq-ok, bail_if-eq-ok,
  ok-injective, some-injective, distinct-snoc, one_if, count, count-append, count-snoc,
  contains_of_count, count_of_contains, count_of_absent, count-distinct, length-le_of_counts,
  counts_of_length, one_if-le, count-filter, before, before-append_left, before-snoc_self,
  contains_cases, Memᴰ, insert_by, sort_by, take, position, length-take, mem-take, mem-insert_by,
  mem-sort_by, length-sort_by, length-insert_by, mem-filter, mem-filter_of, Result-cases,
  SameMembers, members_refl, members_trans, members_cons, members_swap, sort_by-same,
}
use Prim.Native.String.{[], ◌∷◌}
use master_plan.Steps.Claims.{minutes, hours, days}
use Prim.Native.Char.{code}
use master_plan.Prelude.Text.{is_empty}
use master_plan.Prelude.Text.Integers.{Int64}
use master_plan.Model.Milestone.{MilestoneFile, Step}
use master_plan.Steps.Claims.{claim_step, step_claim_active, Duration, minutes}
use master_plan.Steps.Claims.Table.{claim_step_refines_table, table_of, set_lease, held}
use master_plan.Steps.Claims.Laws.{claim_step_ignores_earlier_claim}
use master_plan.Tests.Samples.{sample, value_of}
use master_plan.Model.Milestone.{default_step}

abbrev later_than : ℕ → ℕ → Bool
later_than a b = ltb b a

abbrev clock_text : ℕ → String
clock_text zero = "Z"
clock_text (suc n) = "1" ∷ clock_text n

abbrev tick : Option ℕ → Option ℕ
tick none = none
tick (some n) = some (suc n)

abbrev read_clock : String → Option ℕ
read_clock [] = none
read_clock (c ∷ s) = if code c == b'Z' then some 0 else tick (read_clock s)

-- A minute is a tick.
abbrev ticks_after : ℕ → Duration → ℕ
ticks_after n (minutes k) = n + k.magnitude
ticks_after n (hours k) = n + 60 * k.magnitude
ticks_after n (days k) = n + 1440 * k.magnitude

read_clock-clock_text : (n : ℕ) → read_clock (clock_text n) ≡ some n
read_clock-clock_text zero = refl
read_clock-clock_text (suc n) = ap tick (read_clock-clock_text n)

clock_text-filled : (n : ℕ) → is_empty (clock_text n) ≡ false
clock_text-filled zero = refl
clock_text-filled (suc n) = refl

abbrev claimed_once : MilestoneFile × Step
claimed_once =
    value_of
      (claim_step later_than read_clock clock_text ticks_after "d" "1Z" sample "S2" "ana"
        (some "3m"))
      (sample, default_step)

claim_step_refines_table_example :
    (table_of later_than read_clock clock_text ticks_after claimed_once.0 "S2"
      ≡ set_lease "S2"
          (held "ana" (some 4))
          (table_of later_than read_clock clock_text ticks_after sample)
          "S2")
    × (step_claim_active later_than read_clock clock_text ticks_after 2 claimed_once.1
        ≡ later_than 4 2)
unfolding claim_step master_plan.Prelude.Text.trim master_plan.Prelude.Text.trim_end
    master_plan.Prelude.Text.trim_start master_plan.Steps.Claims.lease_text
    master_plan.Steps.Claims.parse_lease_expiry master_plan.Steps.Claims.parse_duration
    master_plan.Prelude.Text.Integers.strip_suffix master_plan.Prelude.Text.Integers.parse_i64
    master_plan.Prelude.Text.Integers.parse_up_to step_claim_active
claim_step_refines_table_example =
    claim_step_refines_table later_than read_clock clock_text ticks_after "d" "1Z" sample
      claimed_once.0 "S2" "ana" "3m" claimed_once.1 refl read_clock-clock_text clock_text-filled 1
      refl (minutes (record { negative = false; magnitude = 3 })) refl "S2" 2

claim_step_ignores_earlier_claim_example :
    claim_step later_than read_clock clock_text ticks_after "d" "11Z" claimed_once.0 "S2" "bo" none
    ≡ claim_step later_than read_clock clock_text ticks_after "d" "11Z" sample "S2" "bo" none
unfolding claim_step master_plan.Prelude.Text.trim master_plan.Prelude.Text.trim_end
    master_plan.Prelude.Text.trim_start master_plan.Steps.Claims.lease_text
    master_plan.Steps.Claims.parse_lease_expiry master_plan.Steps.Claims.parse_duration
    master_plan.Prelude.Text.Integers.strip_suffix master_plan.Prelude.Text.Integers.parse_i64
    master_plan.Prelude.Text.Integers.parse_up_to
claim_step_ignores_earlier_claim_example =
    claim_step_ignores_earlier_claim later_than read_clock clock_text ticks_after "d" "1Z" sample
      claimed_once.0 "S2" "ana" (some "3m") claimed_once.1 refl "d" "11Z" "bo" none
