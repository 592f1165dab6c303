-- ===== src/Steps/Claims/Laws.antt =====
-- What a claim and a release leave behind, crates/mp/src/step_claim.rs.
use master_plan.Prelude.{
  String, ◌≡◌, refl, sym, ap, ◌∙◌, inl, inr, Bool, false, Option, none, some, List, [], ◌∷◌,
  Bool-cases, find, update_first, ok, bind-eq-ok, bail_if-eq-ok, ok-injective, Result-cases,
}
use master_plan.Prelude.Text.{is_empty, trim, trim_end, trim_start}
use master_plan.Model.Milestone.{MilestoneFile, Step}
use master_plan.Steps.Edit.{has_id, touch}
use master_plan.Steps.Progress.{clear_claim}
use Prim.Native.String.{[] as blank, ◌∷◌ as ◌▹◌}
use master_plan.Steps.Edit.Lookup.{find_updated}
use master_plan.Steps.Claims.{
  Duration, or_err, parse_duration, parse_lease_expiry, step_claim_active, lease_text, claimed,
  claim_step, release_step, step_not_found,
}

-- `g` keeps what `p` tests and is undone by `f`.
module _ (p : Step → Bool) (f g : Step → Step) (kept : (s : Step) → p (g s) ≡ p s)
    (undone : (s : Step) → f (g s) ≡ f s) where
  update_twice : (xs : List Step) → update_first p f (update_first p g xs) ≡ update_first p f xs
  update_twice [] = refl
  update_twice (x ∷ xs) = elim (Bool-cases (p x)) [
    | inl e ↦ rw (e, kept x, e, undone x) refl
    | inr e ↦ rw (e, e, update_twice xs) refl
  ]

or_err-eq-ok :
    {A : Type 0} {E : Type 0} (o : Option A) (e : E) {a : A} → or_err o e ≡ ok a → o ≡ some a
or_err-eq-ok none e h = cc
or_err-eq-ok (some b) e h = ap some (ok-injective h)

pub filled : (s : String) → is_empty (trim s) ≡ false → is_empty s ≡ false
unfolding trim trim_end trim_start
filled blank h = h
filled (c ▹ s) h = refl

module _ {Instant : Type 0} (is_after : Instant → Instant → Bool)
    (parse_from_rfc3339 : String → Option Instant) (to_rfc3339 : Instant → String)
    (plus : Instant → Duration → Instant) where
  module _ (today now : String) (m m' : MilestoneFile) (step_id claimed_by : String)
      (lease : Option String) (s : Step)
      (claim : claim_step is_after parse_from_rfc3339 to_rfc3339 plus today now m step_id claimed_by
          lease
        ≡ ok (m', s)) where
    abbrev pub Inverted : Type 0
    Inverted =
        (old : Step) × (expires : String) × (find (has_id step_id) m.steps ≡ some old)
        × (lease_text is_after parse_from_rfc3339 to_rfc3339 plus now lease ≡ ok expires)
        × (touch today (record m {
          steps = update_first (has_id step_id) (claimed claimed_by now expires) m.steps;
        })
            ≡ m')
        × (claimed claimed_by now expires old ≡ s)
        × (is_empty (trim claimed_by) ≡ false)

    pub lease_due :
        (raw : String) (start : Instant) (duration : Duration)
        → lease ≡ some raw
        → parse_from_rfc3339 now ≡ some start
        → parse_duration raw ≡ ok duration
        → lease_text is_after parse_from_rfc3339 to_rfc3339 plus now lease
          ≡ ok (to_rfc3339 (plus start duration))
    unfolding lease_text parse_lease_expiry
    lease_due raw start duration with_lease at asked = rw (with_lease, lease_text, at, asked) refl

    pub inverted : Inverted
    unfolding claim_step
    inverted =
        let (by, h1) = bail_if-eq-ok (is_empty (trim claimed_by)) _ _ claim in
        let (old, found, h2) =
          bind-eq-ok (or_err (find (has_id step_id) m.steps) (step_not_found step_id)) _ h1 in
        let (expires, text, h3) =
          bind-eq-ok (lease_text is_after parse_from_rfc3339 to_rfc3339 plus now lease) _ h2 in
        let pair = ok-injective h3 in
        (
          old,
          expires,
          or_err-eq-ok _ _ found,
          text,
          ap (λ (r : MilestoneFile × Step). r.0) pair,
          ap (λ (r : MilestoneFile × Step). r.1) pair,
          by,
        )

    -- Releasing a step after it was claimed leaves what releasing it at once leaves, whoever held
    -- it before.
    pub release_step-claim_step :
        (later : String) → release_step later m' step_id ≡ release_step later m step_id
    unfolding release_step
    release_step-claim_step later =
        let (old, expires, found, text, stored, given, by) = inverted in
        rw (sym stored) (
          rw
            (
              find_updated (has_id step_id) (claimed claimed_by now expires) (λ t. refl) m.steps
                  found,
              found,
              update_twice (has_id step_id) clear_claim (claimed claimed_by now expires) (λ t. refl)
                  (λ t. refl) m.steps,
            )
            refl)

    -- A claim takes the step over from whoever holds it: after an earlier claim, expired or not,
    -- a second claim returns and stores what it does without the earlier one.
    pub claim_step_ignores_earlier_claim :
        (later now2 second : String) (lease2 : Option String)
        → claim_step is_after parse_from_rfc3339 to_rfc3339 plus later now2 m' step_id second lease2
          ≡ claim_step is_after parse_from_rfc3339 to_rfc3339 plus later now2 m step_id second
              lease2
    unfolding claim_step
    claim_step_ignores_earlier_claim later now2 second lease2 =
        let (old, expires, found, text, stored, given, by) = inverted in
        let found_again =
          find_updated (has_id step_id) (claimed claimed_by now expires) (λ t. refl) m.steps
            found in
        elim (Result-cases (lease_text is_after parse_from_rfc3339 to_rfc3339 plus now2 lease2)) [
          | inl (expires2, e) ↦ rw (sym stored) (
              rw
                (
                  found_again,
                  found,
                  e,
                  update_twice (has_id step_id) (claimed second now2 expires2)
                      (claimed claimed_by now expires) (λ t. refl) (λ t. refl) m.steps,
                )
                refl)
          | inr (problem, e) ↦ rw (sym stored) (rw (found_again, found, e) refl)
        ]

    -- Where texts are read back as the instants that they were written from, a claim with a lease
    -- is active at exactly the times before the end of the lease, which is the time of the claim
    -- plus the duration that is asked for.
    pub claim_step_active_until_expiry :
        ((t : Instant) → parse_from_rfc3339 (to_rfc3339 t) ≡ some t)
        → ((t : Instant) → is_empty (to_rfc3339 t) ≡ false)
        → (raw : String) → lease ≡ some raw
        → (start : Instant) → parse_from_rfc3339 now ≡ some start
        → (duration : Duration) → parse_duration raw ≡ ok duration
        → (utc_now : Instant)
        → step_claim_active is_after parse_from_rfc3339 to_rfc3339 plus utc_now s
          ≡ is_after (plus start duration) utc_now
    unfolding step_claim_active
    claim_step_active_until_expiry read_back not_blank raw with_lease start at duration asked
          utc_now =
        let (old, expires, found, text, stored, given, by) = inverted in
        let due : expires ≡ to_rfc3339 (plus start duration) =
          sym (ok-injective (sym (lease_due raw start duration with_lease at asked) ∙ text)) in
        rw (sym given, due)
          (rw
            (filled claimed_by by, not_blank (plus start duration), read_back (plus start duration))
            refl)
