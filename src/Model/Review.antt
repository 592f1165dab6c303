-- ===== src/Model/Review.antt =====
-- The review comments and hand-offs of crates/mp-model/src/milestone.rs, and the reviews file of
-- crates/mp/src/reviews.rs.
use master_plan.Prelude.{
  ℕ, String, Bool, false, not, ◌&&◌, Option, none, some, List, map, ltb, Result, ◌>>◌, bail_if,
}
use master_plan.Prelude.Text.{is_empty, trim, push_str, strip_prefix, byte_len, all_digits}
use master_plan.Prelude.Text.Decimal.{show_02}
use master_plan.Prelude.Text.Integers.{parse_usize, add_one_usize}
use master_plan.Ids.{largest}
use master_plan.Model.Milestone.{FindingAnchor}

pub record ReviewRecord : Type 0 where
  pub milestone_id : String
  pub verdict : String
  pub reviewer : String
  pub reviewed_at : String
  pub notes : String
  pub milestone_completed_at : String

pub record ReviewComment : Type 0 where
  pub id : String
  pub milestone_id : String
  pub author : String
  pub body : String
  pub finding_id : String
  pub created_at : String
  pub anchor : Option FindingAnchor

pub record ReviewHandoff : Type 0 where
  pub id : String
  pub milestone_id : String
  pub from_session : String
  pub to_session : String
  pub from_role : String
  pub to_role : String
  pub handed : String
  pub session_boundary : String
  pub evidence : String
  pub created_at : String

pub record ReviewsFile : Type 0 where
  pub reviews : List ReviewRecord
  pub comments : List ReviewComment
  pub handoffs : List ReviewHandoff

pub data DraftError : Type 0 where
  author_required body_required session_required data_required : DraftError
  bad_finding_id bad_timestamp : String → DraftError

unfoldable pub is_valid_finding_id : String → Bool
is_valid_finding_id value =
    ltb 2 (byte_len value)
    && elim (strip_prefix "F-" value) [ none ↦ false | some s ↦ all_digits s ]

module _ (is_rfc3339 : String → Bool) where
  unfoldable pub validate_comment : String → String → String → String → Result DraftError (Unit {0})
  unfolding is_valid_finding_id
  validate_comment author body finding_id created_at = do
    bail_if (is_empty (trim author)) author_required
    bail_if (is_empty (trim body)) body_required
    bail_if (not (is_empty finding_id) && not (is_valid_finding_id finding_id))
        (bad_finding_id finding_id)
    bail_if (not (is_empty created_at) && not (is_rfc3339 created_at)) (bad_timestamp created_at)

  unfoldable pub validate_handoff : String → String → String → String → Result DraftError (Unit {0})
  validate_handoff from_session to_session handed created_at = do
    bail_if (is_empty (trim from_session) && is_empty (trim to_session)) session_required
    bail_if (is_empty (trim handed)) data_required
    bail_if (not (is_empty created_at) && not (is_rfc3339 created_at)) (bad_timestamp created_at)

-- The number behind a prefix, and the next id of the ones in use.
unfoldable pub number_behind : String → String → Option ℕ
number_behind prefix id = elim (strip_prefix prefix id) [ none ↦ none | some s ↦ parse_usize s ]

abbrev pub next_number : String → List String → String
next_number prefix ids =
    push_str prefix (show_02 (add_one_usize (largest (number_behind prefix) 0 ids)))

unfoldable pub next_comment_id : List ReviewComment → String
next_comment_id comments = next_number "C-" (map (λ c. c.id) comments)

unfoldable pub next_handoff_id : List ReviewHandoff → String
next_handoff_id handoffs = next_number "H-" (map (λ h. h.id) handoffs)
