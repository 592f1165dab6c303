-- ===== src/Reviews/Handoffs.antt =====
-- Comments and hand-offs of crates/mp/src/reviews.rs. `is_rfc3339` is the parser of
-- crates/mp-model/src/datetime.rs; `session_var` and `role_var` are what the environment answers.
-- `now` is `now_rfc3339()`.
use master_plan.Prelude.{
  String, Bool, false, not, ◌&&◌, ◌||◌, Option, none, some, List, [], ◌∷◌, ◌++◌, str_eq, ltb, leb,
  if◌then◌else◌, any, filter, Result, ok, err, ◌>>◌, bail_if, sort_by,
}
use Prim.Native.Char.{Char, code}
use Prim.Native.String.{[] as blank, ◌∷◌ as ◌▹◌}
use master_plan.Prelude.Text.{is_empty, trim}
use master_plan.Model.Milestone.{MilestoneFile, FindingAnchor}
use master_plan.Model.Review.{
  ReviewComment, ReviewHandoff, ReviewsFile, DraftError, validate_comment, validate_handoff,
  next_comment_id, next_handoff_id,
}
use master_plan.Paths.{normalize_milestone_id}
use master_plan.Reviews.{str_ge}

pub data TrailError : Type 0 where
  invalid_draft : DraftError → TrailError
  unknown_finding : (finding_id milestone_id : String) → TrailError

abbrev pub drafted : Result DraftError (Unit {0}) → Result TrailError (Unit {0})
drafted (ok u) = ok u
drafted (err e) = err (invalid_draft e)

abbrev pub text_or : String → Option String → String
text_or d none = d
text_or d (some s) = s

abbrev pub filled_or : String → String → String
filled_or given d = if is_empty given then d else given

module _ (is_rfc3339 : String → Bool) (now : String) where
  -- The comment is stored behind the others. `m` is the milestone on disk.
  unfoldable pub add_comment :
      MilestoneFile
      → ReviewsFile
      → String
      → String
      → String
      → Option String
      → Option String
      → Option FindingAnchor
      → Result TrailError (ReviewsFile × ReviewComment)
  add_comment m file milestone_id author body finding created anchor = do
    let finding_id = text_or "" finding
    let created_at = text_or "" created
    let id = normalize_milestone_id milestone_id
    drafted (validate_comment is_rfc3339 author body finding_id created_at)
    bail_if (not (is_empty finding_id) && not (any (λ f. str_eq f.id finding_id) m.findings))
        (unknown_finding finding_id id)
    let comment : ReviewComment = record {
      id = next_comment_id file.comments;
      milestone_id = id;
      author = trim author;
      body = trim body;
      finding_id = finding_id;
      created_at = filled_or created_at now;
      anchor = anchor;
    }
    ok (record file { comments = file.comments ++ comment ∷ [] }, comment)

unfoldable pub list_comments : ReviewsFile → String → List ReviewComment
list_comments file milestone_id =
    let id = normalize_milestone_id milestone_id in
    sort_by (λ a b. str_ge b.created_at a.created_at)
      (filter (λ c. str_eq (normalize_milestone_id c.milestone_id) id) file.comments)

-- `char::is_control`: the code points of the category Cc.
abbrev pub is_control : Char → Bool
is_control c = ltb (code c) 0x20 || (leb 0x7f (code c) && ltb (code c) 0xa0)

abbrev pub any_char : (Char → Bool) → String → Bool
any_char p blank = false
any_char p (c ▹ s) = p c || any_char p s

-- What is kept of an environment variable.
unfoldable pub sanitize : Option String → Option String
sanitize none = none
sanitize (some raw) =
    let s = trim raw in if is_empty s then none else if any_char is_control s then none else some s

abbrev pub complement : String → String
complement role =
    if str_eq role "coordinator"
    then "runner"
    else if str_eq role "runner"
    then "coordinator"
    else ""

module _ (is_rfc3339 : String → Bool) (now : String) (session_var role_var : Option String) where
  unfoldable pub record_handoff :
      ReviewsFile
      → String
      → String
      → String
      → String
      → String
      → String
      → String
      → String
      → Option String
      → Result TrailError (ReviewsFile × ReviewHandoff)
  record_handoff file milestone_id from_session to_session from_role to_role handed boundary
        evidence created =
      do
        let created_at = text_or "" created
        let final_from_session = filled_or (trim from_session) (text_or "" (sanitize session_var))
        let final_to_session = filled_or (trim to_session) ""
        let final_from_role = filled_or (trim from_role) (text_or "" (sanitize role_var))
        let final_to_role = filled_or (trim to_role) (complement final_from_role)
        drafted (validate_handoff is_rfc3339 final_from_session final_to_session handed created_at)
        let handoff : ReviewHandoff = record {
          id = next_handoff_id file.handoffs;
          milestone_id = normalize_milestone_id milestone_id;
          from_session = final_from_session;
          to_session = final_to_session;
          from_role = final_from_role;
          to_role = final_to_role;
          handed = trim handed;
          session_boundary = trim boundary;
          evidence = trim evidence;
          created_at = filled_or created_at now;
        }
        ok (record file { handoffs = file.handoffs ++ handoff ∷ [] }, handoff)

unfoldable pub list_handoffs : ReviewsFile → String → List ReviewHandoff
list_handoffs file milestone_id =
    let id = normalize_milestone_id milestone_id in
    sort_by (λ a b. str_ge b.created_at a.created_at)
      (filter (λ h. str_eq (normalize_milestone_id h.milestone_id) id) file.handoffs)
