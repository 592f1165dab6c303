-- ===== src/Lifecycle/Phase.antt =====
-- The canonical delivery phases of crates/mp-model/src/milestone.rs and their names on disk.
use master_plan.Prelude.{
  ◌≡◌, refl, String, Bool, ◌||◌, List, [], ◌∷◌, str_eq, if◌then◌else◌, Result, ok, err,
  contains_str,
}

abbrev pub lifecycle_states : List String
lifecycle_states =
    "draft" ∷ "groomed" ∷ "approved" ∷ "in-progress" ∷ "executed" ∷ "self-reviewed" ∷ "reviewed"
    ∷ "complete" ∷ "remediation" ∷ []

abbrev pub lifecycle_terminal : List String
lifecycle_terminal = "complete" ∷ []

abbrev pub watch_drivable_lifecycles : List String
watch_drivable_lifecycles = "approved" ∷ "in-progress" ∷ "remediation" ∷ []

unfoldable pub is_watch_drivable_lifecycle : String → Bool
is_watch_drivable_lifecycle lifecycle = contains_str watch_drivable_lifecycles lifecycle

pub data MilestonePhase : Type 0 where
  draft groomed approved in_progress executed complete remediation : MilestonePhase

abbrev pub as_str : MilestonePhase → String
as_str draft = "draft"
as_str groomed = "groomed"
as_str approved = "approved"
as_str in_progress = "in-progress"
as_str executed = "executed"
as_str complete = "complete"
as_str remediation = "remediation"

-- The errors of the lifecycle module, one constructor for each message.
pub data ParseError : Type 0 where
  unknown_lifecycle : String → ParseError

unfoldable pub from_lifecycle : String → Result ParseError MilestonePhase
from_lifecycle value =
    if str_eq value "" || str_eq value "draft"
    then ok draft
    else if str_eq value "groomed"
    then ok groomed
    else if str_eq value "approved"
    then ok approved
    else if str_eq value "in-progress"
    then ok in_progress
    else if str_eq value "done" || str_eq value "executed" || str_eq value "self-reviewed"
    then ok executed
    else if str_eq value "reviewed" || str_eq value "complete"
    then ok complete
    else if str_eq value "remediation"
    then ok remediation
    else err (unknown_lifecycle value)

-- Parsing the name of a phase gives the phase.
pub from_lifecycle-as_str : (p : MilestonePhase) → from_lifecycle (as_str p) ≡ ok p
unfolding from_lifecycle
from_lifecycle-as_str draft = refl
from_lifecycle-as_str groomed = refl
from_lifecycle-as_str approved = refl
from_lifecycle-as_str in_progress = refl
from_lifecycle-as_str executed = refl
from_lifecycle-as_str complete = refl
from_lifecycle-as_str remediation = refl
