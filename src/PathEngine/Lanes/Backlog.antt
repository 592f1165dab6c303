-- ===== src/PathEngine/Lanes/Backlog.antt =====
-- `backlog_lane` and `build_lanes_from` of crates/mp/src/path_engine.rs. `load_track` and
-- `load_backlog` answer `none` where they fail.
use master_plan.Prelude.{
  ℕ, ◌+◌, ◌%◌, String, Bool, true, false, not, ◌&&◌, Option, none, some, List, [], ◌∷◌, ◌++◌, map,
  str_eq, ltb, if◌then◌else◌, length, filter, sort_by,
}
use master_plan.Prelude.Text.{push_str, from_match}
use master_plan.Model.Milestone.{MilestoneFile}
use master_plan.Model.Track.{TrackFile, TrackItem, BacklogItem, BacklogFile}
use master_plan.Model.Plan.{ExecutionConfig}
use master_plan.Paths.{le_milestone_id}
use master_plan.PathEngine.Topo.{topo_sort_milestones}
use master_plan.PathEngine.Action.{PathAction, MilestoneJson, backlog, waiting}
use master_plan.PathEngine.Lanes.{
  Lane, backlog_item, lane, lane_priority_rank, blocked_lane, execution_lane,
  awaiting_approval_lane, grooming_lane,
}
use master_plan.PathEngine.Lanes.Review.{review_lane, json_id}

pub record LaneSummary : Type 0 where
  pub execution_count : ℕ
  pub awaiting_approval_count : ℕ
  pub blocked_count : ℕ
  pub review_count : ℕ
  pub grooming_count : ℕ
  pub backlog_count : ℕ
  pub total_effort : String

pub record LaneReport : Type 0 where
  pub strategy : String
  pub lanes : List Lane
  pub summary : LaneSummary

abbrev pub backlog_action : MilestoneJson → String → PathAction
backlog_action json reason = record {
  rank = 0;
  action_type = "backlog-item";
  milestone = json;
  step = none;
  work_package = none;
  reason = reason;
}

abbrev pub contains : String → String → Bool
contains s pattern = elim (from_match pattern s) [ none ↦ false | some _ ↦ true ]

abbrev pub track_priority : TrackItem → String
track_priority item = if contains item.title "[IDEA]" then "low" else "regular"

abbrev pub track_action : String → TrackItem → PathAction
track_action kind item = backlog_action (backlog kind item.id item.title (track_priority item)) (
    push_str "backlog item ("
      (push_str kind (push_str ", priority=" (push_str (track_priority item) ")"))))

abbrev pub is_kept : Bool → String → Bool
is_kept no_ideas priority = not (no_ideas && str_eq priority "low")

abbrev pub track_items : Bool → String → Option TrackFile → List PathAction
track_items no_ideas kind none = []
track_items no_ideas kind (some track) =
    map (track_action kind) (filter (λ item. is_kept no_ideas (track_priority item)) track.items)

abbrev pub backlog_entry : BacklogItem → PathAction
backlog_entry item =
    backlog_action (backlog "backlog" item.id item.description item.priority)
      (push_str "backlog item (priority=" (push_str item.priority ")"))

abbrev pub backlog_entries : Bool → Option BacklogFile → List PathAction
backlog_entries no_ideas none = []
backlog_entries no_ideas (some file) =
    map backlog_entry (filter (λ item. is_kept no_ideas item.priority) file.items)

abbrev pub json_priority : MilestoneJson → String
json_priority (waiting _ _ _ _ priority _) = priority
json_priority (backlog _ _ _ priority) = priority
json_priority _ = "normal"

unfoldable pub le_in_backlog : PathAction → PathAction → Bool
le_in_backlog a b =
    let a_pri = lane_priority_rank (json_priority a.milestone) in
    let b_pri = lane_priority_rank (json_priority b.milestone) in
    if ltb a_pri b_pri
    then true
    else if ltb b_pri a_pri
    then false
    else le_milestone_id (json_id a.milestone) (json_id b.milestone)

-- The loop that sets the ranks after the sort.
abbrev pub rerank : ℕ → List PathAction → List PathAction
rerank i [] = []
rerank i (a ∷ rest) = record a { rank = (i + 1) % 4294967296 } ∷ rerank (i + 1) rest

module _ (load_track : String → Option TrackFile) (load_backlog : Option BacklogFile) where
  unfoldable pub backlog_lane : Bool → Lane
  backlog_lane no_ideas = lane "backlog" backlog_item (
      rerank 0 (
        sort_by le_in_backlog (
          track_items no_ideas "bugfix" (load_track "bugfix")
          ++ (track_items no_ideas "tweak" (load_track "tweak")
              ++ backlog_entries no_ideas load_backlog))))

  unfoldable pub build_lanes_from :
      (List String → List String)
      → ExecutionConfig
      → List MilestoneFile
      → ℕ
      → Bool
      → Option LaneReport
  build_lanes_from hash_order execution milestones horizon no_ideas =
      elim (topo_sort_milestones hash_order milestones) [
        | none ↦ none
        | some baseline ↦
            (let blocked_ = blocked_lane milestones baseline horizon in
              let executing = execution_lane milestones baseline horizon in
              let awaiting_approval = awaiting_approval_lane milestones baseline horizon in
              let review = review_lane milestones in
              let grooming_ = grooming_lane milestones baseline horizon in
              let backlog_ = backlog_lane no_ideas in
              some (record {
                strategy = execution.strategy;
                lanes =
                    blocked_ ∷ executing ∷ awaiting_approval ∷ review ∷ grooming_ ∷ backlog_ ∷ [];
                summary = record {
                  execution_count = length executing.items;
                  awaiting_approval_count = length awaiting_approval.items;
                  blocked_count = length blocked_.items;
                  review_count = length review.items;
                  grooming_count = length grooming_.items;
                  backlog_count = length backlog_.items;
                  total_effort = "";
                };
              }))
      ]
