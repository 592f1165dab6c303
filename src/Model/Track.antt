-- ===== src/Model/Track.antt =====
-- crates/mp-model/src/track.rs
use master_plan.Prelude.{String, Bool, List}

pub record TrackMeta : Type 0 where
  pub kind : String
  pub title : String
  pub perpetual : Bool
  pub scope : String
  pub created : String

pub record TrackItem : Type 0 where
  pub id : String
  pub title : String
  pub status : String
  pub effort : String
  pub problem : String
  pub done_when : String
  pub verification : String
  pub steps : List String
  pub evidence : String
  pub created : String
  pub completed : String
  pub archived_at : String

pub record TrackFile : Type 0 where
  pub track : TrackMeta
  pub items : List TrackItem

pub record BacklogItem : Type 0 where
  pub id : String
  pub description : String
  pub source : String
  pub suggested_when : String
  pub priority : String
  pub status : String
  pub resolution : String
  pub resolved_at : String

pub record BacklogFile : Type 0 where
  pub items : List BacklogItem
