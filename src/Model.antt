-- ===== src/Model.antt =====
-- The data of frontend/src/openapi/types.gen.ts that the pages work on: what the API sends. Ids,
-- counts, slots, minutes and scores are the non-negative integers that the backend stores; decimals
-- and timestamps are texts, as they are sent.
use brackets.Base.{Bool, List, Option, Text, ℕ}

pub data StageType : Type 0 where
  round_robin single_elimination swiss : StageType

pub data TournamentStatus : Type 0 where
  open_status archived : TournamentStatus

pub record Tournament : Type 0 where
  pub club_id : ℕ
  pub created : Text
  pub dashboard_endpoint : Option Text
  pub dashboard_public : Bool
  pub duration_minutes : ℕ
  pub id : ℕ
  pub logo_path : Option Text
  pub margin_minutes : ℕ
  pub name : Text
  pub players_can_be_in_multiple_teams : Bool
  pub start_time : Text
  pub status : TournamentStatus

pub record Team : Type 0 where
  pub active : Bool
  pub created : Text
  pub draws : ℕ
  pub elo_score : Text
  pub id : ℕ
  pub logo_path : Option Text
  pub losses : ℕ
  pub name : Text
  pub swiss_score : Text
  pub tournament_id : ℕ
  pub wins : ℕ

pub record Player : Type 0 where
  pub active : Bool
  pub created : Text
  pub draws : ℕ
  pub elo_score : Text
  pub id : ℕ
  pub losses : ℕ
  pub name : Text
  pub swiss_score : Text
  pub tournament_id : ℕ
  pub wins : ℕ

pub record FullTeamWithPlayers : Type 0 where
  pub team : Team
  pub open team use *
  pub players : List Player

-- The fields that the three kinds of inputs share.
pub record InputFields : Type 0 where
  pub draws : ℕ
  pub id : ℕ
  pub losses : ℕ
  pub points : Text
  pub slot : ℕ
  pub stage_item_id : Option ℕ
  pub tournament_id : ℕ
  pub wins : ℕ

pub record StageItemInputTentative : Type 0 where
  pub fields : InputFields
  pub open fields use *
  pub winner_from_stage_item_id : ℕ
  pub winner_position : ℕ

pub record StageItemInputFinal : Type 0 where
  pub fields : InputFields
  pub open fields use *
  pub team : Team
  pub team_id : ℕ
  pub winner_from_stage_item_id : Option ℕ
  pub winner_position : Option ℕ

pub record StageItemInputEmpty : Type 0 where
  pub fields : InputFields
  pub open fields use *

-- The union of the three types. An absent or null `team` tells the first and the last apart from
-- `final`.
pub data StageItemInput : Type 0 where
  tentative : StageItemInputTentative → StageItemInput
  final : StageItemInputFinal → StageItemInput
  vacant : StageItemInputEmpty → StageItemInput

pub record StageItemInputStanding : Type 0 where
  pub draws : ℕ
  pub losses : ℕ
  pub points : Text
  pub score_against : ℕ
  pub score_for : ℕ
  pub stage_item_input_id : ℕ
  pub wins : ℕ

-- `MatchWithDetails`. `MatchWithDetailsDefinitive` has the same fields and no null inputs, so it is
-- a part of this type.
pub record Match : Type 0 where
  pub created : Text
  pub custom_duration_minutes : Option ℕ
  pub custom_margin_minutes : Option ℕ
  pub duration_minutes : ℕ
  pub id : ℕ
  pub margin_minutes : ℕ
  pub round_id : ℕ
  pub stage_item_input1 : Option StageItemInput
  pub stage_item_input1_conflict : Bool
  pub stage_item_input1_id : Option ℕ
  pub stage_item_input1_score : ℕ
  pub stage_item_input1_winner_from_match_id : Option ℕ
  pub stage_item_input2 : Option StageItemInput
  pub stage_item_input2_conflict : Bool
  pub stage_item_input2_id : Option ℕ
  pub stage_item_input2_score : ℕ
  pub stage_item_input2_winner_from_match_id : Option ℕ
  pub start_time : Option Text

pub record Round : Type 0 where
  pub created : Text
  pub id : ℕ
  pub is_draft : Bool
  pub matches : List Match
  pub name : Text
  pub stage_item_id : ℕ

pub record StageItem : Type 0 where
  pub created : Text
  pub id : ℕ
  pub inputs : List StageItemInput
  pub name : Text
  pub ranking_id : Option ℕ
  pub rounds : List Round
  pub stage_id : ℕ
  pub team_count : ℕ
  pub kind : StageType
  pub type_name : Text

pub record Stage : Type 0 where
  pub created : Text
  pub custom_duration_minutes : Option ℕ
  pub id : ℕ
  pub is_active : Bool
  pub name : Text
  pub stage_items : List StageItem
  pub tournament_id : ℕ

pub record Ranking : Type 0 where
  pub add_score_points : Bool
  pub created : Text
  pub draw_points : Text
  pub id : ℕ
  pub loss_points : Text
  pub position : ℕ
  pub tournament_id : ℕ
  pub win_points : Text

-- A slot's next occupant, as the API announces it.
pub record StageItemInputUpdate : Type 0 where
  pub stage_item_input : StageItemInputTentative
  pub team : Team

pub data SlotOption : Type 0 where
  team_option : (already_taken : Bool) (team_id : ℕ) → SlotOption
  winner_option :
      (already_taken : Bool) (winner_from_stage_item_id winner_position : ℕ) → SlotOption

-- A match in its place, from frontend/src/app/types.ts.
pub record FlattenedMatch : Type 0 where
  pub stage : Stage
  pub stage_item : StageItem
  pub round : Round
  pub entry : Match
