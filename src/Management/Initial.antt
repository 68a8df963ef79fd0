-- ===== src/Management/Initial.antt =====
-- What the forms of frontend/src/app/sections/tournament-management.tsx start with.
use brackets.Base.{
  List, Num, Option, Text, [], codes, false, none, pos, some, sort_by, ℕ, ◌-ℤ◌, ◌∷◌,
}
use brackets.Model.{Ranking, Tournament, Stage, StageItem, round_robin}
use brackets.Tournament.{normalize_dashboard_endpoint}
use brackets.Forms.{
  typed, saved, RankingCreateBody, RankingBody, StageUpdateBody, StageItemCreateBody,
  StageItemUpdateBody, TournamentUpdateBody,
}

-- The values that `NewRankingForm` starts with.
abbrev pub new_ranking : RankingCreateBody
new_ranking = record {
  add_score_points = false;
  draw_points = typed (some (codes "1"));
  loss_points = typed (some (codes "0"));
  win_points = typed (some (codes "3"));
}

-- `values` of `RankingEditor`.
unfoldable pub ranking_values : Ranking → RankingBody
ranking_values r = record {
  add_score_points = r.add_score_points;
  draw_points = saved r.draw_points;
  loss_points = saved r.loss_points;
  position = some (pos r.position);
  win_points = saved r.win_points;
}

-- `values` of `TournamentSettingsForm`; `to_date_time_local` formats a date as the browser does.
unfoldable pub tournament_values :
    (to_date_time_local : Text → Text) → Tournament → TournamentUpdateBody
tournament_values to_date_time_local t = record {
  dashboard_endpoint = elim (normalize_dashboard_endpoint t.dashboard_endpoint) [
    | none ↦ []
    | some link ↦ link
  ];
  dashboard_public = t.dashboard_public;
  duration_minutes = some (pos t.duration_minutes);
  margin_minutes = some (pos t.margin_minutes);
  name = t.name;
  players_can_be_in_multiple_teams = t.players_can_be_in_multiple_teams;
  start_time = to_date_time_local t.start_time;
}

-- `custom_duration_minutes` of `StageForm`: `setValueAs` of the entered text; `number` is `Number`.
unfoldable pub set_value_as : (number : Text → Num) → Text → Option Num
set_value_as number [] = none
set_value_as number (c ∷ s) = some (number (c ∷ s))

unfoldable pub stage_values : Stage → StageUpdateBody
stage_values stage = record {
  custom_duration_minutes = elim stage.custom_duration_minutes [
    | none ↦ none
    | some m ↦ some (some (pos m))
  ];
  name = stage.name;
}

-- The rankings of `StagesSection`, by position.
unfoldable pub by_position : Ranking → Ranking → Num
by_position left right = some (pos left.position -ℤ pos right.position)

unfoldable pub sorted_rankings : List Ranking → List Ranking
unfolding by_position
sorted_rankings rankings = sort_by by_position rankings

-- `rankings[0]?.id ?? null`
abbrev pub first_ranking : List Ranking → Option Num
first_ranking [] = none
first_ranking (r ∷ rs) = some (some (pos r.id))

-- The values that `NewStageItemForm` starts with.
unfoldable pub new_stage_item : List Ranking → (stage_id : ℕ) → StageItemCreateBody
new_stage_item rankings stage_id = record {
  name = some [];
  ranking_id = first_ranking rankings;
  stage_id = stage_id;
  team_count = some (pos 8);
  kind = round_robin;
}

unfoldable pub stage_item_values : StageItem → StageItemUpdateBody
stage_item_values item = record {
  name = item.name;
  ranking_id = elim item.ranking_id [ none ↦ 0 | some id ↦ id ];
}
