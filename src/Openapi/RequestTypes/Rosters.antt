-- ===== src/Openapi/RequestTypes/Rosters.antt =====
-- frontend/src/openapi/types.gen.ts: the types of the requests for players and teams.
use brackets.Base.{List, [], codes, false, none, some, true, ◌∷◌}
use brackets.Openapi.Endpoints.{Endpoint}
use brackets.Openapi.Endpoints.Rosters.{
  get_players, create_single_player, delete_player, update_player_by_id, create_multiple_players,
  get_teams, create_team, delete_team, update_team_by_id, get_team_logo, update_team_logo,
  create_multiple_teams,
}
use brackets.Openapi.RequestTypes.{RequestType, validation_error, choice, boolean, a_number}

abbrev pub get_players_type : RequestType
get_players_type = record {
  url = codes "/api/tournaments/{tournament_id}/players";
  path = codes "tournament_id" ∷ [];
  query =
      (codes "not_in_team", boolean)
      ∷ (codes "limit", a_number)
      ∷ (codes "offset", a_number)
      ∷ (codes "sort_direction", choice (codes "asc" ∷ codes "desc" ∷ []))
      ∷ (
        codes "sort_by",
        choice (
            codes "name"
            ∷ codes "elo_score"
            ∷ codes "swiss_score"
            ∷ codes "wins"
            ∷ codes "draws"
            ∷ codes "losses"
            ∷ codes "active"
            ∷ codes "created"
            ∷ []),
      )
      ∷ [];
  body = none;
  errors = validation_error ∷ [];
  responses = (200, codes "PlayersResponse") ∷ [];
}

abbrev pub create_single_player_type : RequestType
create_single_player_type = record {
  url = codes "/api/tournaments/{tournament_id}/players";
  path = codes "tournament_id" ∷ [];
  query = [];
  body = some (record { is_optional = false; names = codes "PlayerBody" ∷ [] });
  errors = validation_error ∷ [];
  responses = (200, codes "SuccessResponse") ∷ [];
}

abbrev pub delete_player_type : RequestType
delete_player_type = record {
  url = codes "/api/tournaments/{tournament_id}/players/{player_id}";
  path = codes "tournament_id" ∷ codes "player_id" ∷ [];
  query = [];
  body = none;
  errors = validation_error ∷ [];
  responses = (200, codes "SuccessResponse") ∷ [];
}

abbrev pub update_player_by_id_type : RequestType
update_player_by_id_type = record {
  url = codes "/api/tournaments/{tournament_id}/players/{player_id}";
  path = codes "tournament_id" ∷ codes "player_id" ∷ [];
  query = [];
  body = some (record { is_optional = false; names = codes "PlayerBody" ∷ [] });
  errors = validation_error ∷ [];
  responses = (200, codes "SinglePlayerResponse") ∷ [];
}

abbrev pub create_multiple_players_type : RequestType
create_multiple_players_type = record {
  url = codes "/api/tournaments/{tournament_id}/players_multi";
  path = codes "tournament_id" ∷ [];
  query = [];
  body = some (record { is_optional = false; names = codes "PlayerMultiBody" ∷ [] });
  errors = validation_error ∷ [];
  responses = (200, codes "SuccessResponse") ∷ [];
}

abbrev pub get_teams_type : RequestType
get_teams_type = record {
  url = codes "/api/tournaments/{tournament_id}/teams";
  path = codes "tournament_id" ∷ [];
  query =
      (codes "limit", a_number)
      ∷ (codes "offset", a_number)
      ∷ (codes "sort_direction", choice (codes "asc" ∷ codes "desc" ∷ []))
      ∷ (
        codes "sort_by",
        choice (
            codes "name"
            ∷ codes "elo_score"
            ∷ codes "swiss_score"
            ∷ codes "wins"
            ∷ codes "draws"
            ∷ codes "losses"
            ∷ codes "active"
            ∷ codes "created"
            ∷ []),
      )
      ∷ [];
  body = none;
  errors = validation_error ∷ [];
  responses = (200, codes "TeamsWithPlayersResponse") ∷ [];
}

abbrev pub create_team_type : RequestType
create_team_type = record {
  url = codes "/api/tournaments/{tournament_id}/teams";
  path = codes "tournament_id" ∷ [];
  query = [];
  body = some (record { is_optional = false; names = codes "TeamBody" ∷ [] });
  errors = validation_error ∷ [];
  responses = (200, codes "SingleTeamResponse") ∷ [];
}

abbrev pub delete_team_type : RequestType
delete_team_type = record {
  url = codes "/api/tournaments/{tournament_id}/teams/{team_id}";
  path = codes "tournament_id" ∷ codes "team_id" ∷ [];
  query = [];
  body = none;
  errors = validation_error ∷ [];
  responses = (200, codes "SuccessResponse") ∷ [];
}

abbrev pub update_team_by_id_type : RequestType
update_team_by_id_type = record {
  url = codes "/api/tournaments/{tournament_id}/teams/{team_id}";
  path = codes "tournament_id" ∷ codes "team_id" ∷ [];
  query = [];
  body = some (record { is_optional = false; names = codes "TeamBody" ∷ [] });
  errors = validation_error ∷ [];
  responses = (200, codes "SingleTeamResponse") ∷ [];
}

abbrev pub get_team_logo_type : RequestType
get_team_logo_type = record {
  url = codes "/api/tournaments/{tournament_id}/teams/{team_id}/logo";
  path = codes "tournament_id" ∷ codes "team_id" ∷ [];
  query = [];
  body = none;
  errors = validation_error ∷ [];
  responses = (200, codes "unknown") ∷ [];
}

abbrev pub update_team_logo_type : RequestType
update_team_logo_type = record {
  url = codes "/api/tournaments/{tournament_id}/teams/{team_id}/logo";
  path = codes "tournament_id" ∷ codes "team_id" ∷ [];
  query = [];
  body = some (record {
    is_optional = true;
    names = codes "BodyUpdateTeamLogoApiTournamentsTournamentIdTeamsTeamIdLogoPost" ∷ [];
  });
  errors = validation_error ∷ [];
  responses = (200, codes "SingleTeamResponse") ∷ [];
}

abbrev pub create_multiple_teams_type : RequestType
create_multiple_teams_type = record {
  url = codes "/api/tournaments/{tournament_id}/teams_multi";
  path = codes "tournament_id" ∷ [];
  query = [];
  body = some (record { is_optional = false; names = codes "TeamMultiBody" ∷ [] });
  errors = validation_error ∷ [];
  responses = (200, codes "SuccessResponse") ∷ [];
}

-- The functions with the types of their options.
abbrev pub rosters_requests : List (Endpoint × RequestType)
rosters_requests =
    (get_players, get_players_type)
    ∷ (create_single_player, create_single_player_type)
    ∷ (delete_player, delete_player_type)
    ∷ (update_player_by_id, update_player_by_id_type)
    ∷ (create_multiple_players, create_multiple_players_type)
    ∷ (get_teams, get_teams_type)
    ∷ (create_team, create_team_type)
    ∷ (delete_team, delete_team_type)
    ∷ (update_team_by_id, update_team_by_id_type)
    ∷ (get_team_logo, get_team_logo_type)
    ∷ (update_team_logo, update_team_logo_type)
    ∷ (create_multiple_teams, create_multiple_teams_type)
    ∷ []
