-- ===== src/Queries/Table.antt =====
-- The queries of frontend/src/openapi/@tanstack/react-query.gen.ts: the functions of the API that read.
use brackets.Base.{List, [], codes, false, true, ◌∷◌}
use brackets.Openapi.Endpoints.Entry.{get_auth_features, get_clubs, ping, get_user, get_me}
use brackets.Openapi.Endpoints.Tournaments.{
  get_tournaments, get_tournament, get_available_inputs, get_tournament_logo,
  get_next_stage_rankings, get_rankings, get_standings,
}
use brackets.Openapi.Endpoints.Rosters.{get_players, get_teams, get_team_logo}
use brackets.Openapi.Endpoints.Stages.{get_stages}
use brackets.Queries.Cached.{CachedQuery}

abbrev pub get_auth_features_query : CachedQuery
get_auth_features_query = record {
  id = codes "getAuthFeaturesApiAuthFeaturesGet";
  function = get_auth_features;
  is_infinite = false;
}

abbrev pub get_clubs_query : CachedQuery
get_clubs_query = record {
  id = codes "getClubsApiClubsGet";
  function = get_clubs;
  is_infinite = false;
}

abbrev pub ping_query : CachedQuery
ping_query = record { id = codes "pingApiPingGet"; function = ping; is_infinite = false }

abbrev pub get_user_query : CachedQuery
get_user_query = record {
  id = codes "getUserApiUsersMeGet";
  function = get_user;
  is_infinite = false;
}

abbrev pub get_me_query : CachedQuery
get_me_query = record {
  id = codes "getMeApiUsersUserIdGet";
  function = get_me;
  is_infinite = false;
}

abbrev pub get_tournaments_query : CachedQuery
get_tournaments_query = record {
  id = codes "getTournamentsApiTournamentsGet";
  function = get_tournaments;
  is_infinite = false;
}

abbrev pub get_tournament_query : CachedQuery
get_tournament_query = record {
  id = codes "getTournamentApiTournamentsTournamentIdGet";
  function = get_tournament;
  is_infinite = false;
}

abbrev pub get_available_inputs_query : CachedQuery
get_available_inputs_query = record {
  id = codes "getAvailableInputsApiTournamentsTournamentIdAvailableInputsGet";
  function = get_available_inputs;
  is_infinite = false;
}

abbrev pub get_tournament_logo_query : CachedQuery
get_tournament_logo_query = record {
  id = codes "getTournamentLogoApiTournamentsTournamentIdLogoGet";
  function = get_tournament_logo;
  is_infinite = false;
}

abbrev pub get_next_stage_rankings_query : CachedQuery
get_next_stage_rankings_query = record {
  id = codes "getNextStageRankingsApiTournamentsTournamentIdNextStageRankingsGet";
  function = get_next_stage_rankings;
  is_infinite = false;
}

abbrev pub get_rankings_query : CachedQuery
get_rankings_query = record {
  id = codes "getRankingsApiTournamentsTournamentIdRankingsGet";
  function = get_rankings;
  is_infinite = false;
}

abbrev pub get_standings_query : CachedQuery
get_standings_query = record {
  id = codes "getStandingsApiTournamentsTournamentIdStandingsGet";
  function = get_standings;
  is_infinite = false;
}

abbrev pub get_players_query : CachedQuery
get_players_query = record {
  id = codes "getPlayersApiTournamentsTournamentIdPlayersGet";
  function = get_players;
  is_infinite = false;
}

abbrev pub get_teams_query : CachedQuery
get_teams_query = record {
  id = codes "getTeamsApiTournamentsTournamentIdTeamsGet";
  function = get_teams;
  is_infinite = false;
}

abbrev pub get_team_logo_query : CachedQuery
get_team_logo_query = record {
  id = codes "getTeamLogoApiTournamentsTournamentIdTeamsTeamIdLogoGet";
  function = get_team_logo;
  is_infinite = false;
}

abbrev pub get_stages_query : CachedQuery
get_stages_query = record {
  id = codes "getStagesApiTournamentsTournamentIdStagesGet";
  function = get_stages;
  is_infinite = false;
}

abbrev pub get_players_infinite_query : CachedQuery
get_players_infinite_query = record {
  id = codes "getPlayersApiTournamentsTournamentIdPlayersGet";
  function = get_players;
  is_infinite = true;
}

abbrev pub get_teams_infinite_query : CachedQuery
get_teams_infinite_query = record {
  id = codes "getTeamsApiTournamentsTournamentIdTeamsGet";
  function = get_teams;
  is_infinite = true;
}

-- One for each function that reads.
abbrev pub plain_queries : List CachedQuery
plain_queries =
    get_auth_features_query ∷ get_clubs_query ∷ ping_query ∷ get_user_query ∷ get_me_query
    ∷ get_tournaments_query ∷ get_tournament_query ∷ get_available_inputs_query
    ∷ get_tournament_logo_query ∷ get_next_stage_rankings_query ∷ get_rankings_query
    ∷ get_standings_query ∷ get_players_query ∷ get_teams_query ∷ get_team_logo_query
    ∷ get_stages_query ∷ []

abbrev pub infinite_queries : List CachedQuery
infinite_queries = get_players_infinite_query ∷ get_teams_infinite_query ∷ []
