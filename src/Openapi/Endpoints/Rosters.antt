-- ===== src/Openapi/Endpoints/Rosters.antt =====
-- frontend/src/openapi/sdk.gen.ts: the requests for players and teams.
use brackets.Base.{List, [], codes, true, ◌∷◌}
use brackets.Openapi.Endpoints.{
  get, post, put, delete, bearer_or_session_cookie, form_data, default_serializer, unset, null_type,
  json, Endpoint,
}

abbrev pub get_players : Endpoint
get_players = record {
  method = get;
  url = codes "/api/tournaments/{tournament_id}/players";
  security = bearer_or_session_cookie;
  body_serializer = default_serializer;
  content_type = unset;
  expects_json = true;
}

abbrev pub create_single_player : Endpoint
create_single_player = record {
  method = post;
  url = codes "/api/tournaments/{tournament_id}/players";
  security = bearer_or_session_cookie;
  body_serializer = default_serializer;
  content_type = json;
  expects_json = true;
}

abbrev pub delete_player : Endpoint
delete_player = record {
  method = delete;
  url = codes "/api/tournaments/{tournament_id}/players/{player_id}";
  security = bearer_or_session_cookie;
  body_serializer = default_serializer;
  content_type = unset;
  expects_json = true;
}

abbrev pub update_player_by_id : Endpoint
update_player_by_id = record {
  method = put;
  url = codes "/api/tournaments/{tournament_id}/players/{player_id}";
  security = bearer_or_session_cookie;
  body_serializer = default_serializer;
  content_type = json;
  expects_json = true;
}

abbrev pub create_multiple_players : Endpoint
create_multiple_players = record {
  method = post;
  url = codes "/api/tournaments/{tournament_id}/players_multi";
  security = bearer_or_session_cookie;
  body_serializer = default_serializer;
  content_type = json;
  expects_json = true;
}

abbrev pub get_teams : Endpoint
get_teams = record {
  method = get;
  url = codes "/api/tournaments/{tournament_id}/teams";
  security = bearer_or_session_cookie;
  body_serializer = default_serializer;
  content_type = unset;
  expects_json = true;
}

abbrev pub create_team : Endpoint
create_team = record {
  method = post;
  url = codes "/api/tournaments/{tournament_id}/teams";
  security = bearer_or_session_cookie;
  body_serializer = default_serializer;
  content_type = json;
  expects_json = true;
}

abbrev pub delete_team : Endpoint
delete_team = record {
  method = delete;
  url = codes "/api/tournaments/{tournament_id}/teams/{team_id}";
  security = bearer_or_session_cookie;
  body_serializer = default_serializer;
  content_type = unset;
  expects_json = true;
}

abbrev pub update_team_by_id : Endpoint
update_team_by_id = record {
  method = put;
  url = codes "/api/tournaments/{tournament_id}/teams/{team_id}";
  security = bearer_or_session_cookie;
  body_serializer = default_serializer;
  content_type = json;
  expects_json = true;
}

abbrev pub get_team_logo : Endpoint
get_team_logo = record {
  method = get;
  url = codes "/api/tournaments/{tournament_id}/teams/{team_id}/logo";
  security = bearer_or_session_cookie;
  body_serializer = default_serializer;
  content_type = unset;
  expects_json = true;
}

abbrev pub update_team_logo : Endpoint
update_team_logo = record {
  method = post;
  url = codes "/api/tournaments/{tournament_id}/teams/{team_id}/logo";
  security = bearer_or_session_cookie;
  body_serializer = form_data;
  content_type = null_type;
  expects_json = true;
}

abbrev pub create_multiple_teams : Endpoint
create_multiple_teams = record {
  method = post;
  url = codes "/api/tournaments/{tournament_id}/teams_multi";
  security = bearer_or_session_cookie;
  body_serializer = default_serializer;
  content_type = json;
  expects_json = true;
}

abbrev pub rosters_endpoints : List Endpoint
rosters_endpoints =
    get_players ∷ create_single_player ∷ delete_player ∷ update_player_by_id
    ∷ create_multiple_players ∷ get_teams ∷ create_team ∷ delete_team ∷ update_team_by_id
    ∷ get_team_logo ∷ update_team_logo ∷ create_multiple_teams ∷ []
