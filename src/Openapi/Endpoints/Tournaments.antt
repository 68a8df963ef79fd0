-- ===== src/Openapi/Endpoints/Tournaments.antt =====
-- frontend/src/openapi/sdk.gen.ts: the requests for tournaments, rankings and standings.
use brackets.Base.{List, [], codes, true, ◌∷◌}
use brackets.Openapi.Endpoints.{
  get, post, put, delete, bearer_or_session_cookie, form_data, default_serializer, unset, null_type,
  json, Endpoint,
}

abbrev pub get_tournaments : Endpoint
get_tournaments = record {
  method = get;
  url = codes "/api/tournaments";
  security = bearer_or_session_cookie;
  body_serializer = default_serializer;
  content_type = unset;
  expects_json = true;
}

abbrev pub create_tournament : Endpoint
create_tournament = record {
  method = post;
  url = codes "/api/tournaments";
  security = bearer_or_session_cookie;
  body_serializer = default_serializer;
  content_type = json;
  expects_json = true;
}

abbrev pub delete_tournament : Endpoint
delete_tournament = record {
  method = delete;
  url = codes "/api/tournaments/{tournament_id}";
  security = bearer_or_session_cookie;
  body_serializer = default_serializer;
  content_type = unset;
  expects_json = true;
}

abbrev pub get_tournament : Endpoint
get_tournament = record {
  method = get;
  url = codes "/api/tournaments/{tournament_id}";
  security = bearer_or_session_cookie;
  body_serializer = default_serializer;
  content_type = unset;
  expects_json = true;
}

abbrev pub update_tournament_by_id : Endpoint
update_tournament_by_id = record {
  method = put;
  url = codes "/api/tournaments/{tournament_id}";
  security = bearer_or_session_cookie;
  body_serializer = default_serializer;
  content_type = json;
  expects_json = true;
}

abbrev pub get_available_inputs : Endpoint
get_available_inputs = record {
  method = get;
  url = codes "/api/tournaments/{tournament_id}/available_inputs";
  security = bearer_or_session_cookie;
  body_serializer = default_serializer;
  content_type = unset;
  expects_json = true;
}

abbrev pub change_status : Endpoint
change_status = record {
  method = post;
  url = codes "/api/tournaments/{tournament_id}/change-status";
  security = bearer_or_session_cookie;
  body_serializer = default_serializer;
  content_type = json;
  expects_json = true;
}

abbrev pub get_tournament_logo : Endpoint
get_tournament_logo = record {
  method = get;
  url = codes "/api/tournaments/{tournament_id}/logo";
  security = bearer_or_session_cookie;
  body_serializer = default_serializer;
  content_type = unset;
  expects_json = true;
}

abbrev pub upload_logo : Endpoint
upload_logo = record {
  method = post;
  url = codes "/api/tournaments/{tournament_id}/logo";
  security = bearer_or_session_cookie;
  body_serializer = form_data;
  content_type = null_type;
  expects_json = true;
}

abbrev pub get_next_stage_rankings : Endpoint
get_next_stage_rankings = record {
  method = get;
  url = codes "/api/tournaments/{tournament_id}/next_stage_rankings";
  security = bearer_or_session_cookie;
  body_serializer = default_serializer;
  content_type = unset;
  expects_json = true;
}

abbrev pub get_rankings : Endpoint
get_rankings = record {
  method = get;
  url = codes "/api/tournaments/{tournament_id}/rankings";
  security = bearer_or_session_cookie;
  body_serializer = default_serializer;
  content_type = unset;
  expects_json = true;
}

abbrev pub create_ranking : Endpoint
create_ranking = record {
  method = post;
  url = codes "/api/tournaments/{tournament_id}/rankings";
  security = bearer_or_session_cookie;
  body_serializer = default_serializer;
  content_type = json;
  expects_json = true;
}

abbrev pub delete_ranking : Endpoint
delete_ranking = record {
  method = delete;
  url = codes "/api/tournaments/{tournament_id}/rankings/{ranking_id}";
  security = bearer_or_session_cookie;
  body_serializer = default_serializer;
  content_type = unset;
  expects_json = true;
}

abbrev pub update_ranking_by_id : Endpoint
update_ranking_by_id = record {
  method = put;
  url = codes "/api/tournaments/{tournament_id}/rankings/{ranking_id}";
  security = bearer_or_session_cookie;
  body_serializer = default_serializer;
  content_type = json;
  expects_json = true;
}

abbrev pub get_standings : Endpoint
get_standings = record {
  method = get;
  url = codes "/api/tournaments/{tournament_id}/standings";
  security = bearer_or_session_cookie;
  body_serializer = default_serializer;
  content_type = unset;
  expects_json = true;
}

abbrev pub tournaments_endpoints : List Endpoint
tournaments_endpoints =
    get_tournaments ∷ create_tournament ∷ delete_tournament ∷ get_tournament
    ∷ update_tournament_by_id ∷ get_available_inputs ∷ change_status ∷ get_tournament_logo
    ∷ upload_logo ∷ get_next_stage_rankings ∷ get_rankings ∷ create_ranking ∷ delete_ranking
    ∷ update_ranking_by_id ∷ get_standings ∷ []
