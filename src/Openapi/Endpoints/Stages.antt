-- ===== src/Openapi/Endpoints/Stages.antt =====
-- frontend/src/openapi/sdk.gen.ts: the requests for stages, stage items, rounds and matches.
use brackets.Base.{List, [], codes, true, ◌∷◌}
use brackets.Openapi.Endpoints.{
  get, post, put, delete, bearer_or_session_cookie, default_serializer, unset, json, Endpoint,
}

abbrev pub create_match : Endpoint
create_match = record {
  method = post;
  url = codes "/api/tournaments/{tournament_id}/matches";
  security = bearer_or_session_cookie;
  body_serializer = default_serializer;
  content_type = json;
  expects_json = true;
}

abbrev pub delete_match : Endpoint
delete_match = record {
  method = delete;
  url = codes "/api/tournaments/{tournament_id}/matches/{match_id}";
  security = bearer_or_session_cookie;
  body_serializer = default_serializer;
  content_type = unset;
  expects_json = true;
}

abbrev pub update_match_by_id : Endpoint
update_match_by_id = record {
  method = put;
  url = codes "/api/tournaments/{tournament_id}/matches/{match_id}";
  security = bearer_or_session_cookie;
  body_serializer = default_serializer;
  content_type = json;
  expects_json = true;
}

abbrev pub create_round : Endpoint
create_round = record {
  method = post;
  url = codes "/api/tournaments/{tournament_id}/rounds";
  security = bearer_or_session_cookie;
  body_serializer = default_serializer;
  content_type = json;
  expects_json = true;
}

abbrev pub delete_round : Endpoint
delete_round = record {
  method = delete;
  url = codes "/api/tournaments/{tournament_id}/rounds/{round_id}";
  security = bearer_or_session_cookie;
  body_serializer = default_serializer;
  content_type = unset;
  expects_json = true;
}

abbrev pub update_round_by_id : Endpoint
update_round_by_id = record {
  method = put;
  url = codes "/api/tournaments/{tournament_id}/rounds/{round_id}";
  security = bearer_or_session_cookie;
  body_serializer = default_serializer;
  content_type = json;
  expects_json = true;
}

abbrev pub schedule_matches : Endpoint
schedule_matches = record {
  method = post;
  url = codes "/api/tournaments/{tournament_id}/schedule_matches";
  security = bearer_or_session_cookie;
  body_serializer = default_serializer;
  content_type = unset;
  expects_json = true;
}

abbrev pub create_stage_item : Endpoint
create_stage_item = record {
  method = post;
  url = codes "/api/tournaments/{tournament_id}/stage_items";
  security = bearer_or_session_cookie;
  body_serializer = default_serializer;
  content_type = json;
  expects_json = true;
}

abbrev pub delete_stage_item : Endpoint
delete_stage_item = record {
  method = delete;
  url = codes "/api/tournaments/{tournament_id}/stage_items/{stage_item_id}";
  security = bearer_or_session_cookie;
  body_serializer = default_serializer;
  content_type = unset;
  expects_json = true;
}

abbrev pub update_stage_item : Endpoint
update_stage_item = record {
  method = put;
  url = codes "/api/tournaments/{tournament_id}/stage_items/{stage_item_id}";
  security = bearer_or_session_cookie;
  body_serializer = default_serializer;
  content_type = json;
  expects_json = true;
}

abbrev pub update_stage_item_input : Endpoint
update_stage_item_input = record {
  method = put;
  url =
      codes
        "/api/tournaments/{tournament_id}/stage_items/{stage_item_id}/inputs/{stage_item_input_id}";
  security = bearer_or_session_cookie;
  body_serializer = default_serializer;
  content_type = json;
  expects_json = true;
}

abbrev pub get_stages : Endpoint
get_stages = record {
  method = get;
  url = codes "/api/tournaments/{tournament_id}/stages";
  security = bearer_or_session_cookie;
  body_serializer = default_serializer;
  content_type = unset;
  expects_json = true;
}

abbrev pub create_stage : Endpoint
create_stage = record {
  method = post;
  url = codes "/api/tournaments/{tournament_id}/stages";
  security = bearer_or_session_cookie;
  body_serializer = default_serializer;
  content_type = unset;
  expects_json = true;
}

abbrev pub activate_next_stage : Endpoint
activate_next_stage = record {
  method = post;
  url = codes "/api/tournaments/{tournament_id}/stages/activate";
  security = bearer_or_session_cookie;
  body_serializer = default_serializer;
  content_type = json;
  expects_json = true;
}

abbrev pub delete_stage : Endpoint
delete_stage = record {
  method = delete;
  url = codes "/api/tournaments/{tournament_id}/stages/{stage_id}";
  security = bearer_or_session_cookie;
  body_serializer = default_serializer;
  content_type = unset;
  expects_json = true;
}

abbrev pub update_stage : Endpoint
update_stage = record {
  method = put;
  url = codes "/api/tournaments/{tournament_id}/stages/{stage_id}";
  security = bearer_or_session_cookie;
  body_serializer = default_serializer;
  content_type = json;
  expects_json = true;
}

abbrev pub stages_endpoints : List Endpoint
stages_endpoints =
    create_match ∷ delete_match ∷ update_match_by_id ∷ create_round ∷ delete_round
    ∷ update_round_by_id ∷ schedule_matches ∷ create_stage_item ∷ delete_stage_item
    ∷ update_stage_item ∷ update_stage_item_input ∷ get_stages ∷ create_stage ∷ activate_next_stage
    ∷ delete_stage ∷ update_stage ∷ []
