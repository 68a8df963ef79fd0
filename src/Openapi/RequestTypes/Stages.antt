-- ===== src/Openapi/RequestTypes/Stages.antt =====
-- frontend/src/openapi/types.gen.ts: the types of the requests for stages, rounds and matches.
use brackets.Base.{List, [], codes, false, none, some, ◌∷◌}
use brackets.Openapi.Endpoints.{Endpoint}
use brackets.Openapi.Endpoints.Stages.{
  create_match, delete_match, update_match_by_id, create_round, delete_round, update_round_by_id,
  schedule_matches, create_stage_item, delete_stage_item, update_stage_item,
  update_stage_item_input, get_stages, create_stage, activate_next_stage, delete_stage,
  update_stage,
}
use brackets.Openapi.RequestTypes.{RequestType, validation_error, boolean}

abbrev pub create_match_type : RequestType
create_match_type = record {
  url = codes "/api/tournaments/{tournament_id}/matches";
  path = codes "tournament_id" ∷ [];
  query = [];
  body = some (record { is_optional = false; names = codes "MatchCreateBodyFrontend" ∷ [] });
  errors = validation_error ∷ [];
  responses = (200, codes "SingleMatchResponse") ∷ [];
}

abbrev pub delete_match_type : RequestType
delete_match_type = record {
  url = codes "/api/tournaments/{tournament_id}/matches/{match_id}";
  path = codes "tournament_id" ∷ codes "match_id" ∷ [];
  query = [];
  body = none;
  errors = validation_error ∷ [];
  responses = (200, codes "SuccessResponse") ∷ [];
}

abbrev pub update_match_by_id_type : RequestType
update_match_by_id_type = record {
  url = codes "/api/tournaments/{tournament_id}/matches/{match_id}";
  path = codes "tournament_id" ∷ codes "match_id" ∷ [];
  query = [];
  body = some (record { is_optional = false; names = codes "MatchBody" ∷ [] });
  errors = validation_error ∷ [];
  responses = (200, codes "SuccessResponse") ∷ [];
}

abbrev pub create_round_type : RequestType
create_round_type = record {
  url = codes "/api/tournaments/{tournament_id}/rounds";
  path = codes "tournament_id" ∷ [];
  query = [];
  body = some (record { is_optional = false; names = codes "RoundCreateBody" ∷ [] });
  errors = validation_error ∷ [];
  responses = (200, codes "SuccessResponse") ∷ [];
}

abbrev pub delete_round_type : RequestType
delete_round_type = record {
  url = codes "/api/tournaments/{tournament_id}/rounds/{round_id}";
  path = codes "tournament_id" ∷ codes "round_id" ∷ [];
  query = [];
  body = none;
  errors = validation_error ∷ [];
  responses = (200, codes "SuccessResponse") ∷ [];
}

abbrev pub update_round_by_id_type : RequestType
update_round_by_id_type = record {
  url = codes "/api/tournaments/{tournament_id}/rounds/{round_id}";
  path = codes "tournament_id" ∷ codes "round_id" ∷ [];
  query = [];
  body = some (record { is_optional = false; names = codes "RoundUpdateBody" ∷ [] });
  errors = validation_error ∷ [];
  responses = (200, codes "SuccessResponse") ∷ [];
}

abbrev pub schedule_matches_type : RequestType
schedule_matches_type = record {
  url = codes "/api/tournaments/{tournament_id}/schedule_matches";
  path = codes "tournament_id" ∷ [];
  query = [];
  body = none;
  errors = validation_error ∷ [];
  responses = (200, codes "SuccessResponse") ∷ [];
}

abbrev pub create_stage_item_type : RequestType
create_stage_item_type = record {
  url = codes "/api/tournaments/{tournament_id}/stage_items";
  path = codes "tournament_id" ∷ [];
  query = [];
  body = some (record { is_optional = false; names = codes "StageItemCreateBody" ∷ [] });
  errors = validation_error ∷ [];
  responses = (200, codes "SuccessResponse") ∷ [];
}

abbrev pub delete_stage_item_type : RequestType
delete_stage_item_type = record {
  url = codes "/api/tournaments/{tournament_id}/stage_items/{stage_item_id}";
  path = codes "tournament_id" ∷ codes "stage_item_id" ∷ [];
  query = [];
  body = none;
  errors = validation_error ∷ [];
  responses = (200, codes "SuccessResponse") ∷ [];
}

abbrev pub update_stage_item_type : RequestType
update_stage_item_type = record {
  url = codes "/api/tournaments/{tournament_id}/stage_items/{stage_item_id}";
  path = codes "tournament_id" ∷ codes "stage_item_id" ∷ [];
  query = [];
  body = some (record { is_optional = false; names = codes "StageItemUpdateBody" ∷ [] });
  errors = validation_error ∷ [];
  responses = (200, codes "SuccessResponse") ∷ [];
}

abbrev pub update_stage_item_input_type : RequestType
update_stage_item_input_type = record {
  url =
      codes
        "/api/tournaments/{tournament_id}/stage_items/{stage_item_id}/inputs/{stage_item_input_id}";
  path = codes "tournament_id" ∷ codes "stage_item_id" ∷ codes "stage_item_input_id" ∷ [];
  query = [];
  body = some (record {
    is_optional = false;
    names =
        codes "StageItemInputUpdateBodyTentative"
        ∷ codes "StageItemInputUpdateBodyFinal"
        ∷ codes "StageItemInputUpdateBodyEmpty"
        ∷ [];
  });
  errors = validation_error ∷ [];
  responses = (200, codes "SuccessResponse") ∷ [];
}

abbrev pub get_stages_type : RequestType
get_stages_type = record {
  url = codes "/api/tournaments/{tournament_id}/stages";
  path = codes "tournament_id" ∷ [];
  query = (codes "no_draft_rounds", boolean) ∷ [];
  body = none;
  errors = validation_error ∷ [];
  responses = (200, codes "StagesWithStageItemsResponse") ∷ [];
}

abbrev pub create_stage_type : RequestType
create_stage_type = record {
  url = codes "/api/tournaments/{tournament_id}/stages";
  path = codes "tournament_id" ∷ [];
  query = [];
  body = none;
  errors = validation_error ∷ [];
  responses = (200, codes "SuccessResponse") ∷ [];
}

abbrev pub activate_next_stage_type : RequestType
activate_next_stage_type = record {
  url = codes "/api/tournaments/{tournament_id}/stages/activate";
  path = codes "tournament_id" ∷ [];
  query = [];
  body = some (record { is_optional = false; names = codes "StageActivateBody" ∷ [] });
  errors = validation_error ∷ [];
  responses = (200, codes "SuccessResponse") ∷ [];
}

abbrev pub delete_stage_type : RequestType
delete_stage_type = record {
  url = codes "/api/tournaments/{tournament_id}/stages/{stage_id}";
  path = codes "tournament_id" ∷ codes "stage_id" ∷ [];
  query = [];
  body = none;
  errors = validation_error ∷ [];
  responses = (200, codes "SuccessResponse") ∷ [];
}

abbrev pub update_stage_type : RequestType
update_stage_type = record {
  url = codes "/api/tournaments/{tournament_id}/stages/{stage_id}";
  path = codes "tournament_id" ∷ codes "stage_id" ∷ [];
  query = [];
  body = some (record { is_optional = false; names = codes "StageUpdateBody" ∷ [] });
  errors = validation_error ∷ [];
  responses = (200, codes "SuccessResponse") ∷ [];
}

-- The functions with the types of their options.
abbrev pub stages_requests : List (Endpoint × RequestType)
stages_requests =
    (create_match, create_match_type)
    ∷ (delete_match, delete_match_type)
    ∷ (update_match_by_id, update_match_by_id_type)
    ∷ (create_round, create_round_type)
    ∷ (delete_round, delete_round_type)
    ∷ (update_round_by_id, update_round_by_id_type)
    ∷ (schedule_matches, schedule_matches_type)
    ∷ (create_stage_item, create_stage_item_type)
    ∷ (delete_stage_item, delete_stage_item_type)
    ∷ (update_stage_item, update_stage_item_type)
    ∷ (update_stage_item_input, update_stage_item_input_type)
    ∷ (get_stages, get_stages_type)
    ∷ (create_stage, create_stage_type)
    ∷ (activate_next_stage, activate_next_stage_type)
    ∷ (delete_stage, delete_stage_type)
    ∷ (update_stage, update_stage_type)
    ∷ []
