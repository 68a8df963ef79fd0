-- ===== src/Openapi/RequestTypes/Tournaments.antt =====
-- frontend/src/openapi/types.gen.ts: the types of the requests for tournaments and rankings.
use brackets.Base.{List, [], codes, false, none, some, true, ◌∷◌}
use brackets.Openapi.Endpoints.{Endpoint}
use brackets.Openapi.Endpoints.Tournaments.{
  get_tournaments, create_tournament, delete_tournament, get_tournament, update_tournament_by_id,
  get_available_inputs, change_status, get_tournament_logo, upload_logo, get_next_stage_rankings,
  get_rankings, create_ranking, delete_ranking, update_ranking_by_id, get_standings,
}
use brackets.Openapi.RequestTypes.{RequestType, validation_error, choice, text_or_null}

abbrev pub get_tournaments_type : RequestType
get_tournaments_type = record {
  url = codes "/api/tournaments";
  path = [];
  query =
      (codes "filter_", choice (codes "ALL" ∷ codes "OPEN" ∷ codes "ARCHIVED" ∷ []))
      ∷ (codes "endpoint_name", text_or_null)
      ∷ [];
  body = none;
  errors = validation_error ∷ [];
  responses = (200, codes "TournamentsResponse") ∷ [];
}

abbrev pub create_tournament_type : RequestType
create_tournament_type = record {
  url = codes "/api/tournaments";
  path = [];
  query = [];
  body = some (record { is_optional = false; names = codes "TournamentBody" ∷ [] });
  errors = validation_error ∷ [];
  responses = (200, codes "SuccessResponse") ∷ [];
}

abbrev pub delete_tournament_type : RequestType
delete_tournament_type = record {
  url = codes "/api/tournaments/{tournament_id}";
  path = codes "tournament_id" ∷ [];
  query = [];
  body = none;
  errors = validation_error ∷ [];
  responses = (200, codes "SuccessResponse") ∷ [];
}

abbrev pub get_tournament_type : RequestType
get_tournament_type = record {
  url = codes "/api/tournaments/{tournament_id}";
  path = codes "tournament_id" ∷ [];
  query = [];
  body = none;
  errors = validation_error ∷ [];
  responses = (200, codes "TournamentResponse") ∷ [];
}

abbrev pub update_tournament_by_id_type : RequestType
update_tournament_by_id_type = record {
  url = codes "/api/tournaments/{tournament_id}";
  path = codes "tournament_id" ∷ [];
  query = [];
  body = some (record { is_optional = false; names = codes "TournamentUpdateBody" ∷ [] });
  errors = validation_error ∷ [];
  responses = (200, codes "SuccessResponse") ∷ [];
}

abbrev pub get_available_inputs_type : RequestType
get_available_inputs_type = record {
  url = codes "/api/tournaments/{tournament_id}/available_inputs";
  path = codes "tournament_id" ∷ [];
  query = [];
  body = none;
  errors = validation_error ∷ [];
  responses = (200, codes "StageItemInputOptionsResponse") ∷ [];
}

abbrev pub change_status_type : RequestType
change_status_type = record {
  url = codes "/api/tournaments/{tournament_id}/change-status";
  path = codes "tournament_id" ∷ [];
  query = [];
  body = some (record { is_optional = false; names = codes "TournamentChangeStatusBody" ∷ [] });
  errors = validation_error ∷ [];
  responses = (200, codes "SuccessResponse") ∷ [];
}

abbrev pub get_tournament_logo_type : RequestType
get_tournament_logo_type = record {
  url = codes "/api/tournaments/{tournament_id}/logo";
  path = codes "tournament_id" ∷ [];
  query = [];
  body = none;
  errors = validation_error ∷ [];
  responses = (200, codes "unknown") ∷ [];
}

abbrev pub upload_logo_type : RequestType
upload_logo_type = record {
  url = codes "/api/tournaments/{tournament_id}/logo";
  path = codes "tournament_id" ∷ [];
  query = [];
  body = some (record {
    is_optional = true;
    names = codes "BodyUploadLogoApiTournamentsTournamentIdLogoPost" ∷ [];
  });
  errors = validation_error ∷ [];
  responses = (200, codes "TournamentResponse") ∷ [];
}

abbrev pub get_next_stage_rankings_type : RequestType
get_next_stage_rankings_type = record {
  url = codes "/api/tournaments/{tournament_id}/next_stage_rankings";
  path = codes "tournament_id" ∷ [];
  query = [];
  body = none;
  errors = validation_error ∷ [];
  responses = (200, codes "StageRankingResponse") ∷ [];
}

abbrev pub get_rankings_type : RequestType
get_rankings_type = record {
  url = codes "/api/tournaments/{tournament_id}/rankings";
  path = codes "tournament_id" ∷ [];
  query = [];
  body = none;
  errors = validation_error ∷ [];
  responses = (200, codes "RankingsResponse") ∷ [];
}

abbrev pub create_ranking_type : RequestType
create_ranking_type = record {
  url = codes "/api/tournaments/{tournament_id}/rankings";
  path = codes "tournament_id" ∷ [];
  query = [];
  body = some (record { is_optional = false; names = codes "RankingCreateBody" ∷ [] });
  errors = validation_error ∷ [];
  responses = (200, codes "SuccessResponse") ∷ [];
}

abbrev pub delete_ranking_type : RequestType
delete_ranking_type = record {
  url = codes "/api/tournaments/{tournament_id}/rankings/{ranking_id}";
  path = codes "tournament_id" ∷ codes "ranking_id" ∷ [];
  query = [];
  body = none;
  errors = validation_error ∷ [];
  responses = (200, codes "SuccessResponse") ∷ [];
}

abbrev pub update_ranking_by_id_type : RequestType
update_ranking_by_id_type = record {
  url = codes "/api/tournaments/{tournament_id}/rankings/{ranking_id}";
  path = codes "tournament_id" ∷ codes "ranking_id" ∷ [];
  query = [];
  body = some (record { is_optional = false; names = codes "RankingBody" ∷ [] });
  errors = validation_error ∷ [];
  responses = (200, codes "SuccessResponse") ∷ [];
}

abbrev pub get_standings_type : RequestType
get_standings_type = record {
  url = codes "/api/tournaments/{tournament_id}/standings";
  path = codes "tournament_id" ∷ [];
  query = [];
  body = none;
  errors = validation_error ∷ [];
  responses = (200, codes "StandingsResponse") ∷ [];
}

-- The functions with the types of their options.
abbrev pub tournaments_requests : List (Endpoint × RequestType)
tournaments_requests =
    (get_tournaments, get_tournaments_type)
    ∷ (create_tournament, create_tournament_type)
    ∷ (delete_tournament, delete_tournament_type)
    ∷ (get_tournament, get_tournament_type)
    ∷ (update_tournament_by_id, update_tournament_by_id_type)
    ∷ (get_available_inputs, get_available_inputs_type)
    ∷ (change_status, change_status_type)
    ∷ (get_tournament_logo, get_tournament_logo_type)
    ∷ (upload_logo, upload_logo_type)
    ∷ (get_next_stage_rankings, get_next_stage_rankings_type)
    ∷ (get_rankings, get_rankings_type)
    ∷ (create_ranking, create_ranking_type)
    ∷ (delete_ranking, delete_ranking_type)
    ∷ (update_ranking_by_id, update_ranking_by_id_type)
    ∷ (get_standings, get_standings_type)
    ∷ []
