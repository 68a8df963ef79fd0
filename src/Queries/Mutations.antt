-- ===== src/Queries/Mutations.antt =====
-- The mutations of frontend/src/openapi/@tanstack/react-query.gen.ts: the functions of the API that
-- change.
use brackets.Base.{List, [], ◌∷◌}
use brackets.Openapi.Endpoints.Entry.{
  create_new_club, delete_club, update_club, logout, login_for_access_token, register_user,
  update_user_details, put_user_password,
}
use brackets.Openapi.Endpoints.Tournaments.{
  create_tournament, delete_tournament, update_tournament_by_id, change_status, upload_logo,
  create_ranking, delete_ranking, update_ranking_by_id,
}
use brackets.Openapi.Endpoints.Rosters.{
  create_single_player, delete_player, update_player_by_id, create_multiple_players, create_team,
  delete_team, update_team_by_id, update_team_logo, create_multiple_teams,
}
use brackets.Openapi.Endpoints.Stages.{
  create_match, delete_match, update_match_by_id, create_round, delete_round, update_round_by_id,
  schedule_matches, create_stage_item, delete_stage_item, update_stage_item,
  update_stage_item_input, create_stage, activate_next_stage, delete_stage, update_stage,
}
use brackets.Queries.Cached.{Mutation}

abbrev pub create_new_club_mutation : Mutation
create_new_club_mutation = record { function = create_new_club }

abbrev pub delete_club_mutation : Mutation
delete_club_mutation = record { function = delete_club }

abbrev pub update_club_mutation : Mutation
update_club_mutation = record { function = update_club }

abbrev pub logout_mutation : Mutation
logout_mutation = record { function = logout }

abbrev pub login_for_access_token_mutation : Mutation
login_for_access_token_mutation = record { function = login_for_access_token }

abbrev pub register_user_mutation : Mutation
register_user_mutation = record { function = register_user }

abbrev pub update_user_details_mutation : Mutation
update_user_details_mutation = record { function = update_user_details }

abbrev pub put_user_password_mutation : Mutation
put_user_password_mutation = record { function = put_user_password }

abbrev pub create_tournament_mutation : Mutation
create_tournament_mutation = record { function = create_tournament }

abbrev pub delete_tournament_mutation : Mutation
delete_tournament_mutation = record { function = delete_tournament }

abbrev pub update_tournament_by_id_mutation : Mutation
update_tournament_by_id_mutation = record { function = update_tournament_by_id }

abbrev pub change_status_mutation : Mutation
change_status_mutation = record { function = change_status }

abbrev pub upload_logo_mutation : Mutation
upload_logo_mutation = record { function = upload_logo }

abbrev pub create_ranking_mutation : Mutation
create_ranking_mutation = record { function = create_ranking }

abbrev pub delete_ranking_mutation : Mutation
delete_ranking_mutation = record { function = delete_ranking }

abbrev pub update_ranking_by_id_mutation : Mutation
update_ranking_by_id_mutation = record { function = update_ranking_by_id }

abbrev pub create_single_player_mutation : Mutation
create_single_player_mutation = record { function = create_single_player }

abbrev pub delete_player_mutation : Mutation
delete_player_mutation = record { function = delete_player }

abbrev pub update_player_by_id_mutation : Mutation
update_player_by_id_mutation = record { function = update_player_by_id }

abbrev pub create_multiple_players_mutation : Mutation
create_multiple_players_mutation = record { function = create_multiple_players }

abbrev pub create_team_mutation : Mutation
create_team_mutation = record { function = create_team }

abbrev pub delete_team_mutation : Mutation
delete_team_mutation = record { function = delete_team }

abbrev pub update_team_by_id_mutation : Mutation
update_team_by_id_mutation = record { function = update_team_by_id }

abbrev pub update_team_logo_mutation : Mutation
update_team_logo_mutation = record { function = update_team_logo }

abbrev pub create_multiple_teams_mutation : Mutation
create_multiple_teams_mutation = record { function = create_multiple_teams }

abbrev pub create_match_mutation : Mutation
create_match_mutation = record { function = create_match }

abbrev pub delete_match_mutation : Mutation
delete_match_mutation = record { function = delete_match }

abbrev pub update_match_by_id_mutation : Mutation
update_match_by_id_mutation = record { function = update_match_by_id }

abbrev pub create_round_mutation : Mutation
create_round_mutation = record { function = create_round }

abbrev pub delete_round_mutation : Mutation
delete_round_mutation = record { function = delete_round }

abbrev pub update_round_by_id_mutation : Mutation
update_round_by_id_mutation = record { function = update_round_by_id }

abbrev pub schedule_matches_mutation : Mutation
schedule_matches_mutation = record { function = schedule_matches }

abbrev pub create_stage_item_mutation : Mutation
create_stage_item_mutation = record { function = create_stage_item }

abbrev pub delete_stage_item_mutation : Mutation
delete_stage_item_mutation = record { function = delete_stage_item }

abbrev pub update_stage_item_mutation : Mutation
update_stage_item_mutation = record { function = update_stage_item }

abbrev pub update_stage_item_input_mutation : Mutation
update_stage_item_input_mutation = record { function = update_stage_item_input }

abbrev pub create_stage_mutation : Mutation
create_stage_mutation = record { function = create_stage }

abbrev pub activate_next_stage_mutation : Mutation
activate_next_stage_mutation = record { function = activate_next_stage }

abbrev pub delete_stage_mutation : Mutation
delete_stage_mutation = record { function = delete_stage }

abbrev pub update_stage_mutation : Mutation
update_stage_mutation = record { function = update_stage }

abbrev pub mutations : List Mutation
mutations =
    create_new_club_mutation ∷ delete_club_mutation ∷ update_club_mutation ∷ logout_mutation
    ∷ login_for_access_token_mutation ∷ register_user_mutation ∷ update_user_details_mutation
    ∷ put_user_password_mutation ∷ create_tournament_mutation ∷ delete_tournament_mutation
    ∷ update_tournament_by_id_mutation ∷ change_status_mutation ∷ upload_logo_mutation
    ∷ create_ranking_mutation ∷ delete_ranking_mutation ∷ update_ranking_by_id_mutation
    ∷ create_single_player_mutation ∷ delete_player_mutation ∷ update_player_by_id_mutation
    ∷ create_multiple_players_mutation ∷ create_team_mutation ∷ delete_team_mutation
    ∷ update_team_by_id_mutation ∷ update_team_logo_mutation ∷ create_multiple_teams_mutation
    ∷ create_match_mutation ∷ delete_match_mutation ∷ update_match_by_id_mutation
    ∷ create_round_mutation ∷ delete_round_mutation ∷ update_round_by_id_mutation
    ∷ schedule_matches_mutation ∷ create_stage_item_mutation ∷ delete_stage_item_mutation
    ∷ update_stage_item_mutation ∷ update_stage_item_input_mutation ∷ create_stage_mutation
    ∷ activate_next_stage_mutation ∷ delete_stage_mutation ∷ update_stage_mutation ∷ []
