-- ===== src/Openapi/RequestTypes/Entry.antt =====
-- frontend/src/openapi/types.gen.ts: the types of the requests for accounts, sessions and events.
use brackets.Base.{List, [], codes, false, none, some, ◌∷◌}
use brackets.Openapi.Endpoints.{Endpoint}
use brackets.Openapi.Endpoints.Entry.{
  get_auth_features, get_clubs, create_new_club, delete_club, update_club, logout, ping,
  login_for_access_token, get_user, register_user, get_me, update_user_details, put_user_password,
}
use brackets.Openapi.RequestTypes.{RequestType, validation_error}

abbrev pub get_auth_features_type : RequestType
get_auth_features_type = record {
  url = codes "/api/auth/features";
  path = [];
  query = [];
  body = none;
  errors = [];
  responses = (200, codes "AuthFeatureFlagsResponse") ∷ [];
}

abbrev pub get_clubs_type : RequestType
get_clubs_type = record {
  url = codes "/api/clubs";
  path = [];
  query = [];
  body = none;
  errors = [];
  responses = (200, codes "ClubsResponse") ∷ [];
}

abbrev pub create_new_club_type : RequestType
create_new_club_type = record {
  url = codes "/api/clubs";
  path = [];
  query = [];
  body = some (record { is_optional = false; names = codes "ClubCreateBody" ∷ [] });
  errors = validation_error ∷ [];
  responses = (200, codes "ClubResponse") ∷ [];
}

abbrev pub delete_club_type : RequestType
delete_club_type = record {
  url = codes "/api/clubs/{club_id}";
  path = codes "club_id" ∷ [];
  query = [];
  body = none;
  errors = validation_error ∷ [];
  responses = (200, codes "SuccessResponse") ∷ [];
}

abbrev pub update_club_type : RequestType
update_club_type = record {
  url = codes "/api/clubs/{club_id}";
  path = codes "club_id" ∷ [];
  query = [];
  body = some (record { is_optional = false; names = codes "ClubUpdateBody" ∷ [] });
  errors = validation_error ∷ [];
  responses = (200, codes "ClubResponse") ∷ [];
}

abbrev pub logout_type : RequestType
logout_type = record {
  url = codes "/api/logout";
  path = [];
  query = [];
  body = none;
  errors = [];
  responses = (204, codes "void") ∷ [];
}

abbrev pub ping_type : RequestType
ping_type = record {
  url = codes "/api/ping";
  path = [];
  query = [];
  body = none;
  errors = [];
  responses = (200, codes "string") ∷ [];
}

abbrev pub login_for_access_token_type : RequestType
login_for_access_token_type = record {
  url = codes "/api/token";
  path = [];
  query = [];
  body =
      some
        (record { is_optional = false; names = codes "BodyLoginForAccessTokenApiTokenPost" ∷ [] });
  errors = validation_error ∷ [];
  responses = (200, codes "Token") ∷ [];
}

abbrev pub get_user_type : RequestType
get_user_type = record {
  url = codes "/api/users/me";
  path = [];
  query = [];
  body = none;
  errors = [];
  responses = (200, codes "UserPublicResponse") ∷ [];
}

abbrev pub register_user_type : RequestType
register_user_type = record {
  url = codes "/api/users/register";
  path = [];
  query = [];
  body = some (record { is_optional = false; names = codes "UserToRegister" ∷ [] });
  errors = validation_error ∷ [];
  responses = (200, codes "TokenResponse") ∷ [];
}

abbrev pub get_me_type : RequestType
get_me_type = record {
  url = codes "/api/users/{user_id}";
  path = codes "user_id" ∷ [];
  query = [];
  body = none;
  errors = validation_error ∷ [];
  responses = (200, codes "UserPublicResponse") ∷ [];
}

abbrev pub update_user_details_type : RequestType
update_user_details_type = record {
  url = codes "/api/users/{user_id}";
  path = codes "user_id" ∷ [];
  query = [];
  body = some (record { is_optional = false; names = codes "UserToUpdate" ∷ [] });
  errors = validation_error ∷ [];
  responses = (200, codes "UserPublicResponse") ∷ [];
}

abbrev pub put_user_password_type : RequestType
put_user_password_type = record {
  url = codes "/api/users/{user_id}/password";
  path = codes "user_id" ∷ [];
  query = [];
  body = some (record { is_optional = false; names = codes "UserPasswordToUpdate" ∷ [] });
  errors = validation_error ∷ [];
  responses = (200, codes "SuccessResponse") ∷ [];
}

-- The functions with the types of their options.
abbrev pub entry_requests : List (Endpoint × RequestType)
entry_requests =
    (get_auth_features, get_auth_features_type)
    ∷ (get_clubs, get_clubs_type)
    ∷ (create_new_club, create_new_club_type)
    ∷ (delete_club, delete_club_type)
    ∷ (update_club, update_club_type)
    ∷ (logout, logout_type)
    ∷ (ping, ping_type)
    ∷ (login_for_access_token, login_for_access_token_type)
    ∷ (get_user, get_user_type)
    ∷ (register_user, register_user_type)
    ∷ (get_me, get_me_type)
    ∷ (update_user_details, update_user_details_type)
    ∷ (put_user_password, put_user_password_type)
    ∷ []
