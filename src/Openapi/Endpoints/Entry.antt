-- ===== src/Openapi/Endpoints/Entry.antt =====
-- frontend/src/openapi/sdk.gen.ts: the requests for accounts, sessions and events.
use brackets.Base.{List, [], codes, false, true, ◌∷◌}
use brackets.Openapi.Endpoints.{
  get, post, put, delete, open_to_all, bearer_or_session_cookie, url_search_params,
  default_serializer, unset, json, urlencoded, Endpoint,
}

abbrev pub get_auth_features : Endpoint
get_auth_features = record {
  method = get;
  url = codes "/api/auth/features";
  security = open_to_all;
  body_serializer = default_serializer;
  content_type = unset;
  expects_json = true;
}

abbrev pub get_clubs : Endpoint
get_clubs = record {
  method = get;
  url = codes "/api/clubs";
  security = bearer_or_session_cookie;
  body_serializer = default_serializer;
  content_type = unset;
  expects_json = true;
}

abbrev pub create_new_club : Endpoint
create_new_club = record {
  method = post;
  url = codes "/api/clubs";
  security = bearer_or_session_cookie;
  body_serializer = default_serializer;
  content_type = json;
  expects_json = true;
}

abbrev pub delete_club : Endpoint
delete_club = record {
  method = delete;
  url = codes "/api/clubs/{club_id}";
  security = bearer_or_session_cookie;
  body_serializer = default_serializer;
  content_type = unset;
  expects_json = true;
}

abbrev pub update_club : Endpoint
update_club = record {
  method = put;
  url = codes "/api/clubs/{club_id}";
  security = bearer_or_session_cookie;
  body_serializer = default_serializer;
  content_type = json;
  expects_json = true;
}

abbrev pub logout : Endpoint
logout = record {
  method = post;
  url = codes "/api/logout";
  security = open_to_all;
  body_serializer = default_serializer;
  content_type = unset;
  expects_json = false;
}

abbrev pub ping : Endpoint
ping = record {
  method = get;
  url = codes "/api/ping";
  security = open_to_all;
  body_serializer = default_serializer;
  content_type = unset;
  expects_json = true;
}

abbrev pub login_for_access_token : Endpoint
login_for_access_token = record {
  method = post;
  url = codes "/api/token";
  security = open_to_all;
  body_serializer = url_search_params;
  content_type = urlencoded;
  expects_json = true;
}

abbrev pub get_user : Endpoint
get_user = record {
  method = get;
  url = codes "/api/users/me";
  security = bearer_or_session_cookie;
  body_serializer = default_serializer;
  content_type = unset;
  expects_json = true;
}

abbrev pub register_user : Endpoint
register_user = record {
  method = post;
  url = codes "/api/users/register";
  security = open_to_all;
  body_serializer = default_serializer;
  content_type = json;
  expects_json = true;
}

abbrev pub get_me : Endpoint
get_me = record {
  method = get;
  url = codes "/api/users/{user_id}";
  security = bearer_or_session_cookie;
  body_serializer = default_serializer;
  content_type = unset;
  expects_json = true;
}

abbrev pub update_user_details : Endpoint
update_user_details = record {
  method = put;
  url = codes "/api/users/{user_id}";
  security = bearer_or_session_cookie;
  body_serializer = default_serializer;
  content_type = json;
  expects_json = true;
}

abbrev pub put_user_password : Endpoint
put_user_password = record {
  method = put;
  url = codes "/api/users/{user_id}/password";
  security = bearer_or_session_cookie;
  body_serializer = default_serializer;
  content_type = json;
  expects_json = true;
}

abbrev pub entry_endpoints : List Endpoint
entry_endpoints =
    get_auth_features ∷ get_clubs ∷ create_new_club ∷ delete_club ∷ update_club ∷ logout ∷ ping
    ∷ login_for_access_token ∷ get_user ∷ register_user ∷ get_me ∷ update_user_details
    ∷ put_user_password ∷ []
