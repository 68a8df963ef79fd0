-- ===== src/HttpClient/Requests.antt =====
-- `beforeRequest` of frontend/src/openapi/client/client.gen.ts, `buildUrl` and `mergeConfigs` of
-- client/utils.gen.ts, and the configuration that `configureApiClient` of frontend/src/app/api.ts
-- gives the client.
use brackets.Base.{Bool, List, Option, Text, [], codes, false, none, record_spread, some, true, ◌∷◌}
use brackets.Openapi.Urls.{PathValue, get_url}
use brackets.Openapi.Endpoints.{
  Method, Security, open_to_all, bearer_or_session_cookie, ContentType, unset, null_type, json,
  urlencoded, Endpoint,
}
use brackets.HttpClient.{null_value, text_value, Headers, merge_headers, Auth, in_cookie, bearer}
use brackets.HttpClient.Query.{
  QuerySerializerOptions, Query, create_query_serializer, set_auth_params,
}

pub record Config : Type 0 where
  pub base_url : Option Text
  pub with_credentials : Bool
  pub headers : Option Headers
  pub auth : Option (Auth → Option Text)

-- `{ ...a, ...b }`, where an absent field of `b` leaves that of `a`.
abbrev pub or_first {ℓ} : {A : Type ℓ} → Option A → Option A → Option A
or_first none a = a
or_first (some b) a = some b

-- `configureApiClient`, of the address that `getApiBaseUrl` gives.
abbrev pub api_config : (base_url : Text) → Config
api_config base_url = record {
  base_url = some base_url;
  with_credentials = true;
  headers = some ((codes "X-Requested-With", text_value (codes "XMLHttpRequest")) ∷ []);
  auth = none;
}

-- What `createClient` starts with.
abbrev pub no_config : Config
no_config = record { base_url = none; with_credentials = false; headers = none; auth = none }

-- The `security` and the headers of a function of sdk.gen.ts; the caller's headers come last.
unfoldable pub security_schemes : Security → List Auth
security_schemes open_to_all = []
security_schemes bearer_or_session_cookie =
    record { location = none; name = none; scheme = some bearer }
    ∷ record { location = some in_cookie; name = some (codes "bracket_session"); scheme = none }
    ∷ []

unfoldable pub content_type_headers : ContentType → Headers
content_type_headers unset = []
content_type_headers null_type = (codes "Content-Type", null_value) ∷ []
content_type_headers json = (codes "Content-Type", text_value (codes "application/json")) ∷ []
content_type_headers urlencoded =
    (codes "Content-Type", text_value (codes "application/x-www-form-urlencoded")) ∷ []

unfoldable pub option_headers : Endpoint → (extra : Headers) → Headers
unfolding content_type_headers
option_headers e extra = record_spread (content_type_headers e.content_type) extra

-- What a call adds to its function's options.
pub record CallOptions : Type 0 where
  pub path : Option (List (Text × PathValue))
  pub query : Option Query
  pub headers : Headers

pub record SentRequest : Type 0 where
  pub method : Method
  pub url : Text
  pub with_credentials : Bool
  pub headers : Headers

-- Nothing sets the options of the query's serialiser.
abbrev pub default_serializer_options : QuerySerializerOptions
default_serializer_options = record {
  args = record {
    allow_reserved = false;
    explode_array = none;
    style_array = none;
    explode_object = none;
    style_object = none;
  };
  parameters = [];
}

module _ (stringify : List (Text × Text) → Text) where
  -- `mergeConfigs`, for a second configuration that sets `withCredentials`.
  unfoldable pub merge_configs : Config → Config → Config
  merge_configs a b = record {
    base_url = or_first b.base_url a.base_url;
    with_credentials = b.with_credentials;
    headers = some (merge_headers stringify a.headers b.headers);
    auth = or_first b.auth a.auth;
  }

  -- The client's configuration, once `configureApiClient` has run.
  unfoldable pub configured : (base_url : Text) → Config
  unfolding merge_configs
  configured base_url = merge_configs (merge_configs no_config no_config) (api_config base_url)

module _ (stringify : List (Text × Text) → Text) (encode : Text → Text) (btoa : Text → Text) where
  -- The query, if there is one, as `buildUrl` gives it to `getUrl`.
  abbrev query_text : Option Query → Option Text
  query_text none = none
  query_text (some q) = some (create_query_serializer encode default_serializer_options q)

  unfoldable pub before_request : Config → Endpoint → CallOptions → SentRequest
  unfolding security_schemes option_headers merge_headers set_auth_params create_query_serializer
      get_url
  before_request config e o =
      let carried = set_auth_params btoa config.auth (security_schemes e.security) (record {
        headers = merge_headers stringify config.headers (some (option_headers e o.headers));
        query = o.query;
      }) in
      record {
        method = e.method;
        url = get_url encode config.base_url o.path (query_text carried.query) e.url;
        with_credentials = config.with_credentials;
        headers = carried.headers;
      }
