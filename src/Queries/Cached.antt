-- ===== src/Queries/Cached.antt =====
-- frontend/src/openapi/@tanstack/react-query.gen.ts: what a query and a mutation do, over the functions of
-- the API, and the keys of the queries.
use brackets.Base.{Bool, List, Option, Text, [], codes, none, record_spread, some, ℕ, ◌∷◌}
use brackets.Openapi.Endpoints.{Endpoint}
use brackets.HttpClient.{Headers}
use brackets.HttpClient.Query.{number}
use brackets.HttpClient.Requests.{Config, or_first, SentRequest, before_request}
use brackets.Queries.{no_options, RequestKey, Options, request_key, QueryKey, create_query_key}

-- A query, by the id of its key and the function that it calls.
pub record CachedQuery : Type 0 where
  pub id : Text
  pub function : Endpoint
  pub is_infinite : Bool

pub record Mutation : Type 0 where
  pub function : Endpoint

-- A page of an infinite query: an offset, or an object of parameters.
pub data PageParam : Type 0 where
  at_offset : ℕ → PageParam
  at_page : Options → PageParam

abbrev pub page_of : PageParam → Options
page_of (at_offset n) = record no_options { query = some ((codes "offset", number n) ∷ []) }
page_of (at_page page) = page

abbrev items_of {ℓ} : {V : Type ℓ} → Option (List (Text × V)) → List (Text × V)
items_of none = []
items_of (some es) = es

-- `if (page.x) params.x = { ...key.x, ...page.x }`
abbrev pub merged {ℓ} :
    {V : Type ℓ} → (key page : Option (List (Text × V))) → Option (List (Text × V))
merged key none = key
merged key (some es) = some (record_spread (record_spread [] (items_of key)) es)

unfoldable pub create_infinite_params : RequestKey → (page : Options) → RequestKey
create_infinite_params key page = record key {
  body = merged key.body page.body;
  headers = merged key.headers page.headers;
  path = merged key.path page.path;
  query = merged key.query page.query;
}

-- `{ ...options, ...fnOptions }`
abbrev pub overlay : Options → Options → Options
overlay options later = record {
  base_url = or_first later.base_url options.base_url;
  body = or_first later.body options.body;
  headers = or_first later.headers options.headers;
  path = or_first later.path options.path;
  query = or_first later.query options.query;
}

abbrev pub options_of : RequestKey → Options
options_of key = record {
  base_url = key.base_url;
  body = key.body;
  headers = key.headers;
  path = key.path;
  query = key.query;
}

-- `{ ...options, ...key }`; a key always has a base address, if only an undefined one.
abbrev pub with_key : Options → RequestKey → Options
with_key options key = record (overlay options (options_of key)) { base_url = key.base_url }

module _ (config : Config) where
  abbrev pub key_of : CachedQuery → Options → RequestKey
  key_of q options = request_key config.base_url q.id options q.is_infinite none

  -- The key of a query, as the `...QueryKey` functions make it.
  unfoldable pub query_key : CachedQuery → Options → QueryKey
  unfolding create_query_key
  query_key q options = create_query_key config.base_url q.id options q.is_infinite none

  module _ (stringify : List (Text × Text) → Text) (encode btoa : Text → Text) where
    -- A function of the API with its options, whose base address replaces the client's.
    unfoldable pub call_function : Endpoint → Options → SentRequest × Option (List (Text × Text))
    unfolding before_request
    call_function e options =
        let headers : Headers = items_of options.headers in
        (
          before_request stringify encode btoa
              (record config { base_url = or_first options.base_url config.base_url }) e
              (record { path = options.path; query = options.query; headers = headers }),
          options.body,
        )

    -- `queryFn`, of a query that is not infinite.
    unfoldable pub run_query : CachedQuery → Options → SentRequest × Option (List (Text × Text))
    unfolding call_function
    run_query q options = call_function q.function (with_key options (key_of q options))

    -- `queryFn` of an infinite query.
    unfoldable pub run_page :
        CachedQuery → Options → PageParam → SentRequest × Option (List (Text × Text))
    unfolding call_function create_infinite_params
    run_page q options param =
        let params = create_infinite_params (key_of q options) (page_of param) in
        call_function q.function (with_key options params)

    -- `mutationFn`
    unfoldable pub run_mutation :
        Mutation → Options → (fn_options : Options) → SentRequest × Option (List (Text × Text))
    unfolding call_function
    run_mutation m options fn_options = call_function m.function (overlay options fn_options)
