-- ===== src/Queries.antt =====
-- frontend/src/app/query-client.ts and the query keys of the pages: what a change marks as stale, and what
-- the user is told.
--
-- `match_query` is the query library's: whether a query's key matches the key of a filter.
pub mod Refreshed
pub mod Metas
pub mod Cached
pub mod Table
pub mod Mutations
pub mod Same
use brackets.Base.{
  Bool, List, Option, Text, [], any, codes, false, filter, if◌then◌else◌, none, some, true, truthy,
  ℕ, ◌∷◌,
}
use brackets.Url.{RequestError, get_error_message}
use brackets.HttpClient.{Headers}
use brackets.HttpClient.Query.{Query, a_text}
use brackets.Openapi.Urls.{PathValue}
use brackets.Page.{TournamentSection, is_dashboard}

-- The object of a query key, of a request's body, headers, path and query those that its options have.
-- An object of options here holds texts, as a body is sent, or the values of its parameters.
pub record RequestKey : Type 0 where
  pub id : Text
  pub base_url : Option Text
  pub infinite : Bool
  pub tags : Option (List Text)
  pub body : Option (List (Text × Text))
  pub headers : Option Headers
  pub path : Option (List (Text × PathValue))
  pub query : Option Query

-- `Options`, of what a key reads.
pub record Options : Type 0 where
  pub base_url : Option Text
  pub body : Option (List (Text × Text))
  pub headers : Option Headers
  pub path : Option (List (Text × PathValue))
  pub query : Option Query

-- What a function is called with when it is called with nothing.
abbrev pub no_options : Options
no_options = record { base_url = none; body = none; headers = none; path = none; query = none }

-- `options?.baseURL || client.getConfig().baseURL`
abbrev base_or : Option Text → Option Text → Option Text
base_or none config_url = config_url
base_or (some url) config_url = if truthy url then some url else config_url

abbrev pub request_key :
    (config_url : Option Text)
    → (id : Text) → Options
    → (infinite : Bool) → (tags : Option (List Text)) → RequestKey
request_key config_url id options infinite tags = record {
  id = id;
  base_url = base_or options.base_url config_url;
  infinite = infinite;
  tags = tags;
  body = options.body;
  headers = options.headers;
  path = options.path;
  query = options.query;
}

-- A part of a key: a text, a truth value, the absent or present user of a session, or the object that
-- `createQueryKey` makes.
pub data KeyPart : Type 0 where
  text_part : Text → KeyPart
  flag_part : Bool → KeyPart
  user_part : Option ℕ → KeyPart
  request_part : RequestKey → KeyPart

abbrev pub QueryKey : Type 0
QueryKey = List KeyPart

-- `createQueryKey`; no options are as the empty ones.
unfoldable pub create_query_key :
    (config_url : Option Text)
    → (id : Text) → Options
    → (infinite : Bool) → (tags : Option (List Text)) → QueryKey
create_query_key config_url id options infinite tags =
    request_part (request_key config_url id options infinite tags) ∷ []

-- The options of the home page's list: `{ query: { filter_: 'ALL' } }`.
abbrev pub all_tournaments : Options
all_tournaments = record no_options { query = some ((codes "filter_", a_text (codes "ALL")) ∷ []) }

-- `getTournamentsApiTournamentsGetQueryKey`
abbrev pub tournaments_key : (base_url : Text) → Options → QueryKey
unfolding create_query_key
tournaments_key base_url options =
    create_query_key (some base_url) (codes "getTournamentsApiTournamentsGet") options false none

-- The key of the query of `TournamentPage`.
unfoldable pub bundle_key :
    TournamentSection → (tournament_key : Text) (user_id : Option ℕ) → QueryKey
unfolding is_dashboard
bundle_key section key user_id =
    text_part (codes "tournament-bundle")
    ∷ text_part key
    ∷ flag_part (is_dashboard section)
    ∷ user_part user_id
    ∷ []

-- `mutation.meta`
pub record MutationMeta : Type 0 where
  pub invalidates : Option (List QueryKey)
  pub success_message : Option Text

-- The predicate of `invalidateQueries`.
unfoldable pub is_invalidated :
    (match_query : (filter key : QueryKey) → Bool) → Option MutationMeta → QueryKey → Bool
is_invalidated match_query none key = true
is_invalidated match_query (some meta) key = elim meta.invalidates [
  | none ↦ true
  | some filters ↦ any (λ f. match_query f key) filters
]

-- The end of a mutation: the cached queries that are marked as stale, in the order of the cache, and
-- then the notice; the query library loads those of them again that a page is using. An error marks
-- none.
pub data Outcome : Type 0 where
  succeeded : Outcome
  failed : RequestError → Outcome

pub record Settled : Type 0 where
  pub invalidated : List QueryKey
  pub notice : Option Text

abbrev success_notice : Option MutationMeta → Option Text
success_notice none = none
success_notice (some meta) = elim meta.success_message [
  | none ↦ none
  | some text ↦ if truthy text then some text else none
]

unfoldable pub settle :
    (match_query : (filter key : QueryKey) → Bool)
    → Option MutationMeta
    → List QueryKey
    → Outcome
    → Settled
settle match_query meta keys succeeded = record {
  invalidated = filter (is_invalidated match_query meta) keys;
  notice = success_notice meta;
}
settle match_query meta keys (failed e) = record {
  invalidated = [];
  notice = some (get_error_message e);
}

-- The meta of `remove` in `SettingsSection`, and of `logout` in `RootLayout`.
abbrev pub deletion_meta : (base_url : Text) → MutationMeta
deletion_meta base_url = record {
  invalidates = some (tournaments_key base_url no_options ∷ []);
  success_message = some (codes "Tournament deleted.");
}

abbrev pub logout_meta : MutationMeta
logout_meta = record {
  invalidates = some [];
  success_message = some (codes "Logged out successfully.");
}
