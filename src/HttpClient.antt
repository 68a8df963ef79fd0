-- ===== src/HttpClient.antt =====
-- frontend/src/openapi/client/utils.gen.ts and core/auth.gen.ts: the headers, the credentials and the
-- query of a request. `stringify` is `JSON.stringify`, and `btoa` is the browser's.
pub mod Query
pub mod Requests
pub mod Kept
use brackets.Base.{
  Bool, List, Option, Text, [], any, codes, decimal, if◌then◌else◌, map, map_from, none,
  record_delete, record_get, record_set, record_spread, some, text_eq, truthy, ◌++◌, ◌∷◌,
}

-- The value of a header: undefined, null, a text, an array, or an object.
pub data HeaderValue : Type 0 where
  undefined_value null_value : HeaderValue
  text_value : Text → HeaderValue
  list_value : List Text → HeaderValue
  object_value : List (Text × Text) → HeaderValue

abbrev pub Headers : Type 0
Headers = List (Text × HeaderValue)

-- `axiosHeadersKeywords`
abbrev axios_headers_keywords : List Text
axios_headers_keywords =
    codes "common"
    ∷ codes "delete"
    ∷ codes "get"
    ∷ codes "head"
    ∷ codes "patch"
    ∷ codes "post"
    ∷ codes "put"
    ∷ []

unfoldable pub is_axios_keyword : Text → Bool
is_axios_keyword key = any (text_eq key) axios_headers_keywords

-- `{ ...value }` of a header that is there already.
spread_value : Option HeaderValue → List (Text × Text)
spread_value none = []
spread_value (some undefined_value) = []
spread_value (some null_value) = []
spread_value (some (text_value s)) = map_from 0 (λ i c. (decimal i, c ∷ [])) s
spread_value (some (list_value vs)) = map_from 0 (λ i v. (decimal i, v)) vs
spread_value (some (object_value es)) = es

-- `[...(value ?? [])]`. A header outside the keywords holds no object.
spread_items : Option HeaderValue → List Text
spread_items (some (text_value s)) = map (λ c. c ∷ []) s
spread_items (some (list_value vs)) = vs
spread_items _ = []

-- `typeof value === 'object'`, with the entries that the spread adds.
abbrev object_entries : HeaderValue → Option (List (Text × Text))
object_entries undefined_value = none
object_entries (text_value s) = none
object_entries null_value = some []
object_entries (list_value vs) = some (map_from 0 (λ i v. (decimal i, v)) vs)
object_entries (object_value es) = some es

module _ (stringify : List (Text × Text) → Text) where
  plain_header : (key : Text) → HeaderValue → Headers → Headers
  plain_header key undefined_value merged = merged
  plain_header key null_value merged = record_delete key merged
  plain_header key (text_value s) merged = record_set key (text_value s) merged
  plain_header key (object_value es) merged = record_set key (text_value (stringify es)) merged
  plain_header key (list_value []) merged = merged
  plain_header key (list_value (v ∷ vs)) merged =
      record_set key (list_value (spread_items (record_get key merged) ++ v ∷ vs)) merged

  -- One round of the inner loop of `mergeHeaders`.
  merge_header : (key : Text) → HeaderValue → Headers → Headers
  unfolding plain_header spread_value spread_items
  merge_header key value merged =
      let plain = plain_header key value merged in
      if is_axios_keyword key
      then elim (object_entries value) [
        | none ↦ plain
        | some es ↦
            record_set key (object_value (record_spread (spread_value (record_get key merged)) es))
              merged
      ]
      else plain

  merge_entries : Headers → (merged : Headers) → Headers
  merge_entries [] merged = merged
  merge_entries ((key, value) ∷ rest) merged = merge_entries rest (merge_header key value merged)

  -- `mergeHeaders`, of the two that every call gives it; an absent one is skipped.
  unfoldable pub merge_headers : (first second : Option Headers) → Headers
  unfolding merge_entries merge_header
  merge_headers first second =
      let empty_if_absent : Option Headers → Headers = λ h. elim h [ none ↦ [] | some hs ↦ hs ] in
      merge_entries (empty_if_absent second) (merge_entries (empty_if_absent first) [])

-- `Auth` of core/auth.gen.ts, without the key that tells schemes apart.
pub data AuthLocation : Type 0 where
  in_header in_query in_cookie : AuthLocation

pub data AuthScheme : Type 0 where
  basic bearer : AuthScheme

pub record Auth : Type 0 where
  pub location : Option AuthLocation
  pub name : Option Text
  pub scheme : Option AuthScheme

-- `options.auth`, as a function: a token that is not one is the same for every scheme.
unfoldable pub get_auth_token :
    (btoa : Text → Text) → Auth → (callback : Option (Auth → Option Text)) → Option Text
get_auth_token btoa auth none = none
get_auth_token btoa auth (some callback) = elim (callback auth) [
  | none ↦ none
  | some token ↦
      if truthy token
      then some (elim auth.scheme [
        | none ↦ token
        | some bearer ↦ codes "Bearer " ++ token
        | some basic ↦ codes "Basic " ++ btoa token
      ])
      else none
]
