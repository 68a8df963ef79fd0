-- ===== src/HttpClient/Query.antt =====
-- `createQuerySerializer` and `setAuthParams` of frontend/src/openapi/client/utils.gen.ts.
use brackets.Base.{
  Bool, List, Option, Text, [], codes, decimal, false, has_value, if◌then◌else◌, join, none, not,
  record_get, record_set, some, starts_with, true, truthy, ℕ, ◌&&◌, ◌++◌, ◌==◌, ◌||◌, ◌∷◌,
}
use brackets.Openapi.{
  ArraySeparatorStyle, form, ObjectSeparatorStyle, deep_object, serialize_array_param,
  serialize_object_param, serialize_primitive_param,
}
use brackets.HttpClient.{
  HeaderValue, text_value, Headers, Auth, in_header, in_query, in_cookie, get_auth_token,
}

-- A parameter of a query: undefined or null, a text, a number, a truth value, an array of texts, or an
-- object of texts.
pub data QueryValue : Type 0 where
  missing : QueryValue
  a_text : Text → QueryValue
  number : ℕ → QueryValue
  flag : Bool → QueryValue
  items : List Text → QueryValue
  fields : List (Text × Text) → QueryValue

abbrev pub Query : Type 0
Query = List (Text × QueryValue)

-- `QuerySerializerOptionsObject`; what is absent takes its default.
pub record SerializerOptions : Type 0 where
  pub allow_reserved : Bool
  pub explode_array : Option Bool
  pub style_array : Option ArraySeparatorStyle
  pub explode_object : Option Bool
  pub style_object : Option ObjectSeparatorStyle

pub record QuerySerializerOptions : Type 0 where
  pub args : SerializerOptions
  pub parameters : List (Text × SerializerOptions)

abbrev with_default {ℓ} : {A : Type ℓ} → Option A → A → A
with_default none a = a
with_default (some b) a = b

module _ (encode : Text → Text) where
  serialize_value : SerializerOptions → (name : Text) → QueryValue → Text
  serialize_value o name missing = []
  serialize_value o name (a_text s) =
      serialize_primitive_param encode o.allow_reserved name (some s)
  serialize_value o name (number n) =
      serialize_primitive_param encode o.allow_reserved name (some (decimal n))
  serialize_value o name (flag true) =
      serialize_primitive_param encode o.allow_reserved name (some (codes "true"))
  serialize_value o name (flag false) =
      serialize_primitive_param encode o.allow_reserved name (some (codes "false"))
  serialize_value o name (items vs) =
      serialize_array_param encode o.allow_reserved (with_default o.explode_array true) name
        (with_default o.style_array form) vs
  serialize_value o name (fields es) =
      serialize_object_param encode o.allow_reserved (with_default o.explode_object true) name
        (with_default o.style_object deep_object) es

  -- The texts of `search`: those that are not empty.
  search_parts : QuerySerializerOptions → Query → List Text
  search_parts options [] = []
  search_parts options ((name, value) ∷ rest) =
      let part =
        serialize_value (with_default (record_get name options.parameters) options.args) name
          value in
      let parts = search_parts options rest in if truthy part then part ∷ parts else parts

  unfoldable pub create_query_serializer : QuerySerializerOptions → Query → Text
  unfolding serialize_value search_parts
  create_query_serializer options query = join (codes "&") (search_parts options query)

-- `options.query?.[name]` under a condition.
abbrev is_truthy : Option QueryValue → Bool
is_truthy none = false
is_truthy (some missing) = false
is_truthy (some (a_text s)) = truthy s
is_truthy (some (number n)) = not (n == 0)
is_truthy (some (flag b)) = b
is_truthy (some (items vs)) = true
is_truthy (some (fields es)) = true

-- `text.includes(wanted)`
unfoldable pub includes : Text → (wanted : Text) → Bool
includes [] wanted = not (truthy wanted)
includes (c ∷ s) wanted = starts_with (c ∷ s) wanted || includes s wanted

abbrev cookie : Text
cookie = codes "Cookie"

-- What `setAuthParams` changes of a request's options.
pub record Carried : Type 0 where
  pub headers : Headers
  pub query : Option Query

abbrev query_of : Option Query → Query
query_of none = []
query_of (some q) = q

cookie_includes : Option HeaderValue → (name : Text) → Bool
cookie_includes (some (text_value s)) name = truthy s && includes s (name ++ codes "=")
cookie_includes _ name = false

unfoldable pub check_for_existence : Carried → (name : Option Text) → Bool
unfolding cookie_includes includes
check_for_existence c none = false
check_for_existence c (some name) =
    truthy name
    && (has_value (record_get name c.headers)
        || is_truthy (record_get name (query_of c.query))
        || cookie_includes (record_get cookie c.headers) name)

-- The value of the cookie header, behind what it holds; no cookie header here holds an array.
abbrev cookie_value : Option HeaderValue → Text → Text
cookie_value (some (text_value (c ∷ s))) value = c ∷ s ++ codes "; " ++ value
cookie_value _ value = value

-- `auth.name ?? 'Authorization'`, and the place of the credential.
unfoldable pub put_token : Auth → (token : Text) → Carried → Carried
put_token auth token c =
    let name = with_default auth.name (codes "Authorization") in
    elim (with_default auth.location in_header) [
      | in_query ↦ record c { query = some (record_set name (a_text token) (query_of c.query)) }
      | in_cookie ↦ record c {
        headers =
            record_set cookie
              (text_value (cookie_value (record_get cookie c.headers) (name ++ codes "=" ++ token)))
              c.headers;
      }
      | in_header ↦ record c { headers = record_set name (text_value token) c.headers }
    ]

module _ (btoa : Text → Text) (callback : Option (Auth → Option Text)) where
  -- One round of the loop over the security schemes.
  unfoldable pub set_auth_param : Auth → Carried → Carried
  unfolding check_for_existence put_token
  set_auth_param auth c =
      if check_for_existence c auth.name then c else elim (get_auth_token btoa auth callback) [
        | none ↦ c
        | some token ↦ put_token auth token c
      ]

  unfoldable pub set_auth_params : List Auth → Carried → Carried
  unfolding set_auth_param
  set_auth_params [] c = c
  set_auth_params (auth ∷ rest) c = set_auth_params rest (set_auth_param auth c)
