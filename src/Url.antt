-- ===== src/Url.antt =====
-- frontend/src/app/utils.ts: the address of the API, tournament keys and error messages.
pub mod Laws
use brackets.Base.{
  Bool, List, Option, Text, [], all_digits, codes, if◌then◌else◌, join, none, or_text, some,
  text_eq, truthy, ℕ, ◌&&◌, ◌++◌, ◌==◌, ◌∷◌,
}
use brackets.Tournament.{trim}

-- `/^\d+$/.test(value)`
unfoldable pub is_numeric_identifier : Text → Bool
is_numeric_identifier s = truthy s && all_digits s

-- A slash is dropped from the end if nothing that stays follows it.
keep_unless_slash : ℕ → Text → Text
keep_unless_slash c [] = if c == b'/' then [] else c ∷ []
keep_unless_slash c (d ∷ s) = c ∷ d ∷ s

-- `value.replace(/\/+$/, '')`
strip_slashes : Text → Text
strip_slashes [] = []
strip_slashes (c ∷ s) = keep_unless_slash c (strip_slashes s)

-- `value.replace(/\/api$/, '')`
strip_api : Text → Text
strip_api [] = []
strip_api (c ∷ s) = if text_eq (c ∷ s) (codes "/api") then [] else c ∷ strip_api s

unfoldable pub normalize_api_base_url : Text → Text
unfolding keep_unless_slash strip_slashes strip_api
normalize_api_base_url value = strip_api (strip_slashes value)

-- `runtimeConfig?.apiBaseUrl?.trim()`
abbrev trimmed : Option Text → Text
trimmed none = []
trimmed (some s) = trim s

-- `configured` is the page's runtime configuration, and `built_in` is the build's
-- `VITE_API_BASE_URL`; an absent one is false, as the empty text is.
unfoldable pub get_api_base_url : (configured built_in : Option Text) → Text
get_api_base_url configured built_in =
    normalize_api_base_url (or_text (trimmed configured) (elim built_in [ none ↦ [] | some s ↦ s ]))

-- One entry of a validation error.
pub record ErrorDetail : Type 0 where
  pub loc : List Text
  pub msg : Text

-- `response.data.detail`: a text, a list of entries, or anything else.
pub data Detail : Type 0 where
  entries : List ErrorDetail → Detail
  message : Text → Detail
  absent : Detail

pub record RequestError : Type 0 where
  pub detail : Detail
  pub message : Option Text
  pub status : Option ℕ

abbrev fallback_message : Text
fallback_message = codes "The request failed. Check the backend connection and your credentials."

-- `axiosError.message`, or the fallback.
message_or_fallback : Option Text → Text
message_or_fallback none = fallback_message
message_or_fallback (some s) = or_text s fallback_message

unfoldable pub get_error_message : RequestError → Text
unfolding message_or_fallback
get_error_message e = elim e.detail [
  | entries ds ↦ elim ds [
    | [] ↦ message_or_fallback e.message
    | d ∷ more ↦ join (codes " > ") d.loc ++ codes ": " ++ d.msg
  ]
  | message s ↦ or_text s (message_or_fallback e.message)
  | absent ↦ message_or_fallback e.message
]
