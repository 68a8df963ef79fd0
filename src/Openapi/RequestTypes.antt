-- ===== src/Openapi/RequestTypes.antt =====
-- frontend/src/openapi/types.gen.ts: the types of the requests, with what a function of sdk.gen.ts is
-- called with and what it may answer. Every parameter of a path is a number, and every one of a query
-- may be absent.
pub mod Entry
pub mod Tournaments
pub mod Rosters
pub mod Stages
pub mod Fits
pub mod Calls
use brackets.Base.{Bool, List, Option, Text, codes, ℕ}

-- One of several texts, a truth value, a number, or a text or null.
pub data QueryType : Type 0 where
  choice : List Text → QueryType
  boolean a_number text_or_null : QueryType

-- The names of the types of a body, of which it has one.
pub record BodyType : Type 0 where
  pub is_optional : Bool
  pub names : List Text

-- `...Data`, `...Errors` and `...Responses`, the latter two by status; no status is no type.
pub record RequestType : Type 0 where
  pub url : Text
  pub path : List Text
  pub query : List (Text × QueryType)
  pub body : Option BodyType
  pub errors : List (ℕ × Text)
  pub responses : List (ℕ × Text)

abbrev pub validation_error : ℕ × Text
validation_error = (422, codes "HttpValidationError")
