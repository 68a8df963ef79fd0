-- ===== src/Openapi/Endpoints.antt =====
-- frontend/src/openapi/sdk.gen.ts: the requests of the API, one definition for each function. A request
-- takes its parameters, its query and its body from the options that it is called with.
pub mod Entry
pub mod Tournaments
pub mod Rosters
pub mod Stages
pub mod Written
use brackets.Base.{Bool, Text}

pub data Method : Type 0 where
  get post put delete : Method

-- Whether a request carries the session: as a bearer token, or as the cookie `bracket_session`.
pub data Security : Type 0 where
  open_to_all bearer_or_session_cookie : Security

pub data BodySerializer : Type 0 where
  form_data url_search_params default_serializer : BodySerializer

-- The header of that name; null takes it away, so that the browser sets it with its boundary.
pub data ContentType : Type 0 where
  unset null_type json urlencoded : ContentType

pub record Endpoint : Type 0 where
  pub method : Method
  pub url : Text
  pub security : Security
  pub body_serializer : BodySerializer
  pub content_type : ContentType
  pub expects_json : Bool
