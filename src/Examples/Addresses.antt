-- ===== src/Examples/Addresses.antt =====
-- The address of a request.
use brackets.Base.{
  All, Lacks, List, Text, [], arith, codes, if◌then◌else◌, map, record_get, refl, some, starts_with,
  text_eq, ℕ, ◌==◌, ◌∷◌, ◌≡◌,
}
use brackets.Openapi.Urls.{PathValue, primitive, default_path_serializer, get_url}
use brackets.Openapi.Urls.Filled.{Segment, fixed, param, template, default_path_serializer-filled}
use brackets.Openapi.RequestTypes.Fits.{requests}
use brackets.Openapi.RequestTypes.Calls.{IsFilledCall, requests-IsFilledCall}

-- An encoding that writes an opening brace as a percent sign.
abbrev escape : ℕ → ℕ
escape c = if c == b'{' then b'%' else c

abbrev pub escaped : Text → Text
escaped = map escape

pub escaped-Lacks : (s : Text) → Lacks b'{' (escaped s)
escaped-Lacks [] = tt
escaped-Lacks (c ∷ s) = (ground arith, escaped-Lacks s)

abbrev match_path : List (Text × PathValue)
match_path =
    (codes "tournament_id", primitive (codes "1")) ∷ (codes "match_id", primitive (codes "31")) ∷ []

abbrev match_segments : List Segment
match_segments =
    fixed (codes "/api/tournaments/")
    ∷ param (codes "tournament_id")
    ∷ fixed (codes "/matches/")
    ∷ param (codes "match_id")
    ∷ []

default_path_serializer-filled_example :
    default_path_serializer escaped match_path (template match_segments)
    ≡ codes "/api/tournaments/1/matches/31"
unfolding record_get brackets.Base.text_eq
default_path_serializer-filled_example =
    default_path_serializer-filled escaped match_path match_segments
      ((codes "1", refl), ((codes "31", refl), tt)) refl escaped-Lacks

requests-IsFilledCall_example : All (IsFilledCall escaped (codes "http://api")) requests
requests-IsFilledCall_example =
    requests-IsFilledCall escaped (codes "http://api") refl escaped-Lacks

get_url_run :
    get_url escaped
      (some (codes "http://api"))
      (some match_path)
      (some (codes "a=b"))
      (codes "/x/{match_id}")
    ≡ codes "http://api/x/31?a=b"
unfolding get_url brackets.Base.starts_with record_get brackets.Base.text_eq
    brackets.Openapi.Urls.replace_first
get_url_run = refl
