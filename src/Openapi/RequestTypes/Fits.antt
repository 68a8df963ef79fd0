-- ===== src/Openapi/RequestTypes/Fits.antt =====
-- The types of the requests and the functions that send them.
use brackets.Base.{
  All, All-mono, Bool, List, Text, [], any, false, has_value, map, map-≡-All, not, refl, true, ◌++◌,
  ◌==◌, ◌||◌, ◌∷◌, ◌≡◌,
}
use brackets.Openapi.Urls.Filled.{names}
use brackets.Openapi.Endpoints.{Endpoint, ContentType, unset}
use brackets.Openapi.Endpoints.Written.{segments_of}
use brackets.Openapi.RequestTypes.{RequestType}
use brackets.Openapi.RequestTypes.Entry.{entry_requests}
use brackets.Openapi.RequestTypes.Tournaments.{tournaments_requests}
use brackets.Openapi.RequestTypes.Rosters.{rosters_requests}
use brackets.Openapi.RequestTypes.Stages.{stages_requests}

abbrev pub requests : List (Endpoint × RequestType)
requests = entry_requests ++ tournaments_requests ++ rosters_requests ++ stages_requests

abbrev is_empty {ℓ} : {A : Type ℓ} → List A → Bool
is_empty [] = true
is_empty (a ∷ rest) = false

abbrev sets_content_type : ContentType → Bool
sets_content_type unset = false
sets_content_type _ = true

abbrev pub takes_input : RequestType → Bool
takes_input t = not (is_empty t.path) || not (is_empty t.query) || has_value t.body

-- One answer without a text, or one with it.
abbrev pub answers_text : RequestType → Bool
answers_text t = any (λ r. r.0 == 200) t.responses

-- What the types say, and what the functions do.
abbrev Facts : Type 0
Facts = Text × (List Text × (Bool × (Bool × Bool)))

abbrev facts_of_type : Endpoint × RequestType → Facts
facts_of_type (e, t) =
    (t.url, (t.path, (has_value t.body, (answers_text t, not (is_empty t.errors)))))

abbrev facts_of_function : Endpoint × RequestType → Facts
facts_of_function (e, t) = (
  e.url,
  (names (segments_of e), (sets_content_type e.content_type, (e.expects_json, takes_input t))),
)

same_facts : map facts_of_type requests ≡ map facts_of_function requests
same_facts = refl

abbrev pub IsTruthful : Endpoint × RequestType → Type 0
IsTruthful (e, t) =
    (t.url ≡ e.url)
    × (t.path ≡ names (segments_of e))
    × (has_value t.body ≡ sets_content_type e.content_type)
    × (answers_text t ≡ e.expects_json)
    × (not (is_empty t.errors) ≡ takes_input t)

same-IsTruthful :
    (r : Endpoint × RequestType) → facts_of_type r ≡ facts_of_function r → IsTruthful r
same-IsTruthful (e, t) h = (cc, cc, cc, cc, cc)

-- The type of the options of each request has the address of its function, and names exactly the
-- parameters of that address, in their order; there is a type of a body exactly where the function
-- sets the type of its content, an answer with status 200 exactly where the function reads an answer,
-- and an error exactly where there is anything to validate.
pub requests-IsTruthful : All IsTruthful requests
requests-IsTruthful =
    All-mono same-IsTruthful requests
      (map-≡-All facts_of_type facts_of_function requests same_facts)
