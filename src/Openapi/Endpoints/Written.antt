-- ===== src/Openapi/Endpoints/Written.antt =====
-- Every address of the API is written of fixed parts and named parameters.
use brackets.Base.{
  All, All-mono, Bool, Lacks, List, Option, Text, [], any, arith, false, if◌then◌else◌, none, not,
  refl, some, text_eq, text_eq_iff, true, ℕ, ◌&&◌, ◌++◌, ◌==◌, ◌∷◌, ◌≡◌,
}
use brackets.Openapi.Urls.{PathValue, default_path_serializer}
use brackets.Openapi.Urls.Filled.{
  Segment, fixed, param, template, are_plain, Given, filled, default_path_serializer-filled,
}
use brackets.Openapi.Endpoints.{Endpoint}
use brackets.Openapi.Endpoints.Entry.{entry_endpoints}
use brackets.Openapi.Endpoints.Tournaments.{tournaments_endpoints}
use brackets.Openapi.Endpoints.Rosters.{rosters_endpoints}
use brackets.Openapi.Endpoints.Stages.{stages_endpoints}

abbrev cons_fixed : ℕ → List Segment → List Segment
cons_fixed c [] = fixed (c ∷ []) ∷ []
cons_fixed c (fixed s ∷ segs) = fixed (c ∷ s) ∷ segs
cons_fixed c (param name ∷ segs) = fixed (c ∷ []) ∷ param name ∷ segs

abbrev read_segments : (open_name : Option Text) → Text → List Segment
read_segments none [] = []
read_segments (some name) [] = fixed (b'{' ∷ name) ∷ []
read_segments none (c ∷ s) =
    if c == b'{' then read_segments (some []) s else cons_fixed c (read_segments none s)
read_segments (some name) (c ∷ s) =
    if c == b'}' then param name ∷ read_segments none s else read_segments (some (name ++ c ∷ [])) s

-- The parts of an address.
abbrev pub segments_of : Endpoint → List Segment
segments_of e = read_segments none e.url

abbrev pub is_written : Endpoint → Bool
is_written e = text_eq (template (segments_of e)) e.url && are_plain (segments_of e)

-- The functions of the file.
abbrev pub endpoints : List Endpoint
endpoints = entry_endpoints ++ tournaments_endpoints ++ rosters_endpoints ++ stages_endpoints

endpoints-is_written : any (λ e. not (is_written e)) endpoints ≡ false
unfolding text_eq
endpoints-is_written = refl

-- A request with a value for each of the parameters in its address goes to the address with the
-- values in their places.
abbrev pub IsFilled : (encode : Text → Text) → Endpoint → Type 0
IsFilled encode e =
    (path : List (Text × PathValue)) (given : Given path (segments_of e))
    → default_path_serializer encode path e.url ≡ filled encode path (segments_of e) given

is_written-IsFilled :
    (encode : Text → Text)
    → ((s : Text) → Lacks b'{' (encode s))
    → (e : Endpoint) → is_written e ≡ true
    → IsFilled encode e
is_written-IsFilled encode escapes e written path given =
    let parts = segments_of e in
    let same : template parts ≡ e.url = (text_eq_iff (template parts) e.url).0 (ground arith) in
    rw same at (default_path_serializer-filled encode path parts given (ground arith) escapes)

pub all_pass {ℓ} :
    {A : Type ℓ} (p : A → Bool) (xs : List A)
    → any (λ x. not (p x)) xs ≡ false
    → All (λ x. p x ≡ true) xs
all_pass p [] h = tt
all_pass p (x ∷ xs) h = (ground arith, all_pass p xs (ground arith))

-- Each request of the API, called with a value for every parameter of its address, goes to the
-- address with each value in its place, when encoded values have no brace.
pub endpoints-IsFilled :
    (encode : Text → Text) → ((s : Text) → Lacks b'{' (encode s)) → All (IsFilled encode) endpoints
endpoints-IsFilled encode escapes =
    All-mono (is_written-IsFilled encode escapes) endpoints
      (all_pass is_written endpoints endpoints-is_written)
