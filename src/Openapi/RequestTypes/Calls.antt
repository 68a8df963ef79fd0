-- ===== src/Openapi/RequestTypes/Calls.antt =====
-- The address of a request that is called with a number for every parameter that its type names.
use brackets.Base.{
  All, All-Any, All-both, Any, Bool, Bool-cases, Lacks, List, Option, Text, [], ap, arith, codes,
  decimal, false, if◌then◌else◌, inl, inr, none, record_get, refl, some, starts_with, sym, text_eq,
  text_eq_iff, true, truthy, ℕ, ◌&&◌, ◌++◌, ◌∷◌, ◌≡◌,
}
use brackets.Openapi.Urls.{
  PathValue, primitive, default_path_serializer, get_url, strip_question, text_or_empty,
}
use brackets.Openapi.Urls.Filled.{
  Segment, fixed, param, template, is_plain, names, Given, filled, default_path_serializer-filled,
}
use brackets.Openapi.Endpoints.{Endpoint}
use brackets.Openapi.Endpoints.Written.{segments_of, is_written, all_pass}
use brackets.Openapi.RequestTypes.{RequestType}
use brackets.Openapi.RequestTypes.Fits.{requests, IsTruthful, requests-IsTruthful}

-- A number for each name.
abbrev pub NumbersFor : List Text → Type 0
NumbersFor [] = Unit
NumbersFor (name ∷ rest) = ℕ × NumbersFor rest

abbrev pub path_entries : (ns : List Text) → NumbersFor ns → List (Text × PathValue)
path_entries [] vs = []
path_entries (n ∷ ns) (v, vs) = (n, primitive (decimal v)) ∷ path_entries ns vs

-- `path`, which a request without parameters does not have.
abbrev pub typed_path : (ns : List Text) → NumbersFor ns → Option (List (Text × PathValue))
typed_path [] vs = none
typed_path (n ∷ ns) vs = some (path_entries (n ∷ ns) vs)

entry_found :
    (name : Text) (ns : List Text) (vs : NumbersFor ns)
    → Any (λ n. n ≡ name) ns
    → (v : Text) × (record_get name (path_entries ns vs) ≡ some (primitive v))
unfolding record_get
entry_found name [] vs h = absurd h
entry_found name (n ∷ ns) (v, vs) h = elim (Bool-cases (text_eq n name)) [
  | inl same ↦ (decimal v, rw same refl)
  | inr other ↦ elim h [
    | inl here ↦ let same : text_eq n name ≡ true = (text_eq_iff n name).1 here in cc
    | inr rest ↦ let (w, found) = entry_found name ns vs rest in (w, rw other found)
  ]
]

all-Given :
    (ns : List Text) (vs : NumbersFor ns) (segs : List Segment)
    → All (λ name. Any (λ n. n ≡ name) ns) (names segs)
    → Given (path_entries ns vs) segs
all-Given ns vs [] h = tt
all-Given ns vs (fixed s ∷ segs) h = all-Given ns vs segs h
all-Given ns vs (param name ∷ segs) (h, rest) =
    (entry_found name ns vs h, all-Given ns vs segs rest)

-- The numbers are those that the address asks for.
pub names-Given :
    (ns : List Text) (vs : NumbersFor ns) (segs : List Segment)
    → ns ≡ names segs
    → Given (path_entries ns vs) segs
names-Given ns vs segs e =
    let known : All (λ name. Any (λ n. n ≡ name) ns) (names segs) = rw (← e) (All-Any ns) in
    all-Given ns vs segs known

filled-template :
    (encode : Text → Text) (path : List (Text × PathValue)) (segs : List Segment)
    (given : Given path segs)
    → names segs ≡ []
    → filled encode path segs given ≡ template segs
filled-template encode path [] given h = refl
filled-template encode path (fixed s ∷ segs) given h =
    ap (◌++◌ s) (filled-template encode path segs given h)
filled-template encode path (param name ∷ segs) given h = cc

-- An address with what follows a question mark, if there is a query.
abbrev pub searched : Text → (query : Option Text) → Text
searched url query =
    let text = strip_question (text_or_empty query) in
    if truthy text then url ++ codes "?" ++ text else url

-- A call with numbers for the names of the type's path.
abbrev pub IsFilledCall : (encode : Text → Text) (base_url : Text) → Endpoint × RequestType → Type 0
IsFilledCall encode base_url (e, t) =
    (numbers : NumbersFor t.path) (query : Option Text)
    → (given : Given (path_entries t.path numbers) (segments_of e)) × (get_url encode
          (some base_url) (typed_path t.path numbers) query e.url
        ≡ searched (base_url ++ filled encode (path_entries t.path numbers) (segments_of e) given)
            query)

call :
    (encode : Text → Text) (base_url : Text)
    → is_plain (fixed base_url) ≡ true
    → ((s : Text) → Lacks b'{' (encode s))
    → (e : Endpoint) (names_of : List Text) → names_of ≡ names (segments_of e)
    → is_written e ≡ true
    → starts_with e.url (codes "/") ≡ true
    → (numbers : NumbersFor names_of) (query : Option Text)
    → (given : Given (path_entries names_of numbers) (segments_of e))
    → get_url encode (some base_url) (typed_path names_of numbers) query e.url
      ≡ searched
          (base_url ++ filled encode (path_entries names_of numbers) (segments_of e) given)
          query
unfolding get_url
call encode base_url plain escapes e [] same written rooted numbers query given =
    let parts = segments_of e in
    let address : template parts ≡ e.url = (text_eq_iff (template parts) e.url).0 (ground arith) in
    rw (rooted, filled-template encode [] parts given (sym same), address) refl
call encode base_url plain escapes e (n ∷ ns) same written rooted numbers query given =
    let parts = segments_of e in
    let address : template parts ≡ e.url = (text_eq_iff (template parts) e.url).0 (ground arith) in
    let path = path_entries (n ∷ ns) numbers in
    let done : default_path_serializer encode path (base_url ++ e.url)
        ≡ base_url ++ filled encode path parts given =
      rw address at (
        default_path_serializer-filled encode path (fixed base_url ∷ parts) given (ground arith)
          escapes) in
    rw (rooted, done) refl

-- An address that starts with a slash and is written of its parts.
abbrev is_rooted : Endpoint × RequestType → Bool
is_rooted (e, t) = is_written e && starts_with e.url (codes "/")

all_rooted : All (λ r. is_rooted r ≡ true) requests
unfolding text_eq starts_with
all_rooted = all_pass is_rooted requests refl

both_true : (a b : Bool) → (a && b) ≡ true → (a ≡ true) × (b ≡ true)
both_true true b h = (refl, h)
both_true false b h = (h, cc)

module _ (encode : Text → Text) (base_url : Text) (plain : is_plain (fixed base_url) ≡ true)
    (escapes : (s : Text) → Lacks b'{' (encode s)) where
  rooted-IsFilledCall :
      (r : Endpoint × RequestType)
      → IsTruthful r
      → is_rooted r ≡ true
      → IsFilledCall encode base_url r
  rooted-IsFilledCall (e, t) fits rooted numbers query =
      let given = names-Given t.path numbers (segments_of e) fits.1 in
      let (written, slash) = both_true (is_written e) (starts_with e.url (codes "/")) rooted in
      (given, call encode base_url plain escapes e t.path fits.1 written slash numbers query given)

  -- Each request, called with a number for every parameter that the type of its options names, and
  -- with any query, goes to the base address followed by its own with each number in its place, when
  -- neither the base address nor an encoded value has a brace.
  pub requests-IsFilledCall : All (IsFilledCall encode base_url) requests
  requests-IsFilledCall = All-both rooted-IsFilledCall requests requests-IsTruthful all_rooted
