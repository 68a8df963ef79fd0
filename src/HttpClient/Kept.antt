-- ===== src/HttpClient/Kept.antt =====
-- What a request carries, whichever function of the API sends it.
use brackets.Base.{
  Bool-cases, List, Option-cases, Text, [], ap, arith, codes, false, if◌then◌else◌, inl, inr, none,
  record_get, record_get-record_delete, record_get-record_set, record_get-record_set_other,
  record_set, record_spread, refl, some, text_eq, true, ◌∙◌, ◌∷◌, ◌≡◌,
}
use brackets.Openapi.Endpoints.{Endpoint, ContentType, unset, null_type, json, urlencoded}
use brackets.HttpClient.{
  HeaderValue, undefined_value, null_value, text_value, list_value, object_value, Headers,
  merge_headers, merge_header, merge_entries, plain_header, is_axios_keyword, Auth, get_auth_token,
  object_entries,
}
use brackets.HttpClient.Query.{Carried, check_for_existence, set_auth_param, set_auth_params}
use brackets.HttpClient.Requests.{
  security_schemes, option_headers, content_type_headers, CallOptions, before_request, configured,
}

-- The header by which the API knows the pages from other sites.
abbrev pub requested_with : Text
requested_with = codes "X-Requested-With"

module _ (k : Text) where
  record_get-tail {ℓ} :
      {V : Type ℓ} (j : Text) (v : V) (m : List (Text × V))
      → record_get k ((j, v) ∷ m) ≡ none
      → (text_eq j k ≡ false) × (record_get k m ≡ none)
  unfolding record_get
  record_get-tail j v m h = ground arith

  record_get-record_spread {ℓ} :
      {V : Type ℓ} (m es : List (Text × V))
      → record_get k es ≡ none
      → record_get k (record_spread m es) ≡ record_get k m
  unfolding record_spread
  record_get-record_spread m [] h = refl
  record_get-record_spread m ((j, v) ∷ es) h =
      let (apart, rest) = record_get-tail j v es h in
      record_get-record_spread (record_set j v m) es rest
      ∙ record_get-record_set j k v m
      ∙ ap (λ b. if b then some v else record_get k m) apart

  module _ (stringify : List (Text × Text) → Text) where
    plain_header_other :
        (j : Text) (v : HeaderValue) (m : Headers)
        → text_eq j k ≡ false
        → record_get k (plain_header stringify j v m) ≡ record_get k m
    unfolding plain_header
    plain_header_other j undefined_value m h = refl
    plain_header_other j null_value m h = record_get-record_delete j k m h
    plain_header_other j (text_value s) m h = record_get-record_set_other j k _ m h
    plain_header_other j (object_value es) m h = record_get-record_set_other j k _ m h
    plain_header_other j (list_value []) m h = refl
    plain_header_other j (list_value (v ∷ vs)) m h = record_get-record_set_other j k _ m h

    merge_header_other :
        (j : Text) (v : HeaderValue) (m : Headers)
        → text_eq j k ≡ false
        → record_get k (merge_header stringify j v m) ≡ record_get k m
    unfolding merge_header
    merge_header_other j v m h = elim (Bool-cases (is_axios_keyword j)) [
      | inr plain ↦ rw plain (plain_header_other j v m h)
      | inl keyword ↦ elim (Option-cases (object_entries v)) [
        | inl other ↦ rw (keyword, other, merge_header) (plain_header_other j v m h)
        | inr (es, shown) ↦
            rw (keyword, shown, merge_header) (record_get-record_set_other j k _ m h)
      ]
    ]

    merge_entries_other :
        (es m : Headers)
        → record_get k es ≡ none
        → record_get k (merge_entries stringify es m) ≡ record_get k m
    unfolding merge_entries
    merge_entries_other [] m h = refl
    merge_entries_other ((j, v) ∷ es) m h =
        let (apart, rest) = record_get-tail j v es h in
        merge_entries_other es (merge_header stringify j v m) rest ∙ merge_header_other j v m apart

set_auth_param-none :
    (btoa : Text → Text) (auth : Auth) (c : Carried) → set_auth_param btoa none auth c ≡ c
unfolding set_auth_param get_auth_token
set_auth_param-none btoa auth c = elim (Bool-cases (check_for_existence c auth.name)) [
  | inl there ↦ rw there refl
  | inr absent ↦ rw absent refl
]

set_auth_params-none :
    (btoa : Text → Text) (schemes : List Auth) (c : Carried)
    → set_auth_params btoa none schemes c ≡ c
unfolding set_auth_params
set_auth_params-none btoa [] c = refl
set_auth_params-none btoa (auth ∷ rest) c =
    ap (set_auth_params btoa none rest) (set_auth_param-none btoa auth c)
    ∙ set_auth_params-none btoa rest c

no_such : (c : ContentType) → record_get requested_with (content_type_headers c) ≡ none
unfolding content_type_headers record_get text_eq
no_such unset = refl
no_such null_type = refl
no_such json = refl
no_such urlencoded = refl

option_headers-requested_with :
    (e : Endpoint) (extra : Headers)
    → record_get requested_with extra ≡ none
    → record_get requested_with (option_headers e extra) ≡ none
unfolding option_headers
option_headers-requested_with e extra h =
    record_get-record_spread requested_with (content_type_headers e.content_type) extra h
    ∙ no_such e.content_type

module _ (stringify : List (Text × Text) → Text) (encode btoa : Text → Text) (base_url : Text) where
  -- Every request of the pages is sent with the cookies and with the header that the API asks of
  -- changes, if its caller sets no such header; and its headers are only those of the configuration,
  -- of its function and of its caller.
  pub before_request-configured :
      (e : Endpoint) (o : CallOptions)
      → record_get requested_with o.headers ≡ none
      → let sent = before_request stringify encode btoa (configured stringify base_url) e o in
        (sent.with_credentials ≡ true)
        × (record_get requested_with sent.headers ≡ some (text_value (codes "XMLHttpRequest")))
        × (sent.headers
            ≡ merge_headers stringify
                (configured stringify base_url).headers
                (some (option_headers e o.headers)))
  unfolding before_request configured merge_headers is_axios_keyword record_get record_set text_eq
  before_request-configured e o h =
      let sent = before_request stringify encode btoa (configured stringify base_url) e o in
      let first = (configured stringify base_url).headers in
      let merged = merge_headers stringify first (some (option_headers e o.headers)) in
      let kept : sent.headers ≡ merged =
        ap (λ (c : Carried). c.headers)
          (set_auth_params-none btoa (security_schemes e.security)
            (record { headers = merged; query = o.query })) in
      let added : record_get requested_with merged ≡ some (text_value (codes "XMLHttpRequest")) =
        merge_entries_other requested_with stringify (option_headers e o.headers)
          (merge_headers stringify first none) (option_headers-requested_with e o.headers h) in
      (refl, ap (record_get requested_with) kept ∙ added, kept)
