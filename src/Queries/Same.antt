-- ===== src/Queries/Same.antt =====
-- frontend/src/openapi/@tanstack/react-query.gen.ts: the requests of queries with equal keys, and the
-- tables of the queries and the mutations.
use brackets.Base.{
  All-Any_at, Any, Bool, List, Option, Text, ap, ap₂, false, filter, map, map-≡-All, none, not,
  record_get, refl, some, sym, text_eq, true, ◌++◌, ◌∙◌, ◌≡◌,
}
use brackets.Openapi.Endpoints.{Endpoint, get}
use brackets.Openapi.Endpoints.Written.{endpoints}
use brackets.HttpClient.Requests.{Config, or_first}
use brackets.Queries.{RequestKey, Options, create_query_key}
use brackets.Queries.Cached.{
  CachedQuery, Mutation, PageParam, with_key, page_of, merged, options_of, key_of, query_key,
  call_function, run_query, run_page, create_infinite_params,
}
use brackets.Queries.Table.{plain_queries, infinite_queries}
use brackets.Queries.Mutations.{mutations}

abbrev pub all_queries : List CachedQuery
all_queries = plain_queries ++ infinite_queries

abbrev reads : Endpoint → Bool
reads e = elim e.method [ get ↦ true | _ ↦ false ]

-- There is a query for each function of the API that reads, and a mutation for each other one.
pub queries-mutations :
    (map (λ (q : CachedQuery). q.function) plain_queries ≡ filter reads endpoints)
    × (map (λ (m : Mutation). m.function) mutations ≡ filter (λ e. not (reads e)) endpoints)
queries-mutations = (refl, refl)

-- The function that an id stands for.
abbrev called : Text → Option Endpoint
called id = record_get id (map (λ (q : CachedQuery). (q.id, q.function)) plain_queries)

called_all :
    map (λ (q : CachedQuery). called q.id) all_queries
    ≡ map (λ (q : CachedQuery). some q.function) all_queries
unfolding record_get text_eq
called_all = refl

or_first_self {ℓ} : {A : Type ℓ} (a : Option A) → or_first a a ≡ a
or_first_self none = refl
or_first_self (some a) = refl

or_first-merged {ℓ} :
    {V : Type ℓ} (key page : Option (List (Text × V)))
    → or_first (merged key page) key ≡ merged key page
or_first-merged key none = or_first_self key
or_first-merged key (some es) = refl

-- The key has all that the request takes from the options.
with_key_self :
    (config : Config) (q : CachedQuery) (o : Options)
    → with_key o (key_of config q o) ≡ options_of (key_of config q o)
with_key_self config q o =
    rw (or_first_self o.body, or_first_self o.headers, or_first_self o.path, or_first_self o.query)
      refl

with_key-create_infinite_params :
    (config : Config) (q : CachedQuery) (o page : Options)
    → with_key o (create_infinite_params (key_of config q o) page)
      ≡ options_of (create_infinite_params (key_of config q o) page)
unfolding create_infinite_params
with_key-create_infinite_params config q o page =
    rw
      (
        or_first-merged o.body page.body,
        or_first-merged o.headers page.headers,
        or_first-merged o.path page.path,
        or_first-merged o.query page.query,
      )
      refl

endpoint_known : (a : CachedQuery) → Any (λ q. q ≡ a) all_queries → called a.id ≡ some a.function
endpoint_known a listed =
    All-Any_at (λ q. called q.id ≡ some q.function) all_queries
      (map-≡-All (λ (q : CachedQuery). called q.id) (λ (q : CachedQuery). some q.function)
        all_queries called_all)
      listed

module _ (config : Config) (stringify : List (Text × Text) → Text) (encode btoa : Text → Text) where
  -- Two queries of the file with the same key send the same request, when their options set no more
  -- than the fields of a key, and so do two of their pages with the same parameter: what the cache
  -- keeps under a key is the answer to one request.
  pub same_request :
      (a b : CachedQuery) (o p : Options)
      → Any (λ q. q ≡ a) all_queries
      → Any (λ q. q ≡ b) all_queries
      → query_key config a o ≡ query_key config b p
      → (run_query config stringify encode btoa a o ≡ run_query config stringify encode btoa b p)
        × ((param : PageParam)
            → run_page config stringify encode btoa a o param
              ≡ run_page config stringify encode btoa b p param)
  unfolding query_key create_query_key run_query run_page
  same_request a b o p in_a in_b e =
      let key : key_of config a o ≡ key_of config b p = cc in
      let same : some a.function ≡ some b.function =
        sym (endpoint_known a in_a)
        ∙ ap called (ap (λ (k : RequestKey). k.id) key)
        ∙ endpoint_known b in_b in
      let function : a.function ≡ b.function = cc in
      let sent = call_function config stringify encode btoa in
      (
        ap₂ sent function
            (with_key_self config a o ∙ ap options_of key ∙ sym (with_key_self config b p)),
        λ param.
            let page = page_of param in
            ap₂ sent function (
              with_key-create_infinite_params config a o page
              ∙ ap (λ k. options_of (create_infinite_params k page)) key
              ∙ sym (with_key-create_infinite_params config b p page)),
      )
