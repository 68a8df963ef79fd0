-- ===== src/Queries/Refreshed.antt =====
-- What a change marks to be loaded again.
use brackets.Base.{
  All, All-Unit, All-mono, Bool, List, Option, Text, [], ap, false, false≢true, filter-all,
  filter-none, filter-passes, none, refl, some, sym, true, ℕ, ◌||◌, ◌∙◌, ◌∷◌, ◌≡◌,
}
use brackets.Queries.Metas.{change_metas, change_metas-invalidates}
use brackets.Page.{TournamentSection, is_dashboard}
use brackets.Queries.{
  RequestKey, no_options, text_part, request_part, QueryKey, create_query_key, tournaments_key,
  bundle_key, is_invalidated, succeeded, settle, MutationMeta, deletion_meta, logout_meta,
}

-- The query library compares keys part by part, and a text never matches an object.
abbrev pub ComparesParts : ((filter key : QueryKey) → Bool) → Type 0
ComparesParts match_query =
    (r : RequestKey) (text : Text) (filter key : QueryKey)
    → match_query (request_part r ∷ filter) (text_part text ∷ key) ≡ false

-- The query is that of a tournament's page.
abbrev pub IsBundle : QueryKey → Type 0
IsBundle key =
    (section : TournamentSection) × (name : Text) × (user : Option ℕ) × (key
      ≡ bundle_key section name user)

kept :
    (match_query : (filter key : QueryKey) → Bool) (base_url : Text)
    → ComparesParts match_query
    → (k : QueryKey) → is_invalidated match_query (some (deletion_meta base_url)) k ≡ true
    → ¬ IsBundle k
unfolding is_invalidated create_query_key bundle_key
kept match_query base_url compares k passes (section, name, user, e) = false≢true (
    sym (ap (◌|| false) (compares _ _ [] _))
    ∙ sym (ap (λ x. match_query (tournaments_key base_url no_options) x || false) e)
    ∙ passes)

-- A change that names no queries marks them all.
settle-all :
    (match_query : (filter key : QueryKey) → Bool) (keys : List QueryKey) (meta : MutationMeta)
    → meta.invalidates ≡ none
    → (settle match_query (some meta) keys succeeded).invalidated ≡ keys
unfolding settle is_invalidated
settle-all match_query keys meta e =
    filter-all _ keys (All-mono (λ k _. rw e refl) keys (All-Unit keys))

-- When a text of a key never matches an object, deleting a tournament marks no tournament's page as
-- stale, logging out marks nothing, and each of the pages' other changes marks every cached query,
-- once.
pub settle-invalidated :
    (match_query : (filter key : QueryKey) → Bool) (base_url name label1 label2 : Text) (n : ℕ)
    (is_open : Bool) (keys : List QueryKey)
    → ComparesParts match_query
    → All
        (λ k. ¬ IsBundle k)
        (settle match_query (some (deletion_meta base_url)) keys succeeded).invalidated
      × ((settle match_query (some logout_meta) keys succeeded).invalidated ≡ [])
      × All
          (λ meta. (settle match_query (some meta) keys succeeded).invalidated ≡ keys)
          (change_metas name label1 label2 n is_open)
unfolding settle is_invalidated
settle-invalidated match_query base_url name label1 label2 n is_open keys compares = (
  All-mono (kept match_query base_url compares) _ (filter-passes _ keys),
  filter-none _ keys (All-mono (λ _ _. refl) keys (All-Unit keys)),
  All-mono (settle-all match_query keys) (change_metas name label1 label2 n is_open)
      (change_metas-invalidates name label1 label2 n is_open),
)

-- Two pages ask for the same bundle only for the same tournament, the same kind of page and the same
-- user, so that no user is shown what was loaded for another.
pub bundle_key_injective :
    (s t : TournamentSection) (a b : Text) (u v : Option ℕ)
    → bundle_key s a u ≡ bundle_key t b v
    → (a ≡ b) × (is_dashboard s ≡ is_dashboard t) × (u ≡ v)
unfolding bundle_key
bundle_key_injective s t a b u v e = (cc, cc, cc)
