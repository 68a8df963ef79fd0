-- ===== src/Examples/Sessions.antt =====
-- A session that ends, and what a change marks as stale.
use brackets.Base.{
  All, Bool, List, [], codes, false, filter, none, refl, some, text_eq, true, ◌∷◌, ◌≡◌,
}
use brackets.Page.{settings}
use brackets.Queries.{
  request_part, all_tournaments, QueryKey, bundle_key, tournaments_key, settle, deletion_meta,
  logout_meta, succeeded,
}
use brackets.Queries.Metas.{change_metas}
use brackets.Queries.Refreshed.{IsBundle, settle-invalidated}
use brackets.Session.{
  Session, Event, logged_in, logout_settled, unauthorized, loaded, followed, opened, run,
}
use brackets.Session.Kept.{IsAnonymous, run-IsAnonymous, run-signed_out}

abbrev organizer : Session
organizer = record { name = codes "Ada"; user_id = 7 }

-- Ada logs in, loads a list, and logs out; then a visitor loads it again.
abbrev visit : List Event
visit =
    logged_in organizer
    ∷ loaded (codes "tournaments")
    ∷ logout_settled true (codes "")
    ∷ loaded (codes "tournaments")
    ∷ []

run-IsAnonymous_example : All IsAnonymous (run visit (opened none (codes "/"))).cache
unfolding run
run-IsAnonymous_example = run-IsAnonymous visit none (codes "/") refl

run-signed_out_example :
    (run
      (unauthorized ∷ followed (codes "/") ∷ loaded (codes "tournaments") ∷ [])
      (opened (some organizer) (codes "/"))).session
    ≡ none
run-signed_out_example =
    run-signed_out unauthorized (followed (codes "/") ∷ loaded (codes "tournaments") ∷ [])
      (opened (some organizer) (codes "/")) tt ((λ h. h), ((λ h. h), tt))

-- A filter of one request matches a key that starts with a request of the same id.
abbrev match_first : (filter key : QueryKey) → Bool
match_first (request_part r ∷ filter) (request_part s ∷ key) = text_eq r.id s.id
match_first filter key = false

abbrev cached_keys : List QueryKey
cached_keys =
    tournaments_key (codes "http://api") all_tournaments
    ∷ bundle_key settings (codes "cup") (some 7)
    ∷ []

settle-invalidated_example :
    All
      (λ k. ¬ IsBundle k)
      (settle match_first
        (some (deletion_meta (codes "http://api")))
        cached_keys
        succeeded).invalidated
    × ((settle match_first (some logout_meta) cached_keys succeeded).invalidated ≡ [])
    × All
        (λ meta. (settle match_first (some meta) cached_keys succeeded).invalidated ≡ cached_keys)
        (change_metas (codes "Round 1") (codes "Ants") (codes "Bees") 2 true)
settle-invalidated_example =
    settle-invalidated match_first (codes "http://api") (codes "Round 1") (codes "Ants")
      (codes "Bees") 2 true cached_keys (λ r text filter key. refl)
