-- ===== src/Accounts/Addresses.antt =====
-- Where the requests of the forms of accounts, events and new tournaments go.
use brackets.Base.{
  Lacks, Text, [], ap, append-nil, codes, decimal, record_get, refl, some, text_eq, true, ℕ, ◌++◌,
  ◌∙◌, ◌∷◌, ◌≡◌,
}
use brackets.Openapi.Urls.{primitive, default_path_serializer}
use brackets.Openapi.Urls.Filled.{fixed, param, template, are_plain, default_path_serializer-filled}
use brackets.Openapi.Endpoints.{open_to_all, bearer_or_session_cookie, Security}
use brackets.Accounts.{
  Request, log_in, register, save_user, save_password, create_club, save_club, remove_club,
  new_tournament,
}
use brackets.Accounts.Requests.{endpoint, request_path, with_id}

-- The address that a request is about: of the user or the event with the id, if there is one.
abbrev pub address : (encode : Text → Text) → Request → Text
address encode (log_in b) = codes "/api/token"
address encode (register b) = codes "/api/users/register"
address encode (save_user id b) = codes "/api/users/" ++ encode (decimal id)
address encode (save_password id b) =
    codes "/api/users/" ++ encode (decimal id) ++ codes "/password"
address encode (create_club b) = codes "/api/clubs"
address encode (save_club id b) = codes "/api/clubs/" ++ encode (decimal id)
address encode (remove_club id) = codes "/api/clubs/" ++ encode (decimal id)
address encode (new_tournament b) = codes "/api/tournaments"

-- Only who has no session yet sends no credentials of one.
abbrev pub security_of : Request → Security
security_of (log_in b) = open_to_all
security_of (register b) = open_to_all
security_of _ = bearer_or_session_cookie

module _ (encode : Text → Text) (escapes : (s : Text) → Lacks b'{' (encode s)) where
  last_id :
      (front name : Text) (id : ℕ)
      → are_plain (fixed front ∷ param name ∷ []) ≡ true
      → record_get name (with_id name id) ≡ some (primitive (decimal id))
      → default_path_serializer encode (with_id name id) (template (fixed front ∷ param name ∷ []))
        ≡ front ++ encode (decimal id)
  last_id front name id plain given =
      default_path_serializer-filled encode (with_id name id) (fixed front ∷ param name ∷ [])
        ((decimal id, given), tt) plain escapes
      ∙ ap (◌++◌ front) (append-nil (encode (decimal id)))

  -- Each request goes to the address of the user or the event that it is about, and all but a login
  -- and a registration need a session, when encoded values have no brace.
  pub default_path_serializer-address :
      (r : Request)
      → (default_path_serializer encode (request_path r) (endpoint r).url ≡ address encode r)
        × ((endpoint r).security ≡ security_of r)
  unfolding endpoint request_path record_get text_eq
  default_path_serializer-address (log_in b) = (
    default_path_serializer-filled encode [] (fixed (codes "/api/token") ∷ []) tt refl escapes,
    refl,
  )
  default_path_serializer-address (register b) = (
    default_path_serializer-filled encode [] (fixed (codes "/api/users/register") ∷ []) tt refl
        escapes,
    refl,
  )
  default_path_serializer-address (save_user id b) =
      (last_id (codes "/api/users/") (codes "user_id") id refl refl, refl)
  default_path_serializer-address (save_password id b) = (
    default_path_serializer-filled encode (with_id (codes "user_id") id)
        (fixed (codes "/api/users/") ∷ param (codes "user_id") ∷ fixed (codes "/password") ∷ [])
        ((decimal id, refl), tt) refl escapes,
    refl,
  )
  default_path_serializer-address (create_club b) = (
    default_path_serializer-filled encode [] (fixed (codes "/api/clubs") ∷ []) tt refl escapes,
    refl,
  )
  default_path_serializer-address (save_club id b) =
      (last_id (codes "/api/clubs/") (codes "club_id") id refl refl, refl)
  default_path_serializer-address (remove_club id) =
      (last_id (codes "/api/clubs/") (codes "club_id") id refl refl, refl)
  default_path_serializer-address (new_tournament b) = (
    default_path_serializer-filled encode [] (fixed (codes "/api/tournaments") ∷ []) tt refl
        escapes,
    refl,
  )
