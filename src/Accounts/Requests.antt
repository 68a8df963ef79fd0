-- ===== src/Accounts/Requests.antt =====
-- The functions of the API that the forms of accounts, events and new tournaments call.
use brackets.Base.{List, Text, [], codes, decimal, ℕ, ◌∷◌}
use brackets.Openapi.Urls.{PathValue, primitive}
use brackets.Openapi.Endpoints.{Endpoint}
use brackets.Openapi.Endpoints.Entry.{
  login_for_access_token, register_user, update_user_details, put_user_password, create_new_club,
  update_club, delete_club,
}
use brackets.Openapi.Endpoints.Tournaments.{create_tournament}
use brackets.Accounts.{
  Request, log_in, register, save_user, save_password, create_club, save_club, remove_club,
  new_tournament,
}

-- The function of the API client that a request calls, and the path parameters it is given.
unfoldable pub endpoint : Request → Endpoint
endpoint (log_in b) = login_for_access_token
endpoint (register b) = register_user
endpoint (save_user id b) = update_user_details
endpoint (save_password id b) = put_user_password
endpoint (create_club b) = create_new_club
endpoint (save_club id b) = update_club
endpoint (remove_club id) = delete_club
endpoint (new_tournament b) = create_tournament

abbrev pub with_id : (name : Text) → ℕ → List (Text × PathValue)
with_id name id = (name, primitive (decimal id)) ∷ []

unfoldable pub request_path : Request → List (Text × PathValue)
request_path (save_user id b) = with_id (codes "user_id") id
request_path (save_password id b) = with_id (codes "user_id") id
request_path (save_club id b) = with_id (codes "club_id") id
request_path (remove_club id) = with_id (codes "club_id") id
request_path _ = []
