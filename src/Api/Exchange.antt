-- ===== src/Api/Exchange.antt =====
-- The requests of frontend/src/app/api.ts, what answers them, and the interceptor of responses.
use brackets.Base.{
  Bool, List, Option, Text, false, if◌then◌else◌, none, some, ℕ, ◌&&◌, ◌+◌, ◌==◌, ◌||◌, ◌∷◌,
}
use brackets.Model.{
  Tournament, Player, FullTeamWithPlayers, StageItemInputStanding, Stage, Ranking,
  StageItemInputUpdate, SlotOption,
}

-- The requests of this file, with their parameters. The page of `all` is the same in each.
pub data Request : Type 0 where
  tournaments_named : (endpoint_name : Text) → Request
  tournament_with : (tournament_id : Option ℕ) → Request
  stages_of : (tournament_id : ℕ) (no_draft_rounds : Bool) → Request
  players_of teams_of rankings_of standings_of : (tournament_id : ℕ) → Request
  available_inputs_of next_stage_rankings_of : (tournament_id : ℕ) → Request

-- `data.data` of a response, and for players and teams what that object lists.
abbrev pub Payload : Request → Type 0
Payload (tournaments_named name) = List Tournament
Payload (tournament_with id) = Tournament
Payload (stages_of id no_drafts) = List Stage
Payload (players_of id) = List Player
Payload (teams_of id) = List FullTeamWithPlayers
Payload (rankings_of id) = List Ranking
Payload (standings_of id) = List (Text × List StageItemInputStanding)
Payload (available_inputs_of id) = List (Text × List SlotOption)
Payload (next_stage_rankings_of id) = List (Text × List StageItemInputUpdate)

-- `error.response?.status` of a failed request, or the message of an error thrown here.
pub data Failure : Type 0 where
  refused : Option ℕ → Failure
  not_numeric : Failure
  no_such_link : Text → Failure

pub data Reply {ℓ} (A : Type ℓ) : Type ℓ where
  answered : A → Reply A
  failed : Failure → Reply A

abbrev pub Server : Type 0
Server = List Request → (q : Request) → Reply (Payload q)

-- The session that the browser stores, the requests sent so far with the latest first, and how often
-- the user was told that the session expired.
pub record Client : Type 0 where
  pub has_session : Bool
  pub sent : List Request
  pub notices : ℕ

-- `getResponseStatus(error)`
abbrev pub response_status : Failure → Option ℕ
response_status (refused status) = status
response_status not_numeric = none
response_status (no_such_link key) = none

abbrev pub has_status : Option ℕ → ℕ → Bool
has_status none k = false
has_status (some s) k = s == k

unfoldable pub is_authorization_error : Failure → Bool
is_authorization_error e = has_status (response_status e) 401 || has_status (response_status e) 403

-- The handler that frontend/src/app.tsx sets: the session is dropped and the user told.
abbrev pub unauthorized_handler : Client → Client
unauthorized_handler c = record { has_session = false; sent = c.sent; notices = c.notices + 1 }

-- The interceptor of `configureApiClient`, on a response.
unfoldable pub intercept : {A : Type 0} → Client → Reply A → Client
intercept c (answered a) = c
intercept c (failed e) =
    if has_status (response_status e) 401 && c.has_session then unauthorized_handler c else c

-- A request: it is sent, and its response passes the interceptor.
abbrev pub with_sent : Client → Request → Client
with_sent c q = record { has_session = c.has_session; sent = q ∷ c.sent; notices = c.notices }

unfoldable pub send : Server → (q : Request) → Client → Client × Reply (Payload q)
unfolding intercept
send server q c = (intercept (with_sent c q) (server c.sent q), server c.sent q)

-- `await`: an error ends the function.
unfoldable pub and_then :
    {A B : Type 0} → Client × Reply A → (A → Client → Client × Reply B) → Client × Reply B
and_then (c, answered a) k = k a c
and_then (c, failed e) k = (c, failed e)
