-- ===== src/Accounts.antt =====
-- frontend/src/app/pages/auth-pages.tsx, user-page.tsx, clubs-page.tsx and new-tournament-form.tsx: the
-- forms of accounts, events and new tournaments, what they start with, and their requests. Labels
-- and markup are left out. The code and the API call an event a club.
pub mod Requests
pub mod Shown
pub mod Addresses
pub mod Limits
use brackets.Base.{
  Bool, List, Option, Text, [], codes, false, if◌then◌else◌, none, pos, some, true, ℕ, ◌&&◌, ◌∷◌,
}
use brackets.Forms.{Zod, TournamentBody, TournamentUpdateBody, z_tournament_body, z_local_date_time}
use brackets.Forms.Submits.{submits, confirms}

pub record Club : Type 0 where
  pub created : Text
  pub id : ℕ
  pub name : Text

pub data UserAccountType : Type 0 where
  regular : UserAccountType

pub record UserPublic : Type 0 where
  pub account_type : UserAccountType
  pub created : Text
  pub id : ℕ
  pub name : Text
  pub email : Text

pub record Credentials : Type 0 where
  pub password : Text
  pub username : Text

-- The body of a login.
pub record LoginBody : Type 0 where
  pub password : Text
  pub username : Text
  pub client_id : Option Text
  pub client_secret : Option Text
  pub grant_type : Option Text
  pub scope : Text

pub record UserToRegister : Type 0 where
  pub email : Text
  pub name : Text
  pub password : Text

pub record UserToUpdate : Type 0 where
  pub email : Text
  pub name : Text

pub record UserPasswordToUpdate : Type 0 where
  pub current_password : Text
  pub password : Text

-- `zClubCreateBody` and `zClubUpdateBody`, which are alike.
pub record ClubBody : Type 0 where
  pub name : Text

pub data Request : Type 0 where
  log_in : LoginBody → Request
  register : UserToRegister → Request
  save_user : (user_id : ℕ) → UserToUpdate → Request
  save_password : (user_id : ℕ) → UserPasswordToUpdate → Request
  create_club : ClubBody → Request
  save_club : (club_id : ℕ) → ClubBody → Request
  remove_club : (club_id : ℕ) → Request
  new_tournament : TournamentBody → Request

-- What the forms start with.
abbrev pub no_credentials : Credentials
no_credentials = record { password = []; username = [] }

abbrev pub new_user : UserToRegister
new_user = record { email = []; name = []; password = [] }

abbrev pub no_passwords : UserPasswordToUpdate
no_passwords = record { current_password = []; password = [] }

unfoldable pub user_values : UserPublic → UserToUpdate
user_values u = record { email = u.email; name = u.name }

unfoldable pub club_values : Club → ClubBody
club_values c = record { name = c.name }

abbrev pub new_club : ClubBody
new_club = record { name = [] }

abbrev first_club : List Club → Option ℕ
first_club [] = none
first_club (c ∷ cs) = some c.id

-- The values of `NewTournamentForm`; without a club, its id is missing.
unfoldable pub tournament_defaults : List Club → TournamentBody
tournament_defaults clubs = record {
  update = record {
    dashboard_endpoint = [];
    dashboard_public = true;
    duration_minutes = some (pos 30);
    margin_minutes = some (pos 5);
    name = [];
    players_can_be_in_multiple_teams = false;
    start_time = [];
  };
  club_id = elim (first_club clubs) [ none ↦ none | some id ↦ some (pos id) ];
}

-- The body that `LoginPage` makes of the entered credentials.
unfoldable pub login_body : Credentials → LoginBody
login_body c = record {
  password = c.password;
  username = c.username;
  client_id = none;
  client_secret = none;
  grant_type = some (codes "password");
  scope = [];
}

module _ (z : Zod) where
  z_name : Text → Bool
  z_name = z.text_within 1 (some 100)

  -- `zUserPasswordToUpdate.shape.password`
  z_password : Text → Bool
  z_password = z.text_within 12 (some 72)

  -- `registerSchema`
  unfoldable pub register_schema : UserToRegister → Bool
  unfolding z_name z_password
  register_schema b = z.email b.email && z_name b.name && z_password b.password

  unfoldable pub z_user_to_update : UserToUpdate → Bool
  unfolding z_name
  z_user_to_update b = z.email b.email && z_name b.name

  unfoldable pub z_user_password_to_update : UserPasswordToUpdate → Bool
  unfolding z_password
  z_user_password_to_update b = z_password b.password

  unfoldable pub z_club_body : ClubBody → Bool
  unfolding z_name
  z_club_body b = z_name b.name

  -- `newTournamentSchema`, which replaces the start time by the timestamp.
  unfoldable pub new_tournament_schema :
      (to_iso : Text → Option Text) → TournamentBody → Option TournamentBody
  new_tournament_schema to_iso b = elim (z_local_date_time z to_iso b.start_time) [
    | none ↦ none
    | some start ↦
        if z_tournament_body z b
        then some (record b { update = record b.update { start_time = start } })
        else none
  ]

-- A form that is submitted with its values, or a button that is clicked, in its row.
pub data Event : Type 0 where
  credentials_entered : Credentials → Event
  account_entered : UserToRegister → Event
  user_saved : UserPublic → UserToUpdate → Event
  password_saved : (user_id : ℕ) → UserPasswordToUpdate → Event
  club_added : ClubBody → Event
  club_saved : Club → ClubBody → Event
  club_deleted : Club → Event
  tournament_added : TournamentBody → Event

module _ (z : Zod) (to_iso : Text → Option Text) where
  -- `onSubmit` of `LoginPage`: every text is accepted.
  abbrev pub login_submit : (is_pending : Bool) → Credentials → Option Request
  login_submit is_pending c = submits is_pending true (log_in (login_body c))

  -- `onSubmit` of `NewTournamentForm`.
  abbrev pub new_tournament_submit : (is_pending : Bool) → TournamentBody → Option Request
  new_tournament_submit is_pending b = elim (new_tournament_schema z to_iso b) [
    | none ↦ none
    | some sent ↦ submits is_pending true (new_tournament sent)
  ]

  -- What an event of the pages sends; `is_pending` is whether the event's own mutation is under way.
  unfoldable pub handle : (is_pending confirmed : Bool) → Event → Option Request
  unfolding login_body new_tournament_schema submits confirms
  handle is_pending confirmed (credentials_entered c) = login_submit is_pending c
  handle is_pending confirmed (account_entered b) =
      submits is_pending (register_schema z b) (register b)
  handle is_pending confirmed (user_saved u b) =
      submits is_pending (z_user_to_update z b) (save_user u.id b)
  handle is_pending confirmed (password_saved user_id b) =
      submits is_pending (z_user_password_to_update z b) (save_password user_id b)
  handle is_pending confirmed (club_added b) = submits is_pending (z_club_body z b) (create_club b)
  handle is_pending confirmed (club_saved c b) =
      submits is_pending (z_club_body z b) (save_club c.id b)
  handle is_pending confirmed (club_deleted c) = confirms is_pending confirmed (remove_club c.id)
  handle is_pending confirmed (tournament_added b) = new_tournament_submit is_pending b

-- Whether a form is reset once its request has succeeded.
unfoldable pub resets_form : Request → Bool
resets_form (save_password id b) = true
resets_form (create_club b) = true
resets_form (new_tournament b) = true
resets_form _ = false
