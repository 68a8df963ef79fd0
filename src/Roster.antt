-- ===== src/Roster.antt =====
-- frontend/src/app/sections/tournament-roster.tsx: the organizers' forms for players and teams, what
-- they start with, and the requests of their buttons. The checkboxes of the players hold texts;
-- `number` is `Number`, by which the schema reads them. Labels and markup are left out.
pub mod Edited
use brackets.Base.{
  Bool, List, Num, Option, Text, [], any, codes, decimal, false, join, map, none, or_text, some,
  text_eq, true, ℕ,
}
use brackets.Model.{Player, FullTeamWithPlayers}
use brackets.Forms.{Zod, PlayerBody, MultiBody, TeamBody, z_player_body, z_multi_body, z_team_body}
use brackets.Forms.Submits.{submits, confirms}

-- The requests of the file; each names the tournament, too.
pub data Request : Type 0 where
  create_player : PlayerBody → Request
  create_players : MultiBody → Request
  update_player : (player_id : ℕ) → PlayerBody → Request
  delete_player : (player_id : ℕ) → Request
  create_team : TeamBody → Request
  create_teams : MultiBody → Request
  update_team : (team_id : ℕ) → TeamBody → Request
  upload_team_logo : (team_id : ℕ) (file : Text) → Request
  delete_team : (team_id : ℕ) → Request

-- The values of a team's form, with the ids of the players whose boxes are checked.
pub record TeamValues : Type 0 where
  pub active : Bool
  pub name : Text
  pub player_ids : List Text

-- What the four forms for new players and teams start with.
abbrev pub new_player : PlayerBody
new_player = record { active = true; name = [] }

abbrev pub new_names : MultiBody
new_names = record { active = true; names = [] }

abbrev pub new_team : TeamValues
new_team = record { active = true; name = []; player_ids = [] }

-- `values` of `PlayerEditor` and of `TeamEditor`.
unfoldable pub player_values : Player → PlayerBody
player_values p = record { active = p.active; name = p.name }

unfoldable pub team_values : FullTeamWithPlayers → TeamValues
team_values t = record {
  active = t.active;
  name = t.name;
  player_ids = map (λ (p : Player). decimal p.id) t.players;
}

-- The box of a player is checked if the form holds its value.
unfoldable pub is_checked : TeamValues → Player → Bool
is_checked v p = any (λ id. text_eq id (decimal p.id)) v.player_ids

-- `teamSchema`: the values with numbers for ids.
unfoldable pub team_body : (number : Text → Num) → TeamValues → TeamBody
team_body number v = record {
  active = v.active;
  name = v.name;
  player_ids = map number v.player_ids;
}

-- A form that is submitted with its values, or a button that is clicked, in its row.
pub data Event : Type 0 where
  player_added : PlayerBody → Event
  players_imported teams_listed : MultiBody → Event
  player_saved : Player → PlayerBody → Event
  player_deleted : Player → Event
  team_added : TeamValues → Event
  team_saved : FullTeamWithPlayers → TeamValues → Event
  team_logo_chosen : FullTeamWithPlayers → Option Text → Event
  team_deleted : FullTeamWithPlayers → Event

module _ (z : Zod) (number : Text → Num) where
  -- `onSubmit` of `NewPlayerForm` and of `BulkPlayersForm`.
  abbrev pub new_player_submit : (is_pending : Bool) → PlayerBody → Option Request
  new_player_submit is_pending b = submits is_pending (z_player_body z b) (create_player b)

  abbrev pub players_submit : (is_pending : Bool) → MultiBody → Option Request
  players_submit is_pending b = submits is_pending (z_multi_body z b) (create_players b)

  -- `onSubmit` of `PlayerEditor`, and the click of its other button.
  abbrev pub player_submit : (is_pending : Bool) → Player → PlayerBody → Option Request
  player_submit is_pending p b = submits is_pending (z_player_body z b) (update_player p.id b)

  abbrev pub player_delete : (is_pending confirmed : Bool) → Player → Option Request
  player_delete is_pending confirmed p = confirms is_pending confirmed (delete_player p.id)

  -- `onSubmit` of `NewTeamForm` and of `BulkTeamsForm`.
  abbrev pub new_team_submit : (is_pending : Bool) → TeamValues → Option Request
  new_team_submit is_pending v =
      submits is_pending (z_team_body z (team_body number v)) (create_team (team_body number v))

  abbrev pub teams_submit : (is_pending : Bool) → MultiBody → Option Request
  teams_submit is_pending b = submits is_pending (z_multi_body z b) (create_teams b)

  -- `onSubmit` of `TeamEditor`, its chosen file, and the click of its other button.
  abbrev pub team_submit : (is_pending : Bool) → FullTeamWithPlayers → TeamValues → Option Request
  team_submit is_pending t v =
      submits is_pending (z_team_body z (team_body number v))
        (update_team t.id (team_body number v))

  abbrev pub team_logo_change :
      (is_pending : Bool) → FullTeamWithPlayers → (file : Option Text) → Option Request
  team_logo_change is_pending t none = none
  team_logo_change is_pending t (some file) = submits is_pending true (upload_team_logo t.id file)

  abbrev pub team_delete : (is_pending confirmed : Bool) → FullTeamWithPlayers → Option Request
  team_delete is_pending confirmed t = confirms is_pending confirmed (delete_team t.id)

  -- What an event of the page sends; `is_pending` is whether the event's own mutation is under way.
  unfoldable pub handle : (is_pending confirmed : Bool) → Event → Option Request
  unfolding submits confirms team_body
  handle is_pending confirmed (player_added b) = new_player_submit is_pending b
  handle is_pending confirmed (players_imported b) = players_submit is_pending b
  handle is_pending confirmed (teams_listed b) = teams_submit is_pending b
  handle is_pending confirmed (player_saved p b) = player_submit is_pending p b
  handle is_pending confirmed (player_deleted p) = player_delete is_pending confirmed p
  handle is_pending confirmed (team_added v) = new_team_submit is_pending v
  handle is_pending confirmed (team_saved t v) = team_submit is_pending t v
  handle is_pending confirmed (team_logo_chosen t file) = team_logo_change is_pending t file
  handle is_pending confirmed (team_deleted t) = team_delete is_pending confirmed t

-- Whether a form is reset once its request has succeeded.
unfoldable pub resets : Request → Bool
resets (create_player b) = true
resets (create_players b) = true
resets (create_team b) = true
resets (create_teams b) = true
resets _ = false

-- The summary of a team's row.
unfoldable pub team_summary : FullTeamWithPlayers → Text
team_summary t =
    or_text (join (codes ", ") (map (λ (p : Player). p.name) t.players)) (codes "No players yet")
