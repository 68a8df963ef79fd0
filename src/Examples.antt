-- ===== src/Examples.antt =====
-- A small tournament on which the definitions are run and the theorems applied.
pub mod Matches
pub mod Drawing
pub mod Editing
pub mod Loading
pub mod Sessions
pub mod Pages
pub mod Organizing
pub mod Accounts
pub mod Addresses
pub mod Transport
pub mod Chrome
use brackets.Base.{
  Bool, List, Num, Option, Text, [], all_digits, codes, digits_value, false, if◌then◌else◌, none,
  pos, some, true, truthy, ℕ, ◌&&◌, ◌∷◌,
}
use brackets.Model.{
  StageType, round_robin, single_elimination, swiss, open_status, archived, TournamentStatus,
  Tournament, Team, FullTeamWithPlayers, InputFields, StageItemInputFinal, StageItemInput, final,
  tentative, vacant, StageItemInputStanding, Match, Round, StageItem, Stage, FlattenedMatch,
}

-- A date that is a decimal number of milliseconds.
abbrev pub get_time : Text → Num
get_time s = if truthy s && all_digits s then some (pos (digits_value s)) else none

-- No text but a decimal number is read as a number.
abbrev pub read_nothing : Text → Option ℕ
read_nothing s = none

abbrev team_with : ℕ → Text → Team
team_with id name = record {
  active = true;
  created = codes "1";
  draws = 0;
  elo_score = codes "1200";
  id = id;
  logo_path = none;
  losses = 0;
  name = name;
  swiss_score = codes "0";
  tournament_id = 1;
  wins = 0;
}

abbrev pub fields_of : (id slot : ℕ) → InputFields
fields_of id slot = record {
  draws = 0;
  id = id;
  losses = 0;
  points = codes "0";
  slot = slot;
  stage_item_id = some 5;
  tournament_id = 1;
  wins = 0;
}

abbrev pub ants : Team
ants = team_with 11 (codes "Ants")

abbrev pub bees : Team
bees = team_with 12 (codes "Bees")

abbrev final_of : (id slot : ℕ) → Team → StageItemInputFinal
final_of id slot team = record {
  fields = fields_of id slot;
  team = team;
  team_id = team.id;
  winner_from_stage_item_id = none;
  winner_position = none;
}

abbrev pub ants_input : StageItemInputFinal
ants_input = final_of 21 1 ants

abbrev pub bees_input : StageItemInputFinal
bees_input = final_of 22 2 bees

-- The Ants play the Bees.
abbrev pub game : (id round_id score1 score2 : ℕ) (start : Option Text) → Match
game id round_id score1 score2 start = record {
  created = codes "1";
  custom_duration_minutes = none;
  custom_margin_minutes = none;
  duration_minutes = 10;
  id = id;
  margin_minutes = 5;
  round_id = round_id;
  stage_item_input1 = some (final ants_input);
  stage_item_input1_conflict = false;
  stage_item_input1_id = some 21;
  stage_item_input1_score = score1;
  stage_item_input1_winner_from_match_id = none;
  stage_item_input2 = some (final bees_input);
  stage_item_input2_conflict = false;
  stage_item_input2_id = some 22;
  stage_item_input2_score = score2;
  stage_item_input2_winner_from_match_id = none;
  start_time = start;
}

abbrev pub round_with : (id : ℕ) (is_draft : Bool) → List Match → Round
round_with id is_draft ms = record {
  created = codes "1";
  id = id;
  is_draft = is_draft;
  matches = ms;
  name = codes "Round";
  stage_item_id = 5;
}

abbrev pub item_with : StageType → List Round → StageItem
item_with kind rs = record {
  created = codes "1";
  id = 5;
  inputs = final ants_input ∷ final bees_input ∷ [];
  name = codes "Group";
  ranking_id = none;
  rounds = rs;
  stage_id = 3;
  team_count = 2;
  kind = kind;
  type_name = codes "Group";
}

abbrev pub stage_with : List StageItem → Stage
stage_with items = record {
  created = codes "1";
  custom_duration_minutes = none;
  id = 3;
  is_active = true;
  name = codes "Stage";
  stage_items = items;
  tournament_id = 1;
}

abbrev pub tournament : Tournament
tournament = record {
  club_id = 1;
  created = codes "1";
  dashboard_endpoint = some (codes " cup ");
  dashboard_public = true;
  duration_minutes = 10;
  id = 1;
  logo_path = none;
  margin_minutes = 5;
  name = codes "Cup";
  players_can_be_in_multiple_teams = false;
  start_time = codes "1000";
  status = open_status;
}

-- The Ants have won the first match; the second starts later, and the third has no start yet.
abbrev pub won_game : Match
won_game = game 31 41 2 1 (some (codes "1000"))

abbrev pub later_game : Match
later_game = game 32 42 0 0 (some (codes "2000"))

abbrev pub open_game : Match
open_game = game 33 42 0 0 none

abbrev pub first_round : Round
first_round = round_with 41 false (won_game ∷ [])

abbrev pub second_round : Round
second_round = round_with 42 false (open_game ∷ later_game ∷ [])

abbrev pub swiss_item : StageItem
swiss_item = item_with swiss (second_round ∷ first_round ∷ [])

abbrev pub played_item : StageItem
played_item = item_with swiss (first_round ∷ [])

abbrev pub cup_item : StageItem
cup_item = item_with single_elimination (first_round ∷ second_round ∷ [])

abbrev pub swiss_stages : List Stage
swiss_stages = stage_with (swiss_item ∷ []) ∷ []

abbrev pub placed : Round → Match → FlattenedMatch
placed round entry = record {
  stage = stage_with (swiss_item ∷ []);
  stage_item = swiss_item;
  round = round;
  entry = entry;
}

abbrev pub standing_of : ℕ → StageItemInputStanding
standing_of id = record {
  draws = 0;
  losses = 0;
  points = codes "3";
  score_against = 1;
  score_for = 2;
  stage_item_input_id = id;
  wins = 1;
}

abbrev pub standings : List (Text × List StageItemInputStanding)
standings = (codes "5", standing_of 22 ∷ standing_of 99 ∷ standing_of 21 ∷ []) ∷ []
