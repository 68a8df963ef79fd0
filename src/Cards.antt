-- ===== src/Cards.antt =====
-- frontend/src/app/components: the card of a match, the link of a team, the badge of a tournament, and
-- what a click on a drawn bracket does. Colours are named by what they say, formatted times are left
-- out.
pub mod Shown
use brackets.Base.{
  Bool, List, Num, Option, Text, codes, false, has_value, if◌then◌else◌, map_get, map_of, none,
  some, true, ℕ, ℤ, ◌++◌, ◌||◌,
}
use brackets.Model.{Match, StageItem, StageItemInput, FlattenedMatch, Tournament, Round}
use brackets.Inputs.{input_team_id, input_label, is_id}
use brackets.Matches.{
  MatchStatus, finished, live, scheduled, waiting, match_status, is_live, MatchOutcome, first,
  second, match_winner,
}
use brackets.Teams.{team_path}
use brackets.Sections.{item_title}
use brackets.Tournament.{TournamentPhase, running, tournament_phase}

-- `TeamLink`: where the name of a team leads, if anywhere.
unfoldable pub team_link :
    (is_big_screen : Bool) (public_path : Text) (team_id : Option ℕ) → Option Text
team_link is_big_screen path none = none
team_link is_big_screen path (some id) = if is_big_screen then none else some (team_path path id)

-- `Side`: the text's colour, from the first of the conditions that holds.
pub data SideColor : Type 0 where
  mine_color winner_color loser_color plain_color : SideColor

pub record Side : Type 0 where
  pub label : Text
  pub link : Option Text
  pub is_winner : Bool
  pub color : SideColor
  pub score : Option ℕ

-- What the pages of a tournament share: `TournamentContextValue`.
pub record TournamentContext : Type 0 where
  pub is_big_screen : Bool
  pub my_team_id : Option ℕ
  pub public_path : Text

unfoldable pub side :
    TournamentContext
    → List (ℕ × StageItem)
    → Option StageItemInput
    → (is_loser is_mine is_winner show_score : Bool) (score : ℕ) → Side
unfolding team_link
side context items input is_loser is_mine is_winner show_score score = record {
  label = input_label input items;
  link = team_link context.is_big_screen context.public_path (input_team_id input);
  is_winner = is_winner;
  color =
      if is_mine
      then mine_color
      else if is_winner
      then winner_color
      else if is_loser
      then loser_color
      else plain_color;
  score = if show_score then some score else none;
}

abbrev pub is_first : MatchOutcome → Bool
is_first first = true
is_first _ = false

abbrev pub is_second : MatchOutcome → Bool
is_second second = true
is_second _ = false

-- `MATCH_STATUS_LABELS` and `STATUS_BADGES` are one text and one colour for each status.
unfoldable pub shows_score : MatchStatus → Bool
shows_score finished = true
shows_score live = true
shows_score scheduled = false
shows_score waiting = false

-- `myTeamId != null && inputTeamId(input) === myTeamId`
unfoldable pub is_mine : (my_team_id : Option ℕ) → Option StageItemInput → Bool
is_mine none input = false
is_mine (some id) input = is_id (input_team_id input) id

-- `MatchCard`
pub record MatchCard : Type 0 where
  pub title : Text
  pub status : MatchStatus
  pub pulses : Bool
  pub is_highlighted : Bool
  pub side1 : Side
  pub side2 : Side

unfoldable pub match_card :
    (Text → Num) → ℤ → TournamentContext → List (ℕ × StageItem) → FlattenedMatch → MatchCard
unfolding side shows_score is_mine
match_card get_time now context items e =
    let m = e.entry in
    let status = match_status get_time m now in
    let winner = match_winner m in
    let mine1 = is_mine context.my_team_id m.stage_item_input1 in
    let mine2 = is_mine context.my_team_id m.stage_item_input2 in
    record {
      title = item_title e.stage_item ++ codes " · " ++ e.round.name;
      status = status;
      pulses = is_live status;
      is_highlighted = mine1 || mine2;
      side1 =
          side context items m.stage_item_input1 (is_second winner) mine1 (is_first winner)
            (shows_score status) m.stage_item_input1_score;
      side2 =
          side context items m.stage_item_input2 (is_first winner) mine2 (is_second winner)
            (shows_score status) m.stage_item_input2_score;
    }

-- `TournamentStatusBadge`: the phase, and whether its dot pulses.
abbrev is_running : TournamentPhase → Bool
is_running running = true
is_running _ = false

unfoldable pub tournament_status_badge : (Text → Num) → Tournament → ℤ → TournamentPhase × Bool
tournament_status_badge get_time t now =
    let phase = tournament_phase get_time t now in (phase, is_running phase)

-- The click of `BracketViewerCanvas`, on an element that carries the id of a participant or on none:
-- the team whose page opens. `team_participants` are the entries of the map.
unfoldable pub canvas_click :
    (team_participants : List (ℕ × ℕ)) (participant_id : Option ℕ) → Option ℕ
canvas_click team_participants none = none
canvas_click team_participants (some id) = map_get id (map_of team_participants)

-- `markTeams`: whether a participant looks like a link.
unfoldable pub is_marked : (team_participants : List (ℕ × ℕ)) (participant_id : ℕ) → Bool
is_marked team_participants id = has_value (map_get id (map_of team_participants))
