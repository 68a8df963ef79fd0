-- ===== src/Sections/Tables.antt =====
-- frontend/src/app/sections/tournament-standings.tsx and `StageItemVisualization` of
-- tournament-overview.tsx: the tables of the groups, as data. `format_points` is `formatPoints` of
-- utils.ts, which uses Intl, and `is_one` is whether `Number` makes 1 of a text.
pub mod Same
use brackets.Base.{
  Bool, List, Option, Text, any, codes, false, if◌then◌else◌, join, length, map, map_from, map_get,
  none, or_text, pos, some, true, ℕ, ℤ, ◌++◌, ◌+◌, ◌-ℤ◌, ◌==◌,
}
use brackets.Model.{
  Match, Round, StageItem, Stage, Ranking, FullTeamWithPlayers, Player, StageItemInputStanding,
  final,
}
use brackets.Inputs.{is_bracket, is_swiss, input_label, input_team_id}
use brackets.Matches.{is_scored, match_winner}
use brackets.Bracket.{BracketViewerData, to_bracket_viewer_data}
use brackets.Standings.{StandingEntry, StandingsTable, stage_item_standings, standings_tables}
use brackets.Sections.{item_title, Emphasis, side_class}

abbrev is_mine : Option ℕ → ℕ → Bool
is_mine none id = false
is_mine (some k) id = id == k

-- The names of a team's players, or a dash.
players_text : Option FullTeamWithPlayers → Text
players_text none = codes "—"
players_text (some t) =
    or_text (join (codes ", ") (map (λ (p : Player). p.name) t.players)) (codes "—")

-- A row of `StandingsSection`, counted from 1.
pub record StandingsRow : Type 0 where
  pub position : ℕ
  pub entry : StandingEntry
  pub players : Text
  pub played : ℕ
  pub difference : ℤ
  pub is_my_team : Bool

unfoldable pub standings_rows :
    List (ℕ × FullTeamWithPlayers) → (my_team_id : Option ℕ) → StandingsTable → List StandingsRow
unfolding players_text
standings_rows teams my_team_id table =
    map_from 0
      (λ index (e : StandingEntry). record {
        position = index + 1;
        entry = e;
        players = players_text (map_get e.input.team_id teams);
        played = e.standing.wins + e.standing.draws + e.standing.losses;
        difference = pos e.standing.score_for -ℤ pos e.standing.score_against;
        is_my_team = is_mine my_team_id e.input.team_id;
      })
      table.entries

unfoldable pub points_label : StageItem → Text
points_label item = if is_swiss item.kind then codes "Rating" else codes "Points"

pub record TableView : Type 0 where
  pub title : Text
  pub stage_name : Text
  pub type_name : Text
  pub points_heading : Text
  pub rows : List StandingsRow

-- `StandingsSection`. The big screen shows no explanation.
pub record StandingsView : Type 0 where
  pub is_empty : Bool
  pub tables : List TableView
  pub explanation : Option (List Text)
  pub explains_rating : Bool

-- A row of the table of `StageItemVisualization`.
pub record VisualRow : Type 0 where
  pub position : ℕ
  pub team_id : ℕ
  pub name : Text
  pub standing : StageItemInputStanding
  pub points : Text

-- A match of it: the two sides with their teams, names and emphasis, and the scores or none.
pub record VisualMatch : Type 0 where
  pub first_side : Option ℕ × Text × Emphasis
  pub second_side : Option ℕ × Text × Emphasis
  pub scores : Option (ℕ × ℕ)

pub data StageItemVisualization : Type 0 where
  bracket : Option BracketViewerData → StageItemVisualization
  group :
      List VisualRow → (rounds : Option (List (Text × List VisualMatch))) → StageItemVisualization

visual_name : List (ℕ × StageItem) → List (ℕ × FullTeamWithPlayers) → StandingEntry → Text
visual_name items teams e = elim (map_get e.input.team_id teams) [
  | none ↦ input_label (some (final e.input)) items
  | some t ↦ t.name
]

visual_match : List (ℕ × StageItem) → Match → VisualMatch
visual_match items m = record {
  first_side = (
    input_team_id m.stage_item_input1,
    input_label m.stage_item_input1 items,
    side_class (match_winner m) true,
  );
  second_side = (
    input_team_id m.stage_item_input2,
    input_label m.stage_item_input2 items,
    side_class (match_winner m) false,
  );
  scores =
      if is_scored m then some (m.stage_item_input1_score, m.stage_item_input2_score) else none;
}

module _ (format_points : Text → Text) (is_one : Text → Bool) where
  unfoldable pub points_word : Text → Text
  points_word points = if is_one points then codes "point" else codes "points"

  unfoldable pub points_phrase : StageItem → Text → Text
  unfolding points_word
  points_phrase item points =
      if is_swiss item.kind
      then codes "rating " ++ format_points points
      else format_points points ++ codes " " ++ points_word points

  -- The line that explains a ranking.
  unfoldable pub ranking_line : Ranking → Text
  unfolding points_word
  ranking_line r =
      codes "A win is worth "
      ++ format_points r.win_points
      ++ codes " "
      ++ points_word r.win_points
      ++ codes ", a draw "
      ++ format_points r.draw_points
      ++ codes " and a loss "
      ++ format_points r.loss_points
      ++ codes "."

  unfoldable pub standings_section :
      (compact : Bool)
      → List (ℕ × FullTeamWithPlayers)
      → (my_team_id : Option ℕ) → List Ranking
      → List Stage
      → List (Text × List StageItemInputStanding)
      → StandingsView
  unfolding standings_rows points_label ranking_line
  standings_section compact teams my_team_id rankings stages standings =
      let tables = standings_tables stages standings in
      record {
        is_empty = length tables == 0;
        tables =
            map
              (λ (t : StandingsTable). record {
                title = item_title t.stage_item;
                stage_name = t.stage.name;
                type_name = t.stage_item.type_name;
                points_heading = points_label t.stage_item;
                rows = standings_rows teams my_team_id t;
              })
              tables;
        explanation = if compact then none else some (map ranking_line rankings);
        explains_rating =
            if compact
            then false
            else any (λ (t : StandingsTable). is_swiss t.stage_item.kind) tables;
      }

  unfoldable pub stage_item_visualization :
      (show_matches : Bool)
      → List (ℕ × StageItem)
      → List (ℕ × FullTeamWithPlayers)
      → (tournament_id : ℕ) → List (Text × List StageItemInputStanding)
      → StageItem
      → StageItemVisualization
  unfolding visual_name visual_match points_phrase
  stage_item_visualization show_matches items teams tournament_id standings item =
      if is_bracket item
      then bracket (to_bracket_viewer_data item items tournament_id)
      else group
          (map_from 0
            (λ index (e : StandingEntry). record {
              position = index + 1;
              team_id = e.input.team_id;
              name = visual_name items teams e;
              standing = e.standing;
              points = points_phrase item e.standing.points;
            })
            (stage_item_standings item standings))
          (if show_matches
            then some
                (map (λ (r : Round). (r.name, map (visual_match items) r.matches)) item.rounds)
            else none)
