-- ===== src/Teams.antt =====
-- frontend/src/app/sections/tournament-teams.tsx: the directory of teams and the page of a team, with
-- `teamPath` of frontend/src/app/tournament-context.ts. Formatted points and markup are left out.
pub mod Detail
pub mod Places
use brackets.Base.{
  Bool, List, Num, Option, Text, [], codes, decimal, filter, find?, flat_map, if◌then◌else◌, join,
  length, ltb, map, none, not, or_text, reverse, some, suc, true, truthy, ℕ, ℤ, ◌&&◌, ◌++◌, ◌+◌,
  ◌==◌, ◌∷◌,
}
use brackets.Model.{
  Match, StageItem, Stage, FlattenedMatch, FullTeamWithPlayers, Player, StageItemInputStanding,
}
use brackets.Inputs.{involves_team, is_bracket, is_id}
use brackets.Matches.{is_scored, next_match}
use brackets.Tournament.{trim}
use brackets.Standings.{StandingEntry, stage_item_standings}
use brackets.Sections.{stage_item_path, item_title}

-- `teamPath`
unfoldable pub team_path : (public_path : Text) (team_id : ℕ) → Text
team_path path id = path ++ codes "/teams/" ++ decimal id

-- `playerNames`
unfoldable pub player_names : FullTeamWithPlayers → Text
player_names t = join (codes ", ") (map (λ (p : Player). p.name) t.players)

-- A team of `TeamDirectorySection`.
pub record DirectoryEntry : Type 0 where
  pub name : Text
  pub path : Text
  pub is_my_team : Bool
  pub players : Text

-- What `TeamDirectorySection` shows below its heading.
pub record TeamDirectory : Type 0 where
  pub team_count : ℕ
  pub has_search : Bool
  pub no_match : Option Text
  pub entries : List DirectoryEntry

directory_entry :
    (my_team_id : Option ℕ) (public_path : Text) → FullTeamWithPlayers → DirectoryEntry
directory_entry my_team_id path t = record {
  name = t.name;
  path = team_path path t.id;
  is_my_team = is_id my_team_id t.id;
  players = or_text (player_names t) (codes "No players listed");
}

-- `match_sorter` is the search of the library of that name over the names of teams and players, and
-- `sort_by_name` is `sortTeamsByName`, which compares as the browser's language does.
module _ (match_sorter : List FullTeamWithPlayers → Text → List FullTeamWithPlayers)
    (sort_by_name : List FullTeamWithPlayers → List FullTeamWithPlayers) where
  shown_teams : List FullTeamWithPlayers → (query : Text) → List FullTeamWithPlayers
  shown_teams ts query =
      if truthy (trim query) then match_sorter ts (trim query) else sort_by_name ts

  unfoldable pub team_directory :
      (my_team_id : Option ℕ) (public_path : Text)
      → List FullTeamWithPlayers
      → (query : Text) → TeamDirectory
  unfolding shown_teams directory_entry
  team_directory my_team_id path ts query =
      let shown = shown_teams ts query in
      record {
        team_count = length ts;
        has_search = not (length ts == 0);
        no_match = if ltb 0 (length ts) && length shown == 0 then some (trim query) else none;
        entries = map (directory_entry my_team_id path) shown;
      }

-- `match !== next?.match`. A match is one object on the page, told from the others by its id.
unfoldable pub is_other_match : Option FlattenedMatch → FlattenedMatch → Bool
is_other_match none e = true
is_other_match (some next) e = not (e.entry.id == next.entry.id)

-- `teamMatches`
unfoldable pub team_matches : List FlattenedMatch → (team_id : ℕ) → List FlattenedMatch
team_matches matches team_id = filter (λ e. involves_team e.entry team_id) matches

-- `[next, ...upcoming]`, or `upcoming` without a next match.
abbrev put_first : Option FlattenedMatch → List FlattenedMatch → List FlattenedMatch
put_first none es = es
put_first (some e) es = e ∷ es

-- `comingUp`, of the matches of a team.
unfoldable pub coming_up : (Text → Num) → ℤ → List FlattenedMatch → List FlattenedMatch
unfolding is_other_match
coming_up get_time now matches =
    let next = next_match get_time now matches in
    put_first next (filter (λ e. not (is_scored e.entry) && is_other_match next e) matches)

-- `played`, of the matches of a team.
unfoldable pub played_matches : List FlattenedMatch → List FlattenedMatch
played_matches matches = reverse (filter (λ e. is_scored e.entry) matches)

-- A place in a group, counted from 1.
pub record Placement : Type 0 where
  pub entry : StandingEntry
  pub position : ℕ
  pub size : ℕ
  pub stage_item : StageItem

-- `findIndex`, with the entry that it finds.
unfoldable pub find_place : (team_id : ℕ) → List StandingEntry → Option (ℕ × StandingEntry)
find_place team_id [] = none
find_place team_id (e ∷ es) =
    let rest = find_place team_id es in
    if e.input.team_id == team_id
    then some (0, e)
    else elim rest [ none ↦ none | some found ↦ some (suc found.0, found.1) ]

-- The body of the inner `flatMap`.
item_placement :
    List (Text × List StageItemInputStanding) → (team_id : ℕ) → StageItem → List Placement
item_placement standings team_id item =
    let entries = stage_item_standings item standings in
    elim (find_place team_id entries) [
      | none ↦ []
      | some found ↦
          record {
            entry = found.1;
            position = found.0 + 1;
            size = length entries;
            stage_item = item;
          }
          ∷ []
    ]

-- `placements`
unfoldable pub placements :
    List Stage → List (Text × List StageItemInputStanding) → (team_id : ℕ) → List Placement
unfolding item_placement
placements stages standings team_id =
    flat_map
      (λ (s : Stage).
        flat_map (item_placement standings team_id)
          (filter (λ item. not (is_bracket item)) s.stage_items))
      stages

-- `TeamDetailSection`
pub record TeamDetail : Type 0 where
  pub team : FullTeamWithPlayers
  pub is_mine : Bool
  pub placed : List Placement
  pub no_matches : Bool
  pub next_up : List FlattenedMatch
  pub results : List FlattenedMatch

pub data TeamPage : Type 0 where
  team_not_found : (directory_path : Text) → TeamPage
  team_found : TeamDetail → TeamPage

unfoldable pub find_team :
    List FullTeamWithPlayers → (team_id : Option ℕ) → Option FullTeamWithPlayers
find_team ts id = find? (λ (t : FullTeamWithPlayers). is_id id t.id) ts

unfoldable pub team_detail_section :
    (Text → Num)
    → ℤ
    → (public_path : Text) (my_team_id : Option ℕ) → List FullTeamWithPlayers
    → List Stage
    → List (Text × List StageItemInputStanding)
    → List FlattenedMatch
    → (team_id : Option ℕ) → TeamPage
unfolding find_team
team_detail_section get_time now path my_team_id ts stages standings matches team_id =
    elim (find_team ts team_id) [
      | none ↦ team_not_found (path ++ codes "/teams")
      | some t ↦
          let own = team_matches matches t.id in
          team_found (record {
            team = t;
            is_mine = is_id my_team_id t.id;
            placed = placements stages standings t.id;
            no_matches = length own == 0;
            next_up = coming_up get_time now own;
            results = played_matches own;
          })
    ]

-- The button of the page: the team that the visitor follows after a click.
unfoldable pub toggle_my_team : (my_team_id : Option ℕ) → FullTeamWithPlayers → Option ℕ
toggle_my_team my_team_id t = if is_id my_team_id t.id then none else some t.id
