-- ===== src/Page/Content.antt =====
-- What a section shows of a loaded tournament: `TournamentView`, and the tabs above it.
pub mod Ways
use brackets.Base.{
  Bool, List, Option, Text, [], any, codes, decimal, false, flat_map, if◌then◌else◌, none, not,
  some, true, ℕ, ◌&&◌, ◌++◌, ◌==◌, ◌||◌, ◌∷◌,
}
use brackets.Model.{FullTeamWithPlayers, StageItem, Stage}
use brackets.Inputs.{is_bracket, has_bracket_view}
use brackets.Tournament.{public_tournament_path}
use brackets.Api.{TournamentBundle}
use brackets.Page.{
  TournamentSection, overview, players, teams, schedule, rankings, settings, stages, dashboard,
  dashboard_schedule, dashboard_standings, dashboard_bracket, dashboard_teams, dashboard_team,
  dashboard_present_schedule, dashboard_present_standings, is_dashboard, is_big_screen,
}

-- `bundle.stages.flatMap((stage) => stage.stage_items)`
abbrev pub stage_items_of : List Stage → List StageItem
stage_items_of ss = flat_map (λ (s : Stage). s.stage_items) ss

unfoldable pub has_groups : List Stage → Bool
has_groups ss = any (λ (i : StageItem). not (is_bracket i)) (stage_items_of ss)

unfoldable pub has_brackets : List Stage → Bool
has_brackets ss = any has_bracket_view (stage_items_of ss)

-- `publicPath`
unfoldable pub public_path : TournamentSection → (tournament_key : Text) → TournamentBundle → Text
unfolding is_dashboard
public_path section key bundle =
    if is_dashboard section
    then codes "/tournaments/" ++ key ++ codes "/dashboard"
    else public_tournament_path bundle.tournament

-- `content`: the component that is shown, with the arguments that depend on the section.
pub data Content : Type 0 where
  overview_section : Content
  schedule_section : (can_manage : Bool) → Content
  navigate : Text → Content
  standings_section bracket_section no_bracket : Content
  team_directory_section team_detail_section : Content
  big_screen_schedule : Content
  big_screen_standings : (with_standings : Bool) → Content
  players_section teams_section rankings_section settings_section stages_section : Content

unfoldable pub content : TournamentSection → (public_path : Text) → List Stage → Content
unfolding has_groups has_brackets
content overview path ss = overview_section
content dashboard path ss = overview_section
content schedule path ss = schedule_section (not (is_dashboard schedule))
content dashboard_schedule path ss = schedule_section (not (is_dashboard dashboard_schedule))
content dashboard_standings path ss =
    if not (has_groups ss) && has_brackets ss
    then navigate (path ++ codes "/bracket")
    else standings_section
content dashboard_bracket path ss =
    if has_brackets ss
    then bracket_section
    else if has_groups ss
    then navigate (path ++ codes "/standings")
    else no_bracket
content dashboard_teams path ss = team_directory_section
content dashboard_team path ss = team_detail_section
content dashboard_present_schedule path ss = big_screen_schedule
content dashboard_present_standings path ss =
    big_screen_standings (has_groups ss || not (has_brackets ss))
content players path ss = players_section
content teams path ss = teams_section
content rankings path ss = rankings_section
content settings path ss = settings_section
content stages path ss = stages_section

-- The team that the visitor picked, as the pages use it.
unfoldable pub shown_my_team :
    TournamentSection → TournamentBundle → (my_team_id : Option ℕ) → Option ℕ
unfolding is_big_screen
shown_my_team section bundle none = none
shown_my_team section bundle (some id) =
    if not (is_big_screen section) && any (λ (t : FullTeamWithPlayers). t.id == id) bundle.teams
    then some id
    else none

pub record Tab : Type 0 where
  pub ends : Bool
  pub label : Text
  pub to : Text

abbrev tab : Text → Text → Tab
tab label to = record { ends = false; label = label; to = to }

unfoldable pub details_tabs : (public_path : Text) → List Stage → List Tab
unfolding has_groups has_brackets
details_tabs path ss =
    (record { ends = true; label = codes "Overview"; to = path })
    ∷ (tab (codes "Schedule") (path ++ codes "/schedule")
        ∷ ((if has_groups ss then tab (codes "Standings") (path ++ codes "/standings") ∷ [] else [])
            ++ ((if has_brackets ss
                  then tab (codes "Bracket") (path ++ codes "/bracket") ∷ []
                  else [])
                ++ (tab (codes "Teams") (path ++ codes "/teams") ∷ []))))

abbrev workspace_base : ℕ → Text
workspace_base id = codes "/tournaments/" ++ decimal id

unfoldable pub workspace_tabs : (tournament_id : ℕ) → List Tab
workspace_tabs id =
    (record { ends = true; label = codes "Overview"; to = workspace_base id })
    ∷ tab (codes "Players") (workspace_base id ++ codes "/players")
    ∷ tab (codes "Teams") (workspace_base id ++ codes "/teams")
    ∷ tab (codes "Stages") (workspace_base id ++ codes "/stages")
    ∷ tab (codes "Schedule") (workspace_base id ++ codes "/schedule")
    ∷ tab (codes "Rankings") (workspace_base id ++ codes "/rankings")
    ∷ tab (codes "Settings") (workspace_base id ++ codes "/settings")
    ∷ []
