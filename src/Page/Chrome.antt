-- ===== src/Page/Chrome.antt =====
-- What frontend/src/app/pages/tournament-page.tsx shows around the content of a section: the title, the
-- header with its tabs and its link, and the way out of a big screen.
use brackets.Base.{
  Bool, List, Num, Option, Text, [], codes, decimal, filter, if◌then◌else◌, join, length, ltb, map,
  map_get, map_of, none, some, text_eq, truthy, ℕ, ℤ, ◌++◌, ◌==◌, ◌∷◌,
}
use brackets.Model.{FullTeamWithPlayers, FlattenedMatch}
use brackets.Matches.{is_scored}
use brackets.Schedule.{tournament_matches}
use brackets.Tournament.{TournamentPhase}
use brackets.Tournament.Dates.{tournament_date_label}
use brackets.Cards.{tournament_status_badge}
use brackets.Api.{TournamentBundle}
use brackets.Page.{
  TournamentSection, overview, players, teams, schedule, rankings, settings, stages, dashboard,
  dashboard_schedule, dashboard_standings, dashboard_bracket, dashboard_teams, dashboard_team,
  dashboard_present_schedule, dashboard_present_standings, is_dashboard, is_big_screen,
  section_name,
}
use brackets.Page.Content.{Tab, public_path, details_tabs, workspace_tabs}

-- `SECTION_TITLES[section]`
abbrev pub section_title : TournamentSection → Option Text
section_title dashboard_bracket = some (codes "Bracket")
section_title dashboard_present_schedule = some (codes "Now and next")
section_title dashboard_present_standings = some (codes "Standings")
section_title dashboard_schedule = some (codes "Schedule")
section_title dashboard_standings = some (codes "Standings")
section_title dashboard_teams = some (codes "Teams")
section_title players = some (codes "Players")
section_title rankings = some (codes "Rankings")
section_title schedule = some (codes "Schedule")
section_title settings = some (codes "Settings")
section_title stages = some (codes "Stages")
section_title teams = some (codes "Teams")
section_title overview = none
section_title dashboard = none
section_title dashboard_team = none

-- `teamMap.get(teamId ?? -1)`
abbrev team_of : List FullTeamWithPlayers → (team_id : Option ℕ) → Option FullTeamWithPlayers
team_of ts none = none
team_of ts (some id) = map_get id (map_of (map (λ (t : FullTeamWithPlayers). (t.id, t)) ts))

abbrev shown_team_name : Option FullTeamWithPlayers → Option Text
shown_team_name none = none
shown_team_name (some t) = some t.name

-- `section === 'dashboard-team'`
abbrev is_team_page : TournamentSection → Bool
is_team_page section = text_eq (section_name section) (codes "dashboard-team")

unfoldable pub page_title :
    TournamentSection → List FullTeamWithPlayers → (team_id : Option ℕ) → Option Text
page_title section ts team_id =
    if is_team_page section then shown_team_name (team_of ts team_id) else section_title section

-- `.filter(Boolean)`, of texts that may be absent.
abbrev present_texts : List (Option Text) → List Text
present_texts [] = []
present_texts (none ∷ rest) = present_texts rest
present_texts (some s ∷ rest) = if truthy s then s ∷ present_texts rest else present_texts rest

-- The document's title; the dot between its parts is a middle dot.
unfoldable pub document_title : (title : Option Text) (tournament_name : Text) → Text
unfolding join
document_title title name =
    join (32 ∷ 183 ∷ 32 ∷ [])
      (present_texts (title ∷ some name ∷ some (codes "Ctrl-Alt-GG Bracket") ∷ []))

-- The link beside the name: to the workspace, to the Details page, or none.
pub data HeaderAction : Type 0 where
  manage_link details_link : (to : Text) → HeaderAction
  no_action : HeaderAction

-- `TournamentHeader`
pub record TournamentHeader : Type 0 where
  pub name : Text
  pub badge : TournamentPhase × Bool
  pub date_label : Text
  pub team_count : Text
  pub matches_played : Option Text
  pub action : HeaderAction
  pub tabs : List Tab

pub data Chrome : Type 0 where
  big_screen : (name exit_to : Text) → Chrome
  with_header : TournamentHeader → Chrome

abbrev team_count_text : ℕ → Text
team_count_text n = if n == 1 then codes "1 team" else decimal n ++ codes " teams"

abbrev matches_played_text : (played count : ℕ) → Option Text
matches_played_text played count =
    if ltb 0 count
    then some (decimal played ++ codes " of " ++ decimal count ++ codes " matches played")
    else none

-- `section === 'dashboard-present-schedule' ? ... : publicPath`
unfoldable pub exit_path : TournamentSection → (public_path : Text) → Text
exit_path section path =
    if text_eq (section_name section) (codes "dashboard-present-schedule")
    then path ++ codes "/schedule"
    else path

unfoldable pub header_action :
    TournamentSection → (can_manage : Bool) (tournament_id : ℕ) (public_path : Text) → HeaderAction
unfolding is_dashboard
header_action section can_manage id path =
    if is_dashboard section
    then (if can_manage then manage_link (codes "/tournaments/" ++ decimal id) else no_action)
    else details_link path

unfoldable pub header_tabs : TournamentSection → TournamentBundle → (public_path : Text) → List Tab
unfolding is_dashboard details_tabs workspace_tabs
header_tabs section bundle path =
    if is_dashboard section
    then details_tabs path bundle.stages
    else workspace_tabs bundle.tournament.id

module _ {Date : Type 0} (parse_iso : Text → Option Date) (is_this_year is_today : Date → Bool)
    (format : Date → Text → Text) (get_time : Text → Num) (now : ℤ) where
  unfoldable pub header_of :
      TournamentSection → TournamentBundle → (public_path : Text) → TournamentHeader
  unfolding header_action header_tabs tournament_date_label tournament_status_badge
      tournament_matches is_scored
  header_of section bundle path =
      let ms = tournament_matches get_time bundle.stages in
      record {
        name = bundle.tournament.name;
        badge = tournament_status_badge get_time bundle.tournament now;
        date_label =
            tournament_date_label parse_iso is_this_year is_today format get_time bundle.tournament
              now;
        team_count = team_count_text (length bundle.teams);
        matches_played =
            matches_played_text (length (filter (λ (e : FlattenedMatch). is_scored e.entry) ms))
              (length ms);
        action = header_action section bundle.can_manage bundle.tournament.id path;
        tabs = header_tabs section bundle path;
      }

  -- What `TournamentView` shows around the content.
  unfoldable pub chrome : TournamentSection → (tournament_key : Text) → TournamentBundle → Chrome
  unfolding is_big_screen public_path exit_path header_of
  chrome section key bundle =
      let path = public_path section key bundle in
      if is_big_screen section
      then big_screen bundle.tournament.name (exit_path section path)
      else with_header (header_of section bundle path)
