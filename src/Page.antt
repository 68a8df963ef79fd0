-- ===== src/Page.antt =====
-- frontend/src/app/pages/tournament-page.tsx and the routes of frontend/src/app.tsx: which page an
-- address shows, and to whom.
pub mod Content
pub mod Access
pub mod Chrome
pub mod Links
pub mod Routes
pub mod BigScreens
use brackets.Base.{
  Bool, List, Option, Text, [], any, codes, false, if◌then◌else◌, none, not, some, starts_with,
  text_eq, true, truthy, ◌&&◌, ◌++◌, ◌∷◌,
}
use brackets.Tournament.{public_tournament_path}
use brackets.Url.{RequestError, get_error_message}
use brackets.Api.{TournamentBundle}

-- `TournamentSection` of frontend/src/app/types.ts.
pub data TournamentSection : Type 0 where
  overview players teams schedule rankings settings stages : TournamentSection
  dashboard dashboard_schedule dashboard_standings dashboard_bracket : TournamentSection
  dashboard_teams dashboard_team : TournamentSection
  dashboard_present_schedule dashboard_present_standings : TournamentSection

-- A section as the text that the source compares.
abbrev pub section_name : TournamentSection → Text
section_name overview = codes "overview"
section_name players = codes "players"
section_name teams = codes "teams"
section_name schedule = codes "schedule"
section_name rankings = codes "rankings"
section_name settings = codes "settings"
section_name stages = codes "stages"
section_name dashboard = codes "dashboard"
section_name dashboard_schedule = codes "dashboard-schedule"
section_name dashboard_standings = codes "dashboard-standings"
section_name dashboard_bracket = codes "dashboard-bracket"
section_name dashboard_teams = codes "dashboard-teams"
section_name dashboard_team = codes "dashboard-team"
section_name dashboard_present_schedule = codes "dashboard-present-schedule"
section_name dashboard_present_standings = codes "dashboard-present-standings"

-- `TOURNAMENT_ROUTES`: what follows `/tournaments/:tournamentKey` in the address of a section.
abbrev pub tournament_routes : List (Text × TournamentSection)
tournament_routes =
    (codes "", overview)
    ∷ (codes "/players", players)
    ∷ (codes "/teams", teams)
    ∷ (codes "/schedule", schedule)
    ∷ (codes "/rankings", rankings)
    ∷ (codes "/settings", settings)
    ∷ (codes "/stages", stages)
    ∷ (codes "/stages/swiss/:stageItemId", stages)
    ∷ (codes "/dashboard", dashboard)
    ∷ (codes "/dashboard/schedule", dashboard_schedule)
    ∷ (codes "/dashboard/standings", dashboard_standings)
    ∷ (codes "/dashboard/bracket", dashboard_bracket)
    ∷ (codes "/dashboard/teams", dashboard_teams)
    ∷ (codes "/dashboard/teams/:teamId", dashboard_team)
    ∷ (codes "/dashboard/present/schedule", dashboard_present_schedule)
    ∷ (codes "/dashboard/present/standings", dashboard_present_standings)
    ∷ []

unfoldable pub is_dashboard : TournamentSection → Bool
is_dashboard section = starts_with (section_name section) (codes "dashboard")

unfoldable pub is_big_screen : TournamentSection → Bool
is_big_screen section = starts_with (section_name section) (codes "dashboard-present")

-- `MANAGEMENT_SECTIONS.has(section)`
abbrev management_sections : List TournamentSection
management_sections = players ∷ rankings ∷ settings ∷ stages ∷ teams ∷ []

unfoldable pub is_management_section : TournamentSection → Bool
is_management_section section =
    any (λ (s : TournamentSection). text_eq (section_name s) (section_name section))
      management_sections

-- `DETAILS_SUFFIXES[section]`
abbrev pub details_suffix : TournamentSection → Option Text
details_suffix overview = some (codes "")
details_suffix schedule = some (codes "/schedule")
details_suffix players = none
details_suffix teams = none
details_suffix rankings = none
details_suffix settings = none
details_suffix stages = none
details_suffix dashboard = none
details_suffix dashboard_schedule = none
details_suffix dashboard_standings = none
details_suffix dashboard_bracket = none
details_suffix dashboard_teams = none
details_suffix dashboard_team = none
details_suffix dashboard_present_schedule = none
details_suffix dashboard_present_standings = none

-- What the query of the bundle has: nothing yet, an error, or data.
pub data Workspace : Type 0 where
  pending : Workspace
  without_data : RequestError → Workspace
  loaded : TournamentBundle → Workspace

pub data Page : Type 0 where
  navigate : Text → Page
  organizers_only loading : Page
  unable_to_load : Text → Page
  read_only : Text → Page
  view : TournamentBundle → Page

unfoldable pub is_locked_out : TournamentSection → (is_authenticated : Bool) → Bool
unfolding is_management_section
is_locked_out section authenticated = is_management_section section && not authenticated

-- `detailsSuffix != null`
abbrev pub is_present : Option Text → Bool
is_present none = false
is_present (some s) = true

unfoldable pub send_visitor_to_details : TournamentSection → (is_authenticated : Bool) → Bool
unfolding is_dashboard
send_visitor_to_details section authenticated =
    not (is_dashboard section) && not authenticated && is_present (details_suffix section)

-- `enabled` of the query.
unfoldable pub is_enabled :
    TournamentSection → (tournament_key : Text) (is_authenticated : Bool) → Bool
unfolding is_locked_out send_visitor_to_details
is_enabled section key authenticated =
    truthy key
    && not (is_locked_out section authenticated)
    && not (send_visitor_to_details section authenticated)

-- The text of a template's `${detailsSuffix}`.
abbrev pub suffix_text : Option Text → Text
suffix_text none = codes "undefined"
suffix_text (some s) = s

unfoldable pub details_page : TournamentSection → (tournament_key : Text) → Page
details_page section key =
    navigate
      (codes "/tournaments/" ++ key ++ codes "/dashboard" ++ suffix_text (details_suffix section))

-- The end of `TournamentPage`, with the data.
unfoldable pub loaded_page : TournamentSection → (tournament_key : Text) → TournamentBundle → Page
unfolding is_dashboard is_management_section details_page
loaded_page section key bundle =
    if not (is_dashboard section) && not bundle.can_manage && is_present (details_suffix section)
    then details_page section key
    else if is_management_section section && not bundle.can_manage
    then read_only (public_tournament_path bundle.tournament)
    else view bundle

unfoldable pub page_of_workspace : TournamentSection → Text → Workspace → Page
unfolding loaded_page
page_of_workspace section key pending = loading
page_of_workspace section key (without_data e) = unable_to_load (get_error_message e)
page_of_workspace section key (loaded bundle) = loaded_page section key bundle

-- `TournamentPage`
unfoldable pub tournament_page :
    TournamentSection → (tournament_key : Text) (is_authenticated : Bool) → Workspace → Page
unfolding send_visitor_to_details is_locked_out details_page page_of_workspace
tournament_page section key authenticated workspace =
    if send_visitor_to_details section authenticated
    then details_page section key
    else if is_locked_out section authenticated
    then organizers_only
    else page_of_workspace section key workspace
