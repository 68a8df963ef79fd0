-- ===== src/Page/BigScreens.antt =====
-- The layout and the page agree on what a big screen is.
use brackets.Base.{
  Any, Any-get_elem?, Lacks, Option, Text, [], append-nil, arith, codes, decimal, decimal-Lacks,
  false, get_elem?, inl, inr, none, refl, some, starts_with, true, ℕ, ◌++◌, ◌==◌, ◌∙◌, ◌∷◌, ◌≡◌,
  ◌⊎◌,
}
use brackets.HttpClient.Query.{includes}
use brackets.Page.{
  tournament_routes, is_big_screen, TournamentSection, overview, players, teams, schedule, rankings,
  settings, stages, dashboard, dashboard_schedule, dashboard_standings, dashboard_bracket,
  dashboard_teams, dashboard_team, dashboard_present_schedule, dashboard_present_standings,
}
use brackets.Page.Routes.{hides_navigation}

-- What follows the tournament in the address of a section, by its route; the stages are shown with a
-- stage item, or without one.
abbrev pub section_path : TournamentSection → (stage_item_id : Option ℕ) (team_id : ℕ) → Text
section_path overview item team = codes ""
section_path players item team = codes "/players"
section_path teams item team = codes "/teams"
section_path schedule item team = codes "/schedule"
section_path rankings item team = codes "/rankings"
section_path settings item team = codes "/settings"
section_path stages none team = codes "/stages"
section_path stages (some item) team = codes "/stages/swiss/" ++ decimal item
section_path dashboard item team = codes "/dashboard"
section_path dashboard_schedule item team = codes "/dashboard/schedule"
section_path dashboard_standings item team = codes "/dashboard/standings"
section_path dashboard_bracket item team = codes "/dashboard/bracket"
section_path dashboard_teams item team = codes "/dashboard/teams"
section_path dashboard_team item team = codes "/dashboard/teams/" ++ decimal team
section_path dashboard_present_schedule item team = codes "/dashboard/present/schedule"
section_path dashboard_present_standings item team = codes "/dashboard/present/standings"

-- The route's path, with one of the two numbers in place of the parameter that it ends with.
abbrev Fills : (path address : Text) (item : Option ℕ) (team : ℕ) → Type 0
Fills path address item team =
    (path ≡ address)
    ⊎ ((before name : Text) × (n : ℕ) × (path ≡ before ++ b':' ∷ name)
        × (address ≡ before ++ decimal n)
        × ((item ≡ some n) ⊎ (team ≡ n)))

-- The route is of the section, and has its address.
abbrev IsRouteOf :
    TournamentSection → (item : Option ℕ) (team : ℕ) → Text × TournamentSection → Type 0
IsRouteOf section item team route =
    Fills route.0 (section_path section item team) item team × (route.1 ≡ section)

-- The route with an index in the table.
routed :
    (section : TournamentSection) (item : Option ℕ) (team n : ℕ) {route : Text × TournamentSection}
    → get_elem? tournament_routes n ≡ some route
    → IsRouteOf section item team route
    → Any (IsRouteOf section item team) tournament_routes
routed section item team n listed h =
    Any-get_elem? (IsRouteOf section item team) n tournament_routes listed h

-- Every section has the addresses of its routes in the table.
section_path-routed :
    (section : TournamentSection) (item : Option ℕ) (team : ℕ)
    → Any (IsRouteOf section item team) tournament_routes
section_path-routed overview item team = routed overview item team 0 refl (inl refl, refl)
section_path-routed players item team = routed players item team 1 refl (inl refl, refl)
section_path-routed teams item team = routed teams item team 2 refl (inl refl, refl)
section_path-routed schedule item team = routed schedule item team 3 refl (inl refl, refl)
section_path-routed rankings item team = routed rankings item team 4 refl (inl refl, refl)
section_path-routed settings item team = routed settings item team 5 refl (inl refl, refl)
section_path-routed dashboard item team = routed dashboard item team 8 refl (inl refl, refl)
section_path-routed dashboard_schedule item team =
    routed dashboard_schedule item team 9 refl (inl refl, refl)
section_path-routed dashboard_standings item team =
    routed dashboard_standings item team 10 refl (inl refl, refl)
section_path-routed dashboard_bracket item team =
    routed dashboard_bracket item team 11 refl (inl refl, refl)
section_path-routed dashboard_teams item team =
    routed dashboard_teams item team 12 refl (inl refl, refl)
section_path-routed dashboard_present_schedule item team =
    routed dashboard_present_schedule item team 14 refl (inl refl, refl)
section_path-routed dashboard_present_standings item team =
    routed dashboard_present_standings item team 15 refl (inl refl, refl)
section_path-routed stages none team = routed stages none team 6 refl (inl refl, refl)
section_path-routed stages (some item) team =
    routed stages (some item) team 7 refl
      (inr (codes "/stages/swiss/", codes "stageItemId", item, refl, refl, inl refl), refl)
section_path-routed dashboard_team item team =
    routed dashboard_team item team 13 refl
      (inr (codes "/dashboard/teams/", codes "teamId", team, refl, refl, inr refl), refl)

-- A segment of an address does not hide a text that starts with a slash.
includes-segment :
    (segment rest wanted : Text)
    → Lacks b'/' segment
    → includes (segment ++ rest) (b'/' ∷ wanted) ≡ includes rest (b'/' ∷ wanted)
unfolding includes starts_with
includes-segment [] rest wanted h = refl
includes-segment (c ∷ s) rest wanted (other, h) = ground (arith, includes-segment s rest wanted h)

-- The address ends with the tournament, or goes on with a slash.
abbrev IsBelow : Text → Type 0
IsBelow [] = Unit
IsBelow (c ∷ s) = (c == b'/') ≡ true

-- A text with a slash is found across a segment only if the slash is found behind it.
starts_with-segment :
    (key name rest wanted : Text)
    → Lacks b'/' key
    → Lacks b'/' name
    → IsBelow rest
    → starts_with rest (b'/' ∷ wanted) ≡ false
    → starts_with (key ++ rest) (name ++ b'/' ∷ wanted) ≡ false
unfolding starts_with
starts_with-segment [] [] rest wanted h k below apart = apart
starts_with-segment [] (d ∷ name) [] wanted h k below apart = refl
starts_with-segment [] (d ∷ name) (c ∷ rest) wanted h (other, k) below apart = ground arith
starts_with-segment (c ∷ key) [] rest wanted (other, h) k below apart = ground arith
starts_with-segment (c ∷ key) (d ∷ name) rest wanted (other, h) (other', k) below apart =
    ground (arith, starts_with-segment key name rest wanted h k below apart)

dashboard-Lacks : Lacks b'/' (codes "dashboard")
dashboard-Lacks = (refl, (refl, (refl, (refl, (refl, (refl, (refl, (refl, (refl, tt)))))))))

-- Only what follows the tournament decides.
hides_navigation-tournament :
    (key rest : Text)
    → Lacks b'/' key
    → IsBelow rest
    → starts_with rest (codes "/present/") ≡ false
    → hides_navigation (codes "/tournaments/" ++ (key ++ rest))
      ≡ includes rest (codes "/dashboard/present/")
unfolding hides_navigation includes starts_with
hides_navigation-tournament key rest h below apart =
    rw
      (starts_with-segment key (codes "dashboard") rest (codes "present/") h dashboard-Lacks below
        apart)
      (includes-segment key rest (codes "dashboard/present/") h)

-- A number at the end of an address is no part of the text.
includes-decimal : (n : ℕ) → includes (b'/' ∷ decimal n) (codes "/dashboard/present/") ≡ false
unfolding includes starts_with
includes-decimal n =
    let lacks = decimal-Lacks b'/' n refl in
    let whole : starts_with (decimal n ++ []) (codes "dashboard" ++ codes "/present/") ≡ false =
      starts_with-segment (decimal n) (codes "dashboard") [] (codes "present/") lacks
        dashboard-Lacks tt refl in
    let rest : includes (decimal n ++ []) (codes "/dashboard/present/") ≡ false =
      includes-segment (decimal n) [] (codes "dashboard/present/") lacks in
    let none_there = append-nil (decimal n) in
    rw (rw none_there at whole, rw none_there at rest) refl

decided :
    (section : TournamentSection) (item : Option ℕ) (team : ℕ)
    → IsBelow (section_path section item team)
      × (starts_with (section_path section item team) (codes "/present/") ≡ false)
      × (includes (section_path section item team) (codes "/dashboard/present/")
          ≡ is_big_screen section)
unfolding includes starts_with is_big_screen
decided overview item team = (tt, refl, refl)
decided players item team = (refl, refl, refl)
decided teams item team = (refl, refl, refl)
decided schedule item team = (refl, refl, refl)
decided rankings item team = (refl, refl, refl)
decided settings item team = (refl, refl, refl)
decided dashboard item team = (refl, refl, refl)
decided dashboard_schedule item team = (refl, refl, refl)
decided dashboard_standings item team = (refl, refl, refl)
decided dashboard_bracket item team = (refl, refl, refl)
decided dashboard_teams item team = (refl, refl, refl)
decided dashboard_present_schedule item team = (refl, refl, refl)
decided dashboard_present_standings item team = (refl, refl, refl)
decided stages none team = (refl, refl, refl)
decided stages (some item) team = (refl, refl, includes-decimal item)
decided dashboard_team item team = (refl, refl, includes-decimal team)

-- The layout hides the site's navigation, by the text of the address, from exactly the sections that
-- a page shows as big screens, whatever the tournament is called, if its name has no slash.
pub hides_navigation-is_big_screen :
    (section : TournamentSection) (key : Text) (item : Option ℕ) (team : ℕ)
    → Lacks b'/' key
    → hides_navigation (codes "/tournaments/" ++ (key ++ section_path section item team))
      ≡ is_big_screen section
hides_navigation-is_big_screen section key item team h =
    let (below, apart, found) = decided section item team in
    hides_navigation-tournament key (section_path section item team) h below apart ∙ found
