-- ===== src/Examples/Chrome.antt =====
-- What surrounds the content of a tournament's page.
use brackets.Base.{
  Bool, Option, Text, [], all_digits, codes, decimal, digits_value, false, if◌then◌else◌, ltb, none,
  pos, refl, some, starts_with, text_eq, truthy, ℕ, ◌&&◌, ◌++◌, ◌∷◌, ◌≡◌,
}
use brackets.Page.{
  dashboard_bracket, dashboard_present_standings, schedule, is_big_screen, dashboard_team,
}
use brackets.Page.Chrome.{chrome, page_title, document_title, header_of, big_screen}
use brackets.Page.Links.{ChromeLeads, chrome-ChromeLeads}
use brackets.Page.Routes.{hides_navigation, layout_nav}
use brackets.Page.BigScreens.{section_path, hides_navigation-is_big_screen}
use brackets.Examples.{get_time}
use brackets.Examples.Loading.{bundle}

-- A date is a decimal number, printed as it is, and one below 2000 is of this year.
abbrev parse_date : Text → Option ℕ
parse_date s = if truthy s && all_digits s then some (digits_value s) else none

abbrev is_early : ℕ → Bool
is_early n = ltb n 2000

abbrev never : ℕ → Bool
never n = false

abbrev print_date : ℕ → Text → Text
print_date n pattern = decimal n ++ codes " " ++ pattern

chrome-ChromeLeads_example : ChromeLeads dashboard_bracket (codes "cup") bundle (
    chrome parse_date is_early never print_date get_time
      (pos 1500)
      dashboard_bracket
      (codes "cup")
      bundle)
chrome-ChromeLeads_example =
    chrome-ChromeLeads parse_date is_early never print_date get_time (pos 1500) dashboard_bracket
      (codes "cup") bundle

big_screen_run :
    chrome parse_date is_early never print_date get_time
      (pos 1500)
      dashboard_present_standings
      (codes "cup")
      bundle
    ≡ big_screen (codes "Cup") (codes "/tournaments/cup/dashboard")
unfolding chrome brackets.Base.starts_with brackets.Base.text_eq
big_screen_run = refl

header_run :
    let header =
      header_of parse_date is_early never print_date get_time
        (pos 1500)
        schedule
        bundle
        (codes "/tournaments/cup/dashboard") in
    (header.date_label ≡ codes "Started 1000 MMM d, p") × (header.team_count ≡ codes "0 teams")
unfolding header_of brackets.Tournament.tournament_phase all_digits digits_value decimal
header_run = (refl, refl)

title_run :
    document_title (page_title dashboard_team [] none) (codes "Cup")
    ≡ codes "Cup" ++ (32 ∷ 183 ∷ 32 ∷ []) ++ codes "Ctrl-Alt-GG Bracket"
unfolding document_title page_title brackets.Base.text_eq
title_run = refl

hides_navigation-is_big_screen_example :
    hides_navigation
      (codes "/tournaments/" ++ (codes "cup" ++ section_path dashboard_present_standings none 7))
    ≡ is_big_screen dashboard_present_standings
hides_navigation-is_big_screen_example =
    hides_navigation-is_big_screen dashboard_present_standings (codes "cup") none 7
      (refl, (refl, (refl, tt)))

-- A visitor sees no navigation on a big screen.
no_nav : layout_nav (codes "/tournaments/cup/dashboard/present/schedule") none ≡ none
unfolding layout_nav brackets.Base.starts_with
no_nav = refl
