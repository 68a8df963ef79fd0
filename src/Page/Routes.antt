-- ===== src/Page/Routes.antt =====
-- The routes, the layout and the message of a failed page of frontend/src/app.tsx, and the navigation of
-- frontend/src/app/ui.tsx.
use brackets.Base.{
  Bool, List, Option, Text, [], codes, false, if◌then◌else◌, map, none, some, true, ◌++◌, ◌∷◌,
}
use brackets.HttpClient.Query.{includes}
use brackets.Session.{Session}
use brackets.Page.{TournamentSection, tournament_routes}

-- The element of a route; a redirection is relative to the address, which it replaces.
pub data RouteElement : Type 0 where
  home_page login_page register_page password_reset_status_page : RouteElement
  clubs_page user_page not_found_page : RouteElement
  tournament_element : TournamentSection → RouteElement
  redirect : (to : Text) → RouteElement

-- The children of the router's layout.
abbrev pub router : List (Text × RouteElement)
router =
    (codes "/", home_page)
    ∷ (codes "/login", login_page)
    ∷ (codes "/create-account", register_page)
    ∷ (codes "/password-reset", password_reset_status_page)
    ∷ (codes "/events", clubs_page)
    ∷ (codes "/user", user_page)
    ∷ (map
          (λ (route : Text × TournamentSection).
            (codes "/tournaments/:tournamentKey" ++ route.0, tournament_element route.1))
          tournament_routes
        ++ ((codes "/tournaments/:tournamentKey/results", redirect (codes "../schedule"))
            ∷ (
              codes "/tournaments/:tournamentKey/dashboard/present/courts",
              redirect (codes "../schedule"),
            )
            ∷ (codes "*", not_found_page)
            ∷ []))

-- `isBigScreen` of `RootLayout`.
unfoldable pub hides_navigation : (pathname : Text) → Bool
unfolding includes
hides_navigation pathname = includes pathname (codes "/dashboard/present/")

pub record NavLink : Type 0 where
  pub to : Text
  pub label : Text

-- What `TopNav` shows: the links, and the button that logs out.
pub record TopNav : Type 0 where
  pub brand : NavLink
  pub links : List NavLink
  pub account : NavLink
  pub has_logout : Bool

abbrev name_or_account : Option Text → Text
name_or_account none = codes "Account"
name_or_account (some name) = name

unfoldable pub top_nav : (current_user_name : Option Text) → Option Session → TopNav
top_nav name none = record {
  brand = record { to = codes "/"; label = codes "Ctrl-Alt-GG Bracket" };
  links = [];
  account = record { to = codes "/login"; label = codes "Organizer login" };
  has_logout = false;
}
top_nav name (some session) = record {
  brand = record { to = codes "/"; label = codes "Ctrl-Alt-GG Bracket" };
  links =
      record { to = codes "/"; label = codes "Tournaments" }
      ∷ record { to = codes "/events"; label = codes "Events" }
      ∷ [];
  account = record { to = codes "/user"; label = name_or_account name };
  has_logout = true;
}

abbrev session_name : Option Session → Option Text
session_name none = none
session_name (some s) = some s.name

-- The navigation of `RootLayout`, absent on a big screen.
unfoldable pub layout_nav : (pathname : Text) → Option Session → Option TopNav
unfolding hides_navigation top_nav
layout_nav pathname session =
    if hides_navigation pathname then none else some (top_nav (session_name session) session)

-- What a page may throw: an answer of the router, an error with a message, or anything.
pub data RouteFailure : Type 0 where
  route_error_response : (status_text : Text) → RouteFailure
  thrown_error : (message : Text) → RouteFailure
  anything_else : RouteFailure

-- The message of `RouteError`.
unfoldable pub route_error_message : RouteFailure → Text
route_error_message (route_error_response status_text) = status_text
route_error_message (thrown_error message) = message
route_error_message anything_else = codes "An unexpected error occurred."
