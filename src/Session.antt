-- ===== src/Session.antt =====
-- frontend/src/app.tsx, hooks.ts, pages/auth-pages.tsx, clubs-page.tsx and user-page.tsx: who is
-- signed in, what ends a session, and what is kept of it.
--
-- A session that changes renders the layout again, and React runs the layout's effect before the
-- next event. `Datum` is what a query has loaded.
pub mod Kept
use brackets.Base.{
  Bool, List, Option, Text, [], codes, false, if◌then◌else◌, none, not, some, true, ℕ, ◌&&◌, ◌/◌,
  ◌∷◌,
}

-- `Session` of frontend/src/app/types.ts, but for null.
pub record Session : Type 0 where
  pub name : Text
  pub user_id : ℕ

-- What the query cache holds: the key that it was asked for, and on whose behalf it was loaded.
pub record Cached : Type 0 where
  pub key : Text
  pub loaded_for : Option ℕ

-- The stored session, `hadSession.current`, the query cache, the notices and the last redirection.
pub record Browser : Type 0 where
  pub session : Option Session
  pub had_session : Bool
  pub cache : List Cached
  pub notices : List Text
  pub location : Text

abbrev pub is_signed_in : Option Session → Bool
is_signed_in none = false
is_signed_in (some s) = true

-- `session?.user_id`
abbrev pub user_of : Option Session → Option ℕ
user_of none = none
user_of (some s) = some s.user_id

-- The effect of `RootLayout`.
unfoldable pub layout_effect : Browser → Browser
layout_effect b = record b {
  cache = if b.had_session && not (is_signed_in b.session) then [] else b.cache;
  had_session = is_signed_in b.session;
}

-- `setSession`, with the effect that follows it.
unfoldable pub set_session : Option Session → Browser → Browser
unfolding layout_effect
set_session s b = layout_effect (record b { session = s })

abbrev notify : Text → Browser → Browser
notify text b = record b { notices = text ∷ b.notices }

abbrev navigate : Text → Browser → Browser
navigate path b = record b { location = path }

pub data Event : Type 0 where
  -- The login and the registration succeed.
  logged_in registered : Session → Event
  -- The logout request has ended, answered or with an error.
  logout_settled : (is_answered : Bool) (error : Text) → Event
  -- A request is refused with 401.
  unauthorized : Event
  -- A query loads.
  loaded : (key : Text) → Event
  -- The user follows a link.
  followed : (path : Text) → Event

-- The handler that `RootLayout` sets, behind the test of the interceptor.
unfoldable pub on_unauthorized : Browser → Browser
unfolding set_session
on_unauthorized b =
    if is_signed_in b.session
    then notify (codes "Your session expired. Please log in again.") (set_session none b)
    else b

unfoldable pub handle : Event → Browser → Browser
unfolding on_unauthorized set_session
handle (logged_in s) b =
    notify (codes "Logged in successfully.") (navigate (codes "/") (set_session (some s) b))
handle (registered s) b =
    notify (codes "Account created successfully.") (navigate (codes "/") (set_session (some s) b))
handle (logout_settled is_answered error) b =
    notify (if is_answered then codes "Logged out successfully." else error) (set_session none b)
handle unauthorized b = on_unauthorized b
handle (loaded key) b = record b {
  cache = record { key = key; loaded_for = user_of b.session } ∷ b.cache;
}
handle (followed path) b = navigate path b

-- The page opens with the session that the browser has stored, and with nothing loaded.
unfoldable pub opened : Option Session → (path : Text) → Browser
opened s path = record {
  session = s;
  had_session = is_signed_in s;
  cache = [];
  notices = [];
  location = path;
}

unfoldable pub run : List Event → Browser → Browser
unfolding handle
run [] b = b
run (e ∷ es) b = run es (handle e b)

-- Whether `ClubsPage` and `UserPage` load, and what they do for a visitor.
pub data Gate : Type 0 where
  to_login organizers_only passes : Gate

unfoldable pub clubs_gate : Option Session → Gate
clubs_gate s = if is_signed_in s then passes else to_login

unfoldable pub user_gate : Option Session → Gate
user_gate s = if is_signed_in s then passes else organizers_only

-- `enabled: Boolean(session)` of their queries and of the events of `HomePage`.
unfoldable pub is_query_enabled : Option Session → Bool
is_query_enabled s = is_signed_in s
