-- ===== src/Accounts/Shown.antt =====
-- When the pages of frontend/src/app/pages/auth-pages.tsx let one register, and the list of
-- clubs-page.tsx.
use brackets.Base.{Bool, List, Option, Text, [], false, length, none, some, true, ℕ}
use brackets.Url.{RequestError, get_error_message}
use brackets.Accounts.{Club}

-- `RegisterPage` shows the form unless the server has said that nobody can register; `LoginPage`
-- shows the link to it only if the server has said that one can.
unfoldable pub shows_register_form : (enabled : Option Bool) → Bool
shows_register_form none = true
shows_register_form (some enabled) = enabled

unfoldable pub shows_register_link : (enabled : Option Bool) → Bool
shows_register_link none = false
shows_register_link (some enabled) = enabled

-- The list of `ClubsPage`, whose parts are shown beside one another.
pub record ClubList : Type 0 where
  pub count : ℕ
  pub is_loading : Bool
  pub unable_to_load : Option Text
  pub editors : List Club

unfoldable pub club_list : (is_pending : Bool) → Option RequestError → Option (List Club) → ClubList
club_list is_pending error answer = record {
  count = elim answer [ none ↦ 0 | some clubs ↦ length clubs ];
  is_loading = is_pending;
  unable_to_load = elim error [ none ↦ none | some e ↦ some (get_error_message e) ];
  editors = elim answer [ none ↦ [] | some clubs ↦ clubs ];
}
