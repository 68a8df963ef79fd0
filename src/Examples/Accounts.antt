-- ===== src/Examples/Accounts.antt =====
-- The forms of accounts and events.
use brackets.Base.{[], codes, false, none, refl, ◌≡◌}
use brackets.Accounts.{
  UserPublic, UserPasswordToUpdate, password_saved, save_password, handle, tournament_defaults,
  tournament_added, Request, Club, remove_club, club_deleted,
}
use brackets.Examples.Organizing.{checks, as_typed}

abbrev new_password : UserPasswordToUpdate
new_password = record { current_password = codes "old"; password = codes "correct horse" }

-- A password of three characters is not sent, and a new tournament needs a name and a date.
short_password_run :
    handle checks as_typed false false
      (password_saved 7 (record new_password { password = codes "old" }))
    ≡ none
unfolding handle brackets.Accounts.z_user_password_to_update
short_password_run = refl

untouched_tournament_run :
    handle checks as_typed false false (tournament_added (tournament_defaults [])) ≡ none
unfolding handle tournament_defaults brackets.Forms.z_local_date_time
untouched_tournament_run = refl
