-- ===== src/Accounts/Limits.antt =====
-- What the forms of accounts, events and new tournaments send.
use brackets.Base.{Bool, Option, Text, codes, false, none, some, true, ◌≡◌}
use brackets.Forms.{Zod, ZodLaws}
use brackets.Forms.Limits.{HasLength, IsName, IsWithin, AreSettings}
use brackets.Accounts.{
  Request, log_in, register, save_user, save_password, create_club, save_club, remove_club,
  new_tournament,
}

-- The limits of the API on a body, and the organizer's consent to a deletion.
abbrev pub IsAcceptable : (confirmed : Bool) → Request → Type 0
IsAcceptable confirmed (log_in b) = b.grant_type ≡ some (codes "password")
IsAcceptable confirmed (register b) = IsName b.name × HasLength 12 72 b.password
IsAcceptable confirmed (save_user id b) = IsName b.name
IsAcceptable confirmed (save_password id b) = HasLength 12 72 b.password
IsAcceptable confirmed (create_club b) = IsName b.name
IsAcceptable confirmed (save_club id b) = IsName b.name
IsAcceptable confirmed (remove_club id) = confirmed ≡ true
IsAcceptable confirmed (new_tournament b) = AreSettings b.update × IsWithin none none b.club_id

module _ (z : Zod) (laws : ZodLaws z) (to_iso : Text → Option Text)
    (is_pending confirmed : Bool) where
  abbrev Sent : Request → Type 0
  Sent r = (is_pending ≡ false) × IsAcceptable confirmed r
