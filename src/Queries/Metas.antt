-- ===== src/Queries/Metas.antt =====
-- What the pages' changes tell the user when they are saved, from the `meta` of each mutation of
-- frontend/src/app; `deletion_meta` and `logout_meta` of Queries say what they refresh as well.
use brackets.Base.{
  All, Bool, List, Text, [], codes, decimal, if◌then◌else◌, none, refl, some, ℕ, ◌++◌, ◌∷◌, ◌≡◌,
}
use brackets.Queries.{MutationMeta}

-- A mutation that names no queries to refresh.
abbrev tells : Text → MutationMeta
tells text = record { invalidates = none; success_message = some text }

-- The mutations of the editor of rounds: app/sections/stage-item-rounds.tsx.

abbrev pub next_round_meta : (n : ℕ) → MutationMeta
next_round_meta n =
    tells (
      codes "Round "
      ++ decimal n
      ++ codes " pairings are ready. Publish them when they look right.")

abbrev pub publication_meta : (name : Text) → MutationMeta
publication_meta name = tells (name ++ codes " is published.")

abbrev pub regeneration_meta : MutationMeta
regeneration_meta = tells (codes "New pairings generated.")

abbrev pub discard_meta : MutationMeta
discard_meta = tells (codes "Draft discarded.")

abbrev pub pairing_removal_meta : MutationMeta
pairing_removal_meta = tells (codes "Pairing removed.")

abbrev pub pairing_meta : MutationMeta
pairing_meta = tells (codes "Pairing added.")

abbrev pub round_deletion_meta : (name : Text) → MutationMeta
round_deletion_meta name = tells (name ++ codes " deleted.")

abbrev pub score_meta : (label1 label2 : Text) → MutationMeta
score_meta label1 label2 =
    tells (codes "Score saved: " ++ label1 ++ codes " vs " ++ label2 ++ codes ".")

-- The mutations of the forms for players and teams: app/sections/tournament-roster.tsx.

abbrev pub player_meta : MutationMeta
player_meta = tells (codes "Player added.")

abbrev pub players_meta : MutationMeta
players_meta = tells (codes "Players added.")

abbrev pub player_change_meta : MutationMeta
player_change_meta = tells (codes "Player saved.")

abbrev pub player_deletion_meta : MutationMeta
player_deletion_meta = tells (codes "Player deleted.")

abbrev pub team_meta : MutationMeta
team_meta = tells (codes "Team created.")

abbrev pub teams_meta : MutationMeta
teams_meta = tells (codes "Teams created.")

abbrev pub team_change_meta : MutationMeta
team_change_meta = tells (codes "Team saved.")

abbrev pub team_logo_meta : MutationMeta
team_logo_meta = tells (codes "Logo uploaded.")

abbrev pub team_deletion_meta : MutationMeta
team_deletion_meta = tells (codes "Team deleted.")

-- The mutations of the schedule: app/sections/tournament-schedule.tsx.

abbrev pub schedule_meta : MutationMeta
schedule_meta = tells (codes "Match times recalculated.")

-- The mutations of the slots: app/sections/stage-item-slots.tsx.

abbrev pub slot_meta : (n : ℕ) → MutationMeta
slot_meta n = tells (codes "Slot " ++ decimal n ++ codes " updated.")

-- The mutations of the forms for rankings, settings and stages: app/sections/tournament-management.tsx.

abbrev pub ranking_meta : MutationMeta
ranking_meta = tells (codes "Ranking created.")

abbrev pub ranking_change_meta : MutationMeta
ranking_change_meta = tells (codes "Ranking saved.")

abbrev pub ranking_deletion_meta : MutationMeta
ranking_deletion_meta = tells (codes "Ranking deleted.")

abbrev pub tournament_change_meta : MutationMeta
tournament_change_meta = tells (codes "Tournament saved.")

abbrev pub tournament_logo_meta : MutationMeta
tournament_logo_meta = tells (codes "Logo uploaded.")

abbrev pub status_meta : (is_open : Bool) → MutationMeta
status_meta is_open =
    tells (if is_open then codes "Tournament archived." else codes "Tournament reopened.")

abbrev pub stage_change_meta : MutationMeta
stage_change_meta = tells (codes "Stage saved.")

abbrev pub stage_deletion_meta : MutationMeta
stage_deletion_meta = tells (codes "Stage deleted.")

abbrev pub stage_item_meta : MutationMeta
stage_item_meta = tells (codes "Stage item created.")

abbrev pub stage_item_change_meta : MutationMeta
stage_item_change_meta = tells (codes "Name saved.")

abbrev pub stage_item_deletion_meta : MutationMeta
stage_item_deletion_meta = tells (codes "Stage item deleted.")

abbrev pub stage_meta : MutationMeta
stage_meta = tells (codes "Stage created.")

abbrev pub next_stage_meta : MutationMeta
next_stage_meta = tells (codes "Moved active stage forward.")

abbrev pub previous_stage_meta : MutationMeta
previous_stage_meta = tells (codes "Moved active stage backward.")

-- The mutations of a new tournament: app/pages/new-tournament-form.tsx.

abbrev pub tournament_meta : MutationMeta
tournament_meta = tells (codes "Tournament created.")

-- The mutations of the pages that sign in: app/pages/auth-pages.tsx.

abbrev pub login_meta : MutationMeta
login_meta = tells (codes "Logged in successfully.")

abbrev pub account_meta : MutationMeta
account_meta = tells (codes "Account created successfully.")

-- The mutations of the account: app/pages/user-page.tsx.

abbrev pub account_change_meta : MutationMeta
account_change_meta = tells (codes "Account saved.")

abbrev pub password_meta : MutationMeta
password_meta = tells (codes "Password updated.")

-- The mutations of the events: app/pages/clubs-page.tsx.

abbrev pub club_meta : MutationMeta
club_meta = tells (codes "Event created.")

abbrev pub club_change_meta : MutationMeta
club_change_meta = tells (codes "Event saved.")

abbrev pub club_deletion_meta : MutationMeta
club_deletion_meta = tells (codes "Event deleted.")

-- The metas of all the mutations of the pages that name no queries, for any round's name, number,
-- labels of a match and status.
abbrev pub change_metas : (name label1 label2 : Text) (n : ℕ) (is_open : Bool) → List MutationMeta
change_metas name label1 label2 n is_open =
    next_round_meta n
    ∷ publication_meta name
    ∷ regeneration_meta
    ∷ discard_meta
    ∷ pairing_removal_meta
    ∷ pairing_meta
    ∷ round_deletion_meta name
    ∷ score_meta label1 label2
    ∷ player_meta
    ∷ players_meta
    ∷ player_change_meta
    ∷ player_deletion_meta
    ∷ team_meta
    ∷ teams_meta
    ∷ team_change_meta
    ∷ team_logo_meta
    ∷ team_deletion_meta
    ∷ schedule_meta
    ∷ slot_meta n
    ∷ ranking_meta
    ∷ ranking_change_meta
    ∷ ranking_deletion_meta
    ∷ tournament_change_meta
    ∷ tournament_logo_meta
    ∷ status_meta is_open
    ∷ stage_change_meta
    ∷ stage_deletion_meta
    ∷ stage_item_meta
    ∷ stage_item_change_meta
    ∷ stage_item_deletion_meta
    ∷ stage_meta
    ∷ next_stage_meta
    ∷ previous_stage_meta
    ∷ tournament_meta
    ∷ login_meta
    ∷ account_meta
    ∷ account_change_meta
    ∷ password_meta
    ∷ club_meta
    ∷ club_change_meta
    ∷ club_deletion_meta
    ∷ []

-- None of them names queries.
pub change_metas-invalidates :
    (name label1 label2 : Text) (n : ℕ) (is_open : Bool)
    → All (λ (m : MutationMeta). m.invalidates ≡ none) (change_metas name label1 label2 n is_open)
change_metas-invalidates name label1 label2 n is_open = (
  refl,
  (
    refl,
    (
      refl,
      (
        refl,
        (
          refl,
          (
            refl,
            (
              refl,
              (
                refl,
                (
                  refl,
                  (
                    refl,
                    (
                      refl,
                      (
                        refl,
                        (
                          refl,
                          (
                            refl,
                            (
                              refl,
                              (
                                refl,
                                (
                                  refl,
                                  (
                                    refl,
                                    (
                                      refl,
                                      (
                                        refl,
                                        (
                                          refl,
                                          (
                                            refl,
                                            (
                                              refl,
                                              (
                                                refl,
                                                (
                                                  refl,
                                                  (
                                                    refl,
                                                    (
                                                      refl,
                                                      (
                                                        refl,
                                                        (
                                                          refl,
                                                          (
                                                            refl,
                                                            (
                                                            refl,
                                                            (
                                                            refl,
                                                            (
                                                            refl,
                                                            (
                                                            refl,
                                                            (
                                                            refl,
                                                            (
                                                            refl,
                                                            (
                                                            refl,
                                                            (refl, (refl, (refl, (refl, tt)))),
                                                            ),
                                                            ),
                                                            ),
                                                            ),
                                                            ),
                                                            ),
                                                            ),
                                                          ),
                                                        ),
                                                      ),
                                                    ),
                                                  ),
                                                ),
                                              ),
                                            ),
                                          ),
                                        ),
                                      ),
                                    ),
                                  ),
                                ),
                              ),
                            ),
                          ),
                        ),
                      ),
                    ),
                  ),
                ),
              ),
            ),
          ),
        ),
      ),
    ),
  ),
)
