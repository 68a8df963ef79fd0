-- ===== src/Examples/Pages.antt =====
-- The pages of a team, of the tournaments and of a match.
use brackets.Base.{All, List, [], arith, codes, false, pos, some, true, ℕ, ◌++◌, ◌<◌, ◌↔◌, ◌∷◌, ◌≡◌}
use mathlib.Core.List.{Perm}
use brackets.Model.{
  Tournament, FlattenedMatch, StageItem, StageItemInputFinal, open_status, archived,
}
use brackets.Inputs.{involves_team}
use brackets.Teams.{coming_up, played_matches, team_matches, placements}
use brackets.Teams.Detail.{coming_up-played-perm}
use brackets.Teams.Places.{IsPlacementOf, placements-IsPlacementOf}
use brackets.Cards.{TournamentContext, match_card}
use brackets.Cards.Shown.{match_card_lem}
use brackets.Examples.{
  get_time, tournament, placed, first_round, second_round, won_game, later_game, open_game,
  swiss_item, standings, stage_with, item_with,
}

abbrev entries : List FlattenedMatch
entries =
    placed first_round won_game
    ∷ placed second_round later_game
    ∷ placed second_round open_game
    ∷ []

coming_up-played-perm_example :
    Perm
      (coming_up get_time (pos 2500) (team_matches entries 11)
        ++ played_matches (team_matches entries 11))
      (team_matches entries 11)
coming_up-played-perm_example =
    coming_up-played-perm get_time (pos 2500) entries 11
      ((ground arith, (ground arith, tt)), ((ground arith, tt), (tt, tt)))

abbrev groups : List StageItem
groups = item_with brackets.Model.round_robin (first_round ∷ []) ∷ []

placements-IsPlacementOf_example :
    All (IsPlacementOf standings 11) (placements (stage_with groups ∷ []) standings 11)
placements-IsPlacementOf_example = placements-IsPlacementOf (stage_with groups ∷ []) standings 11

abbrev later_tournament : Tournament
later_tournament = record tournament { id = 2; start_time = codes "3000" }

abbrev past_tournament : Tournament
past_tournament = record tournament { id = 3; status = archived; dashboard_public = false }

abbrev tournaments : List Tournament
tournaments = later_tournament ∷ past_tournament ∷ tournament ∷ []

abbrev fan : TournamentContext
fan = record {
  is_big_screen = false;
  my_team_id = some 11;
  public_path = codes "/tournaments/cup/dashboard";
}

match_card_lem_example :
    let card =
      match_card get_time (pos 2500) fan ((5, swiss_item) ∷ []) (placed first_round won_game) in
    ((card.side1.is_winner ≡ true)
      → (card.side1.score ≡ some 2) × (card.side2.score ≡ some 1) × (1 < 2))
    × ((card.side2.is_winner ≡ true)
        → (card.side1.score ≡ some 2) × (card.side2.score ≡ some 1) × (2 < 1))
    × ((card.is_highlighted ≡ true)
        ↔ ((id : ℕ) × (fan.my_team_id ≡ some id) × (involves_team won_game id ≡ true)))
match_card_lem_example =
    match_card_lem get_time (pos 2500) fan ((5, swiss_item) ∷ []) (placed first_round won_game)
