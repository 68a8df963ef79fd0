-- ===== src/Examples/Drawing.antt =====
-- The small tournament as brackets are drawn, and its addresses.
use brackets.Base.{All, Perm, [], codes, false, map, map_get, none, refl, some, sort_by, ◌∷◌, ◌≡◌}
use brackets.Bracket.{
  viewer_matches, viewer_stage, order_rounds, record_positions, bracket_participants,
  BracketViewerData, to_bracket_viewer_data, single_bracket, round_label,
}
use brackets.Bracket.Rounds.{SameMatches, record_positions_lem}
use brackets.Bracket.Origins.{FollowsOrigins, order_rounds_lem}
use brackets.Bracket.Viewer.{BothRefer, match_ids, to_bracket_viewer_data_sound}
use brackets.Model.{Round}
use brackets.Examples.{game, round_with, later_game, open_game, second_round, cup_item}

-- A round with a match of the winners of the second round's matches, and one without sources.
abbrev last_round : Round
last_round = round_with 43 false (
    game 35 43 0 0 none
    ∷ record (game 34 43 0 0 none) {
      stage_item_input1_winner_from_match_id = some 33;
      stage_item_input2_winner_from_match_id = some 32;
    }
    ∷ [])

order_rounds_lem_example :
    SameMatches (order_rounds (second_round ∷ last_round ∷ [])) (second_round ∷ last_round ∷ [])
    × FollowsOrigins [] (order_rounds (second_round ∷ last_round ∷ []))
order_rounds_lem_example = order_rounds_lem (second_round ∷ last_round ∷ [])

record_positions_lem_example :
    map_get 33 (record_positions 0 (later_game ∷ open_game ∷ []) []) ≡ some 1
record_positions_lem_example =
    record_positions_lem (later_game ∷ open_game ∷ []) [] 1 open_game (((λ e. cc), tt), (tt, tt))
      refl

abbrev drawn : BracketViewerData
drawn = record {
  matches = viewer_matches (bracket_participants cup_item [] 1) 0 (order_rounds cup_item.rounds);
  participants = bracket_participants cup_item [] 1;
  stage = viewer_stage cup_item 1;
}

drawn_run : to_bracket_viewer_data cup_item [] 1 ≡ some drawn
unfolding to_bracket_viewer_data viewer_matches order_rounds brackets.Base.sort_by
drawn_run = refl

to_bracket_viewer_data_sound_example :
    Perm (map (λ v. v.id) drawn.matches) (match_ids cup_item.rounds)
    × All (BothRefer drawn.participants) drawn.matches
to_bracket_viewer_data_sound_example = to_bracket_viewer_data_sound cup_item [] 1 drawn drawn_run

labelled : round_label single_bracket 3 2 ≡ codes "Semi-finals"
unfolding round_label
labelled = refl
