-- ===== src/Matches/Winner.antt =====
-- The result of a match: `matchWinner` of frontend/src/app/utils.ts.
use brackets.Base.{arith, false, true, ◌+◌, ◌<◌, ◌↔◌, ◌≡◌}
use brackets.Model.{Match}
use brackets.Matches.{is_scored, match_winner, MatchOutcome, first, second, draw, undecided}

-- What an outcome says of the scores.
abbrev pub Says : MatchOutcome → Match → Type 0
Says first m = m.stage_item_input2_score < m.stage_item_input1_score
Says second m = m.stage_item_input1_score < m.stage_item_input2_score
Says draw m =
    (m.stage_item_input1_score ≡ m.stage_item_input2_score) × (0 < m.stage_item_input1_score)
Says undecided m = (m.stage_item_input1_score ≡ 0) × (m.stage_item_input2_score ≡ 0)

-- Each outcome is returned exactly when the scores are as it says: a side wins with the higher
-- score, equal scores above 0 are a draw, and 0-0 is undecided.
pub match_winner_iff : (o : MatchOutcome) (m : Match) → (match_winner m ≡ o) ↔ Says o m
unfolding match_winner
match_winner_iff first m = ground arith
match_winner_iff second m = ground arith
match_winner_iff draw m = ground arith
match_winner_iff undecided m = ground arith

pub is_scored_iff :
    (m : Match) → (is_scored m ≡ true) ↔ (0 < m.stage_item_input1_score + m.stage_item_input2_score)
unfolding is_scored
is_scored_iff m = ground arith

pub not_scored_iff :
    (m : Match)
    → (is_scored m ≡ false) ↔ ((m.stage_item_input1_score ≡ 0) × (m.stage_item_input2_score ≡ 0))
unfolding is_scored
not_scored_iff m = ground arith
