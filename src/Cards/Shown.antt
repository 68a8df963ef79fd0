-- ===== src/Cards/Shown.antt =====
-- What the card of a match and a drawn bracket say of the match and its teams.
use brackets.Base.{
  All, All-mono, Any, List, Num, Option, Text, [], arith, false≢true, inl, inr, map, map_get-All,
  map_of-All, none, refl, some, true, ℕ, ℤ, ◌<◌, ◌||◌, ◌↔◌, ◌∷◌, ◌≡◌,
}
use brackets.Model.{Match, StageItem, FlattenedMatch, StageItemInputFinal, Stage}
use brackets.Inputs.{involves_team}
use brackets.Matches.{match_status, match_winner, is_scored}
use brackets.Standings.{team_inputs}
use brackets.Sections.{drawn_item}
use brackets.Cards.{
  match_card, TournamentContext, side, shows_score, is_mine, is_first, is_second, canvas_click,
  is_marked,
}

first_wins :
    (m : Match)
    → is_first (match_winner m) ≡ true
    → (m.stage_item_input2_score < m.stage_item_input1_score) × (is_scored m ≡ true)
unfolding match_winner
first_wins m h = (ground arith, ground arith)

second_wins :
    (m : Match)
    → is_second (match_winner m) ≡ true
    → (m.stage_item_input1_score < m.stage_item_input2_score) × (is_scored m ≡ true)
unfolding match_winner
second_wins m h = (ground arith, ground arith)

scored-shows_score :
    (get_time : Text → Num) (m : Match) (now : ℤ)
    → is_scored m ≡ true
    → shows_score (match_status get_time m now) ≡ true
unfolding match_status shows_score
scored-shows_score get_time m now h = rw h refl

mine_iff :
    (my_team_id : Option ℕ) (m : Match)
    → ((is_mine my_team_id m.stage_item_input1 || is_mine my_team_id m.stage_item_input2) ≡ true)
      ↔ ((id : ℕ) × (my_team_id ≡ some id) × (involves_team m id ≡ true))
unfolding is_mine involves_team
mine_iff none m = (λ h. absurd (false≢true h), λ (id, same, _). ground arith)
mine_iff (some id) m = (λ h. (id, refl, h), λ (other, same, plays). ground (arith, same, plays))

entries-All :
    (finals : List StageItemInputFinal)
    → All
        (λ (e : ℕ × ℕ). Any (λ (i : StageItemInputFinal). (i.id ≡ e.0) × (i.team_id ≡ e.1)) finals)
        (map (λ (i : StageItemInputFinal). (i.id, i.team_id)) finals)
entries-All [] = tt
entries-All (i ∷ is) = (inl (refl, refl), All-mono (λ e h. inr h) _ (entries-All is))

-- The winner stands out only on a card that shows the two scores, on the side with the higher
-- one; and the card is highlighted exactly when the visitor's team plays in the match.
pub match_card_lem :
    (get_time : Text → Num) (now : ℤ) (context : TournamentContext) (items : List (ℕ × StageItem))
    (e : FlattenedMatch)
    → let card = match_card get_time now context items e in
      ((card.side1.is_winner ≡ true)
        → (card.side1.score ≡ some e.entry.stage_item_input1_score)
          × (card.side2.score ≡ some e.entry.stage_item_input2_score)
          × (e.entry.stage_item_input2_score < e.entry.stage_item_input1_score))
      × ((card.side2.is_winner ≡ true)
          → (card.side1.score ≡ some e.entry.stage_item_input1_score)
            × (card.side2.score ≡ some e.entry.stage_item_input2_score)
            × (e.entry.stage_item_input1_score < e.entry.stage_item_input2_score))
      × ((card.is_highlighted ≡ true)
          ↔ ((id : ℕ) × (context.my_team_id ≡ some id) × (involves_team e.entry id ≡ true)))
unfolding match_card side
match_card_lem get_time now context items e =
    let m = e.entry in
    let shown = scored-shows_score get_time m now in
    (
      λ h.
          let (higher, scored) = first_wins m h in
          (rw (shown scored) refl, rw (shown scored) refl, higher),
      λ h.
          let (higher, scored) = second_wins m h in
          (rw (shown scored) refl, rw (shown scored) refl, higher),
      mine_iff context.my_team_id m,
    )

-- Clicking a participant of a drawn stage item opens the page of the team of one of its inputs with
-- the participant's id, exactly if the participant looks like a link.
pub canvas_click-drawn_item :
    (items : List (ℕ × StageItem)) (tournament_id : ℕ) (stage : Stage) (item : StageItem)
    (id team_id : ℕ)
    → canvas_click (drawn_item items tournament_id stage item).team_participants (some id)
      ≡ some team_id
    → Any
        (λ (i : StageItemInputFinal). (i.id ≡ id) × (i.team_id ≡ team_id))
        (team_inputs item.inputs)
      × (is_marked (drawn_item items tournament_id stage item).team_participants id ≡ true)
unfolding canvas_click is_marked
canvas_click-drawn_item items tournament_id stage item id team_id h =
    let finals = team_inputs item.inputs in
    (
      map_get-All (λ k t. Any (λ (i : StageItemInputFinal). (i.id ≡ k) × (i.team_id ≡ t)) finals) id
          _
          (map_of-All
            (λ k t. Any (λ (i : StageItemInputFinal). (i.id ≡ k) × (i.team_id ≡ t)) finals)
            (map (λ (i : StageItemInputFinal). (i.id, i.team_id)) finals) (entries-All finals))
          h,
      rw h refl,
    )
