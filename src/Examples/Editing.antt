-- ===== src/Examples/Editing.antt =====
-- The small tournament in the organizers' editor.
use brackets.Base.{
  All, Any, List, [], arith, codes, decimal, false, none, refl, some, sort_by, text_eq, true, ◌-ℤ◌,
  ◌↔◌, ◌∷◌, ◌≡◌, ◌≢◌,
}
use brackets.Model.{SlotOption, final, team_option, winner_option, StageItemInputFinal, Round}
use brackets.Inputs.{has_team}
use brackets.Slots.{slot_body, option_value}
use brackets.Slots.Select.{slot_select}
use brackets.Slots.Select.Chosen.{IsKept, slot_select-IsKept}
use brackets.Slots.RoundTrip.{body_for, slot_body-option_value}
use brackets.Rounds.Actions.{
  create_round, delete_round, regenerate, draft_view, draft_click, Command, score_submit, is_ready,
}
use brackets.Rounds.Actions.Laws.{unpaired_inputs_iff}
use brackets.Matches.{match_status, waiting}
use brackets.Rounds.{
  unpaired_inputs, sorted_rounds, pair_key, is_played_pair, can_delete, PairingForm, empty_form,
  choose_first, choose_second, can_submit, second_options,
}
use brackets.Rounds.Pairs.{Meets, is_played_pair_iff}
use brackets.Rounds.Form.{Edits, start, step, first_team, second_team, Edits-distinct_teams}
use brackets.Rounds.Editor.{IsDone}
use brackets.Examples.{
  won_game, round_with, game, read_nothing, ants_input, bees_input, first_round, second_round,
  swiss_item,
}

slot_body-option_value_example :
    slot_body read_nothing (option_value (winner_option false 5 2))
    ≡ body_for (winner_option false 5 2)
slot_body-option_value_example =
    slot_body-option_value read_nothing (winner_option false 5 2) (omega arith, omega arith)

abbrev slot_options : List SlotOption
slot_options = team_option true 41 ∷ winner_option false 5 2 ∷ []

slot_select-IsKept_example :
    All
      (IsKept [] [] read_nothing (final ants_input) slot_options)
      (slot_select [] [] slot_options (final ants_input) none).choices
slot_select-IsKept_example =
    slot_select-IsKept [] [] read_nothing (final ants_input) slot_options
      (omega arith, ((omega arith, omega arith), tt))

is_played_pair_iff_example :
    (is_played_pair swiss_item (pair_key (some 22) (some 21)) ≡ true)
    ↔ Any (λ r. (r.is_draft ≡ false) × Any (Meets (some 22) (some 21)) r.matches) swiss_item.rounds
is_played_pair_iff_example = is_played_pair_iff swiss_item (some 22) (some 21)

abbrev teams : List StageItemInputFinal
teams = ants_input ∷ bees_input ∷ []

abbrev filled : PairingForm
filled = choose_second (codes "22") (choose_first (codes "21") empty_form)

filled-Edits : Edits teams filled
unfolding second_options decimal text_eq choose_first choose_second
filled-Edits =
    step (step start (first_team empty_form (codes "21")))
      (second_team (choose_first (codes "21") empty_form) (codes "22") refl)

filled-can_submit : can_submit filled ≡ true
unfolding can_submit choose_second choose_first text_eq
filled-can_submit = refl

Edits-distinct_teams_example : filled.first ≢ filled.second
Edits-distinct_teams_example = Edits-distinct_teams teams filled filled-Edits filled-can_submit

deletable : can_delete swiss_item second_round ≡ true
unfolding can_delete sorted_rounds sort_by ◌-ℤ◌
deletable = refl

first_round-IsDone : IsDone first_round
unfolding brackets.Matches.is_scored
first_round-IsDone = (refl, (refl, tt))

-- A draft in which the two teams meet again.
abbrev draft : Round
draft = round_with 43 true (game 34 43 0 0 none ∷ [])

-- New pairings replace the draft, once its deletion is answered.
replaced_run :
    draft_click (λ _. true) swiss_item draft false true regenerate
    ≡ delete_round 43 ∷ (create_round 5 ∷ [])
unfolding draft_click draft_view
replaced_run = refl

-- Without the answer nothing is created.
kept_run : draft_click (λ _. false) swiss_item draft false true regenerate ≡ delete_round 43 ∷ []
unfolding draft_click draft_view
kept_run = refl

unpaired_inputs_iff_example : Any (λ i. i ≡ ants_input) (unpaired_inputs swiss_item draft) ↔ (
    Any (λ i. i ≡ final ants_input) swiss_item.inputs
    × (ants_input.team.active ≡ true)
    × All
        (λ m. (m.stage_item_input1_id ≢ some 21) × (m.stage_item_input2_id ≢ some 21))
        draft.matches)
unpaired_inputs_iff_example = unpaired_inputs_iff swiss_item draft ants_input

saved : score_submit won_game 2 1 false ≢ []
unfolding score_submit is_ready has_team
saved h = absurd (kept h)
  where
    kept : {c : Command} {cs : List Command} → c ∷ cs ≡ [] → ⊥
    kept e = cc
