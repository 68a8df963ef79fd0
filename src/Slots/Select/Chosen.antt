-- ===== src/Slots/Select/Chosen.antt =====
-- What the select of a slot shows of a choice.
use brackets.Base.{All, List, Option, Text, [], ap, map, none, refl, true, ℕ, ◌∙◌, ◌∷◌, ◌≡◌}
use brackets.Model.{
  StageItemInput, SlotOption, team_option, winner_option, StageItem, FullTeamWithPlayers,
}
use brackets.Slots.{option_value, slot_value, slot_fields}
use brackets.Slots.RoundTrip.{IsSafe, body_for, slot_body-option_value, slot_body-empty}
use brackets.Slots.Select.{
  body_value, selected, select_change, SlotChoice, slot_choice, slot_select,
}

body_value-body_for : (option : SlotOption) → body_value (body_for option) ≡ option_value option
unfolding body_value option_value
body_value-body_for (team_option taken id) = refl
body_value-body_for (winner_option taken item position) = refl

module _ (items : List (ℕ × StageItem)) (teams : List (ℕ × FullTeamWithPlayers))
    (other : Text → Option ℕ) (input : StageItemInput) where
  -- While the choice is saved, the select shows it, and takes no other.
  abbrev pub IsKept : List SlotOption → SlotChoice → Type 0
  IsKept options choice =
      let assign = select_change other none choice.value in
      ((slot_select items teams options input assign).value ≡ choice.value)
      × ((slot_select items teams options input assign).is_disabled ≡ true)

  slot_choice-IsKept :
      (options : List SlotOption) (option : SlotOption)
      → IsSafe option
      → IsKept options (slot_choice items teams (slot_value (slot_fields input)) option)
  unfolding slot_select selected select_change slot_choice
  slot_choice-IsKept options option safe =
      (ap body_value (slot_body-option_value other option safe) ∙ body_value-body_for option, refl)

  slot_choices-IsKept :
      (options all : List SlotOption)
      → All IsSafe options
      → All (IsKept all) (map (slot_choice items teams (slot_value (slot_fields input))) options)
  slot_choices-IsKept [] all safe = tt
  slot_choices-IsKept (o ∷ os) all (safe, h) =
      (slot_choice-IsKept all o safe, slot_choices-IsKept os all h)

  -- Whichever choice of a slot is made, the select shows it while it is saved, and takes no other
  -- then, when the numbers of the options are safe integers.
  pub slot_select-IsKept :
      (options : List SlotOption)
      → All IsSafe options
      → All (IsKept options) (slot_select items teams options input none).choices
  unfolding slot_select selected select_change body_value
  slot_select-IsKept options safe =
      ((ap body_value (slot_body-empty other), refl), slot_choices-IsKept options options safe)
