-- ===== src/Slots/Select.antt =====
-- frontend/src/app/sections/stage-item-slots.tsx: what `StageItemSlots` and `SlotSelect` show, and the
-- request that a choice sends.
pub mod Chosen
use brackets.Base.{
  Bool, List, Option, Text, [], codes, decimal, has_value, if◌then◌else◌, length, map, map_get,
  none, or_text, some, ℕ, ◌++◌, ◌∷◌,
}
use brackets.Model.{
  StageItemInput, SlotOption, team_option, winner_option, StageItem, FullTeamWithPlayers,
  StageItemInputUpdate, Team, StageItemInputTentative,
}
use brackets.Inputs.{input_fields}
use brackets.Slots.{
  SlotBody, final_body, tentative_body, empty_body, slot_value, slot_fields, slot_body,
  option_value, empty_slot, marked_taken, filled_slots, slots_open,
}

-- What a template makes of a number.
abbrev pub number_text : Option ℕ → Text
number_text none = codes "NaN"
number_text (some n) = decimal n

-- `slotValue` of a request body; NaN is not null.
unfoldable pub body_value : SlotBody → Text
body_value (final_body id) = codes "team:" ++ number_text id
body_value (tentative_body item position) =
    codes "winner:" ++ number_text item ++ b':' ∷ number_text position
body_value empty_body = empty_slot

-- `assign`: the body that is being saved, if there is one.
abbrev pub Assign : Type 0
Assign = Option SlotBody

-- The value of the select: the choice while it is saved, and otherwise what the slot holds.
unfoldable pub selected : StageItemInput → Assign → Text
unfolding body_value
selected input none = slot_value (slot_fields input)
selected input (some body) = body_value body

-- `onChange`: the body of the request, which names the stage item and the input, too. The select is
-- disabled while a choice is saved.
unfoldable pub select_change : (other : Text → Option ℕ) → Assign → (value : Text) → Option SlotBody
select_change other none value = some (slot_body other value)
select_change other (some body) value = none

winner_source : Option StageItem → Text
winner_source none = []
winner_source (some item) = or_text item.name item.type_name

team_name : Option FullTeamWithPlayers → ℕ → Text
team_name none id = codes "Team #" ++ decimal id
team_name (some t) id = t.name

pub record SlotChoice : Type 0 where
  pub value : Text
  pub label : Text

module _ (items : List (ℕ × StageItem)) (teams : List (ℕ × FullTeamWithPlayers)) where
  unfoldable pub option_label : SlotOption → Text
  unfolding winner_source team_name
  option_label (team_option taken id) = team_name (map_get id teams) id
  option_label (winner_option taken item position) =
      winner_source (map_get item items) ++ codes " #" ++ decimal position

  unfoldable pub slot_choice : (current : Text) → SlotOption → SlotChoice
  unfolding option_label
  slot_choice current option = record {
    value = option_value option;
    label = option_label option ++ (if marked_taken option current then codes " (taken)" else []);
  }

  pub record SlotSelect : Type 0 where
    pub slot : ℕ
    pub is_disabled : Bool
    pub value : Text
    pub choices : List SlotChoice

  unfoldable pub slot_select : List SlotOption → StageItemInput → Assign → SlotSelect
  unfolding slot_choice selected
  slot_select options input assign = record {
    slot = (input_fields input).slot;
    is_disabled = has_value assign;
    value = selected input assign;
    choices =
        record { value = empty_slot; label = codes "Open slot" }
        ∷ map (slot_choice (slot_value (slot_fields input))) options;
  }

-- The panel, with the teams that move in and their slots.
pub record StageItemSlots : Type 0 where
  pub is_open : Bool
  pub filled : ℕ
  pub count : ℕ
  pub moving_in : Option (List (Text × ℕ))

unfoldable pub stage_item_slots : StageItem → Option (List StageItemInputUpdate) → StageItemSlots
stage_item_slots item entries = record {
  is_open = slots_open item.inputs;
  filled = filled_slots item.inputs;
  count = length item.inputs;
  moving_in = elim entries [
    | none ↦ none
    | some es ↦ some (map (λ (e : StageItemInputUpdate). (e.team.name, e.stage_item_input.slot)) es)
  ];
}
