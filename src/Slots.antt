-- ===== src/Slots.antt =====
-- frontend/src/app/sections/stage-item-slots.tsx: the values of the select that fills a slot, and the
-- request body behind each. `other` is what `Number` makes of texts that are no decimal integers.
pub mod RoundTrip
pub mod Select
use brackets.Base.{
  Bool, List, Option, Text, [], codes, decimal, filter, get_elem?, if◌then◌else◌, length, ltb, none,
  not, some, split, text_eq, to_number, ℕ, ◌&&◌, ◌++◌, ◌∷◌,
}
use brackets.Model.{
  StageItemInput, tentative, final, vacant, SlotOption, team_option, winner_option, StageItem,
}
use brackets.Inputs.{is_empty_slot}

-- What `slotValue` reads of an input or of a request body; an absent field reads as null.
pub record SlotFields : Type 0 where
  pub team_id : Option ℕ
  pub winner_from_stage_item_id : Option ℕ
  pub winner_position : Option ℕ

abbrev pub team_value : ℕ → Text
team_value id = codes "team:" ++ decimal id

abbrev pub winner_value : ℕ → ℕ → Text
winner_value item position = codes "winner:" ++ decimal item ++ b':' ∷ decimal position

abbrev pub empty_slot : Text
empty_slot = codes "empty"

winner_part : Option ℕ → Option ℕ → Text
winner_part (some item) (some position) = winner_value item position
winner_part (some item) none = empty_slot
winner_part none position = empty_slot

unfoldable pub slot_value : SlotFields → Text
unfolding winner_part
slot_value f = elim f.team_id [
  | some id ↦ team_value id
  | none ↦ winner_part f.winner_from_stage_item_id f.winner_position
]

-- An input's fields.
unfoldable pub slot_fields : StageItemInput → SlotFields
slot_fields (tentative i) = record {
  team_id = none;
  winner_from_stage_item_id = some i.winner_from_stage_item_id;
  winner_position = some i.winner_position;
}
slot_fields (final i) = record {
  team_id = some i.team_id;
  winner_from_stage_item_id = i.winner_from_stage_item_id;
  winner_position = i.winner_position;
}
slot_fields (vacant i) = record {
  team_id = none;
  winner_from_stage_item_id = none;
  winner_position = none;
}

unfoldable pub option_value : SlotOption → Text
option_value (team_option taken id) = team_value id
option_value (winner_option taken item position) = winner_value item position

-- The request's body; a number that cannot be read is NaN, `none`.
pub data SlotBody : Type 0 where
  final_body : Option ℕ → SlotBody
  tentative_body : Option ℕ → Option ℕ → SlotBody
  empty_body : SlotBody

-- `Number(parts[i])`: an absent part is undefined, which `Number` makes NaN.
part_number : (Text → Option ℕ) → List Text → ℕ → Option ℕ
part_number other parts i = elim (get_elem? parts i) [ none ↦ none | some s ↦ to_number other s ]

abbrev first_part : List Text → Text
first_part [] = []
first_part (s ∷ rest) = s

body_of_parts : (Text → Option ℕ) → List Text → SlotBody
body_of_parts other parts =
    if text_eq (first_part parts) (codes "team")
    then final_body (part_number other parts 1)
    else if text_eq (first_part parts) (codes "winner")
    then tentative_body (part_number other parts 1) (part_number other parts 2)
    else empty_body

unfoldable pub slot_body : (Text → Option ℕ) → Text → SlotBody
unfolding part_number body_of_parts
slot_body other value = body_of_parts other (split b':' value)

-- The count of `StageItemSlots`: its panel is open while a slot is empty.
unfoldable pub filled_slots : List StageItemInput → ℕ
filled_slots inputs = length (filter (λ i. not (is_empty_slot i)) inputs)

unfoldable pub slots_open : List StageItemInput → Bool
unfolding filled_slots
slots_open inputs = ltb (filled_slots inputs) (length inputs)

abbrev already_taken : SlotOption → Bool
already_taken (team_option taken id) = taken
already_taken (winner_option taken item position) = taken

-- Whether an option is marked as taken: never the slot's own choice.
unfoldable pub marked_taken : SlotOption → Text → Bool
marked_taken option current = already_taken option && not (text_eq (option_value option) current)
