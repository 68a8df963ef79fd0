-- ===== src/Slots/RoundTrip.antt =====
-- Choosing a slot's value and reading it back.
use brackets.Base.{
  Any, List, Option, Text, [], ap, ap₂, arith, codes, decimal, decimal-Lacks, filter, length,
  length-filter-le, ltb, max_safe_integer, none, not, refl, some, split, split-append,
  split_of_Lacks, sym, text_eq, to_number-decimal, true, ℕ, ◌++◌, ◌↔◌, ◌∙◌, ◌∷◌, ◌≡◌, ◌≤◌,
}
use brackets.Model.{
  StageItemInput, tentative, final, vacant, SlotOption, team_option, winner_option,
}
use brackets.Inputs.{is_empty_slot}
use brackets.Slots.{
  team_value, winner_value, empty_slot, slot_value, slot_fields, option_value, SlotBody, final_body,
  tentative_body, empty_body, body_of_parts, slot_body, slots_open,
}

-- The body that asks for what an option offers.
abbrev pub body_for : SlotOption → SlotBody
body_for (team_option taken id) = final_body (some id)
body_for (winner_option taken item position) = tentative_body (some item) (some position)

-- Every id and position of an option is an integer that JavaScript represents exactly.
abbrev pub IsSafe : SlotOption → Type 0
IsSafe (team_option taken id) = id ≤ max_safe_integer
IsSafe (winner_option taken item position) =
    (item ≤ max_safe_integer) × (position ≤ max_safe_integer)

split-team : (id : ℕ) → split b':' (team_value id) ≡ codes "team" ∷ decimal id ∷ []
split-team id =
    split-append b':' (codes "team") (decimal id) (refl, (refl, (refl, (refl, tt))))
    ∙ ap (λ t. codes "team" ∷ t) (split_of_Lacks b':' (decimal id) (decimal-Lacks b':' id refl))

split-winner :
    (item position : ℕ)
    → split b':' (winner_value item position)
      ≡ codes "winner" ∷ decimal item ∷ decimal position ∷ []
split-winner item position =
    split-append b':' (codes "winner") (decimal item ++ b':' ∷ decimal position)
      (refl, (refl, (refl, (refl, (refl, (refl, tt))))))
    ∙ ap (λ t. codes "winner" ∷ t)
        (split-append b':' (decimal item) (decimal position) (decimal-Lacks b':' item refl)
          ∙ ap (λ t. decimal item ∷ t)
              (split_of_Lacks b':' (decimal position) (decimal-Lacks b':' position refl)))

slot_body-team :
    (other : Text → Option ℕ) (id : ℕ)
    → id ≤ max_safe_integer
    → slot_body other (team_value id) ≡ final_body (some id)
unfolding slot_body text_eq
slot_body-team other id h =
    ap (body_of_parts other) (split-team id) ∙ ap final_body (to_number-decimal other id h)

slot_body-winner :
    (other : Text → Option ℕ) (item position : ℕ)
    → item ≤ max_safe_integer
    → position ≤ max_safe_integer
    → slot_body other (winner_value item position) ≡ tentative_body (some item) (some position)
unfolding slot_body text_eq
slot_body-winner other item position h k =
    ap (body_of_parts other) (split-winner item position)
    ∙ ap₂ tentative_body (to_number-decimal other item h) (to_number-decimal other position k)

pub slot_body-empty : (other : Text → Option ℕ) → slot_body other empty_slot ≡ empty_body
unfolding slot_body text_eq split
slot_body-empty other = refl

-- The body sent for an option asks for exactly the option's team, or its source and position, when
-- its numbers are safe integers.
pub slot_body-option_value :
    (other : Text → Option ℕ) (option : SlotOption)
    → IsSafe option
    → slot_body other (option_value option) ≡ body_for option
unfolding option_value
slot_body-option_value other (team_option taken id) h = slot_body-team other id h
slot_body-option_value other (winner_option taken item position) (h, k) =
    slot_body-winner other item position h k

-- What a slot holds now, as a body.
abbrev pub current_body : StageItemInput → SlotBody
current_body (tentative i) =
    tentative_body (some i.winner_from_stage_item_id) (some i.winner_position)
current_body (final i) = final_body (some i.team_id)
current_body (vacant i) = empty_body

abbrev pub HasSafeIds : StageItemInput → Type 0
HasSafeIds (tentative i) =
    (i.winner_from_stage_item_id ≤ max_safe_integer) × (i.winner_position ≤ max_safe_integer)
HasSafeIds (final i) = i.team_id ≤ max_safe_integer
HasSafeIds (vacant i) = Unit {0}

-- Choosing again the value that a slot shows asks for what the slot already holds, when its numbers
-- are safe integers.
pub slot_body-slot_value :
    (other : Text → Option ℕ) (input : StageItemInput)
    → HasSafeIds input
    → slot_body other (slot_value (slot_fields input)) ≡ current_body input
unfolding slot_value slot_fields
slot_body-slot_value other (tentative i) (h, k) =
    slot_body-winner other i.winner_from_stage_item_id i.winner_position h k
slot_body-slot_value other (final i) h = slot_body-team other i.team_id h
slot_body-slot_value other (vacant i) h = slot_body-empty other

-- Options with the same value ask for the same, so no two options of a select that ask for different
-- things share a value, when their numbers are safe integers.
pub option_value_injective :
    (a b : SlotOption)
    → IsSafe a
    → IsSafe b
    → option_value a ≡ option_value b
    → body_for a ≡ body_for b
option_value_injective a b h k e =
    sym (slot_body-option_value (λ _. none) a h)
    ∙ ap (slot_body (λ _. none)) e
    ∙ slot_body-option_value (λ _. none) b k

filled_lt :
    (inputs : List StageItemInput)
    → (ltb (length (filter (λ i. not (is_empty_slot i)) inputs)) (length inputs) ≡ true)
      ↔ Any (λ i. is_empty_slot i ≡ true) inputs
filled_lt [] = ground arith
filled_lt (i ∷ is) = ground (arith, filled_lt is, length-filter-le (λ i. not (is_empty_slot i)) is)

-- The panel of the slots is open exactly while a slot is empty.
pub slots_open_iff :
    (inputs : List StageItemInput)
    → (slots_open inputs ≡ true) ↔ Any (λ i. is_empty_slot i ≡ true) inputs
unfolding slots_open
slots_open_iff inputs = filled_lt inputs
