-- ===== src/Inputs.antt =====
-- frontend/src/app/utils.ts: the slots of a stage item and the teams behind them.
use brackets.Base.{
  Bool, List, Option, Text, [], codes, decimal, false, if◌then◌else◌, map_get, none, or_text, some,
  true, truthy, ℕ, ◌++◌, ◌==◌, ◌||◌, ◌∷◌,
}
use brackets.Model.{
  StageItemInput, tentative, final, vacant, StageItemInputFinal, StageItem, Match, StageType, swiss,
  single_elimination, InputFields,
}

unfoldable pub input_fields : StageItemInput → InputFields
input_fields (tentative i) = i.fields
input_fields (final i) = i.fields
input_fields (vacant i) = i.fields

-- `hasTeam` as the narrowing that it is: the input with its team, if there is one.
unfoldable pub as_final : StageItemInput → Option StageItemInputFinal
as_final (final i) = some i
as_final _ = none

unfoldable pub has_team : Option StageItemInput → Bool
has_team (some (final i)) = true
has_team _ = false

unfoldable pub input_team_id : Option StageItemInput → Option ℕ
input_team_id (some (final i)) = some i.team_id
input_team_id _ = none

-- `maybe === id` for an id that may be null.
abbrev pub is_id : Option ℕ → ℕ → Bool
is_id none k = false
is_id (some j) k = j == k

unfoldable pub involves_team : Match → ℕ → Bool
unfolding input_team_id
involves_team m team_id =
    is_id (input_team_id m.stage_item_input1) team_id
    || is_id (input_team_id m.stage_item_input2) team_id

abbrev is_single_elimination : StageType → Bool
is_single_elimination single_elimination = true
is_single_elimination _ = false

abbrev pub is_swiss : StageType → Bool
is_swiss swiss = true
is_swiss _ = false

unfoldable pub is_bracket : StageItem → Bool
is_bracket item = is_single_elimination item.kind

unfoldable pub has_bracket_view : StageItem → Bool
unfolding is_bracket
has_bracket_view item = is_bracket item || is_swiss item.kind

unfoldable pub is_empty_slot : StageItemInput → Bool
is_empty_slot (tentative i) = false
is_empty_slot (final i) = false
is_empty_slot (vacant i) = true

unfoldable pub active_team_inputs : List StageItemInput → List StageItemInputFinal
active_team_inputs [] = []
active_team_inputs (tentative i ∷ rest) = active_team_inputs rest
active_team_inputs (final i ∷ rest) =
    if i.team.active then i ∷ active_team_inputs rest else active_team_inputs rest
active_team_inputs (vacant i ∷ rest) = active_team_inputs rest

-- The part of `inputLabel` behind its look-up: the source's name, or TBD.
source_label : Text → ℕ → Text
source_label name position =
    if truthy name then name ++ codes " #" ++ decimal position else codes "TBD"

source_name : Option StageItem → Text
source_name none = []
source_name (some item) = or_text item.name item.type_name

unfoldable pub input_label : Option StageItemInput → List (ℕ × StageItem) → Text
unfolding source_label source_name
input_label none items = codes "TBD"
input_label (some (final i)) items = i.team.name
input_label (some (tentative i)) items =
    source_label (source_name (map_get i.winner_from_stage_item_id items)) i.winner_position
input_label (some (vacant i)) items = codes "TBD"
