-- ===== src/Bracket.antt =====
-- frontend/src/app/bracket-adapter.ts: a stage item as the data that brackets-viewer draws. A score
-- that is left out of a side is `none`, and so is a result.
pub mod Rounds
pub mod Origins
pub mod Viewer
pub mod Labels
use brackets.Base.{
  Bool, List, Num, Option, Text, [], any, codes, decimal, false, filter, if◌then◌else◌, ltb, map,
  map_from, map_get, map_set, max_safe_integer, min, none, not, or_text, pos, some, sort_by, suc,
  text_eq, true, zero, ℕ, ◌&&◌, ◌++◌, ◌+◌, ◌-ℤ◌, ◌-◌, ◌==◌, ◌^◌, ◌∷◌,
}
use brackets.Model.{Match, Round, StageItem, StageItemInput, StageType, swiss}
use brackets.Inputs.{input_label, input_fields, is_swiss}
use brackets.Matches.{is_scored, is_null}

pub data Result : Type 0 where
  drawn lost won : Result

pub record ParticipantResult : Type 0 where
  pub id : Option ℕ
  pub result : Option Result
  pub score : Option ℕ

-- brackets-model's `Status`: 0, 1, 2 and 4.
pub data ViewerStatus : Type 0 where
  locked waiting ready completed : ViewerStatus

abbrev pub status_code : ViewerStatus → ℕ
status_code locked = 0
status_code waiting = 1
status_code ready = 2
status_code completed = 4

pub record ViewerMatch : Type 0 where
  pub child_count : ℕ
  pub group_id : ℕ
  pub id : ℕ
  pub number : ℕ
  pub opponent1 : ParticipantResult
  pub opponent2 : ParticipantResult
  pub round_id : ℕ
  pub stage_id : ℕ
  pub status : ViewerStatus

pub record Participant : Type 0 where
  pub id : ℕ
  pub name : Text
  pub tournament_id : ℕ

pub data ViewerType : Type 0 where
  round_robin single_elimination : ViewerType

pub record ViewerStage : Type 0 where
  pub id : ℕ
  pub name : Text
  pub number : ℕ
  pub size : ℕ
  pub tournament_id : ℕ
  pub kind : ViewerType

-- The one stage of `BracketViewerData`, and no match games.
pub record BracketViewerData : Type 0 where
  pub matches : List ViewerMatch
  pub participants : List Participant
  pub stage : ViewerStage

-- The positions that `positionByMatchId` has recorded for a match's two sources.
source_positions : Option ℕ → List (ℕ × ℕ) → List ℕ
source_positions none positions = []
source_positions (some match_id) positions = elim (map_get match_id positions) [
  | none ↦ []
  | some at_index ↦ at_index ∷ []
]

least : ℕ → List ℕ → ℕ
least x [] = x
least x (y ∷ ys) = least (min x y) ys

-- `Math.min(...origins)`, or the largest safe integer without any.
minimum : List ℕ → ℕ
minimum [] = max_safe_integer
minimum (x ∷ xs) = least x xs

unfoldable pub origin_position : Match → List (ℕ × ℕ) → ℕ
unfolding source_positions minimum least
origin_position m positions = minimum (
    source_positions m.stage_item_input1_winner_from_match_id positions
    ++ source_positions m.stage_item_input2_winner_from_match_id positions)

-- The comparator of a round's matches.
unfoldable pub compare_origins : List (ℕ × ℕ) → Match → Match → Num
unfolding origin_position
compare_origins positions left right =
    if not (origin_position left positions == origin_position right positions)
    then some (pos (origin_position left positions) -ℤ pos (origin_position right positions))
    else some (pos left.id -ℤ pos right.id)

-- `ordered.forEach((match, index) => positionByMatchId.set(match.id, index))`, from `index`.
unfoldable pub record_positions : ℕ → List Match → List (ℕ × ℕ) → List (ℕ × ℕ)
record_positions index [] positions = positions
record_positions index (m ∷ ms) positions =
    record_positions (index + 1) ms (map_set m.id index positions)

-- The loop of `orderRounds` over the rounds: the ordered matches of each, with what the earlier
-- rounds recorded.
order_rounds_from : List (ℕ × ℕ) → List Round → List (List Match)
order_rounds_from positions [] = []
order_rounds_from positions (r ∷ rs) =
    let ordered = sort_by (compare_origins positions) r.matches in
    ordered ∷ order_rounds_from (record_positions 0 ordered positions) rs

unfoldable pub order_rounds : List Round → List (List Match)
unfolding order_rounds_from
order_rounds rounds = order_rounds_from [] rounds

-- `known.has(id)` on the set of participant ids.
abbrev pub is_known : ℕ → List Participant → Bool
is_known k participants = any (λ (p : Participant). p.id == k) participants

known_id : Option ℕ → List Participant → Option ℕ
known_id none known = none
known_id (some k) known = if is_known k known then some k else none

unfoldable pub to_opponent :
    Option ℕ → ℕ → List Participant → (show_score : Bool) → Option Result → ParticipantResult
unfolding known_id
to_opponent input_id score known show_score result = record {
  id = known_id input_id known;
  result = result;
  score = if show_score then some score else none;
}

-- The result of the side that scored `mine` against `theirs`.
side_result : Bool → ℕ → ℕ → Option Result
side_result scored mine theirs =
    if scored
    then (if mine == theirs then some drawn else if ltb theirs mine then some won else some lost)
    else none

viewer_status : Match → ViewerStatus
viewer_status m =
    if is_scored m
    then completed
    else if not (is_null m.stage_item_input1_id) && not (is_null m.stage_item_input2_id)
    then ready
    else if is_null m.stage_item_input1_id && is_null m.stage_item_input2_id
    then locked
    else waiting

-- The match at an index of a round, as the viewer shows it.
unfoldable pub viewer_match : List Participant → (round_index match_index : ℕ) → Match → ViewerMatch
unfolding to_opponent side_result viewer_status
viewer_match known round_index match_index m = record {
  child_count = 0;
  group_id = 1;
  id = m.id;
  number = match_index + 1;
  opponent1 =
      to_opponent m.stage_item_input1_id m.stage_item_input1_score known (is_scored m)
        (side_result (is_scored m) m.stage_item_input1_score m.stage_item_input2_score);
  opponent2 =
      to_opponent m.stage_item_input2_id m.stage_item_input2_score known (is_scored m)
        (side_result (is_scored m) m.stage_item_input2_score m.stage_item_input1_score);
  round_id = round_index + 1;
  stage_id = 1;
  status = viewer_status m;
}

-- The two nested loops that push the matches.
unfoldable pub viewer_matches : List Participant → ℕ → List (List Match) → List ViewerMatch
viewer_matches known round_index [] = []
viewer_matches known round_index (ms ∷ rounds) =
    map_from 0 (viewer_match known round_index) ms ++ viewer_matches known (round_index + 1) rounds

to_participant : List (ℕ × StageItem) → ℕ → StageItemInput → Participant
to_participant items tournament_id input = record {
  id = (input_fields input).id;
  name = input_label (some input) items;
  tournament_id = tournament_id;
}

unfoldable pub bracket_participants : StageItem → List (ℕ × StageItem) → ℕ → List Participant
unfolding to_participant
bracket_participants item items tournament_id =
    filter (λ (p : Participant). not (text_eq p.name (codes "TBD")))
      (map (to_participant items tournament_id) item.inputs)

pub viewer_stage : StageItem → ℕ → ViewerStage
viewer_stage item tournament_id = record {
  id = 1;
  name = or_text item.name item.type_name;
  number = 1;
  size = item.team_count;
  tournament_id = tournament_id;
  kind = if is_swiss item.kind then round_robin else single_elimination;
}

unfoldable pub to_bracket_viewer_data :
    StageItem → List (ℕ × StageItem) → ℕ → Option BracketViewerData
unfolding viewer_stage
to_bracket_viewer_data item items tournament_id =
    let known = bracket_participants item items tournament_id in
    let matches = viewer_matches known 0 (order_rounds item.rounds) in
    elim matches [
      | [] ↦ none
      | m ∷ ms ↦ some (record {
        matches = m ∷ ms;
        participants = known;
        stage = viewer_stage item tournament_id;
      })
    ]

pub data GroupType : Type 0 where
  final_group loser_bracket round_robin single_bracket winner_bracket : GroupType

is_round_robin : GroupType → Bool
is_round_robin round_robin = true
is_round_robin _ = false

-- The name of the round that is `from_final` rounds before the final.
knockout_label : ℕ → Text
knockout_label zero = codes "Final"
knockout_label (suc zero) = codes "Semi-finals"
knockout_label (suc (suc zero)) = codes "Quarter-finals"
knockout_label (suc (suc (suc n))) = codes "Round of " ++ decimal (2 ^ (n + 4))

-- Rounds are numbered from 1 to `round_count`.
unfoldable pub round_label : GroupType → (round_count round_number : ℕ) → Text
unfolding is_round_robin knockout_label
round_label group round_count round_number =
    if is_round_robin group
    then codes "Round " ++ decimal round_number
    else knockout_label (round_count - round_number)
