-- ===== src/Rounds.antt =====
-- frontend/src/app/sections/stage-item-rounds.tsx: the rounds of a stage item in the organizers' editor.
pub mod Pairs
pub mod Editor
pub mod Form
pub mod Actions
use brackets.Base.{
  All, Bool, List, Num, Option, Text, [], any, codes, decimal, false, filter, find?, if◌then◌else◌,
  last?, leb, length, ltb, map, max, min, none, not, pos, reverse, some, sort_by, text_eq, true,
  truthy, ℕ, ◌&&◌, ◌++◌, ◌+◌, ◌-ℤ◌, ◌-◌, ◌==◌, ◌||◌, ◌∷◌,
}
use brackets.Model.{Match, Round, StageItem, StageItemInput, StageItemInputFinal, StageType, swiss}
use brackets.Inputs.{is_id, is_empty_slot, active_team_inputs, is_swiss}
use brackets.Matches.{is_scored}

unfoldable pub compare_rounds : Round → Round → Num
compare_rounds left right = some (pos left.id -ℤ pos right.id)

unfoldable pub sorted_rounds : StageItem → List Round
unfolding compare_rounds
sorted_rounds item = sort_by compare_rounds item.rounds

unfoldable pub played_count : Round → ℕ
played_count r = length (filter is_scored r.matches)

-- `id ?? 0`
abbrev pub or_zero : Option ℕ → ℕ
or_zero none = 0
or_zero (some k) = k

unfoldable pub pair_key : Option ℕ → Option ℕ → Text
pair_key a b = decimal (min (or_zero a) (or_zero b)) ++ b'-' ∷ decimal (max (or_zero a) (or_zero b))

abbrev pub is_unplayed : Round → Bool
is_unplayed r = ltb (played_count r) (length r.matches)

-- The last two lines of `stageItemStatus`.
unfoldable pub status_when_played : StageType → ℕ → Text
status_when_played kind rounds =
    if is_swiss kind
    then codes "Ready for round " ++ decimal (rounds + 1)
    else codes "All matches played"

unfoldable pub status_of_rounds : StageType → List Round → Text
status_of_rounds kind rounds = elim (find? (λ (r : Round). r.is_draft) rounds) [
  | some draft ↦ draft.name ++ codes " is waiting to be published"
  | none ↦ elim (find? is_unplayed rounds) [
    | some current ↦
        current.name
        ++ codes ": "
        ++ decimal (played_count current)
        ++ codes " of "
        ++ decimal (length current.matches)
        ++ codes " matches played"
    | none ↦ status_when_played kind (length rounds)
  ]
]

unfoldable pub stage_item_status : StageItem → Text
unfolding status_of_rounds status_when_played played_count
stage_item_status item =
    let empty_slots = length (filter is_empty_slot item.inputs) in
    if ltb 0 empty_slots
    then decimal (length item.inputs - empty_slots)
      ++ codes " of "
      ++ decimal (length item.inputs)
      ++ codes " slots filled"
    else status_of_rounds item.kind (sorted_rounds item)

-- The local values of `StageItemRounds`.
unfoldable pub draft_round : StageItem → Option Round
draft_round item = find? (λ (r : Round). r.is_draft) (sorted_rounds item)

unfoldable pub published_rounds : StageItem → List Round
published_rounds item = filter (λ (r : Round). not r.is_draft) (sorted_rounds item)

unfoldable pub latest_round : StageItem → Option Round
unfolding published_rounds
latest_round item = last? (published_rounds item)

unfoldable pub current_round : StageItem → Option Round
unfolding published_rounds
current_round item = find? is_unplayed (published_rounds item)

-- The rounds in the order in which they are listed.
unfoldable pub listed_rounds : StageItem → List Round
unfolding published_rounds
listed_rounds item =
    if is_swiss item.kind then reverse (published_rounds item) else published_rounds item

-- `round.id === other?.id`
abbrev pub has_id : Option Round → ℕ → Bool
has_id none k = false
has_id (some r) k = r.id == k

abbrev pub is_absent : Option Round → Bool
is_absent none = true
is_absent (some r) = false

-- `canDelete` and `open` of a listed round.
unfoldable pub can_delete : StageItem → Round → Bool
unfolding draft_round latest_round
can_delete item r =
    is_swiss item.kind && is_absent (draft_round item) && has_id (latest_round item) r.id

unfoldable pub starts_open : StageItem → Round → Bool
unfolding current_round
starts_open item r = has_id (current_round item) r.id

-- `NextSwissRound`: whether a round can be generated, and the matches of the latest round that have no
-- score yet, about which the organizer is asked first.
unfoldable pub can_generate : StageItem → Bool
can_generate item = leb 2 (length (active_team_inputs item.inputs))

unfoldable pub unplayed_matches : Option Round → ℕ
unfolding played_count
unplayed_matches none = 0
unplayed_matches (some r) = length r.matches - played_count r

-- Whether a click generates the round, given the answer to the question.
unfoldable pub generates : StageItem → (confirmed is_pending : Bool) → Bool
unfolding can_generate unplayed_matches latest_round
generates item confirmed is_pending =
    can_generate item
    && not is_pending
    && (not (ltb 0 (unplayed_matches (latest_round item))) || confirmed)

-- `pairedIds.has(id)` in `DraftRound`.
abbrev pub is_side : ℕ → Match → Bool
is_side k m = is_id m.stage_item_input1_id k || is_id m.stage_item_input2_id k

unfoldable pub is_paired : Round → ℕ → Bool
is_paired draft k = any (is_side k) draft.matches

-- The active teams that sit out the draft round.
unfoldable pub unpaired_inputs : StageItem → Round → List StageItemInputFinal
unfolding is_paired
unpaired_inputs item draft =
    filter (λ (i : StageItemInputFinal). not (is_paired draft i.id))
      (active_team_inputs item.inputs)

-- `playedPairs.has(key)`: the pairs of the published rounds.
unfoldable pub is_played_pair : StageItem → Text → Bool
unfolding pair_key
is_played_pair item key =
    any
      (λ (r : Round).
        not r.is_draft
        && any (λ m. text_eq (pair_key m.stage_item_input1_id m.stage_item_input2_id) key)
            r.matches)
      item.rounds

-- The fields of `AddPairingForm`: the values of its two selects.
pub record PairingForm : Type 0 where
  pub first : Text
  pub second : Text

abbrev pub empty_form : PairingForm
empty_form = record { first = []; second = [] }

-- The first select's `onChange`: a second team equal to it is taken back.
unfoldable pub choose_first : Text → PairingForm → PairingForm
choose_first value form = record {
  first = value;
  second = if text_eq value form.second then [] else form.second;
}

-- The second select offers no team, and the teams but the first one.
unfoldable pub second_options : List StageItemInputFinal → PairingForm → List Text
second_options teams form =
    []
    ∷ filter (λ t. not (text_eq t form.first))
        (map (λ (i : StageItemInputFinal). decimal i.id) teams)

unfoldable pub choose_second : Text → PairingForm → PairingForm
choose_second value form = record { first = form.first; second = value }

-- The button's `disabled`, but for requests that are under way.
unfoldable pub can_submit : PairingForm → Bool
can_submit form = truthy form.first && truthy form.second

-- The mark of an option of the second select.
unfoldable pub is_rematch : StageItem → PairingForm → StageItemInputFinal → Option ℕ → Bool
unfolding is_played_pair
is_rematch item form input first_number =
    truthy form.first && is_played_pair item (pair_key first_number (some input.id))
