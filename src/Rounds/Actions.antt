-- ===== src/Rounds/Actions.antt =====
-- frontend/src/app/sections/stage-item-rounds.tsx: what the components of the editor show, and the
-- requests that their buttons send. A request that is answered may be followed by the next; its
-- answer is a parameter.
pub mod Laws
use brackets.Base.{
  Bool, List, Option, Text, [], any, if◌then◌else◌, leb, length, ltb, map, none, not, some, ℕ, ◌&&◌,
  ◌+◌, ◌==◌, ◌||◌, ◌∷◌,
}
use brackets.Model.{Match, Round, StageItem, StageItemInput, StageItemInputFinal}
use brackets.Inputs.{has_team, input_label, is_empty_slot, is_swiss, input_fields}
use brackets.Rounds.{
  sorted_rounds, played_count, draft_round, latest_round, listed_rounds, can_delete, starts_open,
  can_generate, unplayed_matches, generates, unpaired_inputs, PairingForm, can_submit,
}

-- The requests of this file.
pub data Command : Type 0 where
  create_round : (stage_item_id : ℕ) → Command
  publish_round : (round_id : ℕ) (name : Text) → Command
  delete_round : (round_id : ℕ) → Command
  create_match : (round_id : ℕ) (input1_id input2_id : Option ℕ) → Command
  delete_match : (match_id : ℕ) → Command
  update_match :
      (match_id : ℕ) (custom_duration_minutes custom_margin_minutes : Option ℕ) (round_id : ℕ)
      (score1 score2 : ℕ)
      → Command

-- `StageItemRounds`: the part above the rounds, and the rounds with whether each can be deleted and
-- whether it is open.
pub data RoundsHead : Type 0 where
  created_together : (has_empty_slots : Bool) → RoundsHead
  draft_shown : Round → RoundsHead
  next_round : (previous : Option Round) (round_number : ℕ) → RoundsHead

pub record ListedRound : Type 0 where
  pub round : Round
  pub deletable : Bool
  pub opened : Bool

draft_or_next : StageItem → Option Round → RoundsHead
draft_or_next item none = next_round (latest_round item) (length (sorted_rounds item) + 1)
draft_or_next item (some draft) = draft_shown draft

unfoldable pub rounds_head : StageItem → RoundsHead
unfolding draft_or_next
rounds_head item =
    if not (is_swiss item.kind)
    then created_together (any is_empty_slot item.inputs)
    else draft_or_next item (draft_round item)

unfoldable pub shown_rounds : StageItem → List ListedRound
shown_rounds item =
    map
      (λ (r : Round). record {
        round = r;
        deletable = can_delete item r;
        opened = starts_open item r;
      })
      (listed_rounds item)

-- `NextSwissRound`: what it says, and whether its button is disabled.
pub record NextSwissRound : Type 0 where
  pub asks_for_teams : Bool
  pub unplayed_warning : Option (Text × ℕ)
  pub button_disabled : Bool

unplayed_of : Option Round → Option (Text × ℕ)
unplayed_of none = none
unplayed_of (some r) =
    if ltb 0 (unplayed_matches (some r)) then some (r.name, unplayed_matches (some r)) else none

unfoldable pub next_swiss_round : StageItem → (is_pending : Bool) → NextSwissRound
unfolding unplayed_of
next_swiss_round item is_pending = record {
  asks_for_teams = not (can_generate item);
  unplayed_warning = if can_generate item then unplayed_of (latest_round item) else none;
  button_disabled = not (can_generate item) || is_pending;
}

unfoldable pub generate_click : StageItem → (confirmed is_pending : Bool) → List Command
generate_click item confirmed is_pending =
    if generates item confirmed is_pending then create_round item.id ∷ [] else []

-- `DraftRound`
pub record DraftRound : Type 0 where
  pub has_no_pairings : Bool
  pub sitting_out : List Text
  pub offers_pairing : Bool
  pub publish_disabled : Bool
  pub others_disabled : Bool

unfoldable pub draft_view : StageItem → Round → (busy : Bool) → DraftRound
draft_view item r busy =
    let unpaired = unpaired_inputs item r in
    record {
      has_no_pairings = length r.matches == 0;
      sitting_out = map (λ (i : StageItemInputFinal). i.team.name) unpaired;
      offers_pairing = leb 2 (length unpaired);
      publish_disabled = busy || length r.matches == 0;
      others_disabled = busy;
    }

pub data DraftButton : Type 0 where
  publish regenerate discard : DraftButton

-- The requests of a click, in order. The new round is asked for once the draft has been deleted.
unfoldable pub draft_click :
    (is_answered : Command → Bool)
    → StageItem
    → Round
    → (busy confirmed : Bool) → DraftButton
    → List Command
draft_click is_answered item r busy confirmed publish =
    if (draft_view item r busy).publish_disabled then [] else publish_round r.id r.name ∷ []
draft_click is_answered item r busy confirmed regenerate =
    if (draft_view item r busy).others_disabled || not confirmed
    then []
    else delete_round r.id
      ∷ (if is_answered (delete_round r.id) then create_round item.id ∷ [] else [])
draft_click is_answered item r busy confirmed discard =
    if (draft_view item r busy).others_disabled || not confirmed then [] else delete_round r.id ∷ []

-- `TeamWithRecord`: the label, and the record of a team that has played.
unfoldable pub team_with_record :
    Option StageItemInput → List (ℕ × StageItem) → Text × Option (ℕ × (ℕ × ℕ))
team_with_record none items = (input_label none items, none)
team_with_record (some i) items = (
  input_label (some i) items,
  let f = input_fields i in
      if ltb 0 (f.wins + f.draws + f.losses) then some (f.wins, (f.draws, f.losses)) else none,
)

-- The button of `DraftPairing`.
unfoldable pub remove_click : Match → (disabled : Bool) → List Command
remove_click m disabled = if disabled then [] else delete_match m.id ∷ []

-- Submitting `AddPairingForm`; `read_number` is `Number`.
unfoldable pub pairing_submit :
    (read_number : Text → Option ℕ) → Round → PairingForm → (disabled : Bool) → List Command
pairing_submit read_number r form disabled =
    if disabled || not (can_submit form)
    then []
    else create_match r.id (read_number form.first) (read_number form.second) ∷ []

-- `PublishedRound`
unfoldable pub is_done : Round → Bool
is_done r = ltb 0 (length r.matches) && played_count r == length r.matches

unfoldable pub delete_click : StageItem → Round → (is_pending confirmed : Bool) → List Command
delete_click item r is_pending confirmed =
    if can_delete item r && not is_pending && confirmed then delete_round r.id ∷ [] else []

-- `ScoreForm`
unfoldable pub is_ready : Match → Bool
is_ready m = has_team m.stage_item_input1 && has_team m.stage_item_input2

unfoldable pub score_submit : Match → (score1 score2 : ℕ) (is_pending : Bool) → List Command
score_submit m score1 score2 is_pending =
    if not (is_ready m) || is_pending
    then []
    else update_match m.id m.custom_duration_minutes m.custom_margin_minutes m.round_id score1
        score2
      ∷ []
