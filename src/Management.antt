-- ===== src/Management.antt =====
-- frontend/src/app/sections/tournament-management.tsx: the organizers' forms for rankings, settings
-- and stages, what they start with, and the requests of their buttons. Labels and markup are left
-- out. A form or a button is disabled while its own request is under way, and `confirmed` is what
-- `window.confirm` answers.
pub mod Bodies
pub mod Bounds
pub mod Initial
pub mod Start
use brackets.Base.{
  Bool, Option, Text, any, codes, false, if◌then◌else◌, none, some, truthy, ℕ, ◌/◌, ◌==◌, ◌||◌,
}
use brackets.Model.{
  Ranking, Tournament, TournamentStatus, open_status, archived, Stage, StageItem, StageType,
  round_robin,
}
use brackets.Tournament.{trim, is_open, normalize_dashboard_endpoint}
use brackets.Forms.{
  Zod, Points, typed, saved, RankingCreateBody, RankingBody, StageUpdateBody, StageItemCreateBody,
  StageItemUpdateBody, TournamentUpdateBody, z_ranking_create_body, z_ranking_body,
  z_stage_update_body, z_stage_item_create_body, z_stage_item_update_body, z_tournament_update_body,
  z_local_date_time,
}
use brackets.Forms.Submits.{submits, confirms}

pub data Direction : Type 0 where
  next previous : Direction

-- The requests of the file; each names the tournament, too.
pub data Request : Type 0 where
  create_ranking : RankingCreateBody → Request
  update_ranking : (ranking_id : ℕ) → RankingBody → Request
  delete_ranking : (ranking_id : ℕ) → Request
  update_tournament : TournamentUpdateBody → Request
  upload_logo : (file : Text) → Request
  change_status : TournamentStatus → Request
  delete_tournament : Request
  create_stage : Request
  activate_stage : Direction → Request
  update_stage : (stage_id : ℕ) → StageUpdateBody → Request
  delete_stage : (stage_id : ℕ) → Request
  create_stage_item : StageItemCreateBody → Request
  update_stage_item : (stage_item_id : ℕ) → StageItemUpdateBody → Request
  delete_stage_item : (stage_item_id : ℕ) → Request

-- The status that the button of `SettingsSection` asks for.
unfoldable pub other_status : TournamentStatus → TournamentStatus
other_status status = if is_open status then archived else open_status

-- `body.name?.trim() || null`
unfoldable pub trimmed_name : Option Text → Option Text
trimmed_name none = none
trimmed_name (some s) = if truthy (trim s) then some (trim s) else none

-- A form that is submitted with its values, or a button that is clicked, in its row.
pub data Event : Type 0 where
  ranking_added : RankingCreateBody → Event
  ranking_saved : Ranking → RankingBody → Event
  ranking_deleted : Ranking → Event
  tournament_saved : TournamentUpdateBody → Event
  logo_chosen : Option Text → Event
  status_clicked tournament_deleted stage_added : Event
  stage_activated : Direction → Event
  stage_saved : Stage → StageUpdateBody → Event
  stage_deleted : Stage → Event
  stage_item_added : StageItemCreateBody → Event
  stage_item_saved : StageItem → StageItemUpdateBody → Event
  stage_item_deleted : StageItem → Event

abbrev unless_pending : (is_pending : Bool) → Request → Option Request
unless_pending is_pending request = if is_pending then none else some request

module _ (z : Zod) (to_iso : Text → Option Text) (t : Tournament) where
  -- The settings form's schema replaces the start time by the timestamp.
  pub settings_body : TournamentUpdateBody → Option TournamentUpdateBody
  settings_body b = elim (z_local_date_time z to_iso b.start_time) [
    | none ↦ none
    | some start ↦
        if z_tournament_update_body z b then some (record b { start_time = start }) else none
  ]

  -- `onSubmit` of `NewRankingForm`, and of `RankingEditor` with the click of its other button.
  abbrev pub new_ranking_submit : (is_pending : Bool) → RankingCreateBody → Option Request
  new_ranking_submit is_pending b =
      submits is_pending (z_ranking_create_body z b) (create_ranking b)

  abbrev pub ranking_submit : (is_pending : Bool) → Ranking → RankingBody → Option Request
  ranking_submit is_pending r b = submits is_pending (z_ranking_body z b) (update_ranking r.id b)

  abbrev pub ranking_delete : (is_pending confirmed : Bool) → Ranking → Option Request
  ranking_delete is_pending confirmed r = confirms is_pending confirmed (delete_ranking r.id)

  -- `onSubmit` of `TournamentSettingsForm`, and what it does with a chosen file.
  abbrev pub settings_submit : (is_pending : Bool) → TournamentUpdateBody → Option Request
  settings_submit is_pending b = elim (settings_body b) [
    | none ↦ none
    | some sent ↦ unless_pending is_pending (update_tournament sent)
  ]

  abbrev pub logo_change : (is_pending : Bool) (file : Option Text) → Option Request
  logo_change is_pending none = none
  logo_change is_pending (some file) = unless_pending is_pending (upload_logo file)

  -- The buttons of `SettingsSection`.
  abbrev pub status_click : (is_pending : Bool) → Option Request
  status_click is_pending = unless_pending is_pending (change_status (other_status t.status))

  abbrev pub tournament_delete : (is_pending confirmed : Bool) → Option Request
  tournament_delete is_pending confirmed = confirms is_pending confirmed delete_tournament

  -- `onSubmit` of `StageForm`, and the click of its other button.
  abbrev pub stage_submit : (is_pending : Bool) → Stage → StageUpdateBody → Option Request
  stage_submit is_pending stage b =
      submits is_pending (z_stage_update_body z b) (update_stage stage.id b)

  abbrev pub stage_delete : (is_pending confirmed : Bool) → Stage → Option Request
  stage_delete is_pending confirmed stage = confirms is_pending confirmed (delete_stage stage.id)

  -- `onSubmit` of `NewStageItemForm`.
  abbrev pub new_stage_item_submit : (is_pending : Bool) → StageItemCreateBody → Option Request
  new_stage_item_submit is_pending b =
      submits is_pending (z_stage_item_create_body z b)
        (create_stage_item (record b { name = trimmed_name b.name }))

  -- `onSubmit` of `StageItemNameForm`, and the click of its other button.
  abbrev pub stage_item_submit :
      (is_pending : Bool) → StageItem → StageItemUpdateBody → Option Request
  stage_item_submit is_pending item b =
      submits is_pending (z_stage_item_update_body z b) (update_stage_item item.id b)

  abbrev pub stage_item_delete : (is_pending confirmed : Bool) → StageItem → Option Request
  stage_item_delete is_pending confirmed item =
      confirms is_pending confirmed (delete_stage_item item.id)

  -- What an event of the page sends; `is_pending` is whether the event's own mutation is under way.
  unfoldable pub handle : (is_pending confirmed : Bool) → Event → Option Request
  unfolding settings_body submits confirms other_status trimmed_name
  handle is_pending confirmed (ranking_added b) = new_ranking_submit is_pending b
  handle is_pending confirmed (ranking_saved r b) = ranking_submit is_pending r b
  handle is_pending confirmed (ranking_deleted r) = ranking_delete is_pending confirmed r
  handle is_pending confirmed (tournament_saved b) = settings_submit is_pending b
  handle is_pending confirmed (logo_chosen file) = logo_change is_pending file
  handle is_pending confirmed status_clicked = status_click is_pending
  handle is_pending confirmed tournament_deleted = tournament_delete is_pending confirmed
  handle is_pending confirmed stage_added = unless_pending is_pending create_stage
  handle is_pending confirmed (stage_activated direction) =
      unless_pending is_pending (activate_stage direction)
  handle is_pending confirmed (stage_saved stage b) = stage_submit is_pending stage b
  handle is_pending confirmed (stage_deleted stage) = stage_delete is_pending confirmed stage
  handle is_pending confirmed (stage_item_added b) = new_stage_item_submit is_pending b
  handle is_pending confirmed (stage_item_saved item b) = stage_item_submit is_pending item b
  handle is_pending confirmed (stage_item_deleted item) =
      stage_item_delete is_pending confirmed item

-- What follows a request that has succeeded.
pub data Effect : Type 0 where
  form_reset stays : Effect
  navigates : Text → Effect

unfoldable pub on_success : Request → Effect
on_success (create_ranking b) = form_reset
on_success (create_stage_item b) = form_reset
on_success delete_tournament = navigates (codes "/")
on_success _ = stays

-- `StagesSection`: whether a stage is open.
abbrev is_focused : (focus_stage_item : Option ℕ) → StageItem → Bool
is_focused none item = false
is_focused (some id) item = item.id == id

unfoldable pub starts_open : (focus_stage_item : Option ℕ) → Stage → Bool
starts_open focus stage = stage.is_active || any (is_focused focus) stage.stage_items
