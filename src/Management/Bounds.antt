-- ===== src/Management/Bounds.antt =====
-- The bounds of the bodies that the organizers' forms send, from the checks of their schemas.
use brackets.Base.{
  Bool, List-cases, Num, Option, Text, [], ap, arith, false, inl, inr, length, length-append, max,
  min, none, some, suc, true, ℕ, ◌++◌, ◌+◌, ◌∙◌, ◌≡◌, ◌≤◌,
}
use brackets.Model.{Tournament}
use brackets.Tournament.{trim}
use brackets.Tournament.Laws.{trim_split}
use brackets.Forms.{
  Zod, ZodLaws, nullable, StageUpdateBody, StageItemCreateBody, StageItemUpdateBody,
  z_stage_update_body, z_stage_item_create_body, z_stage_item_update_body,
}
use brackets.Forms.Limits.{
  IsName, IsWithin, AreSettings, text_within-HasLength, z_tournament_update_body-AreSettings,
}
use brackets.Forms.Submits.{submits, IfSent, submits-IfSent, confirms-IfSent}
use brackets.Management.{
  Request, update_tournament, update_stage, create_stage_item, update_stage_item, Event,
  ranking_added, ranking_saved, ranking_deleted, tournament_saved, logo_chosen, status_clicked,
  tournament_deleted, stage_added, stage_activated, stage_saved, stage_deleted, stage_item_added,
  stage_item_saved, stage_item_deleted, handle, trimmed_name,
}
use brackets.Management.Bodies.{unless_pending-IfSent, settings_body-IfSent}

abbrev pub MaybeName : Option Text → Type 0
MaybeName none = Unit
MaybeName (some s) = IsName s

abbrev pub MaybeWithin : (min max : Option ℕ) → Option Num → Type 0
MaybeWithin min max none = Unit
MaybeWithin min max (some n) = IsWithin min max n

-- The bounds that the backend puts on a body. A request without such a body has none.
abbrev pub InBounds : Request → Type 0
InBounds (update_tournament b) = AreSettings b
InBounds (update_stage id b) = IsName b.name × MaybeWithin (some 1) none b.custom_duration_minutes
InBounds (create_stage_item b) = MaybeName b.name × IsWithin (some 2) (some 64) b.team_count
InBounds (update_stage_item id b) = IsName b.name
InBounds _ = Unit

length-trim_le : (s : Text) → length (trim s) ≤ length s
length-trim_le s =
    let (before, behind, _, _, cut) = trim_split s in
    let counted : length s ≡ length before + length (trim s) + length behind =
      ap length cut
      ∙ length-append (before ++ trim s) behind
      ∙ ap (λ n. n + length behind) (length-append before (trim s)) in
    omega arith

module _ (z : Zod) (laws : ZodLaws z) (to_iso : Text → Option Text) (t : Tournament) where
  nullable-MaybeWithin :
      (n : Option Num)
      → nullable (z.int_within (some 1) none) n ≡ true
      → MaybeWithin (some 1) none n
  nullable-MaybeWithin none h = tt
  nullable-MaybeWithin (some n) h = laws.int_within_lem (some 1) none n h

  stage_valid :
      (b : StageUpdateBody)
      → z_stage_update_body z b ≡ true
      → IsName b.name × MaybeWithin (some 1) none b.custom_duration_minutes
  unfolding z_stage_update_body
  stage_valid b valid = (
    text_within-HasLength z laws 1 100 b.name (ground arith),
    nullable-MaybeWithin b.custom_duration_minutes (ground arith),
  )

  trimmed_bound : (s : Text) → length s ≤ 100 → length (trim s) ≤ 100
  trimmed_bound s h = omega (arith, length-trim_le s)

  trimmed_name-MaybeName :
      (name : Option Text)
      → nullable (z.text_within 1 (some 100)) name ≡ true
      → MaybeName (trimmed_name name)
  unfolding trimmed_name
  trimmed_name-MaybeName none h = tt
  trimmed_name-MaybeName (some s) h = elim (List-cases (trim s)) [
    | inl blank ↦ rw (blank, MaybeName) tt
    | inr (c, rest, cut) ↦
        let bounds = text_within-HasLength z laws 1 100 s h in
        let kept : suc (length rest) ≤ 100 = rw cut at (trimmed_bound s bounds.1) in
        rw (cut, MaybeName) (ground arith, kept)
  ]

  saved_valid : (b : StageItemUpdateBody) → z_stage_item_update_body z b ≡ true → IsName b.name
  unfolding z_stage_item_update_body
  saved_valid b valid = text_within-HasLength z laws 1 100 b.name (ground arith)

  item_valid :
      (b : StageItemCreateBody)
      → z_stage_item_create_body z b ≡ true
      → MaybeName (trimmed_name b.name) × IsWithin (some 2) (some 64) b.team_count
  unfolding z_stage_item_create_body
  item_valid b valid = (
    trimmed_name-MaybeName b.name (ground arith),
    laws.int_within_lem (some 2) (some 64) b.team_count (ground arith),
  )

  -- Every body that the page sends is within the backend's bounds, as far as they are stated here:
  -- names have from 1 to 100 characters, a new stage item 2 to 64 teams and no empty name, matches
  -- last a minute or more, and breaks are not negative.
  pub handle-InBounds :
      (is_pending confirmed : Bool) (e : Event)
      → IfSent InBounds (handle z to_iso t is_pending confirmed e)
  unfolding handle
  handle-InBounds busy agreed (ranking_added b) = submits-IfSent InBounds busy _ _ (λ _ _. tt)
  handle-InBounds busy agreed (ranking_saved r b) = submits-IfSent InBounds busy _ _ (λ _ _. tt)
  handle-InBounds busy agreed (ranking_deleted r) =
      confirms-IfSent InBounds busy _ agreed (λ _ _. tt)
  handle-InBounds busy agreed (tournament_saved b) =
      settings_body-IfSent z to_iso t InBounds busy agreed b
        (λ start idle valid. z_tournament_update_body-AreSettings z laws b valid)
  handle-InBounds busy agreed (logo_chosen none) = tt
  handle-InBounds busy agreed (logo_chosen (some file)) =
      unless_pending-IfSent InBounds busy _ (λ _. tt)
  handle-InBounds busy agreed status_clicked = unless_pending-IfSent InBounds busy _ (λ _. tt)
  handle-InBounds busy agreed tournament_deleted =
      confirms-IfSent InBounds busy _ agreed (λ _ _. tt)
  handle-InBounds busy agreed stage_added = unless_pending-IfSent InBounds busy _ (λ _. tt)
  handle-InBounds busy agreed (stage_activated direction) =
      unless_pending-IfSent InBounds busy _ (λ _. tt)
  handle-InBounds busy agreed (stage_saved stage b) =
      submits-IfSent InBounds busy _ _ (λ _ valid. stage_valid b valid)
  handle-InBounds busy agreed (stage_deleted stage) =
      confirms-IfSent InBounds busy _ agreed (λ _ _. tt)
  handle-InBounds busy agreed (stage_item_added b) =
      submits-IfSent InBounds busy _ _ (λ _ valid. item_valid b valid)
  handle-InBounds busy agreed (stage_item_saved item b) =
      submits-IfSent InBounds busy _ _ (λ _ valid. saved_valid b valid)
  handle-InBounds busy agreed (stage_item_deleted item) =
      confirms-IfSent InBounds busy _ agreed (λ _ _. tt)

  no_name : (b : StageItemCreateBody) → b.name ≡ some [] → z_stage_item_create_body z b ≡ false
  unfolding z_stage_item_create_body
  no_name b unnamed = ground (arith, laws.text_within_iff 1 (some 100) [])

  -- A new stage item whose name is left empty is never sent, whatever else the form holds: its schema
  -- refuses the empty name.
  pub handle-unnamed :
      (is_pending confirmed : Bool) (b : StageItemCreateBody)
      → b.name ≡ some []
      → handle z to_iso t is_pending confirmed (stage_item_added b) ≡ none
  unfolding handle submits
  handle-unnamed busy agreed b unnamed = ground (arith, no_name b unnamed)
