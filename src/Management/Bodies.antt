-- ===== src/Management/Bodies.antt =====
-- What the organizers' forms send.
use brackets.Base.{
  Bool, Bool-cases, Option, Option-cases, Text, false, inl, inr, none, some, true, ◌≡◌,
}
use brackets.Model.{Tournament}
use brackets.Forms.{Zod, TournamentUpdateBody, z_tournament_update_body, z_local_date_time}
use brackets.Forms.Submits.{IfSent, submits-IfSent, confirms-IfSent}
use brackets.Management.{
  settings_submit, settings_body, unless_pending, settings_body, Request, delete_ranking,
  update_tournament, delete_tournament, delete_stage, delete_stage_item, Event, ranking_added,
  ranking_saved, ranking_deleted, tournament_saved, logo_chosen, status_clicked, tournament_deleted,
  stage_added, stage_activated, stage_saved, stage_deleted, stage_item_added, stage_item_saved,
  stage_item_deleted, handle,
}

-- The request deletes something.
abbrev pub IsDeletion : Request → Type 0
IsDeletion (delete_ranking id) = Unit
IsDeletion delete_tournament = Unit
IsDeletion (delete_stage id) = Unit
IsDeletion (delete_stage_item id) = Unit
IsDeletion _ = ⊥

module _ (P : Request → Type 0) (is_pending : Bool) (r : Request) where
  pub unless_pending-IfSent : (is_pending ≡ false → P r) → IfSent P (unless_pending is_pending r)
  unless_pending-IfSent h = elim (Bool-cases is_pending) [
    | inl busy ↦ rw (busy, IfSent) tt
    | inr idle ↦ rw (idle, IfSent) (h idle)
  ]

module _ (z : Zod) (to_iso : Text → Option Text) (t : Tournament) where
  pub settings_body-IfSent :
      (P : Request → Type 0) (is_pending confirmed : Bool) (b : TournamentUpdateBody)
      → ((start : Text)
          → is_pending ≡ false
          → z_tournament_update_body z b ≡ true
          → P (update_tournament (record b { start_time = start })))
      → IfSent P (handle z to_iso t is_pending confirmed (tournament_saved b))
  unfolding handle settings_body
  settings_body-IfSent P is_pending confirmed b h =
      elim (Option-cases (z_local_date_time z to_iso b.start_time)) [
        | inl unread ↦ rw (unread, handle, settings_submit, settings_body, IfSent) tt
        | inr (start, reading) ↦ elim (Bool-cases (z_tournament_update_body z b)) [
          | inl valid ↦
              rw (reading, valid, handle, settings_submit, settings_body)
                (unless_pending-IfSent P is_pending _ (λ idle. h start idle valid))
          | inr invalid ↦ rw (reading, invalid, handle, settings_submit, settings_body, IfSent) tt
        ]
      ]

  -- Whatever is done on the page, a request is sent only while the same button's or form's own request
  -- (`is_pending`) is not under way, and one that deletes something only after the organizer has
  -- agreed.
  pub handle-Guarded :
      (is_pending confirmed : Bool) (e : Event)
      → IfSent
          (λ r. (is_pending ≡ false) × (IsDeletion r → confirmed ≡ true))
          (handle z to_iso t is_pending confirmed e)
  unfolding handle
  handle-Guarded busy agreed e = go e
    where
      P : Request → Type 0
      P r = (busy ≡ false) × (IsDeletion r → agreed ≡ true)

      go : (e : Event) → IfSent P (handle z to_iso t busy agreed e)
      go (ranking_added b) = submits-IfSent P busy _ _ (λ idle _. (idle, absurd))
      go (ranking_saved r b) = submits-IfSent P busy _ _ (λ idle _. (idle, absurd))
      go (ranking_deleted r) = confirms-IfSent P busy _ agreed (λ idle answer. (idle, λ _. answer))
      go (tournament_saved b) =
          settings_body-IfSent P busy agreed b (λ start idle valid. (idle, absurd))
      go (logo_chosen none) = tt
      go (logo_chosen (some file)) = unless_pending-IfSent P busy _ (λ idle. (idle, absurd))
      go status_clicked = unless_pending-IfSent P busy _ (λ idle. (idle, absurd))
      go tournament_deleted = confirms-IfSent P busy _ agreed (λ idle answer. (idle, λ _. answer))
      go stage_added = unless_pending-IfSent P busy _ (λ idle. (idle, absurd))
      go (stage_activated direction) = unless_pending-IfSent P busy _ (λ idle. (idle, absurd))
      go (stage_saved stage b) = submits-IfSent P busy _ _ (λ idle _. (idle, absurd))
      go (stage_deleted stage) =
          confirms-IfSent P busy _ agreed (λ idle answer. (idle, λ _. answer))
      go (stage_item_added b) = submits-IfSent P busy _ _ (λ idle _. (idle, absurd))
      go (stage_item_saved item b) = submits-IfSent P busy _ _ (λ idle _. (idle, absurd))
      go (stage_item_deleted item) =
          confirms-IfSent P busy _ agreed (λ idle answer. (idle, λ _. answer))
