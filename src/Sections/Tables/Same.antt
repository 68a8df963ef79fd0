-- ===== src/Sections/Tables/Same.antt =====
-- The tables of the standings against those of the overview's stage items.
use brackets.Base.{
  All, All-mono, Bool, List, Option, Text, [], ap, map, map_from, refl, sym, ℕ, ◌+◌, ◌∙◌, ◌∷◌, ◌≡◌,
}
use brackets.Model.{StageItem, Stage, StageItemInputStanding, FullTeamWithPlayers}
use brackets.Standings.{StandingsTable, stage_item_standings, standings_tables}
use brackets.Standings.Laws.{IsGroupTable, standings_tables-IsGroupTable}
use brackets.Sections.Tables.{
  StandingsRow, standings_rows, VisualRow, StageItemVisualization, bracket, group,
  stage_item_visualization,
}

-- The places of the rows, with their teams.
abbrev pub places : List StandingsRow → List (ℕ × ℕ)
places = map (λ (r : StandingsRow). (r.position, r.entry.input.team_id))

abbrev pub visual_places : StageItemVisualization → List (ℕ × ℕ)
visual_places (bracket drawing) = []
visual_places (group rows rounds) = map (λ (r : VisualRow). (r.position, r.team_id)) rows

map-map_from {ℓ κ ν} :
    {A : Type ℓ} {B : Type κ} {C : Type ν} (g : B → C) (f : ℕ → A → B) (i : ℕ) (xs : List A)
    → map g (map_from i f xs) ≡ map_from i (λ j x. g (f j x)) xs
map-map_from g f i [] = refl
map-map_from g f i (x ∷ xs) = ap (◌∷◌ (g (f i x))) (map-map_from g f (i + 1) xs)

module _ (format_points : Text → Text) (is_one : Text → Bool) (show_matches : Bool)
    (items : List (ℕ × StageItem)) (teams : List (ℕ × FullTeamWithPlayers)) (my_team_id : Option ℕ)
    (tournament_id : ℕ) (standings : List (Text × List StageItemInputStanding)) where
  abbrev pub IsSame : StandingsTable → Type 0
  IsSame t =
      places (standings_rows teams my_team_id t)
      ≡ visual_places (
          stage_item_visualization format_points is_one show_matches items teams tournament_id
            standings t.stage_item)

  standings_rows-IsSame : (t : StandingsTable) → IsGroupTable standings t → IsSame t
  unfolding standings_rows stage_item_visualization
  standings_rows-IsSame t h =
      rw (h.0, h.1)
        (map-map_from _ _ 0 (stage_item_standings t.stage_item standings)
          ∙ sym (map-map_from _ _ 0 (stage_item_standings t.stage_item standings)))

  -- Every table of the standings gives the teams the places that the stage item's own table gives them.
  pub standings_tables-IsSame :
      (stages : List Stage) → All IsSame (standings_tables stages standings)
  standings_tables-IsSame stages =
      All-mono standings_rows-IsSame (standings_tables stages standings)
        (standings_tables-IsGroupTable stages standings)
