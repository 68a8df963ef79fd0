-- ===== src/Teams/Places.antt =====
-- The places of a team in its groups.
use brackets.Base.{
  ==_iff, All, All-append, Bool-cases, List, Option-cases, Text, [], arith, false, filter, flat_map,
  get_elem?, inl, inr, length, not, refl, some, suc, take, ℕ, ◌+◌, ◌<◌, ◌==◌, ◌∷◌, ◌≡◌, ◌≢◌, ◌≤◌,
}
use brackets.Model.{StageItem, Stage, StageItemInputStanding}
use brackets.Inputs.{is_bracket}
use brackets.Standings.{StandingEntry, stage_item_standings}
use brackets.Teams.{find_place, Placement, placements, item_placement}

-- The place is the first at which an entry of the team stands.
abbrev pub IsFirstPlace : (team_id : ℕ) → List StandingEntry → ℕ → StandingEntry → Type 0
IsFirstPlace team_id entries index e =
    (e.input.team_id ≡ team_id)
    × (index < length entries)
    × (get_elem? entries index ≡ some e)
    × All (λ x. x.input.team_id ≢ team_id) (take index entries)

find_place_lem :
    (team_id : ℕ) (entries : List StandingEntry) (index : ℕ) (e : StandingEntry)
    → find_place team_id entries ≡ some (index, e)
    → IsFirstPlace team_id entries index e
unfolding find_place
find_place_lem team_id [] index e h = ground arith
find_place_lem team_id (x ∷ xs) index e h = elim (Bool-cases (x.input.team_id == team_id)) [
  | inl here ↦
      let hit : (x ≡ e) × (0 ≡ index) = (ground arith, ground arith) in
      rw (← hit.0, ← hit.1) ((==_iff x.input.team_id team_id).0 here, ground arith, refl, tt)
  | inr elsewhere ↦ elim (Option-cases (find_place team_id xs)) [
    | inl missing ↦ ground arith
    | inr ((i, y), later) ↦
        let hit : (y ≡ e) × (suc i ≡ index) = (ground arith, ground arith) in
        let (same, inside, stands, earlier) = find_place_lem team_id xs i y later in
        rw (← hit.0, ← hit.1) (same, ground arith, stands, ((λ k. ground arith), earlier))
  ]
]

-- What a placement promises: a place in a group that is no knockout bracket, between 1 and the number
-- of its entries, which is the first that its standings give to the team.
abbrev pub IsPlacementOf :
    List (Text × List StageItemInputStanding) → (team_id : ℕ) → Placement → Type 0
IsPlacementOf standings team_id p =
    (is_bracket p.stage_item ≡ false)
    × (0 < p.position)
    × (p.position ≤ p.size)
    × (p.size ≡ length (stage_item_standings p.stage_item standings))
    × ((index : ℕ) × (p.position ≡ index + 1)
        × IsFirstPlace team_id (stage_item_standings p.stage_item standings) index p.entry)

item_placement-IsPlacementOf :
    (standings : List (Text × List StageItemInputStanding)) (team_id : ℕ) (item : StageItem)
    → is_bracket item ≡ false
    → All (IsPlacementOf standings team_id) (item_placement standings team_id item)
unfolding item_placement
item_placement-IsPlacementOf standings team_id item group =
    elim (Option-cases (find_place team_id (stage_item_standings item standings))) [
      | inl missing ↦ rw (missing, All) tt
      | inr ((index, e), found) ↦
          let first = find_place_lem team_id _ index e found in
          rw (found, All)
            ((group, ground arith, ground (arith, first.1), refl, (index, refl, first)), tt)
    ]

-- Every place that a team's page shows is a position from 1 to the size of a group, and the first
-- that the group's standings give to the team.
pub placements-IsPlacementOf :
    (stages : List Stage) (standings : List (Text × List StageItemInputStanding)) (team_id : ℕ)
    → All (IsPlacementOf standings team_id) (placements stages standings team_id)
unfolding placements flat_map
placements-IsPlacementOf [] standings team_id = tt
placements-IsPlacementOf (s ∷ ss) standings team_id =
    All-append (IsPlacementOf standings team_id) _ _ (of_stage s.stage_items)
      (placements-IsPlacementOf ss standings team_id)
  where
    of_stage :
        (items : List StageItem)
        → All (IsPlacementOf standings team_id) (
            flat_map
              (item_placement standings team_id)
              (filter (λ item. not (is_bracket item)) items))
    of_stage [] = tt
    of_stage (item ∷ items) = elim (Bool-cases (is_bracket item)) [
      | inl knockout ↦ rw knockout (of_stage items)
      | inr group ↦ rw group (
          All-append (IsPlacementOf standings team_id) _ _
            (item_placement-IsPlacementOf standings team_id item group) (of_stage items))
    ]
