-- ===== src/Standings/Laws.antt =====
-- What the standings show.
use brackets.Base.{
  All, All-Any, All-append, Any, List, Option-cases, Text, [], any, ap, arith, false, filter,
  flat_map, fun_ext, has_value, has_value-map_of, inl, inr, length, ltb, map, map_get, map_get-All,
  map_of, map_of-All, not, refl, ℕ, ◌<◌, ◌==◌, ◌||◌, ◌∙◌, ◌∷◌, ◌≡◌,
}
use brackets.Model.{StageItem, StageItemInputFinal, StageItemInputStanding, Stage}
use brackets.Inputs.{is_bracket}
use brackets.Standings.{
  StandingEntry, team_inputs, by_id, entry_for, ranked, entries_of, stage_item_standings,
  StandingsTable, stage_tables, standings_tables,
}

-- An entry pairs a standing with an input of the list that has the standing's input id.
abbrev pub IsFor : List StageItemInputFinal → StandingEntry → Type 0
IsFor inputs e = (e.input.id ≡ e.standing.stage_item_input_id) × Any (λ i. i ≡ e.input) inputs

by_id-All :
    (before : StageItemInputFinal → Type 0) (inputs : List StageItemInputFinal)
    → All before inputs
    → All (λ (e : ℕ × StageItemInputFinal). (e.1.id ≡ e.0) × before e.1) (by_id inputs)
by_id-All before [] h = tt
by_id-All before (i ∷ is) (p, h) = ((refl, p), by_id-All before is h)

entry_for-All :
    (inputs : List (ℕ × StageItemInputFinal)) (finals : List StageItemInputFinal)
    (s : StageItemInputStanding)
    → All (λ (e : ℕ × StageItemInputFinal). (e.1.id ≡ e.0) × Any (λ j. j ≡ e.1) finals) inputs
    → All (IsFor finals) (entry_for inputs s)
unfolding entry_for
entry_for-All inputs finals s h = elim (Option-cases (map_get s.stage_item_input_id inputs)) [
  | inl missing ↦ rw (missing, entry_for, All) tt
  | inr (i, found) ↦
      rw (found, entry_for, All)
        (
          map_get-All (λ k j. (j.id ≡ k) × Any (λ x. x ≡ j) finals) s.stage_item_input_id inputs h
              found,
          tt,
        )
]

entries_of-All :
    (inputs : List (ℕ × StageItemInputFinal)) (finals : List StageItemInputFinal)
    (ss : List StageItemInputStanding)
    → All (λ (e : ℕ × StageItemInputFinal). (e.1.id ≡ e.0) × Any (λ j. j ≡ e.1) finals) inputs
    → All (IsFor finals) (entries_of inputs ss)
unfolding entries_of
entries_of-All inputs finals [] h = tt
entries_of-All inputs finals (s ∷ ss) h =
    All-append (IsFor finals) (entry_for inputs s) (entries_of inputs ss)
      (entry_for-All inputs finals s h) (entries_of-All inputs finals ss h)

entries_of-standings :
    (inputs : List (ℕ × StageItemInputFinal)) (ss : List StageItemInputStanding)
    → map (λ e. e.standing) (entries_of inputs ss)
      ≡ filter (λ s. has_value (map_get s.stage_item_input_id inputs)) ss
unfolding entries_of entry_for
entries_of-standings inputs [] = refl
entries_of-standings inputs (s ∷ ss) = elim (Option-cases (map_get s.stage_item_input_id inputs)) [
  | inl missing ↦ rw (missing, entry_for) (entries_of-standings inputs ss)
  | inr (i, found) ↦ rw (found, entry_for) (ap (◌∷◌ s) (entries_of-standings inputs ss))
]

any-by_id :
    (k : ℕ) (inputs : List StageItemInputFinal)
    → any (λ (e : ℕ × StageItemInputFinal). e.0 == k) (by_id inputs) ≡ any (λ i. i.id == k) inputs
any-by_id k [] = refl
any-by_id k (i ∷ is) = ap (λ b. (i.id == k) || b) (any-by_id k is)

-- The standings of a stage item are the ranked ones whose input is one of its inputs with a team, in
-- the ranking's order and each as often, and every entry pairs a standing with such an input of the
-- standing's id.
pub stage_item_standings_lem :
    (item : StageItem) (standings : List (Text × List StageItemInputStanding))
    → (map (λ e. e.standing) (stage_item_standings item standings)
        ≡ filter
            (λ s. any (λ i. i.id == s.stage_item_input_id) (team_inputs item.inputs))
            (ranked item standings))
      × All (IsFor (team_inputs item.inputs)) (stage_item_standings item standings)
unfolding stage_item_standings
stage_item_standings_lem item standings =
    let inputs = team_inputs item.inputs in
    (
      entries_of-standings (map_of (by_id inputs)) (ranked item standings)
          ∙ ap (λ p. filter p (ranked item standings))
              (fun_ext (λ s.
                has_value-map_of s.stage_item_input_id (by_id inputs)
                ∙ any-by_id s.stage_item_input_id inputs)),
      entries_of-All (map_of (by_id inputs)) inputs (ranked item standings) (
          map_of-All (λ k j. (j.id ≡ k) × Any (λ x. x ≡ j) inputs) (by_id inputs)
            (by_id-All (λ i. Any (λ j. j ≡ i) inputs) inputs (All-Any inputs))),
    )

-- A table is for a stage item that is no knockout bracket, it has its standings, and it is not empty.
abbrev pub IsGroupTable : List (Text × List StageItemInputStanding) → StandingsTable → Type 0
IsGroupTable standings t =
    (is_bracket t.stage_item ≡ false)
    × (t.entries ≡ stage_item_standings t.stage_item standings)
    × (0 < length t.entries)

-- Every table of the standings page is for a group or a Swiss stage item with at least one entry, and
-- shows exactly that stage item's standings.
pub standings_tables-IsGroupTable :
    (stages : List Stage) (standings : List (Text × List StageItemInputStanding))
    → All (IsGroupTable standings) (standings_tables stages standings)
unfolding standings_tables flat_map
standings_tables-IsGroupTable [] standings = tt
standings_tables-IsGroupTable (stage ∷ stages) standings =
    All-append (IsGroupTable standings) (stage_tables standings stage) _ (here stage.stage_items)
      (standings_tables-IsGroupTable stages standings)
  where
    here :
        (items : List StageItem)
        → All (IsGroupTable standings) (
            filter
              (λ (t : StandingsTable). ltb 0 (length t.entries))
              (map
                (λ item. record {
                  entries = stage_item_standings item standings;
                  stage = stage;
                  stage_item = item;
                })
                (filter (λ item. not (is_bracket item)) items)))
    here [] = tt
    here (item ∷ items) = grind (arith, here items)
