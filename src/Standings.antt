-- ===== src/Standings.antt =====
-- The ranking of a stage item: `stageItemStandings` of frontend/src/app/utils.ts, and the tables of
-- `StandingsSection` (sections/tournament-standings.tsx).
pub mod Laws
use brackets.Base.{
  List, Text, [], decimal, filter, flat_map, length, ltb, map, map_get, map_of, none, not,
  record_get, some, ℕ, ◌++◌, ◌∷◌,
}
use brackets.Model.{
  StageItem, StageItemInput, tentative, final, vacant, StageItemInputFinal, StageItemInputStanding,
  Stage,
}
use brackets.Inputs.{is_bracket}

pub record StandingEntry : Type 0 where
  pub input : StageItemInputFinal
  pub standing : StageItemInputStanding

-- `stageItem.inputs.filter(hasTeam)`
unfoldable pub team_inputs : List StageItemInput → List StageItemInputFinal
team_inputs [] = []
team_inputs (tentative i ∷ rest) = team_inputs rest
team_inputs (final i ∷ rest) = i ∷ team_inputs rest
team_inputs (vacant i ∷ rest) = team_inputs rest

-- The entries from which `new Map` is built.
abbrev pub by_id : List StageItemInputFinal → List (ℕ × StageItemInputFinal)
by_id = map (λ i. (i.id, i))

-- The body of `flatMap`: one entry, or none.
entry_for : List (ℕ × StageItemInputFinal) → StageItemInputStanding → List StandingEntry
entry_for inputs s = elim (map_get s.stage_item_input_id inputs) [
  | none ↦ []
  | some input ↦ record { input = input; standing = s } ∷ []
]

-- `standings[String(stageItem.id)] ?? []`
abbrev pub ranked :
    StageItem → List (Text × List StageItemInputStanding) → List StageItemInputStanding
ranked item standings = elim (record_get (decimal item.id) standings) [ none ↦ [] | some ss ↦ ss ]

entries_of : List (ℕ × StageItemInputFinal) → List StageItemInputStanding → List StandingEntry
entries_of inputs [] = []
entries_of inputs (s ∷ ss) = entry_for inputs s ++ entries_of inputs ss

unfoldable pub stage_item_standings :
    StageItem → List (Text × List StageItemInputStanding) → List StandingEntry
unfolding entry_for entries_of
stage_item_standings item standings =
    entries_of (map_of (by_id (team_inputs item.inputs))) (ranked item standings)

pub record StandingsTable : Type 0 where
  pub entries : List StandingEntry
  pub stage : Stage
  pub stage_item : StageItem

-- The tables of one stage: its groups that have entries.
stage_tables : List (Text × List StageItemInputStanding) → Stage → List StandingsTable
stage_tables standings stage =
    filter (λ (t : StandingsTable). ltb 0 (length t.entries))
      (map
        (λ item. record {
          entries = stage_item_standings item standings;
          stage = stage;
          stage_item = item;
        })
        (filter (λ item. not (is_bracket item)) stage.stage_items))

unfoldable pub standings_tables :
    List Stage → List (Text × List StageItemInputStanding) → List StandingsTable
unfolding stage_tables
standings_tables stages standings = flat_map (stage_tables standings) stages
