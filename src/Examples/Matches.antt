-- ===== src/Examples/Matches.antt =====
-- Matches, schedules and standings of the small tournament.
use brackets.Base.{
  All, List, Ordered, Perm, Text, [], all_digits, any, arith, digits_value, filter, flat_map, inl,
  inr, length, map, none, pos, refl, some, sort_by, ◌+ℤ◌, ◌-ℤ◌, ◌==◌, ◌↔◌, ◌∷◌, ◌≡◌, ◌≤◌, ◌⊎◌,
}
use brackets.Model.{FlattenedMatch}
use brackets.Matches.{match_status, live, scheduled, next_match}
use brackets.Matches.Status.{
  Describes, Unscored, ShownLive, match_status_iff, next_match-eq-none_iff,
}
use brackets.Schedule.{
  compare_matches_by_time, time_key, flatten_matches, tournament_matches, is_published, time_slots,
  overview,
}
use brackets.Schedule.Published.{published, IsPlaced, tournament_matches-perm}
use brackets.Schedule.Order.{
  tournament_matches-Ordered, next_match-earliest, IsReadable, Precedes, IsDatedOrUndated,
  ComesBefore,
}
use brackets.Schedule.Slots.{slot_of, starts_at, DistinctSlots, time_slots_lem}
use brackets.Schedule.Lists.{overview_lem}
use brackets.Standings.{stage_item_standings, ranked, team_inputs}
use brackets.Standings.Laws.{stage_item_standings_lem, IsFor}
use brackets.Examples.{
  get_time, won_game, later_game, open_game, first_round, second_round, swiss_item, swiss_stages,
  placed, standings,
}

abbrev listed : List FlattenedMatch
listed = placed second_round open_game ∷ placed second_round later_game ∷ []

match_status_iff_example :
    (match_status get_time later_game (pos 2500) ≡ live)
    ↔ Describes get_time later_game (pos 2500) live
match_status_iff_example = match_status_iff get_time later_game (pos 2500) live

next_match_run : next_match get_time (pos 2500) listed ≡ some (placed second_round later_game)
unfolding next_match match_status all_digits digits_value ◌+ℤ◌
next_match_run = refl

next_match-eq-none_iff_example :
    (next_match get_time (pos 0) (placed first_round won_game ∷ []) ≡ none)
    ↔ All (λ e. ¬ Unscored e.entry) (placed first_round won_game ∷ [])
next_match-eq-none_iff_example =
    next_match-eq-none_iff get_time (pos 0) (placed first_round won_game ∷ [])

tournament_matches-perm_example :
    Perm (map (λ e. e.entry) (tournament_matches get_time swiss_stages)) (published swiss_stages)
    × All (IsPlaced swiss_stages) (tournament_matches get_time swiss_stages)
tournament_matches-perm_example = tournament_matches-perm get_time swiss_stages

swiss_stages-IsReadable :
    All (IsReadable get_time) (filter is_published (flatten_matches swiss_stages))
unfolding flatten_matches flat_map time_key all_digits digits_value
swiss_stages-IsReadable = ((_, refl), ((_, refl), ((_, refl), tt)))

swiss_stages-IsDatedOrUndated : All (IsDatedOrUndated get_time) (published swiss_stages)
unfolding all_digits digits_value
swiss_stages-IsDatedOrUndated = (
  inr (inl refl),
  (inl (_, (_, _, refl, refl, omega arith)), (inl (_, (_, _, refl, refl, omega arith)), tt)),
)

tournament_matches-Ordered_example :
    Ordered (ComesBefore get_time) (tournament_matches get_time swiss_stages)
tournament_matches-Ordered_example =
    tournament_matches-Ordered get_time swiss_stages swiss_stages-IsDatedOrUndated

next_match_of_stages :
    next_match get_time (pos 1500) (tournament_matches get_time swiss_stages)
    ≡ some (placed second_round later_game)
unfolding next_match match_status all_digits digits_value ◌+ℤ◌ tournament_matches sort_by
    flatten_matches flat_map compare_matches_by_time time_key ◌-ℤ◌
next_match_of_stages = refl

not_live : ¬ ShownLive get_time (pos 1500) (placed second_round later_game)
unfolding match_status all_digits digits_value ◌+ℤ◌
not_live h = absurd (waits h)
  where
    waits : scheduled ≡ live → ⊥
    waits h = cc

next_match-earliest_example :
    All
      (λ x.
        Unscored x.entry
        → (x ≡ placed second_round later_game)
          ⊎ Precedes get_time (placed second_round later_game) x)
      (tournament_matches get_time swiss_stages)
next_match-earliest_example =
    next_match-earliest get_time (pos 1500) swiss_stages (placed second_round later_game)
      swiss_stages-IsReadable next_match_of_stages not_live

time_slots_lem_example :
    ((k : Text) → slot_of k (time_slots none listed) ≡ filter (starts_at k) listed)
    × DistinctSlots (time_slots none listed)
time_slots_lem_example = time_slots_lem listed

overview_lem_example :
    All
      (λ e. match_status get_time e.entry (pos 1500) ≡ live)
      (overview get_time (pos 1500) listed).live_now
    × All
        (λ e. match_status get_time e.entry (pos 1500) ≡ scheduled)
        (overview get_time (pos 1500) listed).coming_up
    × (length (overview get_time (pos 1500) listed).coming_up ≤ 6)
overview_lem_example = overview_lem get_time (pos 1500) listed

stage_item_standings_lem_example :
    (map (λ e. e.standing) (stage_item_standings swiss_item standings)
      ≡ filter
          (λ s. any (λ i. i.id == s.stage_item_input_id) (team_inputs swiss_item.inputs))
          (ranked swiss_item standings))
    × All (IsFor (team_inputs swiss_item.inputs)) (stage_item_standings swiss_item standings)
stage_item_standings_lem_example = stage_item_standings_lem swiss_item standings
