-- ===== src/Schedule.antt =====
-- The tournament's matches in order of time, and the lists that the pages cut from them:
-- `flattenMatches` and `compareMatchesByTime` of frontend/src/app/utils.ts, the `matches` of
-- `TournamentView` (pages/tournament-page.tsx), `TimeSlots`, `ScheduleSection` and
-- `BigScreenSchedule` (sections/tournament-schedule.tsx), and `OverviewSection` and `MyTeamPanel`
-- (sections/tournament-overview.tsx).
pub mod Order
pub mod Published
pub mod Slots
pub mod Lists
use brackets.Base.{
  Bool, List, Num, Option, Text, [], drop, false, filter, flat_map, if◌then◌else◌, length, map,
  max_safe_integer, none, not, num_ne, num_sub, pos, reverse, some, sort_by, take, text_eq, true, ℕ,
  ℤ, ◌++◌, ◌-ℤ◌, ◌-◌, ◌==◌, ◌∷◌,
}
use brackets.Model.{Match, Round, Stage, StageItem, FlattenedMatch, FullTeamWithPlayers}
use brackets.Inputs.{involves_team}
use brackets.Matches.{
  match_status, MatchStatus, finished, live, scheduled, waiting, is_live, next_match,
}

round_matches : Stage → StageItem → Round → List FlattenedMatch
round_matches stage item r =
    map (λ m. record { stage = stage; stage_item = item; round = r; entry = m }) r.matches

item_matches : Stage → StageItem → List FlattenedMatch
item_matches stage item = flat_map (round_matches stage item) item.rounds

stage_matches : Stage → List FlattenedMatch
stage_matches stage = flat_map (item_matches stage) stage.stage_items

unfoldable pub flatten_matches : List Stage → List FlattenedMatch
unfolding round_matches item_matches stage_matches
flatten_matches stages = flat_map stage_matches stages

-- A match without a start time counts as later than every other.
abbrev pub time_of : (Text → Num) → Option Text → Num
time_of get_time none = some (pos max_safe_integer)
time_of get_time (some []) = some (pos max_safe_integer)
time_of get_time (some (c ∷ s)) = get_time (c ∷ s)

unfoldable pub time_key : (Text → Num) → FlattenedMatch → Num
time_key get_time e = time_of get_time e.entry.start_time

unfoldable pub compare_matches_by_time : (Text → Num) → FlattenedMatch → FlattenedMatch → Num
compare_matches_by_time get_time left right =
    if num_ne (time_key get_time left) (time_key get_time right)
    then num_sub (time_key get_time left) (time_key get_time right)
    else if not (left.round.id == right.round.id)
    then some (pos left.round.id -ℤ pos right.round.id)
    else some (pos left.entry.id -ℤ pos right.entry.id)

abbrev pub is_published : FlattenedMatch → Bool
is_published e = not e.round.is_draft

-- `matches` of `TournamentView`: what every page of the tournament shows.
unfoldable pub tournament_matches : (Text → Num) → List Stage → List FlattenedMatch
tournament_matches get_time stages =
    sort_by (compare_matches_by_time get_time) (filter is_published (flatten_matches stages))

abbrev pub is_finished : MatchStatus → Bool
is_finished finished = true
is_finished _ = false

abbrev pub is_scheduled : MatchStatus → Bool
is_scheduled scheduled = true
is_scheduled _ = false

-- `upcoming` of `ScheduleSection` and of `BigScreenSchedule`.
unfoldable pub upcoming_matches : (Text → Num) → ℤ → List FlattenedMatch → List FlattenedMatch
upcoming_matches get_time now = filter (λ e. not (is_finished (match_status get_time e.entry now)))

-- `finished` of `ScheduleSection`, the latest first.
unfoldable pub finished_matches : (Text → Num) → ℤ → List FlattenedMatch → List FlattenedMatch
finished_matches get_time now matches =
    reverse (filter (λ e. is_finished (match_status get_time e.entry now)) matches)

-- `entry.match.start_time ?? ''`
abbrev pub slot_key : FlattenedMatch → Text
slot_key e = elim e.entry.start_time [ none ↦ [] | some s ↦ s ]

-- One step of `Map.groupBy`: the group of a key keeps the place of its first element.
add_to_group :
    Text → FlattenedMatch → List (Text × List FlattenedMatch) → List (Text × List FlattenedMatch)
add_to_group k e [] = (k, e ∷ []) ∷ []
add_to_group k e ((j, es) ∷ groups) =
    if text_eq j k then (j, es ++ e ∷ []) ∷ groups else (j, es) ∷ add_to_group k e groups

group_from :
    List (Text × List FlattenedMatch) → List FlattenedMatch → List (Text × List FlattenedMatch)
group_from groups [] = groups
group_from groups (e ∷ es) = group_from (add_to_group (slot_key e) e groups) es

-- The groups that `TimeSlots` shows: all of them, or the first `max_slots`.
unfoldable pub time_slots : Option ℕ → List FlattenedMatch → List (Text × List FlattenedMatch)
unfolding add_to_group group_from
time_slots none entries = group_from [] entries
time_slots (some max_slots) entries = take max_slots (group_from [] entries)

-- `xs.slice(-n)`
abbrev pub take_last : ℕ → List FlattenedMatch → List FlattenedMatch
take_last n xs = drop (length xs - n) xs

-- The lists of `OverviewSection`.
pub record Overview : Type 0 where
  pub live_now : List FlattenedMatch
  pub coming_up : List FlattenedMatch
  pub latest_results : List FlattenedMatch

unfoldable pub overview : (Text → Num) → ℤ → List FlattenedMatch → Overview
overview get_time now matches = record {
  live_now = filter (λ e. is_live (match_status get_time e.entry now)) matches;
  coming_up = take 6 (filter (λ e. is_scheduled (match_status get_time e.entry now)) matches);
  latest_results =
      reverse (take_last 6 (filter (λ e. is_finished (match_status get_time e.entry now)) matches));
}

-- `next` of `MyTeamPanel`.
unfoldable pub my_next_match : (Text → Num) → ℤ → List FlattenedMatch → ℕ → Option FlattenedMatch
my_next_match get_time now matches team_id =
    next_match get_time now (filter (λ e. involves_team e.entry team_id) matches)
