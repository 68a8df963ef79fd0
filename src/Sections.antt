-- ===== src/Sections.antt =====
-- frontend/src/app/sections: what the overview, the schedule, the brackets and the standings show,
-- as data. Formatted dates, points and markup are left out.
pub mod Shown
pub mod Tables
use brackets.Base.{
  Bool, List, Num, Option, Text, [], codes, decimal, false, filter, find?, flat_map, if◌then◌else◌,
  join, length, ltb, map, none, not, or_text, some, true, ℕ, ℤ, ◌&&◌, ◌++◌, ◌/◌, ◌==◌, ◌∷◌,
}
use brackets.Model.{
  Match, Round, StageItem, Stage, Tournament, FlattenedMatch, FullTeamWithPlayers, Player,
  StageItemInputStanding, StageItemInputFinal,
}
use brackets.Inputs.{has_bracket_view, is_bracket, input_label, input_team_id}
use brackets.Matches.{
  is_scored, match_winner, MatchOutcome, first, second, draw, undecided, match_status, is_live,
  is_stage_happening_now,
}
use brackets.Schedule.{
  upcoming_matches, finished_matches, time_slots, Overview, overview, my_next_match,
}
use brackets.Bracket.{BracketViewerData, to_bracket_viewer_data}
use brackets.Standings.{
  StandingEntry, stage_item_standings, StandingsTable, standings_tables, team_inputs,
}

-- `stageItem.name || stageItem.type_name`
abbrev pub item_title : StageItem → Text
item_title item = or_text item.name item.type_name

-- `stageItemPath`
unfoldable pub stage_item_path : (public_path : Text) → StageItem → Text
stage_item_path path item =
    path
    ++ codes "/"
    ++ (if is_bracket item then codes "bracket" else codes "standings")
    ++ codes "#stage-item-"
    ++ decimal item.id

-- `MyTeamPanel`
pub data MyTeamPanel : Type 0 where
  no_panel : MyTeamPanel
  find_your_team : List FullTeamWithPlayers → MyTeamPanel
  your_team :
      FullTeamWithPlayers
      → (player_names : Text) (next : Option FlattenedMatch) (is_playing : Bool) → MyTeamPanel

abbrev is_entry_live : (Text → Num) → ℤ → Option FlattenedMatch → Bool
is_entry_live get_time now none = false
is_entry_live get_time now (some e) = is_live (match_status get_time e.entry now)

panel_of :
    (Text → Num)
    → ℤ
    → (sort_by_name : List FullTeamWithPlayers → List FullTeamWithPlayers) → List FlattenedMatch
    → List FullTeamWithPlayers
    → Option FullTeamWithPlayers
    → MyTeamPanel
panel_of get_time now sort_by_name matches ts none = find_your_team (sort_by_name ts)
panel_of get_time now sort_by_name matches ts (some t) =
    let next = my_next_match get_time now matches t.id in
    your_team t (join (codes ", ") (map (λ (p : Player). p.name) t.players)) next
      (is_entry_live get_time now next)

-- `sort_by_name` is `sortTeamsByName`, which compares as the browser's language does.
unfoldable pub my_team_panel :
    (Text → Num)
    → ℤ
    → (sort_by_name : List FullTeamWithPlayers → List FullTeamWithPlayers) → List FlattenedMatch
    → List FullTeamWithPlayers
    → (my_team_id : Option ℕ) → MyTeamPanel
unfolding panel_of
my_team_panel get_time now sort_by_name matches [] id = no_panel
my_team_panel get_time now sort_by_name matches (t ∷ ts) none =
    find_your_team (sort_by_name (t ∷ ts))
my_team_panel get_time now sort_by_name matches (t ∷ ts) (some id) =
    panel_of get_time now sort_by_name matches (t ∷ ts)
      (find? (λ (u : FullTeamWithPlayers). u.id == id) (t ∷ ts))

-- A card of `OverviewSection`: a stage item, its path, and how many of its matches are played.
pub record StageItemCard : Type 0 where
  pub title : Text
  pub path : Text
  pub team_count : ℕ
  pub played : ℕ
  pub match_count : ℕ

unfoldable pub stage_item_card : (public_path : Text) → StageItem → StageItemCard
stage_item_card path item =
    let ms = flat_map (λ (r : Round). r.matches) item.rounds in
    record {
      title = item_title item;
      path = stage_item_path path item;
      team_count = item.team_count;
      played = length (filter is_scored ms);
      match_count = length ms;
    }

pub record OverviewStage : Type 0 where
  pub name : Text
  pub happening_now : Bool
  pub cards : List StageItemCard

-- `OverviewSection`
pub record OverviewSection : Type 0 where
  pub playing_now : Bool
  pub nothing_on : Bool
  pub featured : List FlattenedMatch
  pub coming_up_next : List FlattenedMatch
  pub stages : List OverviewStage
  pub latest : List FlattenedMatch

unfoldable pub overview_section :
    (Text → Num)
    → ℤ
    → (public_path : Text) → Tournament
    → List Stage
    → List FlattenedMatch
    → OverviewSection
overview_section get_time now path tournament ss matches =
    let o = overview get_time now matches in
    let playing = ltb 0 (length o.live_now) in
    record {
      playing_now = playing;
      nothing_on = length o.live_now == 0 && length o.coming_up == 0;
      featured = if playing then o.live_now else o.coming_up;
      coming_up_next = if playing then o.coming_up else [];
      stages =
          map
            (λ (s : Stage). record {
              name = s.name;
              happening_now = is_stage_happening_now s tournament;
              cards = map (stage_item_card path) s.stage_items;
            })
            ss;
      latest = o.latest_results;
    }

-- `ScheduleSection`
pub data ScheduleBody : Type 0 where
  none_scheduled all_finished : ScheduleBody
  slots : List (Text × List FlattenedMatch) → ScheduleBody

pub record ScheduleSection : Type 0 where
  pub body : ScheduleBody
  pub finished_slots : Option (List (Text × List FlattenedMatch))
  pub finished_opened : Bool

unfoldable pub schedule_section : (Text → Num) → ℤ → List FlattenedMatch → ScheduleSection
schedule_section get_time now matches =
    let upcoming = upcoming_matches get_time now matches in
    let finished = finished_matches get_time now matches in
    record {
      body =
          if length matches == 0
          then none_scheduled
          else if length upcoming == 0
          then all_finished
          else slots (time_slots none upcoming);
      finished_slots = if ltb 0 (length finished) then some (time_slots none finished) else none;
      finished_opened = length upcoming == 0;
    }

-- `BigScreenSchedule`
unfoldable pub big_screen_schedule : (Text → Num) → ℤ → List FlattenedMatch → ScheduleBody
big_screen_schedule get_time now matches =
    let upcoming = upcoming_matches get_time now matches in
    if length upcoming == 0 then all_finished else slots (time_slots (some 2) upcoming)

-- `BracketSection`
pub record DrawnItem : Type 0 where
  pub stage : Stage
  pub stage_item : StageItem
  pub drawing : Option BracketViewerData
  pub team_participants : List (ℕ × ℕ)

abbrev pub drawn_item : List (ℕ × StageItem) → ℕ → Stage → StageItem → DrawnItem
drawn_item items tournament_id stage item = record {
  stage = stage;
  stage_item = item;
  drawing = to_bracket_viewer_data item items tournament_id;
  team_participants =
      map (λ (i : StageItemInputFinal). (i.id, i.team_id)) (team_inputs item.inputs);
}

unfoldable pub brackets_of : List (ℕ × StageItem) → ℕ → List Stage → List DrawnItem
brackets_of items tournament_id =
    flat_map (λ (s : Stage).
      map (drawn_item items tournament_id s) (filter has_bracket_view s.stage_items))

-- None when the section shows nothing; otherwise whether its title is in the plural, and the items.
unfoldable pub bracket_section :
    List (ℕ × StageItem) → ℕ → List Stage → Option (Bool × List DrawnItem)
bracket_section items tournament_id ss =
    let bs = brackets_of items tournament_id ss in
    if length bs == 0 then none else some (not (length bs == 1), bs)

-- `sideClass`: whether a side stands out, recedes, or neither.
pub data Emphasis : Type 0 where
  stands_out recedes neither : Emphasis

unfoldable pub side_class : MatchOutcome → (is_first : Bool) → Emphasis
side_class first true = stands_out
side_class first false = recedes
side_class second true = recedes
side_class second false = stands_out
side_class draw side = neither
side_class undecided side = neither
