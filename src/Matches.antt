-- ===== src/Matches.antt =====
-- frontend/src/app/utils.ts: the result and the status of a match. `now` is the clock's reading, and
-- `get_time` is `new Date(text).getTime()`, which depends on the host's time zone: milliseconds
-- since the epoch, or NaN.
pub mod Status
pub mod Winner
use brackets.Base.{
  Bool, List, Num, Option, Text, [], any, false, find?, if◌then◌else◌, ltb, ltb_ℤ, none, not, pos,
  some, true, ℕ, ℤ, ◌&&◌, ◌*◌, ◌+ℤ◌, ◌==◌, ◌||◌, ◌∷◌,
}
use brackets.Model.{
  Match, Round, Stage, StageItem, Tournament, open_status, archived, TournamentStatus,
  FlattenedMatch, StageItemInput,
}
use brackets.Inputs.{is_swiss}

-- `value == null`
abbrev pub is_null {ℓ} : {A : Type ℓ} → Option A → Bool
is_null none = true
is_null (some a) = false

unfoldable pub is_scored : Match → Bool
is_scored m = not (m.stage_item_input1_score == 0) || not (m.stage_item_input2_score == 0)

pub data MatchOutcome : Type 0 where
  first second draw undecided : MatchOutcome

unfoldable pub match_winner : Match → MatchOutcome
unfolding is_scored
match_winner m =
    if not (is_scored m)
    then undecided
    else if ltb m.stage_item_input2_score m.stage_item_input1_score
    then first
    else if ltb m.stage_item_input1_score m.stage_item_input2_score
    then second
    else draw

pub data MatchStatus : Type 0 where
  finished live scheduled waiting : MatchStatus

-- The window test of `matchStatus`, after `new Date(match.start_time).getTime()`.
in_window : Num → ℕ → ℤ → Bool
in_window none minutes now = false
in_window (some start) minutes now =
    not (ltb_ℤ now start) && ltb_ℤ now (start +ℤ pos (minutes * 60_000))

-- `if (match.start_time)`: null and the empty text are false.
abbrev pub start_of : (Text → Num) → Option Text → Num
start_of get_time none = none
start_of get_time (some []) = none
start_of get_time (some (c ∷ s)) = get_time (c ∷ s)

unfoldable pub match_status : (Text → Num) → Match → ℤ → MatchStatus
unfolding is_scored in_window
match_status get_time m now =
    if is_scored m
    then finished
    else if is_null m.stage_item_input1 || is_null m.stage_item_input2
    then waiting
    else if in_window (start_of get_time m.start_time) m.duration_minutes now
    then live
    else scheduled

abbrev is_open : TournamentStatus → Bool
is_open open_status = true
is_open archived = false

-- A round that everyone can see and that still has a match without a result.
unfoldable pub is_unfinished_round : Round → Bool
unfolding is_scored
is_unfinished_round r = not r.is_draft && any (λ m. not (is_scored m)) r.matches

unfoldable pub is_stage_happening_now : Stage → Tournament → Bool
unfolding is_unfinished_round
is_stage_happening_now stage tournament =
    if not (is_open tournament.status) || not stage.is_active
    then false
    else any (λ item. is_swiss item.kind || any is_unfinished_round item.rounds) stage.stage_items

abbrev pub is_live : MatchStatus → Bool
is_live live = true
is_live _ = false

-- `a ?? b`
abbrev pub or_else {ℓ} : {A : Type ℓ} → Option A → Option A → Option A
or_else none b = b
or_else (some a) b = some a

unfoldable pub next_match : (Text → Num) → ℤ → List FlattenedMatch → Option FlattenedMatch
unfolding match_status is_scored
next_match get_time now entries =
    or_else (find? (λ e. is_live (match_status get_time e.entry now)) entries)
      (find? (λ e. not (is_scored e.entry)) entries)
