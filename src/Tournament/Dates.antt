-- ===== src/Tournament/Dates.antt =====
-- formatDateTime, formatMatchTime and tournamentDateLabel of frontend/src/app/utils.ts. A date, its
-- parser (none where `isValid` refuses the result), the tests on it and its printing are date-fns'.
use brackets.Base.{
  Bool, Num, Option, Text, codes, false, if◌then◌else◌, none, some, true, truthy, ℤ, ◌++◌,
}
use brackets.Model.{Tournament}
use brackets.Tournament.{TournamentPhase, upcoming, tournament_phase}

abbrev is_upcoming : TournamentPhase → Bool
is_upcoming upcoming = true
is_upcoming _ = false

module _ {Date : Type 0} (parse_iso : Text → Option Date) (is_this_year is_today : Date → Bool)
    (format : Date → Text → Text) where
  unfoldable pub format_date_time : Option Text → Text
  format_date_time none = codes "Not scheduled yet"
  format_date_time (some value) =
      if truthy value
      then elim (parse_iso value) [
        | none ↦ value
        | some date ↦ format date (if is_this_year date then codes "MMM d, p" else codes "PP, p")
      ]
      else codes "Not scheduled yet"

  -- `value ? parseISO(value) : null`, none for an invalid date, too.
  abbrev read_date : Option Text → Option Date
  read_date none = none
  read_date (some value) = if truthy value then parse_iso value else none

  unfoldable pub format_match_time : Option Text → Text
  unfolding format_date_time
  format_match_time value = elim (read_date value) [
    | none ↦ format_date_time value
    | some date ↦
        if is_today date then codes "Today, " ++ format date (codes "p") else format_date_time value
  ]

  unfoldable pub tournament_date_label : (Text → Num) → Tournament → (now : ℤ) → Text
  unfolding format_date_time
  tournament_date_label get_time t now =
      (if is_upcoming (tournament_phase get_time t now) then codes "Starts " else codes "Started ")
      ++ format_date_time (some t.start_time)
