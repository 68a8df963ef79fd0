-- ===== src/Tournament.antt =====
-- frontend/src/app/utils.ts: the phase of a tournament and the path of its Details page. `get_time` is
-- `new Date(text).getTime()`, NaN for a text that is no date.
pub mod Laws
pub mod Trim
pub mod Dates
use brackets.Base.{
  Bool, Num, Option, Text, [], codes, decimal, false, if◌then◌else◌, leb, none, not, num_gt, some,
  true, truthy, ℕ, ℤ, ◌&&◌, ◌++◌, ◌==◌, ◌||◌, ◌∷◌,
}
use brackets.Model.{Tournament, TournamentStatus, open_status, archived}

-- The characters that `trim` removes: ECMAScript's white space and line terminators.
unfoldable pub is_space : ℕ → Bool
is_space c =
    (leb 0x9 c && leb c 0xd)
    || c == 0x20
    || c == 0xa0
    || c == 0x1680
    || (leb 0x2000 c && leb c 0x200a)
    || c == 0x2028
    || c == 0x2029
    || c == 0x202f
    || c == 0x205f
    || c == 0x3000
    || c == 0xfeff

unfoldable pub trim_start : Text → Text
trim_start [] = []
trim_start (c ∷ s) = if is_space c then trim_start s else c ∷ s

-- A character is dropped from the end if nothing that stays follows it.
keep_unless_last : ℕ → Text → Text
keep_unless_last c [] = if is_space c then [] else c ∷ []
keep_unless_last c (d ∷ s) = c ∷ d ∷ s

trim_end : Text → Text
trim_end [] = []
trim_end (c ∷ s) = keep_unless_last c (trim_end s)

unfoldable pub trim : Text → Text
unfolding trim_start trim_end keep_unless_last
trim s = trim_end (trim_start s)

-- `normalizeDashboardEndpoint` of a value that is a text or null.
unfoldable pub normalize_dashboard_endpoint : Option Text → Option Text
normalize_dashboard_endpoint none = none
normalize_dashboard_endpoint (some s) = if truthy (trim s) then some (trim s) else none

-- `endpoint ?? tournament.id` in a template.
abbrev pub key_text : Option Text → ℕ → Text
key_text none id = decimal id
key_text (some s) id = s

unfoldable pub public_tournament_key : Tournament → Text
public_tournament_key t =
    key_text
      (if t.dashboard_public then normalize_dashboard_endpoint t.dashboard_endpoint else none) t.id

unfoldable pub public_tournament_path : Tournament → Text
unfolding public_tournament_key
public_tournament_path t = codes "/tournaments/" ++ public_tournament_key t ++ codes "/dashboard"

pub data TournamentPhase : Type 0 where
  finished running upcoming : TournamentPhase

abbrev pub is_open : TournamentStatus → Bool
is_open open_status = true
is_open archived = false

unfoldable pub tournament_phase : (Text → Num) → Tournament → ℤ → TournamentPhase
tournament_phase get_time t now =
    if not (is_open t.status)
    then finished
    else if num_gt (get_time t.start_time) (some now)
    then upcoming
    else running
