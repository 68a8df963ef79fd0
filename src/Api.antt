-- ===== src/Api.antt =====
-- frontend/src/app/api.ts: loading what a tournament's pages show.
--
-- The API itself is a parameter: `server` is what answers a request after the requests of a history.
-- A response has a payload or is refused, with the status of the response if there was one.
pub mod Bundle
pub mod Requests
pub mod Links
mod Exchange
unfoldable pub use Exchange.*
use brackets.Base.{
  Bool, List, Option, Text, [], false, filter, if◌then◌else◌, map, not, true, ℕ, ◌&&◌, ◌*◌, ◌||◌,
  ◌∷◌,
}
use brackets.Model.{
  Tournament, Team, Player, FullTeamWithPlayers, StageItemInputStanding, Round, StageItem, Stage,
  Ranking, StageItemInputUpdate, SlotOption,
}
use brackets.Url.{is_numeric_identifier}

-- `data.data[0]`, or the error that is thrown without one.
first_tournament : Text → List Tournament → Reply Tournament
first_tournament key [] = failed (no_such_link key)
first_tournament key (t ∷ ts) = answered t

-- `fetchTournament`; `read_number` is `Number`.
unfoldable pub fetch_tournament :
    Server
    → (read_number : Text → Option ℕ) → (tournament_key : Text) (dashboard_mode : Bool) → Client
    → Client × Reply Tournament
unfolding first_tournament
fetch_tournament server read_number key dashboard c =
    if is_numeric_identifier key
    then send server (tournament_with (read_number key)) c
    else if dashboard
    then and_then (send server (tournaments_named key) c) (λ ts d. (d, first_tournament key ts))
    else (c, failed not_numeric)

unfoldable pub without_draft_rounds : List Stage → List Stage
without_draft_rounds = map (λ (stage : Stage). record {
  created = stage.created;
  custom_duration_minutes = stage.custom_duration_minutes;
  id = stage.id;
  is_active = stage.is_active;
  name = stage.name;
  stage_items =
      map
        (λ (item : StageItem). record {
          created = item.created;
          id = item.id;
          inputs = item.inputs;
          name = item.name;
          ranking_id = item.ranking_id;
          rounds = filter (λ (r : Round). not r.is_draft) item.rounds;
          stage_id = item.stage_id;
          team_count = item.team_count;
          kind = item.kind;
          type_name = item.type_name;
        })
        stage.stage_items;
  tournament_id = stage.tournament_id;
})

-- The `catch`: a refusal of the drafts is followed by a request without them.
unfoldable pub or_without_drafts :
    Server
    → (tournament_id : ℕ) (is_authenticated : Bool) → Client × Reply (List Stage)
    → Client × Reply (Bool × List Stage)
or_without_drafts server id authenticated (c, answered stages) =
    (c, answered (authenticated, stages))
or_without_drafts server id authenticated (c, failed e) =
    if not authenticated || not (is_authorization_error e)
    then (c, failed e)
    else and_then (send server (stages_of id true) c) (λ stages d. (d, answered (false, stages)))

-- `canManage` and `stages` after the `try`: the drafts are asked for on behalf of a user who is
-- signed in.
unfoldable pub fetch_stages :
    Server
    → (tournament_id : ℕ) (is_authenticated : Bool) → Client
    → Client × Reply (Bool × List Stage)
unfolding or_without_drafts
fetch_stages server id authenticated c =
    or_without_drafts server id authenticated (send server (stages_of id (not authenticated)) c)

-- `Promise.all` of two: both are sent, and an error of either fails the whole. When both fail, the
-- error is here that of the first; in the browser it is that of the earlier response.
pair_of : {A B : Type 0} → Reply A → Reply B → Reply (A × B)
pair_of (answered a) (answered b) = answered (a, b)
pair_of (answered a) (failed e) = failed e
pair_of (failed e) r = failed e

unfoldable pub both :
    {A B : Type 0}
    → (Client → Client × Reply A)
    → (Client → Client × Reply B)
    → Client
    → Client × Reply (A × B)
unfolding pair_of
both f g c = let (d, a) = f c in let (e, b) = g d in (e, pair_of a b)

pub record Management : Type 0 where
  pub available_inputs : List (Text × List SlotOption)
  pub next_stage_rankings : List (Text × List StageItemInputUpdate)

abbrev pub no_management : Management
no_management = record { available_inputs = []; next_stage_rankings = [] }

-- `managementData`, with `?? {}` for none.
unfoldable pub fetch_management :
    Server → (tournament_id : ℕ) (wanted : Bool) → Client → Client × Reply Management
unfolding both
fetch_management server id wanted c =
    if wanted
    then and_then
        (both (send server (available_inputs_of id)) (send server (next_stage_rankings_of id)) c)
        (λ replies d.
          (d, answered (record { available_inputs = replies.0; next_stage_rankings = replies.1 })))
    else (c, answered no_management)

-- The four requests that every page makes.
abbrev pub Shared : Type 0
Shared =
    (List Player × List FullTeamWithPlayers)
    × (List Ranking × List (Text × List StageItemInputStanding))

unfoldable pub fetch_shared : Server → (tournament_id : ℕ) → Client → Client × Reply Shared
unfolding both
fetch_shared server id =
    both (both (send server (players_of id)) (send server (teams_of id)))
      (both (send server (rankings_of id)) (send server (standings_of id)))

pub record TournamentBundle : Type 0 where
  pub can_manage : Bool
  pub tournament : Tournament
  pub stages : List Stage
  pub players : List Player
  pub teams : List FullTeamWithPlayers
  pub rankings : List Ranking
  pub standings : List (Text × List StageItemInputStanding)
  pub available_inputs : List (Text × List SlotOption)
  pub next_stage_rankings : List (Text × List StageItemInputUpdate)

unfoldable pub bundle_of :
    Tournament
    → (dashboard_mode : Bool) → Bool × List Stage
    → Shared
    → Management
    → TournamentBundle
bundle_of tournament dashboard (can_manage, stages) ((players, teams), (rankings, standings)) m =
    record {
      can_manage = can_manage;
      tournament = tournament;
      stages = if dashboard then without_draft_rounds stages else stages;
      players = players;
      teams = teams;
      rankings = rankings;
      standings = standings;
      available_inputs = m.available_inputs;
      next_stage_rankings = m.next_stage_rankings;
    }

-- `fetchTournamentBundle`
unfoldable pub fetch_tournament_bundle :
    Server
    → (read_number : Text → Option ℕ)
    → (tournament_key : Text) (dashboard_mode is_authenticated : Bool) → Client
    → Client × Reply TournamentBundle
fetch_tournament_bundle server read_number key dashboard authenticated c =
    and_then (fetch_tournament server read_number key dashboard c) (λ tournament c1.
      and_then (fetch_stages server tournament.id authenticated c1) (λ staged c2.
        and_then (fetch_shared server tournament.id c2) (λ shared c3.
          and_then (fetch_management server tournament.id (staged.0 && not dashboard) c3)
            (λ managed c4. (c4, answered (bundle_of tournament dashboard staged shared managed))))))
