-- ===== src/Examples/Loading.antt =====
-- The small tournament as it is loaded and shown.
use brackets.Base.{
  All, List, [], all_digits, arith, codes, false, flat_map, none, refl, some, starts_with,
  to_number, true, ◌↔◌, ◌∷◌, ◌≡◌, ◌⊎◌,
}
use brackets.Model.{Stage}
use brackets.Api.{
  Server, Client, Request, Reply, Payload, answered, failed, refused, TournamentBundle,
  fetch_tournament, fetch_tournament_bundle, tournaments_named, tournament_with, stages_of,
  players_of, teams_of, rankings_of, standings_of, available_inputs_of, next_stage_rankings_of,
  send, fetch_stages, fetch_shared, fetch_management,
}
use brackets.Api.Bundle.{Describes, fetch_tournament_bundle_lem}
use brackets.Api.Requests.{IsAllowed, fetch_tournament_bundle-IsAllowed}
use brackets.Api.Links.{public_tournament_key-fetch_tournament}
use brackets.Tournament.{public_tournament_key, normalize_dashboard_endpoint}
use brackets.Page.{
  stages, players, schedule, dashboard_schedule, dashboard_standings, is_dashboard, is_enabled,
  tournament_page, pending, loaded, view,
}
use brackets.Page.Access.{IsDetailsAddress, tournament_page-view_iff, tournament_page-navigate}
use brackets.Page.Content.{content, details_tabs}
use brackets.Page.Content.Ways.{SendsOn, content-navigate}
use brackets.Examples.{read_nothing, tournament, swiss_stages, cup_item, stage_with, standings}

-- A backend that knows the one tournament, and shows its drafts to nobody.
abbrev reply : (q : Request) → Reply (Payload q)
reply (tournaments_named name) = answered (tournament ∷ [])
reply (tournament_with id) = answered tournament
reply (stages_of id true) = answered swiss_stages
reply (stages_of id false) = failed (refused (some 401))
reply (players_of id) = answered []
reply (teams_of id) = answered []
reply (rankings_of id) = answered []
reply (standings_of id) = answered standings
reply (available_inputs_of id) = answered []
reply (next_stage_rankings_of id) = answered []

abbrev backend : Server
backend history q = reply q

abbrev signed_in : Client
signed_in = record { has_session = true; sent = []; notices = 0 }

abbrev after : Client
after = record {
  has_session = false;
  sent =
      standings_of 1
      ∷ rankings_of 1
      ∷ teams_of 1
      ∷ players_of 1
      ∷ stages_of 1 true
      ∷ stages_of 1 false
      ∷ tournament_with none
      ∷ [];
  notices = 1;
}

-- The session has expired, so the tournament is loaded as visitors see it.
abbrev pub bundle : TournamentBundle
bundle = record {
  can_manage = false;
  tournament = tournament;
  stages = swiss_stages;
  players = [];
  teams = [];
  rankings = [];
  standings = standings;
  available_inputs = [];
  next_stage_rankings = [];
}

loading_run :
    ◌≡◌ {A = Client × Reply TournamentBundle}
      (fetch_tournament_bundle backend read_nothing (codes "1") false true signed_in)
      (after, answered bundle)
unfolding fetch_tournament_bundle fetch_tournament fetch_stages fetch_shared fetch_management send
    brackets.Api.and_then brackets.Url.is_numeric_identifier brackets.Base.all_digits
    brackets.Api.is_authorization_error brackets.Api.bundle_of
loading_run = refl

fetch_tournament_bundle_lem_example :
    Describes backend read_nothing (codes "1") false true signed_in bundle
fetch_tournament_bundle_lem_example =
    fetch_tournament_bundle_lem backend read_nothing (codes "1") false true signed_in after bundle
      loading_run

fetch_tournament_bundle-IsAllowed_example :
    All
      (IsAllowed true false)
      (fetch_tournament_bundle backend read_nothing (codes "1") false true signed_in).0.sent
fetch_tournament_bundle-IsAllowed_example =
    fetch_tournament_bundle-IsAllowed backend read_nothing (codes "1") false true signed_in tt

public_tournament_key-fetch_tournament_example :
    (fetch_tournament backend
      (to_number read_nothing)
      (public_tournament_key tournament)
      true
      signed_in).0.sent
    ≡ tournaments_named (codes "cup") ∷ []
unfolding normalize_dashboard_endpoint brackets.Tournament.trim brackets.Tournament.is_space
    brackets.Url.is_numeric_identifier brackets.Base.all_digits
public_tournament_key-fetch_tournament_example =
    public_tournament_key-fetch_tournament backend read_nothing tournament signed_in (omega arith)
      refl

tournament_page-view_iff_example :
    (tournament_page dashboard_schedule (codes "1") false (loaded bundle) ≡ view bundle)
    ↔ (loaded bundle ≡ loaded bundle)
      × ((is_dashboard dashboard_schedule ≡ true) ⊎ ((false ≡ true) × (false ≡ true)))
tournament_page-view_iff_example =
    tournament_page-view_iff dashboard_schedule (codes "1") false (loaded bundle) bundle

sent_away :
    tournament_page schedule (codes "1") false pending
    ≡ brackets.Page.navigate (codes "/tournaments/1/dashboard/schedule")
unfolding tournament_page brackets.Base.starts_with
sent_away = refl

tournament_page-navigate_example :
    IsDetailsAddress (codes "1") (codes "/tournaments/1/dashboard/schedule")
tournament_page-navigate_example =
    tournament_page-navigate schedule (codes "1") false pending
      (codes "/tournaments/1/dashboard/schedule") sent_away

abbrev cup_stages : List Stage
cup_stages = stage_with (cup_item ∷ []) ∷ []

no_groups :
    content dashboard_standings (codes "/d") cup_stages
    ≡ brackets.Page.Content.navigate (codes "/d/bracket")
unfolding content brackets.Base.flat_map brackets.Inputs.is_bracket brackets.Inputs.has_bracket_view
no_groups = refl

content-navigate_example : SendsOn dashboard_standings (codes "/d") (codes "/d/bracket") cup_stages
content-navigate_example =
    content-navigate dashboard_standings (codes "/d") (codes "/d/bracket") cup_stages no_groups
