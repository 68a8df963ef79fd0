-- ===== src/Home.antt =====
-- frontend/src/app/pages/home-page.tsx: the tournaments of the home page, as data. Dates and markup
-- are left out.
pub mod Laws
use brackets.Base.{
  Bool, List, Num, Option, Text, [], codes, decimal, false, filter, if◌then◌else◌, length, map,
  none, not, num_sub, reverse, some, sort_by, true, ℕ, ℤ, ◌++◌, ◌==◌, ◌∷◌,
}
use brackets.Model.{Tournament, TournamentStatus}
use brackets.Tournament.{TournamentPhase, tournament_phase, public_tournament_path, is_open}
use brackets.Url.{RequestError, get_error_message}

-- `TournamentCard`: the badge, whether the durations are shown, and the links with their labels.
pub record TournamentCard : Type 0 where
  pub badge : TournamentPhase
  pub name : Text
  pub shows_durations : Bool
  pub links : List (Text × Text)

-- `/tournaments/${tournament.id}`
abbrev pub manage_path : Tournament → Text
manage_path t = codes "/tournaments/" ++ decimal t.id

unfoldable pub card_links : (can_manage : Bool) → Tournament → List (Text × Text)
card_links false t = (codes "Details", public_tournament_path t) ∷ []
card_links true t =
    (codes "Manage", manage_path t)
    ∷ (if t.dashboard_public then (codes "Details", public_tournament_path t) ∷ [] else [])

pub record TournamentGroup : Type 0 where
  pub title : Text
  pub cards : List TournamentCard

-- The query of the tournaments: whether it has no answer yet, its error and its data.
pub record TournamentsQuery : Type 0 where
  pub is_pending : Bool
  pub error : Option RequestError
  pub answer : Option (List Tournament)

pub data TournamentList : Type 0 where
  loading_tournaments : TournamentList
  unable_to_load no_tournaments : (text : Text) → TournamentList
  groups : List TournamentGroup → TournamentList

-- `tournaments.data?.data ?? []`
unfoldable pub listed : Option (List Tournament) → List Tournament
listed none = []
listed (some ts) = ts

abbrev empty_hint : (can_manage : Bool) → Text
empty_hint true = codes "Create your first tournament with the form on this page."
empty_hint false = codes "Tournaments show up here as soon as the organizers publish them."

module _ (get_time : Text → Num) where
  -- `byStartTime`
  unfoldable pub by_start_time : Tournament → Tournament → Num
  by_start_time left right = num_sub (get_time left.start_time) (get_time right.start_time)

  unfoldable pub active_tournaments : List Tournament → List Tournament
  unfolding by_start_time
  active_tournaments all = sort_by by_start_time (filter (λ (t : Tournament). is_open t.status) all)

  unfoldable pub finished_tournaments : List Tournament → List Tournament
  unfolding by_start_time
  finished_tournaments all =
      reverse (sort_by by_start_time (filter (λ (t : Tournament). not (is_open t.status)) all))

module _ (get_time : Text → Num) (now : ℤ) where
  unfoldable pub tournament_card : (can_manage : Bool) → Tournament → TournamentCard
  unfolding card_links
  tournament_card can_manage t = record {
    badge = tournament_phase get_time t now;
    name = t.name;
    shows_durations = can_manage;
    links = card_links can_manage t;
  }

  -- `TournamentGroup`, which is nothing for an empty list.
  unfoldable pub tournament_group :
      (can_manage : Bool) (title : Text) → List Tournament → List TournamentGroup
  unfolding tournament_card
  tournament_group can_manage title [] = []
  tournament_group can_manage title (t ∷ ts) =
      record { title = title; cards = map (tournament_card can_manage) (t ∷ ts) } ∷ []

  -- `tournamentList`
  unfoldable pub tournament_list : (can_manage : Bool) → TournamentsQuery → TournamentList
  unfolding listed tournament_group active_tournaments finished_tournaments
  tournament_list can_manage query =
      let all = listed query.answer in
      if query.is_pending then loading_tournaments else elim query.error [
        | some e ↦ unable_to_load (get_error_message e)
        | none ↦
            if length all == 0
            then no_tournaments (empty_hint can_manage)
            else groups (
                tournament_group can_manage (codes "Running and upcoming")
                  (active_tournaments get_time all)
                ++ tournament_group can_manage (codes "Finished")
                    (finished_tournaments get_time all))
      ]

-- What stands beside the list: nothing for a visitor; the form, which starts with the first of the
-- events, or the link to the page of events.
pub data NewTournamentPanel : Type 0 where
  no_panel needs_event : NewTournamentPanel
  new_tournament_form : (club_id : ℕ) → NewTournamentPanel

unfoldable pub new_tournament_panel :
    (can_manage : Bool) (club_ids : Option (List ℕ)) → NewTournamentPanel
new_tournament_panel false clubs = no_panel
new_tournament_panel true none = needs_event
new_tournament_panel true (some []) = needs_event
new_tournament_panel true (some (c ∷ cs)) = new_tournament_form c
