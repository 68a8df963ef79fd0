-- ===== src/Page/Links.antt =====
-- Where the links around a page's content lead.
use brackets.Base.{
  All, All-append, Any, Any-get_elem?, Bool, Bool-cases, List, Num, Option, Text, [], ap,
  append-nil, append_assoc, arith, codes, decimal, false, get_elem?, if◌then◌else◌, inl, inr, none,
  refl, some, starts_with, sym, text_eq, true, ℕ, ℤ, ◌++◌, ◌∷◌, ◌≡◌,
}
use brackets.Model.{Stage, Tournament}
use brackets.Tournament.{public_tournament_path, public_tournament_key}
use brackets.Api.{TournamentBundle}
use brackets.Page.{
  TournamentSection, overview, players, teams, schedule, rankings, settings, stages, dashboard,
  dashboard_schedule, dashboard_standings, dashboard_bracket, dashboard_teams, tournament_routes,
  is_dashboard, is_big_screen, section_name,
}
use brackets.Page.Content.{Tab, public_path, details_tabs, workspace_tabs, has_groups, has_brackets}
use brackets.Page.Chrome.{
  section_title, HeaderAction, manage_link, details_link, no_action, Chrome, big_screen,
  with_header, exit_path, header_action, header_tabs, header_of, chrome,
}

-- The address is that of a route of the section under the tournament's key.
abbrev pub LeadsToSection : (key : Text) → TournamentSection → (to : Text) → Type 0
LeadsToSection key section to =
    (suffix : Text) × (to ≡ codes "/tournaments/" ++ key ++ suffix)
    × Any (λ route. route ≡ (suffix, section)) tournament_routes

-- The address of a route under the tournament's key, of one of its Details pages or of another.
abbrev pub LeadsTo : (key : Text) (is_details : Bool) (to : Text) → Type 0
LeadsTo key is_details to =
    (section : TournamentSection) × LeadsToSection key section to
    × (is_dashboard section ≡ is_details)

-- What a tab of the section is called: by its title, and the first page has none.
abbrev pub tab_title : TournamentSection → Text
tab_title section = elim (section_title section) [ none ↦ codes "Overview" | some title ↦ title ]

-- The tab leads to a section of its name.
abbrev pub TabLeads : (key : Text) (is_details : Bool) → Tab → Type 0
TabLeads key is_details t =
    (section : TournamentSection) × LeadsToSection key section t.to
    × (is_dashboard section ≡ is_details)
    × (t.label ≡ tab_title section)

-- The route with an index in the table.
abbrev routed :
    (n : ℕ) {suffix : Text} {section : TournamentSection}
    → get_elem? tournament_routes n ≡ some (suffix, section)
    → Any (λ route. route ≡ (suffix, section)) tournament_routes
routed n {suffix} {section} h =
    Any-get_elem? (λ route. route ≡ (suffix, section)) n tournament_routes h refl

abbrev details_of : Text → Text
details_of key = codes "/tournaments/" ++ key ++ codes "/dashboard"

details_of-append :
    (key rest : Text)
    → details_of key ++ rest ≡ codes "/tournaments/" ++ (key ++ (codes "/dashboard" ++ rest))
details_of-append key rest =
    ap (λ s. codes "/tournaments/" ++ s) (append_assoc key (codes "/dashboard") rest)

-- The Details page with an index in the table.
below-LeadsTo :
    (n : ℕ) (key rest : Text) (section : TournamentSection)
    → get_elem? tournament_routes n ≡ some (codes "/dashboard" ++ rest, section)
    → LeadsToSection key section (details_of key ++ rest)
below-LeadsTo n key rest section listed =
    (codes "/dashboard" ++ rest, details_of-append key rest, routed n listed)

details-LeadsTo : (key : Text) → LeadsToSection key dashboard (details_of key)
details-LeadsTo key = (codes "/dashboard", refl, routed 8 refl)

exit_path-LeadsTo :
    (section : TournamentSection) (key : Text)
    → LeadsTo key true (exit_path section (details_of key))
unfolding exit_path is_dashboard starts_with
exit_path-LeadsTo section key =
    elim (Bool-cases (text_eq (section_name section) (codes "dashboard-present-schedule"))) [
      | inl scheduled ↦ rw scheduled (
        dashboard_schedule,
        below-LeadsTo 9 key (codes "/schedule") dashboard_schedule refl,
        refl,
      )
      | inr other ↦ rw other (dashboard, details-LeadsTo key, refl)
    ]

-- A tab that is there only for some tournaments.
All-if :
    (key : Text) (shown : Bool) (t : Tab)
    → TabLeads key true t
    → All (TabLeads key true) (if shown then t ∷ [] else [])
All-if key true t h = (h, tt)
All-if key false t h = tt

details_tabs-LeadsTo :
    (key : Text) (ss : List Stage) → All (TabLeads key true) (details_tabs (details_of key) ss)
unfolding details_tabs is_dashboard starts_with
details_tabs-LeadsTo key ss =
    let below = below-LeadsTo in
    (
      (dashboard, details-LeadsTo key, refl, refl),
      (
        (dashboard_schedule, below 9 key (codes "/schedule") dashboard_schedule refl, refl, refl),
        All-append (TabLeads key true) _ _
            (All-if key (has_groups ss) _ (
              dashboard_standings,
              below 10 key (codes "/standings") dashboard_standings refl,
              refl,
              refl,
            ))
            (All-append (TabLeads key true) _ _
              (All-if key (has_brackets ss) _ (
                dashboard_bracket,
                below 11 key (codes "/bracket") dashboard_bracket refl,
                refl,
                refl,
              ))
              (
                (dashboard_teams, below 12 key (codes "/teams") dashboard_teams refl, refl, refl),
                tt,
              )),
      ),
    )

home-LeadsTo : (id : ℕ) → LeadsToSection (decimal id) overview (codes "/tournaments/" ++ decimal id)
home-LeadsTo id =
    (codes "", ap (λ k. codes "/tournaments/" ++ k) (sym (append-nil (decimal id))), routed 0 refl)

workspace_tabs-LeadsTo : (id : ℕ) → All (TabLeads (decimal id) false) (workspace_tabs id)
unfolding workspace_tabs is_dashboard starts_with
workspace_tabs-LeadsTo id = (
  (overview, home-LeadsTo id, refl, refl),
  (
    (players, (codes "/players", refl, routed 1 refl), refl, refl),
    (
      (teams, (codes "/teams", refl, routed 2 refl), refl, refl),
      (
        (stages, (codes "/stages", refl, routed 6 refl), refl, refl),
        (
          (schedule, (codes "/schedule", refl, routed 3 refl), refl, refl),
          (
            (rankings, (codes "/rankings", refl, routed 4 refl), refl, refl),
            ((settings, (codes "/settings", refl, routed 5 refl), refl, refl), tt),
          ),
        ),
      ),
    ),
  ),
)

-- The link beside the name: from the Details pages to the workspace, for those who may manage the
-- tournament, and the other way to the Details page under the tournament's own link; without a link
-- the page is a Details page of a visitor.
abbrev pub ActionLeads :
    TournamentSection → (can_manage : Bool) → Tournament → HeaderAction → Type 0
ActionLeads section can_manage t (manage_link to) =
    (is_dashboard section ≡ true) × (can_manage ≡ true) × LeadsToSection (decimal t.id) overview to
ActionLeads section can_manage t (details_link to) =
    (is_dashboard section ≡ false) × LeadsToSection (public_tournament_key t) dashboard to
ActionLeads section can_manage t no_action = (is_dashboard section ≡ true) × (can_manage ≡ false)

-- The tabs of a Details page are under the key of its address, those of the workspace under the id.
abbrev pub ChromeLeads : TournamentSection → (key : Text) → TournamentBundle → Chrome → Type 0
ChromeLeads section key bundle (big_screen name to) =
    (is_big_screen section ≡ true) × LeadsTo key true to
ChromeLeads section key bundle (with_header h) =
    All
      (TabLeads (if is_dashboard section then key else decimal bundle.tournament.id)
        (is_dashboard section))
      h.tabs
    × ActionLeads section bundle.can_manage bundle.tournament h.action

-- The key under which the page's Details pages are.
abbrev details_key : TournamentSection → (key : Text) → TournamentBundle → Text
details_key section key bundle =
    if is_dashboard section then key else public_tournament_key bundle.tournament

public_path-details_of :
    (section : TournamentSection) (key : Text) (bundle : TournamentBundle)
    → public_path section key bundle ≡ details_of (details_key section key bundle)
unfolding public_path public_tournament_path
public_path-details_of section key bundle = elim (Bool-cases (is_dashboard section)) [
  | inl details ↦ rw details refl
  | inr workspace ↦ rw workspace refl
]

header_tabs-LeadsTo :
    (section : TournamentSection) (bundle : TournamentBundle) (key : Text)
    → All
        (TabLeads
          (if is_dashboard section then key else decimal bundle.tournament.id)
          (is_dashboard section))
        (header_tabs section bundle (details_of (details_key section key bundle)))
unfolding header_tabs
header_tabs-LeadsTo section bundle key = elim (Bool-cases (is_dashboard section)) [
  | inl details ↦ rw details (details_tabs-LeadsTo key bundle.stages)
  | inr workspace ↦ rw workspace (workspace_tabs-LeadsTo bundle.tournament.id)
]

header_action-LeadsTo :
    (section : TournamentSection) (can_manage : Bool) (t : Tournament) (key : Text)
    → ActionLeads section can_manage t (
        header_action section can_manage t.id
          (details_of (if is_dashboard section then key else public_tournament_key t)))
unfolding header_action
header_action-LeadsTo section can_manage t key = elim (Bool-cases (is_dashboard section)) [
  | inr workspace ↦ rw workspace (workspace, details-LeadsTo (public_tournament_key t))
  | inl details ↦ elim (Bool-cases can_manage) [
    | inl managed ↦ rw (details, managed) (details, refl, home-LeadsTo t.id)
    | inr visited ↦ rw (details, visited) (details, refl)
  ]
]

starts_with-append : (s p q : Text) → starts_with s (p ++ q) ≡ true → starts_with s p ≡ true
unfolding starts_with
starts_with-append s [] q h = refl
starts_with-append [] (d ∷ p) q h = ground arith
starts_with-append (c ∷ s) (d ∷ p) q h = ground (arith, starts_with-append s p q)

is_big_screen-is_dashboard :
    (section : TournamentSection) → is_big_screen section ≡ true → is_dashboard section ≡ true
unfolding is_big_screen is_dashboard
is_big_screen-is_dashboard section h =
    starts_with-append (section_name section) (codes "dashboard") (codes "-present") h

module _ {Date : Type 0} (parse_iso : Text → Option Date) (is_this_year is_today : Date → Bool)
    (format : Date → Text → Text) (get_time : Text → Num) (now : ℤ) where
  -- Every link around the content of a tournament's page has the address of one of its routes. A tab
  -- leads to the section of its name: on a Details page to a Details page under the key of the page's
  -- own address, in the workspace to a page of the workspace under the tournament's id. The link
  -- beside the name leads from a Details page to the workspace's first page, and is there only for
  -- those who may manage the tournament, and from the workspace to the first Details page under the
  -- tournament's public key. A big screen's way out leads to a Details page under its own key.
  pub chrome-ChromeLeads :
      (section : TournamentSection) (key : Text) (bundle : TournamentBundle)
      → ChromeLeads section key bundle
          (chrome parse_iso is_this_year is_today format get_time now section key bundle)
  unfolding chrome header_of
  chrome-ChromeLeads section key bundle =
      let path = public_path-details_of section key bundle in
      elim (Bool-cases (is_big_screen section)) [
        | inl big ↦
            rw (path, big, is_big_screen-is_dashboard section big)
              (big, exit_path-LeadsTo section key)
        | inr small ↦
            rw (path, small)
              (
                header_tabs-LeadsTo section bundle key,
                header_action-LeadsTo section bundle.can_manage bundle.tournament key,
              )
      ]
