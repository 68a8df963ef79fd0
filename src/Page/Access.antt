-- ===== src/Page/Access.antt =====
-- Who sees a tournament's pages, and where the others are sent.
use brackets.Base.{
  Any, Bool, Text, ap, append-nil, append_assoc, arith, codes, false, false≢true, inl, inr, refl,
  starts_with, text_eq, true, truthy, ◌++◌, ◌↔◌, ◌∙◌, ◌≡◌, ◌≢◌, ◌⊎◌,
}
use brackets.Url.{RequestError}
use brackets.Api.{TournamentBundle}
use brackets.Page.{
  TournamentSection, overview, players, teams, schedule, rankings, settings, stages, dashboard,
  dashboard_schedule, dashboard_standings, dashboard_bracket, dashboard_teams, dashboard_team,
  dashboard_present_schedule, dashboard_present_standings, tournament_routes, is_dashboard,
  is_management_section, details_suffix, Workspace, pending, without_data, loaded, Page, navigate,
  view, is_locked_out, is_present, send_visitor_to_details, is_enabled, details_page, loaded_page,
  page_of_workspace, tournament_page,
}

-- A Details page, a page for organizers only, or a page that visitors find among the Details pages.
abbrev Kinds : (is_details manages has_details : Bool) → Type 0
Kinds is_details manages has_details =
    ((is_details ≡ true) × (manages ≡ false) × (has_details ≡ false))
    ⊎ (((is_details ≡ false) × (manages ≡ true) × (has_details ≡ false))
        ⊎ ((is_details ≡ false) × (manages ≡ false) × (has_details ≡ true)))

section-Kinds :
    (section : TournamentSection)
    → Kinds
        (is_dashboard section)
        (is_management_section section)
        (is_present (details_suffix section))
unfolding is_dashboard is_management_section starts_with text_eq
section-Kinds overview = inr (inr (refl, refl, refl))
section-Kinds players = inr (inl (refl, refl, refl))
section-Kinds teams = inr (inl (refl, refl, refl))
section-Kinds schedule = inr (inr (refl, refl, refl))
section-Kinds rankings = inr (inl (refl, refl, refl))
section-Kinds settings = inr (inl (refl, refl, refl))
section-Kinds stages = inr (inl (refl, refl, refl))
section-Kinds dashboard = inl (refl, refl, refl)
section-Kinds dashboard_schedule = inl (refl, refl, refl)
section-Kinds dashboard_standings = inl (refl, refl, refl)
section-Kinds dashboard_bracket = inl (refl, refl, refl)
section-Kinds dashboard_teams = inl (refl, refl, refl)
section-Kinds dashboard_team = inl (refl, refl, refl)
section-Kinds dashboard_present_schedule = inl (refl, refl, refl)
section-Kinds dashboard_present_standings = inl (refl, refl, refl)

-- The section is one of the Details pages, or the user is signed in.
abbrev pub IsFor : TournamentSection → (is_authenticated : Bool) → Type 0
IsFor section authenticated = (is_dashboard section ≡ true) ⊎ (authenticated ≡ true)

-- A page's data is loaded if and only if its address names a tournament and the page is a Details
-- page or the user is signed in.
pub is_enabled_iff :
    (section : TournamentSection) (key : Text) (authenticated : Bool)
    → (is_enabled section key authenticated ≡ true)
      ↔ (truthy key ≡ true) × IsFor section authenticated
unfolding is_enabled is_locked_out send_visitor_to_details
is_enabled_iff section key authenticated = let kinds = section-Kinds section in ground arith

shows :
    (section : TournamentSection) (key : Text) (authenticated : Bool) (c b : TournamentBundle)
    → tournament_page section key authenticated (loaded c) ≡ view b
    → (c ≡ b) × ((is_dashboard section ≡ true) ⊎ ((authenticated ≡ true) × (c.can_manage ≡ true)))
unfolding tournament_page is_locked_out send_visitor_to_details details_page page_of_workspace
    loaded_page
shows section key authenticated c b h = let kinds = section-Kinds section in ground arith

shown_to :
    (section : TournamentSection) (key : Text) (authenticated : Bool) (b : TournamentBundle)
    → (is_dashboard section ≡ true) ⊎ ((authenticated ≡ true) × (b.can_manage ≡ true))
    → tournament_page section key authenticated (loaded b) ≡ view b
unfolding tournament_page is_locked_out send_visitor_to_details details_page page_of_workspace
    loaded_page
shown_to section key authenticated b h = let kinds = section-Kinds section in ground arith

never_pending :
    (section : TournamentSection) (key : Text) (authenticated : Bool) (b : TournamentBundle)
    → tournament_page section key authenticated pending ≢ view b
unfolding tournament_page is_locked_out send_visitor_to_details details_page page_of_workspace
never_pending section key authenticated b = ground arith

never_without_data :
    (section : TournamentSection) (key : Text) (authenticated : Bool) (e : RequestError)
    (b : TournamentBundle)
    → tournament_page section key authenticated (without_data e) ≢ view b
unfolding tournament_page is_locked_out send_visitor_to_details details_page page_of_workspace
never_without_data section key authenticated e b = ground arith

-- A bundle is shown if and only if it has loaded and the page is a Details page or the user is
-- signed in and manages the tournament.
pub tournament_page-view_iff :
    (section : TournamentSection) (key : Text) (authenticated : Bool) (w : Workspace)
    (b : TournamentBundle)
    → (tournament_page section key authenticated w ≡ view b)
      ↔ (w ≡ loaded b)
        × ((is_dashboard section ≡ true) ⊎ ((authenticated ≡ true) × (b.can_manage ≡ true)))
tournament_page-view_iff section key authenticated (loaded c) b = (
  λ h.
      let (same, shown) = shows section key authenticated c b h in
      (ap loaded same, rw (← same) shown),
  λ h. let same : b ≡ c = cc in rw same (shown_to section key authenticated c (rw same at h.1)),
)
tournament_page-view_iff section key authenticated pending b =
    (λ h. absurd (never_pending section key authenticated b h), λ h. cc)
tournament_page-view_iff section key authenticated (without_data e) b =
    (λ h. absurd (never_without_data section key authenticated e b h), λ h. cc)

-- The page is a redirection.
abbrev pub Navigates : Page → Type 0
Navigates p = (to : Text) × (p ≡ navigate to)

-- The address is a Details page's that no user is sent away from.
abbrev pub IsDetailsAddress : (tournament_key to : Text) → Type 0
IsDetailsAddress key to =
    Any
      (λ (route : Text × TournamentSection).
        (to ≡ codes "/tournaments/" ++ key ++ route.0)
        × (is_dashboard route.1 ≡ true)
        × ((authenticated : Bool) (w : Workspace)
            → ¬ (Navigates (tournament_page route.1 key authenticated w))))
      tournament_routes

stays :
    (section : TournamentSection) (key : Text)
    → is_dashboard section ≡ true
    → (authenticated : Bool) (w : Workspace)
    → ¬ (Navigates (tournament_page section key authenticated w))
unfolding tournament_page is_locked_out send_visitor_to_details page_of_workspace loaded_page
stays section key h authenticated pending n = let kinds = section-Kinds section in ground arith
stays section key h authenticated (without_data e) n =
    let kinds = section-Kinds section in ground arith
stays section key h authenticated (loaded b) n = let kinds = section-Kinds section in ground arith

navigate_to : (a b : Text) → navigate a ≡ navigate b → b ≡ a
navigate_to a b h = cc

arrives :
    (section : TournamentSection) (key to : Text)
    → is_present (details_suffix section) ≡ true
    → details_page section key ≡ navigate to
    → IsDetailsAddress key to
unfolding details_page is_dashboard starts_with
arrives overview key to h e = inr (
    inr (
      inr (
        inr (
          inr (
            inr (
              inr (
                inr (inl (navigate_to _ to e ∙ append-nil _, refl, stays dashboard key refl)))))))))
arrives schedule key to h e = inr (
    inr (
      inr (
        inr (
          inr (
            inr (
              inr (
                inr (
                  inr (
                    inl (
                      navigate_to _ to e
                          ∙ append_assoc (codes "/tournaments/" ++ key) (codes "/dashboard")
                              (codes "/schedule"),
                      refl,
                      stays dashboard_schedule key refl,
                    ))))))))))
arrives players key to h e = absurd (false≢true h)
arrives teams key to h e = absurd (false≢true h)
arrives rankings key to h e = absurd (false≢true h)
arrives settings key to h e = absurd (false≢true h)
arrives stages key to h e = absurd (false≢true h)
arrives dashboard key to h e = absurd (false≢true h)
arrives dashboard_schedule key to h e = absurd (false≢true h)
arrives dashboard_standings key to h e = absurd (false≢true h)
arrives dashboard_bracket key to h e = absurd (false≢true h)
arrives dashboard_teams key to h e = absurd (false≢true h)
arrives dashboard_team key to h e = absurd (false≢true h)
arrives dashboard_present_schedule key to h e = absurd (false≢true h)
arrives dashboard_present_standings key to h e = absurd (false≢true h)

leaves :
    (section : TournamentSection) (key : Text) (authenticated : Bool) (w : Workspace) (to : Text)
    → tournament_page section key authenticated w ≡ navigate to
    → (is_present (details_suffix section) ≡ true) × (details_page section key ≡ navigate to)
unfolding tournament_page is_locked_out send_visitor_to_details page_of_workspace loaded_page
leaves section key authenticated pending to h = let kinds = section-Kinds section in ground arith
leaves section key authenticated (without_data e) to h =
    let kinds = section-Kinds section in ground arith
leaves section key authenticated (loaded b) to h = let kinds = section-Kinds section in ground arith

-- Whoever is sent from a page arrives at the address of a Details page, and that page sends no user
-- on before it shows its content, whatever has loaded.
pub tournament_page-navigate :
    (section : TournamentSection) (key : Text) (authenticated : Bool) (w : Workspace) (to : Text)
    → tournament_page section key authenticated w ≡ navigate to
    → IsDetailsAddress key to
tournament_page-navigate section key authenticated w to h =
    let (present, e) = leaves section key authenticated w to h in arrives section key to present e
