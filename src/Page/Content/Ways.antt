-- ===== src/Page/Content/Ways.antt =====
-- The ways between the Details pages: redirections and tabs.
use brackets.Base.{
  All, All-append, Any, Any-get_elem?, Bool, List, Text, [], any-eq-false_iff, any_iff, append-nil,
  arith, codes, false, get_elem?, if◌then◌else◌, not, refl, some, sym, true, ℕ, ◌++◌, ◌↔◌, ◌∷◌, ◌≡◌,
  ◌≢◌, ◌⊎◌,
}
use brackets.Model.{Stage, StageItem, single_elimination, swiss}
use brackets.Inputs.{is_bracket, has_bracket_view}
use brackets.Page.{
  TournamentSection, overview, players, teams, schedule, rankings, settings, stages, dashboard,
  dashboard_schedule, dashboard_standings, dashboard_bracket, dashboard_teams, dashboard_team,
  dashboard_present_schedule, dashboard_present_standings, tournament_routes,
}
use brackets.Page.Content.{
  has_groups, has_brackets, stage_items_of, navigate, bracket_section, standings_section, content,
  Tab, details_tabs,
}

-- The section sends nobody on.
abbrev pub Settles : (public_path : Text) → List Stage → TournamentSection → Type 0
Settles path ss section = (to : Text) → content section path ss ≢ navigate to

Settles-standings :
    (path : Text) (ss : List Stage) → has_groups ss ≡ true → Settles path ss dashboard_standings
unfolding content
Settles-standings path ss h to e = ground arith

Settles-bracket :
    (path : Text) (ss : List Stage) → has_brackets ss ≡ true → Settles path ss dashboard_bracket
unfolding content
Settles-bracket path ss h to e = ground arith

is_bracket_iff : (i : StageItem) → (is_bracket i ≡ true) ↔ (i.kind ≡ single_elimination)
unfolding is_bracket
is_bracket_iff i = ground arith

not_bracket_iff : (i : StageItem) → (not (is_bracket i) ≡ false) ↔ (i.kind ≡ single_elimination)
not_bracket_iff i = ground (arith, is_bracket_iff i)

-- An item of a stage that is drawn as a bracket.
abbrev pub IsDrawn : StageItem → Type 0
IsDrawn i = (i.kind ≡ single_elimination) ⊎ (i.kind ≡ swiss)

has_bracket_view_iff : (i : StageItem) → (has_bracket_view i ≡ true) ↔ IsDrawn i
unfolding has_bracket_view is_bracket
has_bracket_view_iff i = ground arith

-- Every item of the stages is a knockout, and there is one: there is a bracket and no standings.
abbrev pub HasOnlyBrackets : List Stage → Type 0
HasOnlyBrackets ss =
    Any IsDrawn (stage_items_of ss) × All (λ i. i.kind ≡ single_elimination) (stage_items_of ss)

-- No item of the stages is drawn as a bracket, and one is no knockout: there are only standings.
abbrev pub HasOnlyGroups : List Stage → Type 0
HasOnlyGroups ss =
    Any (λ i. i.kind ≢ single_elimination) (stage_items_of ss)
    × All (λ i. ¬ IsDrawn i) (stage_items_of ss)

of_standings :
    (path to : Text) (ss : List Stage)
    → content dashboard_standings path ss ≡ navigate to
    → (to ≡ path ++ codes "/bracket")
      × HasOnlyBrackets ss
      × (content dashboard_bracket path ss ≡ bracket_section)
unfolding content has_groups has_brackets
of_standings path to ss h =
    let groups = any-eq-false_iff _ _ not_bracket_iff (stage_items_of ss) in
    let brackets = any_iff has_bracket_view _ has_bracket_view_iff (stage_items_of ss) in
    ground arith

of_bracket :
    (path to : Text) (ss : List Stage)
    → content dashboard_bracket path ss ≡ navigate to
    → (to ≡ path ++ codes "/standings")
      × HasOnlyGroups ss
      × (content dashboard_standings path ss ≡ standings_section)
unfolding content has_groups has_brackets
of_bracket path to ss h =
    let groups = any_iff _ _ is_group_iff (stage_items_of ss) in
    let brackets = any-eq-false_iff has_bracket_view _ not_drawn_iff (stage_items_of ss) in
    ground arith
  where
    is_group_iff : (i : StageItem) → (not (is_bracket i) ≡ true) ↔ (i.kind ≢ single_elimination)
    is_group_iff i = ground (arith, is_bracket_iff i)

    not_drawn_iff : (i : StageItem) → (has_bracket_view i ≡ false) ↔ ¬ IsDrawn i
    not_drawn_iff i = ground (arith, has_bracket_view_iff i)

-- The visitor is sent on to `to`, from the standings to the bracket or the other way.
abbrev pub SendsOn : TournamentSection → (path to : Text) → List Stage → Type 0
SendsOn dashboard_standings path to ss =
    (to ≡ path ++ codes "/bracket")
    × HasOnlyBrackets ss
    × (content dashboard_bracket path ss ≡ bracket_section)
SendsOn dashboard_bracket path to ss =
    (to ≡ path ++ codes "/standings")
    × HasOnlyGroups ss
    × (content dashboard_standings path ss ≡ standings_section)
SendsOn _ path to ss = ⊥

-- Only two sections send the visitor on: the standings, to the bracket, where every item of the stages
-- is a knockout and there is one, and then the bracket is shown; and the bracket, to the standings,
-- where an item is no knockout and none is drawn as a bracket, and then the standings are shown.
pub content-navigate :
    (section : TournamentSection) (path to : Text) (ss : List Stage)
    → content section path ss ≡ navigate to
    → SendsOn section path to ss
unfolding content
content-navigate dashboard_standings path to ss h = of_standings path to ss h
content-navigate dashboard_bracket path to ss h = of_bracket path to ss h
content-navigate overview path to ss h = cc
content-navigate players path to ss h = cc
content-navigate teams path to ss h = cc
content-navigate schedule path to ss h = cc
content-navigate rankings path to ss h = cc
content-navigate settings path to ss h = cc
content-navigate stages path to ss h = cc
content-navigate dashboard path to ss h = cc
content-navigate dashboard_schedule path to ss h = cc
content-navigate dashboard_teams path to ss h = cc
content-navigate dashboard_team path to ss h = cc
content-navigate dashboard_present_schedule path to ss h = cc
content-navigate dashboard_present_standings path to ss h = cc

-- The route is of a section below the Details page that sends nobody on.
abbrev Shows :
    (public_path : Text) → List Stage → (suffix : Text) → Text × TournamentSection → Type 0
Shows path ss suffix route = (route.0 ≡ codes "/dashboard" ++ suffix) × Settles path ss route.1

-- The tab's address is that of a section under the path, which sends nobody on.
abbrev pub LeadsSomewhere : (public_path : Text) → List Stage → Tab → Type 0
LeadsSomewhere path ss t =
    (suffix : Text) × (t.to ≡ path ++ suffix) × Any (Shows path ss suffix) tournament_routes

-- A tab that is shown only for some tournaments.
All-if :
    (p : Tab → Type 0) (shown : Bool) (t : Tab)
    → (shown ≡ true → p t)
    → All p (if shown then t ∷ [] else [])
All-if p true t h = (h refl, tt)
All-if p false t h = tt

-- The section with an index in the table of the routes.
leads :
    (path : Text) (ss : List Stage) (n : ℕ) (label suffix : Text) (section : TournamentSection)
    → get_elem? tournament_routes n ≡ some (codes "/dashboard" ++ suffix, section)
    → Settles path ss section
    → LeadsSomewhere path ss (record { ends = false; label = label; to = path ++ suffix })
leads path ss n label suffix section listed settles =
    (suffix, refl, Any-get_elem? (Shows path ss suffix) n tournament_routes listed (refl, settles))

-- Every tab of the Details pages leads to a section that shows something of its own.
pub details_tabs-LeadsSomewhere :
    (path : Text) (ss : List Stage) → All (LeadsSomewhere path ss) (details_tabs path ss)
unfolding details_tabs content
details_tabs-LeadsSomewhere path ss = (
  (
    codes "",
    sym (append-nil path),
    Any-get_elem? (Shows path ss (codes "")) 8 tournament_routes refl
        (sym (append-nil (codes "/dashboard")), λ to e. cc),
  ),
  (
    leads path ss 9 (codes "Schedule") (codes "/schedule") dashboard_schedule refl (λ to e. cc),
    All-append (LeadsSomewhere path ss) _ _
        (All-if (LeadsSomewhere path ss) (has_groups ss) _ (λ groups.
          leads path ss 10 (codes "Standings") (codes "/standings") dashboard_standings refl
            (Settles-standings path ss groups)))
        (All-append (LeadsSomewhere path ss) _ _
          (All-if (LeadsSomewhere path ss) (has_brackets ss) _ (λ brackets.
            leads path ss 11 (codes "Bracket") (codes "/bracket") dashboard_bracket refl
              (Settles-bracket path ss brackets)))
          (
            leads path ss 12 (codes "Teams") (codes "/teams") dashboard_teams refl (λ to e. cc),
            tt,
          )),
  ),
)
