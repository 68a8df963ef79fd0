-- ===== src/Api/Bundle.antt =====
-- What a loaded bundle says of the user and of the rounds.
use brackets.Base.{
  All, All-map, All-mono, Bool, Bool-cases, List, Option, Text, arith, false, false≢true,
  filter-passes, inl, inr, not, refl, sym, true, ℕ, ◌&&◌, ◌↔◌, ◌∙◌, ◌≡◌,
}
use brackets.Model.{Tournament, Round, StageItem, Stage}
use brackets.Api.{
  Reply, answered, failed, Server, Client, send, and_then, fetch_tournament, fetch_stages,
  or_without_drafts, fetch_management, Shared, fetch_shared, TournamentBundle, bundle_of,
  fetch_tournament_bundle, is_authorization_error, stages_of, without_draft_rounds, Management,
}

-- No stage item of the stages has a draft round.
abbrev pub IsPublic : List Stage → Type 0
IsPublic stages =
    All
      (λ (s : Stage).
        All (λ (i : StageItem). All (λ (r : Round). r.is_draft ≡ false) i.rounds) s.stage_items)
      stages

without_draft_rounds-IsPublic : (stages : List Stage) → IsPublic (without_draft_rounds stages)
unfolding without_draft_rounds
without_draft_rounds-IsPublic stages =
    All-map _ _
      (λ (s : Stage).
        All-map _ _
          (λ (i : StageItem).
            All-mono (λ (r : Round) (kept : not r.is_draft ≡ true). public r.is_draft kept) _
              (filter-passes (λ (r : Round). not r.is_draft) i.rounds))
          s.stage_items)
      stages
  where
    public : (b : Bool) → not b ≡ true → b ≡ false
    public b h = ground arith

abbrev pub IsAnswered : {A : Type 0} → Reply A → Type 0
IsAnswered (answered a) = Unit
IsAnswered (failed e) = ⊥

-- The bundle comes from a tournament that was found, after requests that `c` is left with.
abbrev pub IsFound :
    Server → (Text → Option ℕ) → Text → Bool → Client → Tournament → Client → Type 0
IsFound server read_number key dashboard c t c1 =
    fetch_tournament server read_number key dashboard c ≡ (c1, answered t)

and_then_answered :
    {A B : Type 0} (r : Client × Reply A) (k : A → Client → Client × Reply B) (d : Client) (b : B)
    (P : Type 0)
    → and_then r k ≡ (d, answered b)
    → ((a : A) (c : Client) → r ≡ (c, answered a) → k a c ≡ (d, answered b) → P)
    → P
unfolding and_then
and_then_answered (c, answered a) k d b P e next = next a c refl e
and_then_answered (c, failed f) k d b P e next = cc

answered_same :
    {A : Type 0} (c d : Client) (a b : A)
    → ◌≡◌ {A = Client × Reply A} (c, answered a) (d, answered b)
    → a ≡ b
answered_same c d a b e = cc

or_without_drafts_manages :
    (server : Server) (id : ℕ) (authenticated : Bool) (r : Client × Reply (List Stage)) (d : Client)
    (staged : Bool × List Stage)
    → or_without_drafts server id authenticated r ≡ (d, answered staged)
    → staged.0 ≡ true ↔ (authenticated ≡ true) × IsAnswered r.1
unfolding or_without_drafts
or_without_drafts_manages server id authenticated (c, answered stages) d staged e =
    let same : authenticated ≡ staged.0 = cc in (λ h. (same ∙ h, tt), λ h. sym same ∙ h.0)
or_without_drafts_manages server id false (c, failed f) d staged e = cc
or_without_drafts_manages server id true (c, failed f) d staged e =
    elim (Bool-cases (is_authorization_error f)) [
      | inl authorization ↦
          and_then_answered (send server (stages_of id true) c) (λ ss d. (d, answered (false, ss)))
            d staged _ (rw authorization at e)
            (λ ss c1 _ last.
              rw (← answered_same c1 d (false, ss) staged last)
                (λ h. absurd (false≢true h), λ h. absurd h.1))
      | inr other ↦ cc
    ]

fetch_stages_manages :
    (server : Server) (id : ℕ) (authenticated : Bool) (c d : Client) (staged : Bool × List Stage)
    → fetch_stages server id authenticated c ≡ (d, answered staged)
    → staged.0 ≡ true ↔ (authenticated ≡ true) × IsAnswered (server c.sent (stages_of id false))
unfolding fetch_stages send
fetch_stages_manages server id true c d staged e =
    or_without_drafts_manages server id true (send server (stages_of id false) c) d staged e
fetch_stages_manages server id false c d staged e =
    let manages =
      or_without_drafts_manages server id false (send server (stages_of id true) c) d staged e in
    (λ h. absurd (false≢true (manages.0 h).0), λ h. absurd (false≢true h.0))

-- The tournament was found, the user manages it if and only if they are signed in and the API gives
-- them its draft rounds, and on the Details pages no round is a draft.
abbrev pub Describes :
    Server
    → (Text → Option ℕ)
    → Text
    → (dashboard authenticated : Bool) → Client
    → TournamentBundle
    → Type 0
Describes server read_number key dashboard authenticated c b =
    ((c1 : Client) × IsFound server read_number key dashboard c b.tournament c1
      × (b.can_manage ≡ true
          ↔ (authenticated ≡ true) × IsAnswered (server c1.sent (stages_of b.tournament.id false))))
    × (dashboard ≡ true → IsPublic b.stages)

bundle_of-Describes :
    (server : Server) (read_number : Text → Option ℕ) (key : Text) (dashboard authenticated : Bool)
    (c c1 : Client) (t : Tournament) (staged : Bool × List Stage) (shared : Shared) (m : Management)
    → IsFound server read_number key dashboard c t c1
    → staged.0 ≡ true ↔ (authenticated ≡ true) × IsAnswered (server c1.sent (stages_of t.id false))
    → Describes server read_number key dashboard authenticated c
        (bundle_of t dashboard staged shared m)
unfolding bundle_of
bundle_of-Describes server read_number key dashboard authenticated c c1 t staged shared m found
      manages =
    ((c1, found, manages), λ h. rw h (without_draft_rounds-IsPublic staged.1))

-- When a tournament has loaded, the user manages it if and only if they are signed in and the API
-- gave them its draft rounds; and what a Details page shows has no draft round.
pub fetch_tournament_bundle_lem :
    (server : Server) (read_number : Text → Option ℕ) (key : Text) (dashboard authenticated : Bool)
    (c d : Client) (b : TournamentBundle)
    → fetch_tournament_bundle server read_number key dashboard authenticated c ≡ (d, answered b)
    → Describes server read_number key dashboard authenticated c b
unfolding fetch_tournament_bundle
fetch_tournament_bundle_lem server read_number key dashboard authenticated c d b e =
    and_then_answered (fetch_tournament server read_number key dashboard c) _ d b _ e
      (λ tournament c1 found e1.
        and_then_answered (fetch_stages server tournament.id authenticated c1) _ d b _ e1
          (λ staged c2 stages e2.
            and_then_answered (fetch_shared server tournament.id c2) _ d b _ e2 (λ shared c3 _ e3.
              and_then_answered
                (fetch_management server tournament.id (staged.0 && not dashboard) c3) _ d b _ e3
                (λ managed c4 _ e4. rw (← answered_same c4 d _ b e4) (
                  bundle_of-Describes server read_number key dashboard authenticated c c1 tournament
                    staged shared managed found
                    (fetch_stages_manages server tournament.id authenticated c1 c2 staged
                      stages))))))
