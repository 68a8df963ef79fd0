-- ===== src/Api/Requests.antt =====
-- What is sent to load a tournament's pages, and what becomes of the session.
use brackets.Base.{
  All, Bool, Bool-cases, List, Option, Text, arith, false, false≢true, if◌then◌else◌, inl, inr, not,
  refl, sym, true, ℕ, ◌&&◌, ◌+◌, ◌∙◌, ◌≡◌,
}
use brackets.Model.{Stage}
use brackets.Url.{is_numeric_identifier}
use brackets.Api.{
  with_sent, or_without_drafts, not_numeric, Request, Reply, answered, failed, Server, Client,
  intercept, send, and_then, first_tournament, fetch_tournament, fetch_stages, both,
  fetch_management, fetch_shared, fetch_tournament_bundle, is_authorization_error,
  tournaments_named, tournament_with, stages_of, players_of, teams_of, rankings_of, standings_of,
  available_inputs_of, next_stage_rankings_of,
}

-- Drafts are asked for only by a user who is signed in, and what organizers edit only outside the
-- Details pages too.
abbrev pub IsAllowed : (is_authenticated dashboard_mode : Bool) → Request → Type 0
IsAllowed authenticated dashboard (stages_of id no_drafts) =
    no_drafts ≡ false → authenticated ≡ true
IsAllowed authenticated dashboard (available_inputs_of id) =
    (authenticated ≡ true) × (dashboard ≡ false)
IsAllowed authenticated dashboard (next_stage_rankings_of id) =
    (authenticated ≡ true) × (dashboard ≡ false)
IsAllowed authenticated dashboard (tournaments_named name) = dashboard ≡ true
IsAllowed authenticated dashboard (tournament_with id) = Unit
IsAllowed authenticated dashboard (players_of id) = Unit
IsAllowed authenticated dashboard (teams_of id) = Unit
IsAllowed authenticated dashboard (rankings_of id) = Unit
IsAllowed authenticated dashboard (standings_of id) = Unit

pub and_then_cases :
    {A B : Type 0} (r : Client × Reply A) (k : A → Client → Client × Reply B) (I : Client → Type 0)
    → I r.0
    → ((a : A) (c : Client) → r ≡ (c, answered a) → I c → I (k a c).0)
    → I (and_then r k).0
unfolding and_then
and_then_cases (c, answered a) k I h next = next a c refl h
and_then_cases (c, failed e) k I h next = h

or_without_drafts_can_manage :
    (server : Server) (id : ℕ) (authenticated : Bool) (r : Client × Reply (List Stage)) (d : Client)
    (staged : Bool × List Stage)
    → or_without_drafts server id authenticated r ≡ (d, answered staged)
    → staged.0 ≡ true
    → authenticated ≡ true
unfolding or_without_drafts and_then
or_without_drafts_can_manage server id authenticated (c, answered stages) d staged e h = cc
or_without_drafts_can_manage server id true (c, failed f) d staged e h = refl
or_without_drafts_can_manage server id false (c, failed f) d staged e h = cc

or_without_drafts-keeps :
    (server : Server) (id : ℕ) (authenticated : Bool) (I : Client → Type 0)
    (r : Client × Reply (List Stage))
    → I r.0
    → ((c : Client) → authenticated ≡ true → I c → I (send server (stages_of id true) c).0)
    → I (or_without_drafts server id authenticated r).0
unfolding or_without_drafts
or_without_drafts-keeps server id authenticated I (c, answered stages) h again = h
or_without_drafts-keeps server id false I (c, failed e) h again = h
or_without_drafts-keeps server id true I (c, failed e) h again =
    elim (Bool-cases (is_authorization_error e)) [
      | inl authorization ↦
          rw authorization
            (and_then_cases (send server (stages_of id true) c) _ I (again c refl h) (λ a d e k. k))
      | inr other ↦ rw other h
    ]

module _ (server : Server) (authenticated dashboard : Bool) (I : Client → Type 0)
    (send-keeps : (q : Request) (c : Client)
      → IsAllowed authenticated dashboard q
      → I c
      → I (send server q c).0) where
  both-keeps :
      {A B : Type 0} (f : Client → Client × Reply A) (g : Client → Client × Reply B)
      → ((c : Client) → I c → I (f c).0)
      → ((c : Client) → I c → I (g c).0)
      → (c : Client) → I c
      → I (both f g c).0
  unfolding both
  both-keeps f g keeps_f keeps_g c h = keeps_g (f c).0 (keeps_f c h)

  fetch_named-keeps :
      (d : Bool) (key : Text) (c : Client)
      → d ≡ dashboard
      → I c
      → I
          (if d
            then and_then
                (send server (tournaments_named key) c)
                (λ ts d. (d, first_tournament key ts))
            else (c, failed not_numeric)).0
  fetch_named-keeps true key c e h =
      and_then_cases (send server (tournaments_named key) c) _ I
        (send-keeps (tournaments_named key) c (sym e) h) (λ a d e k. k)
  fetch_named-keeps false key c e h = h

  fetch_tournament-keeps :
      (read_number : Text → Option ℕ) (key : Text) (c : Client)
      → I c
      → I (fetch_tournament server read_number key dashboard c).0
  unfolding fetch_tournament
  fetch_tournament-keeps read_number key c h = elim (Bool-cases (is_numeric_identifier key)) [
    | inl numeric ↦ rw numeric (send-keeps (tournament_with (read_number key)) c tt h)
    | inr named ↦ rw named (fetch_named-keeps dashboard key c refl h)
  ]

  fetch_stages-keeps : (id : ℕ) (c : Client) → I c → I (fetch_stages server id authenticated c).0
  unfolding fetch_stages
  fetch_stages-keeps id c h =
      or_without_drafts-keeps server id authenticated I
        (send server (stages_of id (not authenticated)) c)
        (send-keeps (stages_of id (not authenticated)) c (λ e. ground arith) h)
        (λ d yes k. send-keeps (stages_of id true) d (λ e. absurd (false≢true (sym e))) k)

  fetch_shared-keeps : (id : ℕ) (c : Client) → I c → I (fetch_shared server id c).0
  unfolding fetch_shared
  fetch_shared-keeps id =
      both-keeps (both (send server (players_of id)) (send server (teams_of id)))
        (both (send server (rankings_of id)) (send server (standings_of id)))
        (both-keeps (send server (players_of id)) (send server (teams_of id))
          (λ c. send-keeps (players_of id) c tt) (λ c. send-keeps (teams_of id) c tt))
        (both-keeps (send server (rankings_of id)) (send server (standings_of id))
          (λ c. send-keeps (rankings_of id) c tt) (λ c. send-keeps (standings_of id) c tt))

  fetch_management-keeps :
      (id : ℕ) (wanted : Bool) (c : Client)
      → (wanted ≡ true → (authenticated ≡ true) × (dashboard ≡ false))
      → I c
      → I (fetch_management server id wanted c).0
  unfolding fetch_management
  fetch_management-keeps id false c may h = h
  fetch_management-keeps id true c may h =
      and_then_cases _ _ I
        (both-keeps (send server (available_inputs_of id)) (send server (next_stage_rankings_of id))
          (λ d. send-keeps (available_inputs_of id) d (may refl))
          (λ d. send-keeps (next_stage_rankings_of id) d (may refl)) c h)
        (λ a d e k. k)

  pub fetch_tournament_bundle-keeps :
      (read_number : Text → Option ℕ) (key : Text) (c : Client)
      → I c
      → I (fetch_tournament_bundle server read_number key dashboard authenticated c).0
  unfolding fetch_tournament_bundle fetch_stages
  fetch_tournament_bundle-keeps read_number key c h =
      and_then_cases (fetch_tournament server read_number key dashboard c) _ I
        (fetch_tournament-keeps read_number key c h)
        (λ tournament c1 e1 h1.
          and_then_cases (fetch_stages server tournament.id authenticated c1) _ I
            (fetch_stages-keeps tournament.id c1 h1)
            (λ staged c2 e2 h2.
              and_then_cases (fetch_shared server tournament.id c2) _ I
                (fetch_shared-keeps tournament.id c2 h2)
                (λ shared c3 e3 h3.
                  and_then_cases
                    (fetch_management server tournament.id (staged.0 && not dashboard) c3) _ I
                    (fetch_management-keeps tournament.id (staged.0 && not dashboard) c3
                      (λ wanted.
                        let can : staged.0 ≡ true = ground arith in
                        (
                          or_without_drafts_can_manage server tournament.id authenticated
                              (send server (stages_of tournament.id (not authenticated)) c1) c2
                              staged e2 can,
                          ground arith,
                        ))
                      h3)
                    (λ managed c4 e4 h4. h4))))

abbrev pub one_if : Bool → ℕ
one_if true = 1
one_if false = 0

pub intercept_sent : {A : Type 0} (c : Client) (r : Reply A) → (intercept c r).sent ≡ c.sent
unfolding intercept
intercept_sent c (answered a) = refl
intercept_sent c (failed e) = ground arith

intercept_notices :
    {A : Type 0} (c : Client) (r : Reply A)
    → (intercept c r).notices + one_if (intercept c r).has_session
      ≡ c.notices + one_if c.has_session
unfolding intercept
intercept_notices c (answered a) = refl
intercept_notices c (failed e) = ground arith

-- Whatever the API answers, loading a tournament adds only allowed requests to allowed ones: drafts
-- are asked for only with a user who is signed in, what organizers edit only with such a user and
-- outside the Details pages, and a tournament is looked up by its link only on the Details pages.
pub fetch_tournament_bundle-IsAllowed :
    (server : Server) (read_number : Text → Option ℕ) (key : Text) (dashboard authenticated : Bool)
    (c : Client)
    → All (IsAllowed authenticated dashboard) c.sent
    → All
        (IsAllowed authenticated dashboard)
        (fetch_tournament_bundle server read_number key dashboard authenticated c).0.sent
unfolding send
fetch_tournament_bundle-IsAllowed server read_number key dashboard authenticated c h =
    fetch_tournament_bundle-keeps server authenticated dashboard
      (λ d. All (IsAllowed authenticated dashboard) d.sent)
      (λ q d allowed all. rw (intercept_sent (with_sent d q) (server d.sent q)) (allowed, all))
      read_number key c h

-- Loading a tournament keeps the sum of the notices shown and of the sessions stored, which are one
-- or none: a session that is dropped is paid for by exactly one notice, however many of the
-- requests are refused.
pub fetch_tournament_bundle-notices :
    (server : Server) (read_number : Text → Option ℕ) (key : Text) (dashboard authenticated : Bool)
    (c : Client)
    → let d = (fetch_tournament_bundle server read_number key dashboard authenticated c).0 in
      d.notices + one_if d.has_session ≡ c.notices + one_if c.has_session
unfolding send
fetch_tournament_bundle-notices server read_number key dashboard authenticated c =
    fetch_tournament_bundle-keeps server authenticated dashboard
      (λ d. d.notices + one_if d.has_session ≡ c.notices + one_if c.has_session)
      (λ q d _ same. intercept_notices (with_sent d q) (server d.sent q) ∙ same) read_number key c
      refl
