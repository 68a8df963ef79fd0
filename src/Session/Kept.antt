-- ===== src/Session/Kept.antt =====
-- What a browser keeps of a session that has ended.
use brackets.Base.{
  All, Bool-cases, List, Option, Text, [], arith, false, false≢true, inl, inr, none, refl, some,
  sym, ◌∙◌, ◌∷◌, ◌≡◌,
}
use brackets.Session.{
  Session, Cached, Browser, is_signed_in, user_of, layout_effect, set_session, Event, logged_in,
  registered, logout_settled, unauthorized, loaded, followed, on_unauthorized, handle, opened, run,
}

-- It was loaded for a visitor.
abbrev pub IsAnonymous : Cached → Type 0
IsAnonymous c = c.loaded_for ≡ none

-- The layout knows whether there is a session, and without one all that is kept is a visitor's.
pub record Inv (b : Browser) : Type 0 where
  pub known : b.had_session ≡ is_signed_in b.session
  pub clean : is_signed_in b.session ≡ false → All IsAnonymous b.cache

opened-Inv : (s : Option Session) (path : Text) → Inv (opened s path)
unfolding opened
opened-Inv s path = record { known = refl; clean = λ _. tt }

set_session-Inv : (s : Option Session) (b : Browser) → Inv b → Inv (set_session s b)
unfolding set_session layout_effect
set_session-Inv none b h = record {
  known = refl;
  clean = λ _. elim (Bool-cases b.had_session) [
    | inl had ↦ rw had tt
    | inr never ↦ rw never (h.clean (sym h.known ∙ never))
  ];
}
set_session-Inv (some s) b h = record { known = refl; clean = λ e. absurd (false≢true (sym e)) }

Inv-notices :
    (b : Browser) (ns : List Text) (path : Text)
    → Inv b
    → Inv (record b { notices = ns; location = path })
Inv-notices b ns path h = record { known = h.known; clean = h.clean }

on_unauthorized-Inv : (b : Browser) → Inv b → Inv (on_unauthorized b)
unfolding on_unauthorized
on_unauthorized-Inv b h = elim (Bool-cases (is_signed_in b.session)) [
  | inl present ↦ rw present (Inv-notices (set_session none b) _ _ (set_session-Inv none b h))
  | inr absent ↦ rw absent h
]

handle-Inv : (e : Event) (b : Browser) → Inv b → Inv (handle e b)
unfolding handle
handle-Inv (logged_in s) b h =
    Inv-notices (set_session (some s) b) _ _ (set_session-Inv (some s) b h)
handle-Inv (registered s) b h =
    Inv-notices (set_session (some s) b) _ _ (set_session-Inv (some s) b h)
handle-Inv (logout_settled is_answered error) b h =
    Inv-notices (set_session none b) _ _ (set_session-Inv none b h)
handle-Inv unauthorized b h = on_unauthorized-Inv b h
handle-Inv (loaded key) b h = record {
  known = h.known;
  clean = λ absent. (of_visitor b.session absent, h.clean absent);
}
  where
    of_visitor : (s : Option Session) → is_signed_in s ≡ false → user_of s ≡ none
    of_visitor none absent = refl
    of_visitor (some s) absent = absurd (false≢true (sym absent))
handle-Inv (followed path) b h = Inv-notices b b.notices path h

run-Inv : (es : List Event) (b : Browser) → Inv b → Inv (run es b)
unfolding run
run-Inv [] b h = h
run-Inv (e ∷ es) b h = run-Inv es (handle e b) (handle-Inv e b h)

-- Whatever happens from the opening of the page, a browser without a session keeps nothing that was
-- loaded for a user who was signed in.
pub run-IsAnonymous :
    (es : List Event) (s : Option Session) (path : Text)
    → is_signed_in (run es (opened s path)).session ≡ false
    → All IsAnonymous (run es (opened s path)).cache
run-IsAnonymous es s path = (run-Inv es (opened s path) (opened-Inv s path)).clean

-- The end of a session.
abbrev pub EndsSession : Event → Type 0
EndsSession (logged_in s) = ⊥
EndsSession (registered s) = ⊥
EndsSession (logout_settled is_answered error) = Unit
EndsSession unauthorized = Unit
EndsSession (loaded key) = ⊥
EndsSession (followed path) = ⊥

abbrev pub SignsIn : Event → Type 0
SignsIn (logged_in s) = Unit
SignsIn (registered s) = Unit
SignsIn (logout_settled is_answered error) = ⊥
SignsIn unauthorized = ⊥
SignsIn (loaded key) = ⊥
SignsIn (followed path) = ⊥

ends : (e : Event) (b : Browser) → EndsSession e → (handle e b).session ≡ none
unfolding handle on_unauthorized set_session layout_effect
ends (logged_in s) b h = absurd h
ends (registered s) b h = absurd h
ends (loaded key) b h = absurd h
ends (followed path) b h = absurd h
ends (logout_settled is_answered error) b h = refl
ends unauthorized b h = ground arith

goes_on : (e : Event) (b : Browser) → ¬ SignsIn e → b.session ≡ none → (handle e b).session ≡ none
unfolding handle
goes_on (logged_in s) b h e = absurd (h tt)
goes_on (registered s) b h e = absurd (h tt)
goes_on (logout_settled is_answered error) b h e = ends (logout_settled is_answered error) b tt
goes_on unauthorized b h e = ends unauthorized b tt
goes_on (loaded key) b h e = e
goes_on (followed path) b h e = e

stays :
    (es : List Event) (b : Browser)
    → b.session ≡ none
    → All (λ x. ¬ SignsIn x) es
    → (run es b).session ≡ none
unfolding run
stays [] b h k = h
stays (e ∷ es) b h (quiet, k) = stays es (handle e b) (goes_on e b quiet h) k

-- After a logout, answered or not, or a refused request, the browser stays signed out until the next
-- login or registration.
pub run-signed_out :
    (e : Event) (es : List Event) (b : Browser)
    → EndsSession e
    → All (λ x. ¬ SignsIn x) es
    → (run (e ∷ es) b).session ≡ none
unfolding run
run-signed_out e es b h k = stays es (handle e b) (ends e b h) k
