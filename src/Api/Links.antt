-- ===== src/Api/Links.antt =====
-- A tournament's public link, and what the Details page behind it asks the API for.
use brackets.Base.{
  Option, Text, all_digits-decimal, decimal, false, if◌then◌else◌, max_safe_integer, none, refl,
  some, to_number, to_number-decimal, true, truthy-decimal, ℕ, ◌∷◌, ◌≡◌, ◌≤◌,
}
use brackets.Model.{Tournament}
use brackets.Tournament.{normalize_dashboard_endpoint, key_text, public_tournament_key}
use brackets.Url.{is_numeric_identifier}
use brackets.Api.{
  Request, Server, Client, send, fetch_tournament, tournaments_named, tournament_with, with_sent,
  first_tournament,
}
use brackets.Api.Requests.{intercept_sent, and_then_cases}

-- The link in the address of a public tournament, if it has one.
abbrev pub link_of : Tournament → Option Text
link_of t = if t.dashboard_public then normalize_dashboard_endpoint t.dashboard_endpoint else none

-- The link is no number. The backend refuses links that are.
abbrev pub IsNamed : Option Text → Type 0
IsNamed none = Unit
IsNamed (some s) = is_numeric_identifier s ≡ false

-- The request that finds a tournament by its link, or by its id without one.
abbrev pub request_for : Option Text → ℕ → Request
request_for none id = tournament_with (some id)
request_for (some s) id = tournaments_named s

is_numeric_identifier-decimal : (n : ℕ) → is_numeric_identifier (decimal n) ≡ true
unfolding is_numeric_identifier
is_numeric_identifier-decimal n = rw (truthy-decimal n, all_digits-decimal n) refl

sent_key :
    (server : Server) (other : Text → Option ℕ) (link : Option Text) (id : ℕ) (c : Client)
    → id ≤ max_safe_integer
    → IsNamed link
    → (fetch_tournament server (to_number other) (key_text link id) true c).0.sent
      ≡ request_for link id ∷ c.sent
unfolding fetch_tournament send
sent_key server other none id c h named =
    rw (is_numeric_identifier-decimal id, to_number-decimal other id h)
      (intercept_sent (with_sent c (tournament_with (some id)))
        (server c.sent (tournament_with (some id))))
sent_key server other (some s) id c h named = rw named (
    and_then_cases (send server (tournaments_named s) c) (λ ts d. (d, first_tournament s ts))
      (λ d. d.sent ≡ tournaments_named s ∷ c.sent)
      (intercept_sent (with_sent c (tournaments_named s)) (server c.sent (tournaments_named s)))
      (λ a d e k. k))

-- The key in a tournament's public address leads back to the tournament: the Details page asks for
-- its link if it is public and has one, and for its id otherwise.
pub public_tournament_key-fetch_tournament :
    (server : Server) (other : Text → Option ℕ) (t : Tournament) (c : Client)
    → t.id ≤ max_safe_integer
    → IsNamed (link_of t)
    → (fetch_tournament server (to_number other) (public_tournament_key t) true c).0.sent
      ≡ request_for (link_of t) t.id ∷ c.sent
unfolding public_tournament_key
public_tournament_key-fetch_tournament server other t c h named =
    sent_key server other (link_of t) t.id c h named
