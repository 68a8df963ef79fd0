-- ===== src/Roster/Edited.antt =====
-- What the forms of players and teams show and send.
use brackets.Base.{
  All, Any, Bool, List, Num, Option, Text, [], any, ap, ap₂, arith, decimal, decimal-injective,
  false, map, max_safe_integer, none, pos, refl, some, text_eq, text_eq_iff, to_number,
  to_number-decimal, true, ℕ, ◌↔◌, ◌∷◌, ◌≡◌, ◌≤◌,
}
use brackets.Model.{Player, FullTeamWithPlayers}
use brackets.Forms.{Zod, z_team_body}
use brackets.Forms.Submits.{submits}
use brackets.Roster.{update_team, team_values, team_body, is_checked, team_saved, handle}

-- The numbers that `Number` makes of texts, and no other, are what the schema takes for ids.
abbrev pub as_num : (Text → Option ℕ) → Text → Num
as_num other s = elim (to_number other s) [ none ↦ none | some n ↦ some (pos n) ]

-- The ids are integers that JavaScript holds exactly.
abbrev pub SafeIds : List Player → Type 0
SafeIds = All (λ (p : Player). p.id ≤ max_safe_integer)

as_num-decimal :
    (other : Text → Option ℕ) (n : ℕ)
    → n ≤ max_safe_integer
    → as_num other (decimal n) ≡ some (pos n)
as_num-decimal other n safe = rw (to_number-decimal other n safe, as_num) refl

numbers-decimal :
    (other : Text → Option ℕ) (ps : List Player)
    → SafeIds ps
    → map (as_num other) (map (λ (p : Player). decimal p.id) ps)
      ≡ map (λ (p : Player). some (pos p.id)) ps
numbers-decimal other [] h = refl
numbers-decimal other (p ∷ ps) (safe, h) =
    ap₂ ◌∷◌ (as_num-decimal other p.id safe) (numbers-decimal other ps h)

-- A team that is saved as it is shown keeps its name, its state and its players: the ids that the
-- checkboxes hold as texts are sent as the numbers that they were.
pub team_saved-same :
    (z : Zod) (other : Text → Option ℕ) (confirmed : Bool) (t : FullTeamWithPlayers)
    → SafeIds t.players
    → z_team_body z (record {
      active = t.active;
      name = t.name;
      player_ids = map (λ (p : Player). some (pos p.id)) t.players;
    })
      ≡ true
    → handle z (as_num other) false confirmed (team_saved t (team_values t))
      ≡ some (
          update_team t.id (record {
            active = t.active;
            name = t.name;
            player_ids = map (λ (p : Player). some (pos p.id)) t.players;
          }))
unfolding handle submits team_values team_body
team_saved-same z other confirmed t h valid = rw (numbers-decimal other t.players h, valid) refl

-- The boxes that are checked at first are those of the team's players: a player of the tournament is
-- checked exactly if one of the team's players has the same id.
pub is_checked_iff :
    (t : FullTeamWithPlayers) (p : Player)
    → (is_checked (team_values t) p ≡ true) ↔ Any (λ (q : Player). q.id ≡ p.id) t.players
unfolding is_checked team_values
is_checked_iff t p = go t.players
  where
    go :
        (ps : List Player)
        → (any (λ id. text_eq id (decimal p.id)) (map (λ (q : Player). decimal q.id) ps) ≡ true)
          ↔ Any (λ (q : Player). q.id ≡ p.id) ps
    go [] = ground arith
    go (q ∷ qs) =
        let same : (text_eq (decimal q.id) (decimal p.id) ≡ true) ↔ (q.id ≡ p.id) = (
          λ e. decimal-injective q.id p.id ((text_eq_iff (decimal q.id) (decimal p.id)).0 e),
          λ e. (text_eq_iff (decimal q.id) (decimal p.id)).1 (ap decimal e),
        ) in
        ground (arith, same, go qs)
