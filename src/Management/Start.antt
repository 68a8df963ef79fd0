-- ===== src/Management/Start.antt =====
-- What the organizers' forms start with.
use brackets.Base.{
  All, All-Any, All-Unit, All-mono, Any, List, List-cases, Num, Option, Ordered, Text, [], arith,
  false, inl, inr, is_after, length-sort_by, none, pos, refl, some, sort_by, sort_by-All,
  sort_by-All_inv, sort_by-Ordered, true, ℕ, ◌-ℤ◌, ◌∷◌, ◌≡◌, ◌≤◌,
}
use brackets.Model.{Ranking, Tournament}
use brackets.Tournament.{public_tournament_path, public_tournament_key}
use brackets.Tournament.Trim.{normalize_dashboard_endpoint-shown}
use brackets.Management.Initial.{sorted_rankings, by_position, new_stage_item, tournament_values}

-- The id belongs to a ranking of the list whose position is no larger than any other's.
abbrev pub IsLowest : List Ranking → Option Num → Type 0
IsLowest rankings none = rankings ≡ []
IsLowest rankings (some id) =
    (r : Ranking) × (id ≡ some (pos r.id))
    × Any (λ x. x ≡ r) rankings
    × All (λ x. r.position ≤ x.position) rankings

flip :
    (a b : Ranking)
    → Unit {0}
    → Unit {0}
    → is_after by_position a b ≡ true
    → is_after by_position b a ≡ false
unfolding by_position ◌-ℤ◌
flip a b _ _ h = ground arith

chain :
    (a b c : Ranking)
    → Unit {0}
    → Unit {0}
    → Unit {0}
    → is_after by_position a b ≡ false
    → is_after by_position b c ≡ false
    → is_after by_position a c ≡ false
unfolding by_position ◌-ℤ◌
chain a b c _ _ _ h k = ground arith

not_after : (a b : Ranking) → is_after by_position a b ≡ false → a.position ≤ b.position
unfolding by_position ◌-ℤ◌
not_after a b h = ground arith

sort_by-nil : (rankings : List Ranking) → sort_by by_position rankings ≡ [] → rankings ≡ []
sort_by-nil [] e = refl
sort_by-nil (r ∷ rs) e =
    let counted = length-sort_by by_position (r ∷ rs) in ground (arith, counted)

lowest :
    (r : Ranking) (rs rankings : List Ranking)
    → sort_by by_position rankings ≡ r ∷ rs
    → All (λ x. r.position ≤ x.position) rankings
lowest r rs rankings sorted =
    let ordered : Ordered (λ a b. is_after by_position a b ≡ false) (r ∷ rs) =
      rw sorted at
        (sort_by-Ordered by_position (λ _. Unit {0}) flip chain rankings (All-Unit rankings)) in
    sort_by-All_inv by_position (λ x. r.position ≤ x.position) rankings
      (rw sorted (omega arith, All-mono (not_after r) rs ordered.0))

-- A new stage item starts with the ranking of the lowest position, and with none only if there is
-- none.
pub new_stage_item-IsLowest :
    (rankings : List Ranking) (stage_id : ℕ)
    → IsLowest rankings (new_stage_item (sorted_rankings rankings) stage_id).ranking_id
unfolding new_stage_item sorted_rankings
new_stage_item-IsLowest rankings stage_id = elim (List-cases (sort_by by_position rankings)) [
  | inl empty ↦ rw (empty, IsLowest) (sort_by-nil rankings empty)
  | inr (r, rs, sorted) ↦
      let stands : All (λ x. Any (λ y. y ≡ x) rankings) (r ∷ rs) =
        rw sorted at
          (sort_by-All by_position (λ x. Any (λ y. y ≡ x) rankings) rankings (All-Any rankings)) in
      rw (sorted, IsLowest) (r, refl, stands.0, lowest r rs rankings sorted)
]

-- Saving the settings as they are shown does not move the Details page: the link that the form starts
-- with leads to the same address.
pub tournament_values-public_tournament_path :
    (to_date_time_local : Text → Text) (t : Tournament)
    → public_tournament_path (record t {
      dashboard_endpoint = some (tournament_values to_date_time_local t).dashboard_endpoint;
    })
      ≡ public_tournament_path t
unfolding public_tournament_path public_tournament_key tournament_values
tournament_values-public_tournament_path f t =
    rw (normalize_dashboard_endpoint-shown t.dashboard_endpoint) refl
