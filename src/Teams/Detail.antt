-- ===== src/Teams/Detail.antt =====
-- The matches and the places on a team's page.
use brackets.Base.{
  All, All-Unit, All-filter, All-mono, Bool, Bool-cases, List, Num, Option-cases, Ordered, Perm,
  Text, [], arith, false, filter, inl, inr, not, refl, sym, true, ℕ, ℤ, ◌&&◌, ◌++◌, ◌==◌, ◌∷◌, ◌≡◌,
  ◌≢◌, ◌⊎◌,
}
use mathlib.Core.List.Perm
use brackets.Model.{FlattenedMatch}
use brackets.Inputs.{involves_team}
use brackets.Matches.{is_scored, next_match, match_status}
use brackets.Matches.Status.{next_match-IsNext, Unscored, ShownLive}
use brackets.Schedule.Lists.{filter-perm_split, append_reverse-perm}
use brackets.Teams.{coming_up, played_matches, team_matches, is_other_match}

-- No two of the matches have the same id.
abbrev pub DistinctMatches : List FlattenedMatch → Type 0
DistinctMatches = Ordered (λ a b. a.entry.id ≢ b.entry.id)

All-middle {ℓ κ} :
    {A : Type ℓ} (P : A → Type κ) (xs : List A) (y : A) (ys : List A) → All P (xs ++ y ∷ ys) → P y
All-middle P [] y ys (here, rest) = here
All-middle P (x ∷ xs) y ys (here, rest) = All-middle P xs y ys rest

module _ {A : Type 0} (p q : A → Bool) where
  filter-same : (xs : List A) → All (λ x. p x ≡ q x) xs → filter p xs ≡ filter q xs
  filter-same [] h = refl
  filter-same (x ∷ xs) (e, h) = ground (arith, filter-same xs h)

module _ {A : Type 0} (key : A → ℕ) (p : A → Bool) where
  filter-Distinct :
      (xs : List A)
      → Ordered (λ a b. key a ≢ key b) xs
      → Ordered (λ a b. key a ≢ key b) (filter p xs)
  filter-Distinct [] h = tt
  filter-Distinct (x ∷ xs) (apart, h) = elim (Bool-cases (p x)) [
    | inl hit ↦ rw hit (All-filter (λ b. key x ≢ key b) p xs apart, filter-Distinct xs h)
    | inr miss ↦ rw miss (filter-Distinct xs h)
  ]

  -- The passing elements without `e`.
  abbrev others : A → List A → List A
  others e = filter (λ x. p x && not (key x == key e))

  others-kept : (e x : A) → key e ≢ key x → (p x && not (key x == key e)) ≡ p x
  others-kept e x d = ground arith

  others_self : (e : A) → not (key e == key e) ≡ false
  others_self e = ground arith

  -- Taking a passing element out and putting it first.
  taken_out-perm :
      (e : A) (before after : List A)
      → Ordered (λ a b. key a ≢ key b) (before ++ e ∷ after)
      → p e ≡ true
      → Perm (e ∷ others e (before ++ e ∷ after)) (filter p (before ++ e ∷ after))
  taken_out-perm e [] after (apart, h) passes =
      rw
        (
          passes,
          others_self e,
          filter-same (λ x. p x && not (key x == key e)) p after
              (All-mono (others-kept e) after apart),
        )
        (Perm.refl (e ∷ filter p after))
  taken_out-perm e (b ∷ before) after (apart, h) passes =
      let kept =
        others-kept e b (λ same. All-middle (λ x. key b ≢ key x) before e after apart (sym same)) in
      elim (Bool-cases (p b)) [
        | inl hit ↦
            rw (kept, hit)
              (Perm.trans (Perm.swap b e _) (Perm.cons b (taken_out-perm e before after h passes)))
        | inr miss ↦ rw (kept, miss) (taken_out-perm e before after h passes)
      ]

not_yet_scored :
    (get_time : Text → Num) (now : ℤ) (e : FlattenedMatch)
    → ShownLive get_time now e ⊎ Unscored e.entry
    → not (is_scored e.entry) ≡ true
unfolding match_status is_scored
not_yet_scored get_time now e h = ground arith

-- Putting the next match first only reorders the matches without a result.
coming_up-perm :
    (get_time : Text → Num) (now : ℤ) (matches : List FlattenedMatch)
    → DistinctMatches matches
    → Perm (coming_up get_time now matches) (filter (λ e. not (is_scored e.entry)) matches)
unfolding coming_up is_other_match
coming_up-perm get_time now matches h = elim (Option-cases (next_match get_time now matches)) [
  | inl no_next ↦
      rw
        (
          no_next,
          filter-same (λ e. not (is_scored e.entry) && true) (λ e. not (is_scored e.entry)) matches
              (All-mono (λ e _. ground arith) matches (All-Unit matches)),
        )
        (Perm.refl (filter (λ e. not (is_scored e.entry)) matches))
  | inr (e, found) ↦
      let (before, after, split_up, unscored) = next_match-IsNext get_time now matches e found in
      rw (found, split_up)
        (taken_out-perm (λ x. x.entry.id) (λ x. not (is_scored x.entry)) e before after
          (rw split_up at h)
          (not_yet_scored get_time now e
            (elim unscored [ inl (shown, _) ↦ inl shown | inr (without, _, _) ↦ inr without ])))
]

-- On the page of a team, the matches coming up and the results are together all the team's matches,
-- each once, when no two matches have the same id.
pub coming_up-played-perm :
    (get_time : Text → Num) (now : ℤ) (matches : List FlattenedMatch) (team_id : ℕ)
    → DistinctMatches matches
    → Perm
        (coming_up get_time now (team_matches matches team_id)
          ++ played_matches (team_matches matches team_id))
        (team_matches matches team_id)
unfolding coming_up played_matches is_other_match team_matches
coming_up-played-perm get_time now matches team_id h =
    let own = team_matches matches team_id in
    let apart = filter-Distinct (λ e. e.entry.id) (λ e. involves_team e.entry team_id) matches h in
    Perm.trans (append_reverse-perm _ (filter (λ e. is_scored e.entry) own)) (
      Perm.trans (Perm.append_right _ (coming_up-perm get_time now own apart))
        (filter-perm_split (λ e. is_scored e.entry) own))
