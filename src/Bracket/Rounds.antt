-- ===== src/Bracket/Rounds.antt =====
-- The order of the matches inside the rounds: `orderRounds` of frontend/src/app/bracket-adapter.ts.
use brackets.Base.{
  All, All-Unit, All-mono, Bool, List, Ordered, Perm, [], ap, arith, false, get_elem?, is_after,
  map_get, map_get-map_set, map_set, refl, some, sort_by, sort_by-Ordered, sort_by-perm, suc, true,
  zero, ℕ, ◌+◌, ◌-ℤ◌, ◌<◌, ◌∙◌, ◌∷◌, ◌≡◌, ◌≢◌, ◌≤◌, ◌⊎◌,
}
use brackets.Model.{Match, Round}
use brackets.Bracket.{
  origin_position, compare_origins, record_positions, order_rounds_from, order_rounds,
}

-- The ordered rounds hold the matches of the rounds, each once, round by round.
abbrev pub SameMatches : List (List Match) → List Round → Type 0
SameMatches [] [] = Unit {0}
SameMatches (ms ∷ mss) (r ∷ rs) = Perm ms r.matches × SameMatches mss rs
SameMatches _ _ = ⊥

-- An earlier origin, or the same and an id that is not larger.
abbrev pub InOriginOrder : List (ℕ × ℕ) → Match → Match → Type 0
InOriginOrder positions a b =
    (origin_position a positions < origin_position b positions)
    ⊎ ((origin_position a positions ≡ origin_position b positions) × (a.id ≤ b.id))

-- Each round is in the order of its origins, as the rounds before it recorded them.
abbrev pub FollowsRecords : List (ℕ × ℕ) → List (List Match) → Type 0
FollowsRecords positions [] = Unit {0}
FollowsRecords positions (ms ∷ mss) =
    Ordered (InOriginOrder positions) ms × FollowsRecords (record_positions 0 ms positions) mss

order_rounds_from-SameMatches :
    (positions : List (ℕ × ℕ)) (rounds : List Round)
    → SameMatches (order_rounds_from positions rounds) rounds
unfolding order_rounds_from
order_rounds_from-SameMatches positions [] = tt
order_rounds_from-SameMatches positions (r ∷ rs) = (
  sort_by-perm (compare_origins positions) r.matches,
  order_rounds_from-SameMatches
      (record_positions 0 (sort_by (compare_origins positions) r.matches) positions) rs,
)

module _ (positions : List (ℕ × ℕ)) where
  abbrev after : Match → Match → Bool
  after = is_after (compare_origins positions)

  after-eq-false : (a b : Match) → after a b ≡ false → InOriginOrder positions a b
  unfolding compare_origins ◌-ℤ◌
  after-eq-false a b h = ground arith

  not_after : (a b : Match) → InOriginOrder positions a b → after a b ≡ false
  unfolding compare_origins ◌-ℤ◌
  not_after a b h = ground arith

  after-eq-true : (a b : Match) → after a b ≡ true → InOriginOrder positions b a
  unfolding compare_origins ◌-ℤ◌
  after-eq-true a b h = ground arith

  after_flip : (a b : Match) → after a b ≡ true → after b a ≡ false
  after_flip a b h = not_after b a (after-eq-true a b h)

  after_chain : (a b c : Match) → after a b ≡ false → after b c ≡ false → after a c ≡ false
  after_chain a b c h k = not_after a c (omega (arith, after-eq-false a b h, after-eq-false b c k))

  Ordered-InOriginOrder :
      (ms : List Match)
      → Ordered (λ a b. after a b ≡ false) ms
      → Ordered (InOriginOrder positions) ms
  Ordered-InOriginOrder [] o = tt
  Ordered-InOriginOrder (m ∷ ms) (h, o) =
      (All-mono (λ b. after-eq-false m b) ms h, Ordered-InOriginOrder ms o)

  sort_by-InOriginOrder :
      (ms : List Match) → Ordered (InOriginOrder positions) (sort_by (compare_origins positions) ms)
  sort_by-InOriginOrder ms = Ordered-InOriginOrder _ (
      sort_by-Ordered (compare_origins positions) (λ _. Unit {0}) (λ a b _ _. after_flip a b)
        (λ a b c _ _ _. after_chain a b c) ms (All-Unit ms))

order_rounds_from-FollowsRecords :
    (positions : List (ℕ × ℕ)) (rounds : List Round)
    → FollowsRecords positions (order_rounds_from positions rounds)
unfolding order_rounds_from
order_rounds_from-FollowsRecords positions [] = tt
order_rounds_from-FollowsRecords positions (r ∷ rs) = (
  sort_by-InOriginOrder positions r.matches,
  order_rounds_from-FollowsRecords
      (record_positions 0 (sort_by (compare_origins positions) r.matches) positions) rs,
)

pub order_rounds-FollowsRecords :
    (rounds : List Round)
    → SameMatches (order_rounds rounds) rounds × FollowsRecords [] (order_rounds rounds)
unfolding order_rounds
order_rounds-FollowsRecords rounds =
    (order_rounds_from-SameMatches [] rounds, order_rounds_from-FollowsRecords [] rounds)

-- Matches of one round have different ids.
abbrev pub DistinctIds : List Match → Type 0
DistinctIds = Ordered (λ a b. a.id ≢ b.id)

record_positions_other :
    (k i : ℕ) (ms : List Match) (positions : List (ℕ × ℕ))
    → All (λ m. k ≢ m.id) ms
    → map_get k (record_positions i ms positions) ≡ map_get k positions
unfolding record_positions
record_positions_other k i [] positions h = refl
record_positions_other k i (m ∷ ms) positions (p, h) =
    rw
      (
        record_positions_other k (i + 1) ms (map_set m.id i positions) h,
        map_get-map_set m.id k i positions,
      )
      (ground arith)

record_positions_at :
    (i j : ℕ) (ms : List Match) (positions : List (ℕ × ℕ)) (m : Match)
    → DistinctIds ms
    → get_elem? ms j ≡ some m
    → map_get m.id (record_positions i ms positions) ≡ some (i + j)
unfolding record_positions
record_positions_at i j [] positions m d e = cc
record_positions_at i zero (x ∷ xs) positions m (p, d) e =
    let same : x ≡ m = ground arith in
    rw (← same) (
      rw
        (
          record_positions_other x.id (i + 1) xs (map_set x.id i positions) p,
          map_get-map_set x.id x.id i positions,
        )
        (ground arith))
record_positions_at i (suc j) (x ∷ xs) positions m (p, d) e =
    record_positions_at (i + 1) j xs (map_set x.id i positions) m d e ∙ ap some (omega arith)

-- The position recorded for a match of a round with different ids is its index in the ordered round.
pub record_positions_lem :
    (ms : List Match) (positions : List (ℕ × ℕ)) (j : ℕ) (m : Match)
    → DistinctIds ms
    → get_elem? ms j ≡ some m
    → map_get m.id (record_positions 0 ms positions) ≡ some j
record_positions_lem ms positions j m d e =
    record_positions_at 0 j ms positions m d e ∙ ap some (omega arith)
