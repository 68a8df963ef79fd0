-- ===== src/Bracket/Origins.antt =====
-- Where the matches of a round come from: the order of `orderRounds` of
-- frontend/src/app/bracket-adapter.ts, said of the earlier rounds themselves.
use brackets.Base.{
  All-Unit, List, Option, Option-cases, Ordered, Ordered-of, [], ap, arith, if◌then◌else◌, inl, inr,
  map_get, map_get-map_set, map_set, max_safe_integer, min, none, refl, some, ℕ, ◌+◌, ◌<◌, ◌==◌,
  ◌∙◌, ◌∷◌, ◌≡◌, ◌≤◌, ◌⊎◌,
}
use brackets.Model.{Match, Round}
use brackets.Bracket.{
  source_positions, least, minimum, origin_position, record_positions, order_rounds,
}
use brackets.Bracket.Rounds.{SameMatches, FollowsRecords, order_rounds-FollowsRecords}

abbrev pub first_of : Option ℕ → Option ℕ → Option ℕ
first_of (some j) other = some j
first_of none other = other

-- The last index, counted from `i`, at which the matches have the id; none without one.
abbrev pub index_from : ℕ → (match_id : ℕ) → List Match → Option ℕ
index_from i k [] = none
index_from i k (m ∷ ms) = first_of (index_from (i + 1) k ms) (if m.id == k then some i else none)

-- The place of a match in the latest of the earlier rounds that has it; the latest round is first.
abbrev pub place_of : (match_id : ℕ) → (earlier : List (List Match)) → Option ℕ
place_of k [] = none
place_of k (ms ∷ mss) = first_of (index_from 0 k ms) (place_of k mss)

-- The match that a side's winner comes from has this place in an earlier round.
abbrev pub ComesFrom : (earlier : List (List Match)) → (source : Option ℕ) → ℕ → Type 0
ComesFrom earlier source n = (k : ℕ) × (source ≡ some k) × (place_of k earlier ≡ some n)

-- The place of one of the match's two sources, and no source has an earlier one; a match without a
-- source in the earlier rounds comes behind all.
abbrev pub OriginAt : (earlier : List (List Match)) → Match → ℕ → Type 0
OriginAt earlier m n =
    ((ComesFrom earlier m.stage_item_input1_winner_from_match_id n
        ⊎ ComesFrom earlier m.stage_item_input2_winner_from_match_id n)
      × ((j : ℕ) → ComesFrom earlier m.stage_item_input1_winner_from_match_id j → n ≤ j)
      × ((j : ℕ) → ComesFrom earlier m.stage_item_input2_winner_from_match_id j → n ≤ j))
    ⊎ (((j : ℕ) → ¬ ComesFrom earlier m.stage_item_input1_winner_from_match_id j)
        × ((j : ℕ) → ¬ ComesFrom earlier m.stage_item_input2_winner_from_match_id j)
        × (n ≡ max_safe_integer))

-- An earlier origin, or the same one and an id that is not larger.
abbrev pub ByOrigin : (earlier : List (List Match)) → Match → Match → Type 0
ByOrigin earlier a b =
    (m n : ℕ) × OriginAt earlier a m × OriginAt earlier b n × ((m < n) ⊎ ((m ≡ n) × (a.id ≤ b.id)))

-- Each round is in the order of its origins in the rounds before it.
abbrev pub FollowsOrigins : (earlier : List (List Match)) → List (List Match) → Type 0
FollowsOrigins earlier [] = Unit {0}
FollowsOrigins earlier (ms ∷ mss) =
    Ordered (ByOrigin earlier) ms × FollowsOrigins (ms ∷ earlier) mss

-- The recorded positions are the places in the earlier rounds.
abbrev Records : List (ℕ × ℕ) → (earlier : List (List Match)) → Type 0
Records positions earlier = (k : ℕ) → map_get k positions ≡ place_of k earlier

record_positions-place_of :
    (i k : ℕ) (ms : List Match) (positions : List (ℕ × ℕ))
    → map_get k (record_positions i ms positions)
      ≡ first_of (index_from i k ms) (map_get k positions)
unfolding record_positions
record_positions-place_of i k [] positions = refl
record_positions-place_of i k (m ∷ ms) positions =
    let rest = record_positions-place_of (i + 1) k ms (map_set m.id i positions) in
    let own = map_get-map_set m.id k i positions in
    elim (Option-cases (index_from (i + 1) k ms)) [
      | inl missing ↦ rw (rest, missing, own) (ground arith)
      | inr (j, known) ↦ rw (rest, known) refl
    ]

Records-record_positions :
    (positions : List (ℕ × ℕ)) (earlier : List (List Match)) (ms : List Match)
    → Records positions earlier
    → Records (record_positions 0 ms positions) (ms ∷ earlier)
Records-record_positions positions earlier ms h k =
    record_positions-place_of 0 k ms positions ∙ ap (first_of (index_from 0 k ms)) (h k)

-- The recorded positions of one source.
source_positions-cases :
    (positions : List (ℕ × ℕ)) (earlier : List (List Match)) (source : Option ℕ)
    → Records positions earlier
    → ((n : ℕ) × (source_positions source positions ≡ n ∷ [])
        × ComesFrom earlier source n
        × ((j : ℕ) → ComesFrom earlier source j → n ≤ j))
      ⊎ ((source_positions source positions ≡ []) × ((j : ℕ) → ¬ ComesFrom earlier source j))
unfolding source_positions
source_positions-cases positions earlier none h = inr (refl, λ j c. absurd (nothing c.1))
  where
    nothing : {k : ℕ} → none ≡ some k → ⊥
    nothing e = cc
source_positions-cases positions earlier (some k) h = elim (Option-cases (place_of k earlier)) [
  | inl missing ↦
      let unknown = h k ∙ missing in
      inr (rw (source_positions, unknown) refl, λ j c. unplaced missing c)
  | inr (n, known) ↦
      let recorded = h k ∙ known in
      inl (n, rw (source_positions, recorded) refl, (k, refl, known), λ j c. placed known c)
]
  where
    unplaced : {j : ℕ} → place_of k earlier ≡ none → ComesFrom earlier (some k) j → ⊥
    unplaced missing (i, e, at) = cc

    placed : {n j : ℕ} → place_of k earlier ≡ some n → ComesFrom earlier (some k) j → n ≤ j
    placed {n} {j} known (i, e, at) = let same : n ≡ j = cc in omega (arith, same)

-- The smaller of the places of two sources is the match's origin.
min-OriginAt :
    (earlier : List (List Match)) (m : Match) (a b : ℕ)
    → ComesFrom earlier m.stage_item_input1_winner_from_match_id a
    → ((j : ℕ) → ComesFrom earlier m.stage_item_input1_winner_from_match_id j → a ≤ j)
    → ComesFrom earlier m.stage_item_input2_winner_from_match_id b
    → ((j : ℕ) → ComesFrom earlier m.stage_item_input2_winner_from_match_id j → b ≤ j)
    → OriginAt earlier m (min a b)
min-OriginAt earlier m a b from_a least_a from_b least_b = elim (smaller a b) [
  | inl (e, below) ↦ rw e (inl (inl from_a, least_a, λ j c. omega (arith, below, least_b j c)))
  | inr (e, below) ↦ rw e (inl (inr from_b, (λ j c. omega (arith, below, least_a j c)), least_b))
]
  where
    smaller : (a b : ℕ) → ((min a b ≡ a) × (a ≤ b)) ⊎ ((min a b ≡ b) × (b ≤ a))
    smaller a b = ground arith

origin_position-OriginAt :
    (positions : List (ℕ × ℕ)) (earlier : List (List Match)) (m : Match)
    → Records positions earlier
    → OriginAt earlier m (origin_position m positions)
unfolding origin_position minimum least
origin_position-OriginAt positions earlier m h =
    elim (source_positions-cases positions earlier m.stage_item_input1_winner_from_match_id h) [
      | inl (a, p, from_a, least_a) ↦
          elim (source_positions-cases positions earlier m.stage_item_input2_winner_from_match_id
            h) [
              | inl (b, q, from_b, least_b) ↦
                  rw (p, q) (min-OriginAt earlier m a b from_a least_a from_b least_b)
              | inr (q, no_b) ↦ rw (p, q) (inl (inl from_a, least_a, λ j c. absurd (no_b j c)))
            ]
      | inr (p, no_a) ↦
          elim (source_positions-cases positions earlier m.stage_item_input2_winner_from_match_id
            h) [
              | inl (b, q, from_b, least_b) ↦
                  rw (p, q) (inl (inr from_b, (λ j c. absurd (no_a j c)), least_b))
              | inr (q, no_b) ↦ rw (p, q) (inr (no_a, no_b, refl))
            ]
    ]

FollowsRecords-FollowsOrigins :
    (positions : List (ℕ × ℕ)) (earlier : List (List Match)) (mss : List (List Match))
    → Records positions earlier
    → FollowsRecords positions mss
    → FollowsOrigins earlier mss
FollowsRecords-FollowsOrigins positions earlier [] h o = tt
FollowsRecords-FollowsOrigins positions earlier (ms ∷ mss) h (o, rest) = (
  Ordered-of
      (λ a b _ _ order. (
        _,
        _,
        origin_position-OriginAt positions earlier a h,
        origin_position-OriginAt positions earlier b h,
        order,
      ))
      ms (All-Unit ms) o,
  FollowsRecords-FollowsOrigins (record_positions 0 ms positions) (ms ∷ earlier) mss
      (Records-record_positions positions earlier ms h) rest,
)

-- Ordering the rounds keeps every match in its round, each once, and puts each round in the order of
-- where its matches come from: by the smallest place that a source of the match has in the latest
-- earlier round with that source, with the matches without such a place
-- as at the largest safe integer, and with ties by id.
pub order_rounds_lem :
    (rounds : List Round)
    → SameMatches (order_rounds rounds) rounds × FollowsOrigins [] (order_rounds rounds)
unfolding map_get
order_rounds_lem rounds =
    let (same, records) = order_rounds-FollowsRecords rounds in
    (same, FollowsRecords-FollowsOrigins [] [] (order_rounds rounds) (λ k. refl) records)
