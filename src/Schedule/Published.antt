-- ===== src/Schedule/Published.antt =====
-- What the tournament's pages show: the matches of the published rounds, each where it belongs.
use brackets.Base.{
  All, All-append, Any, Bool-cases, List, Num, Perm, Text, [], arith, false, filter, filter-append,
  flat_map, if◌then◌else◌, inl, inr, map, refl, sort_by-All, sort_by-perm, ◌++◌, ◌∷◌, ◌≡◌,
}
use brackets.Model.{Match, Round, Stage, StageItem, FlattenedMatch}
use mathlib.Core.List.{map-append}
use mathlib.Core.List.Perm
use brackets.Schedule.{
  flatten_matches, round_matches, item_matches, stage_matches, is_published, tournament_matches,
  compare_matches_by_time,
}

-- The matches of the rounds that are not drafts, in the order in which the stages, their items and
-- the rounds are given.
abbrev pub published_of_rounds : List Round → List Match
published_of_rounds [] = []
published_of_rounds (r ∷ rs) = (if r.is_draft then [] else r.matches) ++ published_of_rounds rs

abbrev pub published_of_items : List StageItem → List Match
published_of_items [] = []
published_of_items (i ∷ is) = published_of_rounds i.rounds ++ published_of_items is

abbrev pub published : List Stage → List Match
published [] = []
published (s ∷ ss) = published_of_items s.stage_items ++ published ss

-- The match is listed with the round that it is in, of the item and the stage that these are in, and
-- the round is no draft.
abbrev pub IsPlaced : List Stage → FlattenedMatch → Type 0
IsPlaced stages e =
    Any (λ s. s ≡ e.stage) stages
    × Any (λ i. i ≡ e.stage_item) e.stage.stage_items
    × Any (λ r. r ≡ e.round) e.stage_item.rounds
    × Any (λ m. m ≡ e.entry) e.round.matches
    × (e.round.is_draft ≡ false)

abbrev pub kept : List FlattenedMatch → List Match
kept es = map (λ (e : FlattenedMatch). e.entry) (filter is_published es)

kept-append : (xs ys : List FlattenedMatch) → kept (xs ++ ys) ≡ kept xs ++ kept ys
kept-append xs ys =
    rw (filter-append is_published xs ys)
      (map-append _ (filter is_published xs) (filter is_published ys))

round_matches-kept :
    (s : Stage) (i : StageItem) (r : Round)
    → kept (round_matches s i r) ≡ (if r.is_draft then [] else r.matches)
unfolding round_matches
round_matches-kept s i r = go r.matches
  where
    go :
        (ms : List Match)
        → kept (map (λ m. record { stage = s; stage_item = i; round = r; entry = m }) ms)
          ≡ (if r.is_draft then [] else ms)
    go [] = ground arith
    go (m ∷ ms) = ground (arith, go ms)

item_matches-kept :
    (s : Stage) (i : StageItem) → kept (item_matches s i) ≡ published_of_rounds i.rounds
unfolding item_matches flat_map
item_matches-kept s i = go i.rounds
  where
    go : (rs : List Round) → kept (flat_map (round_matches s i) rs) ≡ published_of_rounds rs
    go [] = refl
    go (r ∷ rs) =
        rw
          (
            kept-append (round_matches s i r) (flat_map (round_matches s i) rs),
            round_matches-kept s i r,
            go rs,
          )
          refl

stage_matches-kept : (s : Stage) → kept (stage_matches s) ≡ published_of_items s.stage_items
unfolding stage_matches flat_map
stage_matches-kept s = go s.stage_items
  where
    go : (is : List StageItem) → kept (flat_map (item_matches s) is) ≡ published_of_items is
    go [] = refl
    go (i ∷ is) =
        rw
          (
            kept-append (item_matches s i) (flat_map (item_matches s) is),
            item_matches-kept s i,
            go is,
          )
          refl

pub flatten_matches-kept : (ss : List Stage) → kept (flatten_matches ss) ≡ published ss
unfolding flatten_matches flat_map
flatten_matches-kept [] = refl
flatten_matches-kept (s ∷ ss) =
    rw
      (
        kept-append (stage_matches s) (flatten_matches ss),
        stage_matches-kept s,
        flatten_matches-kept ss,
      )
      refl

-- What holds of every result for every member holds of all the results.
All-flat_map :
    {A B : Type 0} (P : B → Type 0) (f : A → List B) (xs : List A)
    → ((x : A) → Any (λ y. y ≡ x) xs → All P (f x))
    → All P (flat_map f xs)
unfolding flat_map
All-flat_map P f [] h = tt
All-flat_map P f (x ∷ xs) h =
    All-append P (f x) (flat_map f xs) (h x (inl refl)) (All-flat_map P f xs (λ y at. h y (inr at)))

All-map_member :
    {A B : Type 0} (P : B → Type 0) (f : A → B) (xs : List A)
    → ((x : A) → Any (λ y. y ≡ x) xs → P (f x))
    → All P (map f xs)
All-map_member P f [] h = tt
All-map_member P f (x ∷ xs) h = (h x (inl refl), All-map_member P f xs (λ y at. h y (inr at)))

-- Where a listed match is, but for whether its round is a draft.
abbrev IsWithin : List Stage → FlattenedMatch → Type 0
IsWithin stages e =
    Any (λ s. s ≡ e.stage) stages
    × Any (λ i. i ≡ e.stage_item) e.stage.stage_items
    × Any (λ r. r ≡ e.round) e.stage_item.rounds
    × Any (λ m. m ≡ e.entry) e.round.matches

flatten_matches-IsWithin : (ss : List Stage) → All (IsWithin ss) (flatten_matches ss)
unfolding flatten_matches stage_matches item_matches round_matches
flatten_matches-IsWithin ss = All-flat_map (IsWithin ss) stage_matches ss (λ s at_s.
    All-flat_map (IsWithin ss) (item_matches s) s.stage_items (λ i at_i.
      All-flat_map (IsWithin ss) (round_matches s i) i.rounds
        (λ r at_r. All-map_member (IsWithin ss) _ r.matches (λ m at_m. (at_s, at_i, at_r, at_m)))))

filter-IsPlaced :
    (ss : List Stage) (es : List FlattenedMatch)
    → All (IsWithin ss) es
    → All (IsPlaced ss) (filter is_published es)
filter-IsPlaced ss [] h = tt
filter-IsPlaced ss (e ∷ es) ((s, i, r, m), h) = elim (Bool-cases e.round.is_draft) [
  | inl draft ↦ simp draft (filter-IsPlaced ss es h)
  | inr shown ↦ simp shown ((s, i, r, m, refl), filter-IsPlaced ss es h)
]

-- The pages show each match of the rounds that are not drafts exactly once, whatever the start times
-- are, and show each with the round, the stage item and the stage that it belongs to.
pub tournament_matches-perm :
    (get_time : Text → Num) (stages : List Stage)
    → Perm (map (λ e. e.entry) (tournament_matches get_time stages)) (published stages)
      × All (IsPlaced stages) (tournament_matches get_time stages)
unfolding tournament_matches
tournament_matches-perm get_time stages = (
  rw (← flatten_matches-kept stages) (
      Perm.map (λ (e : FlattenedMatch). e.entry)
        (sort_by-perm (compare_matches_by_time get_time)
          (filter is_published (flatten_matches stages)))),
  sort_by-All (compare_matches_by_time get_time) (IsPlaced stages) _
      (filter-IsPlaced stages _ (flatten_matches-IsWithin stages)),
)
