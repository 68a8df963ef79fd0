-- ===== src/Bracket/Viewer.antt =====
-- What brackets-viewer is given: `toBracketViewerData` of frontend/src/app/bracket-adapter.ts.
use brackets.Base.{
  ==_iff, All, All-append, Any, Bool, Bool-cases, List, Option, Perm, [], any_iff, ap, arith, false,
  flat_map, if◌then◌else◌, inl, inr, map, map_from, none, refl, some, true, ℕ, ◌+◌, ◌==◌, ◌↔◌, ◌∷◌,
  ◌≡◌, ◌≢◌, ◌⊎◌,
}
use mathlib.Core.List.{map-append, cons-ne-nil}
use mathlib.Core.List.Perm
use brackets.Model.{Match, Round, StageItem}
use brackets.Matches.{is_scored, match_winner, MatchOutcome, first, second, draw, undecided}
use brackets.Bracket.{
  Result, drawn, lost, won, ParticipantResult, ViewerMatch, ViewerStatus, locked, waiting, ready,
  completed, Participant, BracketViewerData, order_rounds, is_known, to_opponent, side_result,
  viewer_match, viewer_matches, bracket_participants, to_bracket_viewer_data,
}
use brackets.Bracket.Rounds.{SameMatches, order_rounds-FollowsRecords}

-- The results that the two sides of a match show for an outcome.
abbrev pub results_of : MatchOutcome → Option Result × Option Result
results_of first = (some won, some lost)
results_of second = (some lost, some won)
results_of draw = (some drawn, some drawn)
results_of undecided = (none, none)

-- The viewer shows the result that `match_winner` computes, on both sides, and it shows the two
-- scores exactly for a match that has a result.
pub viewer_match-match_winner :
    (known : List Participant) (r i : ℕ) (m : Match)
    → ((viewer_match known r i m).opponent1.result ≡ (results_of (match_winner m)).0)
      × ((viewer_match known r i m).opponent2.result ≡ (results_of (match_winner m)).1)
      × ((viewer_match known r i m).opponent1.score
          ≡ (if is_scored m then some m.stage_item_input1_score else none))
      × ((viewer_match known r i m).opponent2.score
          ≡ (if is_scored m then some m.stage_item_input2_score else none))
unfolding viewer_match match_winner
viewer_match-match_winner known r i m = ground arith

-- What a viewer status says of a match.
abbrev pub Says : ViewerStatus → Match → Type 0
Says completed m = is_scored m ≡ true
Says ready m =
    (is_scored m ≡ false) × (m.stage_item_input1_id ≢ none) × (m.stage_item_input2_id ≢ none)
Says locked m =
    (is_scored m ≡ false) × (m.stage_item_input1_id ≡ none) × (m.stage_item_input2_id ≡ none)
Says waiting m =
    (is_scored m ≡ false)
    × (((m.stage_item_input1_id ≡ none) × (m.stage_item_input2_id ≢ none))
        ⊎ ((m.stage_item_input1_id ≢ none) × (m.stage_item_input2_id ≡ none)))

-- A match is completed exactly when it has a result; without one it is ready with two inputs, locked
-- with none, and waiting with exactly one.
pub viewer_status_iff :
    (known : List Participant) (r i : ℕ) (m : Match) (s : ViewerStatus)
    → ((viewer_match known r i m).status ≡ s) ↔ Says s m
unfolding viewer_match
viewer_status_iff known r i m completed = ground arith
viewer_status_iff known r i m ready = ground arith
viewer_status_iff known r i m locked = ground arith
viewer_status_iff known r i m waiting = ground arith

-- A side is empty, or it is one of the participants.
abbrev pub Refers : List Participant → ParticipantResult → Type 0
Refers known o =
    (o.id ≡ none) ⊎ ((k : ℕ) × (o.id ≡ some k) × Any (λ (p : Participant). p.id ≡ k) known)

abbrev pub BothRefer : List Participant → ViewerMatch → Type 0
BothRefer known v = Refers known v.opponent1 × Refers known v.opponent2

to_opponent-Refers :
    (known : List Participant) (id : Option ℕ) (score : ℕ) (show : Bool) (r : Option Result)
    → Refers known (to_opponent id score known show r)
unfolding to_opponent
to_opponent-Refers known none score show r = inl refl
to_opponent-Refers known (some k) score show r = elim (Bool-cases (is_known k known)) [
  | inl found ↦ rw found (
      inr (
        k,
        refl,
        (any_iff (λ (p : Participant). p.id == k) (λ p. p.id ≡ k) (λ p. ==_iff p.id k) known).0
            found,
      ))
  | inr missing ↦ rw missing (inl refl)
]

viewer_match-BothRefer :
    (known : List Participant) (r i : ℕ) (m : Match) → BothRefer known (viewer_match known r i m)
unfolding viewer_match
viewer_match-BothRefer known r i m = (
  to_opponent-Refers known m.stage_item_input1_id m.stage_item_input1_score (is_scored m)
      (side_result (is_scored m) m.stage_item_input1_score m.stage_item_input2_score),
  to_opponent-Refers known m.stage_item_input2_id m.stage_item_input2_score (is_scored m)
      (side_result (is_scored m) m.stage_item_input2_score m.stage_item_input1_score),
)

map_from-All {ℓ κ μ} :
    {A : Type ℓ} {B : Type κ} (P : B → Type μ) (f : ℕ → A → B)
    → ((i : ℕ) (a : A) → P (f i a))
    → (i : ℕ) (xs : List A) → All P (map_from i f xs)
map_from-All P f h i [] = tt
map_from-All P f h i (x ∷ xs) = (h i x, map_from-All P f h (i + 1) xs)

viewer_matches-BothRefer :
    (known : List Participant) (r : ℕ) (mss : List (List Match))
    → All (BothRefer known) (viewer_matches known r mss)
unfolding viewer_matches
viewer_matches-BothRefer known r [] = tt
viewer_matches-BothRefer known r (ms ∷ mss) =
    All-append (BothRefer known) _ _
      (map_from-All (BothRefer known) (viewer_match known r) (viewer_match-BothRefer known r) 0 ms)
      (viewer_matches-BothRefer known (r + 1) mss)

-- The ids of the matches, in the order of the rounds.
abbrev pub match_ids : List Round → List ℕ
match_ids rounds = flat_map (λ r. map (λ m. m.id) r.matches) rounds

ids-map_from :
    (known : List Participant) (r i : ℕ) (ms : List Match)
    → map (λ v. v.id) (map_from i (viewer_match known r) ms) ≡ map (λ m. m.id) ms
unfolding viewer_match
ids-map_from known r i [] = refl
ids-map_from known r i (m ∷ ms) = ap (◌∷◌ m.id) (ids-map_from known r (i + 1) ms)

viewer_matches-perm :
    (known : List Participant) (r : ℕ) (mss : List (List Match)) (rounds : List Round)
    → SameMatches mss rounds
    → Perm (map (λ v. v.id) (viewer_matches known r mss)) (match_ids rounds)
unfolding viewer_matches flat_map
viewer_matches-perm known r [] [] h = Perm.refl []
viewer_matches-perm known r (ms ∷ mss) [] h = absurd h
viewer_matches-perm known r [] (x ∷ xs) h = absurd h
viewer_matches-perm known r (ms ∷ mss) (x ∷ xs) (p, h) =
    rw
      (
        map-append (λ (v : ViewerMatch). v.id) (map_from 0 (viewer_match known r) ms)
            (viewer_matches known (r + 1) mss),
        ids-map_from known r 0 ms,
      )
      (Perm.append (Perm.map (λ (m : Match). m.id) p) (viewer_matches-perm known (r + 1) mss xs h))

data_parts :
    (item : StageItem) (items : List (ℕ × StageItem)) (tournament_id : ℕ) (d : BracketViewerData)
    → to_bracket_viewer_data item items tournament_id ≡ some d
    → (d.participants ≡ bracket_participants item items tournament_id)
      × (d.matches
          ≡ viewer_matches
              (bracket_participants item items tournament_id)
              0
              (order_rounds item.rounds))
unfolding to_bracket_viewer_data
data_parts item items tournament_id d e = ground arith

-- Whatever is drawn is consistent: the matches have the ids of the stage item's matches, each as
-- often, and every side is empty or names one of the participants.
pub to_bracket_viewer_data_sound :
    (item : StageItem) (items : List (ℕ × StageItem)) (tournament_id : ℕ) (d : BracketViewerData)
    → to_bracket_viewer_data item items tournament_id ≡ some d
    → Perm (map (λ v. v.id) d.matches) (match_ids item.rounds)
      × All (BothRefer d.participants) d.matches
to_bracket_viewer_data_sound item items tournament_id d e =
    let (parts, matches) = data_parts item items tournament_id d e in
    rw (parts, matches)
      (
        viewer_matches-perm _ 0 (order_rounds item.rounds) item.rounds
            (order_rounds-FollowsRecords item.rounds).0,
        viewer_matches-BothRefer _ 0 (order_rounds item.rounds),
      )

no_ids :
    (vs : List ViewerMatch) (ids : List ℕ) → Perm (map (λ v. v.id) vs) ids → (vs ≡ []) ↔ (ids ≡ [])
no_ids [] ids p = (λ _. Perm.eq-nil (Perm.symm p), λ _. refl)
no_ids (v ∷ vs) ids p = (λ e. cc, λ e. absurd (cons-ne-nil _ _ (Perm.eq-nil (rw e at p))))

drawn_none :
    (item : StageItem) (items : List (ℕ × StageItem)) (tournament_id : ℕ)
    → (to_bracket_viewer_data item items tournament_id ≡ none) ↔ (
        viewer_matches (bracket_participants item items tournament_id) 0 (order_rounds item.rounds)
        ≡ [])
unfolding to_bracket_viewer_data
drawn_none item items tournament_id = ground arith

-- Nothing is drawn exactly when the stage item has no match.
pub to_bracket_viewer_data-eq-none_iff :
    (item : StageItem) (items : List (ℕ × StageItem)) (tournament_id : ℕ)
    → (to_bracket_viewer_data item items tournament_id ≡ none) ↔ (match_ids item.rounds ≡ [])
to_bracket_viewer_data-eq-none_iff item items tournament_id =
    let (to, from) = drawn_none item items tournament_id in
    let known = bracket_participants item items tournament_id in
    let (there, back) =
      no_ids (viewer_matches known 0 (order_rounds item.rounds)) (match_ids item.rounds) (
        viewer_matches-perm known 0 (order_rounds item.rounds) item.rounds
          (order_rounds-FollowsRecords item.rounds).0) in
    (λ e. there (to e), λ e. from (back e))
