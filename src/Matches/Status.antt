-- ===== src/Matches/Status.antt =====
-- The status of a match, the next match and the stage under way: `matchStatus`, `nextMatch` and
-- `isStageHappeningNow` of frontend/src/app/utils.ts.
use brackets.Base.{
  All, All-mono, Any, Bool-cases, List, Num, Option, Option-cases, Text, any, any_iff, arith, false,
  find?, find?-eq-none, find?-eq-some, find?-none_of_All, inl, inr, none, not, pos, some, split,
  true, ℤ, ◌*◌, ◌++◌, ◌+ℤ◌, ◌+◌, ◌<ℤ◌, ◌<◌, ◌||◌, ◌↔◌, ◌∷◌, ◌≡◌, ◌≢◌, ◌≤ℤ◌, ◌⊎◌,
}
use brackets.Model.{Match, FlattenedMatch, Stage, StageItem, Round, Tournament, open_status, swiss}
use brackets.Inputs.{is_swiss}
use brackets.Matches.{
  is_scored, match_status, in_window, start_of, MatchStatus, finished, live, scheduled, waiting,
  is_live, next_match, or_else, is_unfinished_round, is_stage_happening_now,
}
use brackets.Matches.Winner.{not_scored_iff}

-- The scores of a match without a result.
abbrev pub Unscored : Match → Type 0
Unscored m = (m.stage_item_input1_score ≡ 0) × (m.stage_item_input2_score ≡ 0)

module _ (get_time : Text → Num) (m : Match) (now : ℤ) where
  -- The match has a readable start, it has begun, and its planned minutes have not passed.
  abbrev pub IsUnderWay : Type 0
  IsUnderWay =
      (start : ℤ) × (start_of get_time m.start_time ≡ some start)
      × (start ≤ℤ now)
      × (now <ℤ start +ℤ pos (m.duration_minutes * 60_000))

  -- What a status says of the match and of the time.
  abbrev pub Describes : MatchStatus → Type 0
  Describes finished = 0 < m.stage_item_input1_score + m.stage_item_input2_score
  Describes waiting = Unscored m × ((m.stage_item_input1 ≡ none) ⊎ (m.stage_item_input2 ≡ none))
  Describes live =
      Unscored m × (m.stage_item_input1 ≢ none) × (m.stage_item_input2 ≢ none) × IsUnderWay
  Describes scheduled =
      Unscored m × (m.stage_item_input1 ≢ none) × (m.stage_item_input2 ≢ none) × ¬ IsUnderWay

  in_window_iff :
      (in_window (start_of get_time m.start_time) m.duration_minutes now ≡ true) ↔ IsUnderWay
  unfolding in_window
  in_window_iff = elim (Option-cases (start_of get_time m.start_time)) [
    | inl no_start ↦ ground arith
    | inr (start, e) ↦ (λ h. (start, e, ground arith, ground arith), λ w. ground (arith, w.0, w.1))
  ]

-- Each status is shown exactly when it describes the match: finished with a score; waiting without
-- one while a side is unknown; otherwise live from the start time until the planned minutes have
-- passed, and scheduled at every other time, with no readable start time too.
pub match_status_iff :
    (get_time : Text → Num) (m : Match) (now : ℤ) (s : MatchStatus)
    → (match_status get_time m now ≡ s) ↔ Describes get_time m now s
unfolding match_status is_scored
match_status_iff get_time m now finished = ground arith
match_status_iff get_time m now waiting = ground arith
match_status_iff get_time m now live =
    elim (Bool-cases (in_window (start_of get_time m.start_time) m.duration_minutes now)) [
      | inl inside ↦ ground (arith, (in_window_iff get_time m now).0 inside)
      | inr outside ↦ rw outside (ground (arith, in_window_iff get_time m now))
    ]
match_status_iff get_time m now scheduled =
    elim (Bool-cases (in_window (start_of get_time m.start_time) m.duration_minutes now)) [
      | inl inside ↦ ground (arith, (in_window_iff get_time m now).0 inside)
      | inr outside ↦
          ground (arith, λ (w : IsUnderWay get_time m now). (in_window_iff get_time m now).1 w)
    ]

module _ (get_time : Text → Num) (now : ℤ) where
  abbrev pub ShownLive : FlattenedMatch → Type 0
  ShownLive e = match_status get_time e.entry now ≡ live

  -- What `next_match` promises of a match: it stands in the list, and it is the first live one, or
  -- it is the first without a result in a list that has no live one.
  abbrev pub IsNext : List FlattenedMatch → FlattenedMatch → Type 0
  IsNext entries e =
      (before after : List FlattenedMatch) × (entries ≡ before ++ e ∷ after)
      × ((ShownLive e × All (λ x. ¬ ShownLive x) before)
          ⊎ (Unscored e.entry
              × All (λ x. ¬ ShownLive x) entries
              × All (λ x. ¬ Unscored x.entry) before))

  is_live-eq-false :
      (e : FlattenedMatch) → is_live (match_status get_time e.entry now) ≡ false → ¬ ShownLive e
  is_live-eq-false e h k = ground arith

not-Unscored : (e : FlattenedMatch) → not (is_scored e.entry) ≡ false → ¬ Unscored e.entry
unfolding is_scored
not-Unscored e h k = ground arith

-- The next match of a list is the first live one, or, when none is live, the first one without a
-- result.
pub next_match-IsNext :
    (get_time : Text → Num) (now : ℤ) (entries : List FlattenedMatch) (e : FlattenedMatch)
    → next_match get_time now entries ≡ some e
    → IsNext get_time now entries e
unfolding next_match
next_match-IsNext get_time now entries e h =
    elim (Option-cases (find? (λ x. is_live (match_status get_time x.entry now)) entries)) [
      | inl no_live ↦
          let none_live = find?-eq-none _ entries no_live in
          let (before, after, split, found, none_before) =
            find?-eq-some (λ x. not (is_scored x.entry)) entries e (rw no_live at h) in
          (
            before,
            after,
            split,
            inr (
              (not_scored_iff e.entry).0 (ground arith),
              All-mono (is_live-eq-false get_time now) entries none_live,
              All-mono not-Unscored before none_before,
            ),
          )
      | inr (x, hit) ↦
          let (before, after, split, found, none_before) = find?-eq-some _ entries x hit in
          let same : x ≡ e = ground arith in
          rw (← same) (
            before,
            after,
            split,
            inl (ground arith, All-mono (is_live-eq-false get_time now) before none_before),
          )
    ]

scored-not_live :
    (get_time : Text → Num) (now : ℤ) (e : FlattenedMatch)
    → ¬ Unscored e.entry
    → is_live (match_status get_time e.entry now) ≡ false
unfolding match_status
scored-not_live get_time now e h = ground (arith, not_scored_iff e.entry)

scored-not_found : (e : FlattenedMatch) → ¬ Unscored e.entry → not (is_scored e.entry) ≡ false
scored-not_found e h = ground (arith, not_scored_iff e.entry)

or_else-eq-none_right {ℓ} : {A : Type ℓ} (a b : Option A) → or_else a b ≡ none → b ≡ none
or_else-eq-none_right a b h = ground arith

-- There is no next match exactly when every match has a result.
pub next_match-eq-none_iff :
    (get_time : Text → Num) (now : ℤ) (entries : List FlattenedMatch)
    → (next_match get_time now entries ≡ none) ↔ All (λ e. ¬ Unscored e.entry) entries
unfolding next_match
next_match-eq-none_iff get_time now entries = (
  λ h.
      All-mono not-Unscored entries
        (find?-eq-none (λ x. not (is_scored x.entry)) entries (or_else-eq-none_right _ _ h)),
  λ h. rw (
    find?-none_of_All (λ x. is_live (match_status get_time x.entry now)) entries
        (All-mono (scored-not_live get_time now) entries h),
    find?-none_of_All (λ x. not (is_scored x.entry)) entries (All-mono scored-not_found entries h),
  ),
)

unfinished_round_iff :
    (r : Round)
    → (is_unfinished_round r ≡ true) ↔ ((r.is_draft ≡ false) × Any (λ m. Unscored m) r.matches)
unfolding is_unfinished_round is_scored
unfinished_round_iff r =
    ground (arith, any_iff (λ m. not (is_scored m)) Unscored (λ m. ground arith) r.matches)

unfinished_item_iff :
    (item : StageItem)
    → ((is_swiss item.kind || any is_unfinished_round item.rounds) ≡ true) ↔ (
        (item.kind ≡ swiss)
        ⊎ Any (λ r. (r.is_draft ≡ false) × Any (λ m. Unscored m) r.matches) item.rounds)
unfinished_item_iff item =
    ground (arith, any_iff is_unfinished_round _ unfinished_round_iff item.rounds)

-- A stage is happening now exactly when its tournament is open, the stage is active, and one of its
-- items is Swiss or has a published round with a match that has no score.
pub is_stage_happening_now_iff :
    (stage : Stage) (tournament : Tournament)
    → (is_stage_happening_now stage tournament ≡ true) ↔ (
        (tournament.status ≡ open_status)
        × (stage.is_active ≡ true)
        × Any
            (λ item.
              (item.kind ≡ swiss)
              ⊎ Any (λ r. (r.is_draft ≡ false) × Any (λ m. Unscored m) r.matches) item.rounds)
            stage.stage_items)
unfolding is_stage_happening_now
is_stage_happening_now_iff stage tournament =
    ground (arith, any_iff _ _ unfinished_item_iff stage.stage_items)
