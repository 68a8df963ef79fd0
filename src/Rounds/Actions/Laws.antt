-- ===== src/Rounds/Actions/Laws.antt =====
-- When the editor's buttons send their requests, and what for.
use brackets.Base.{
  All, Any, Bool, Bool-cases, List, Num, Option, Text, [], any-eq-false_iff, ap, arith, false,
  false≢true, filter, inl, inr, length, none, not, refl, some, sym, true, ℕ, ℤ, ◌↔◌, ◌∙◌, ◌∷◌, ◌≡◌,
  ◌≢◌, ◌≤◌, ◌⊎◌,
}
use brackets.Model.{
  Match, Round, StageItem, StageItemInput, StageItemInputFinal, tentative, final, vacant,
}
use brackets.Inputs.{is_id, active_team_inputs, has_team}
use brackets.Matches.{match_status, waiting}
use brackets.Rounds.{
  is_side, is_paired, unpaired_inputs, latest_round, unplayed_matches, can_generate, generates,
}
use brackets.Rounds.Actions.{create_round, generate_click, score_submit, is_ready}

-- A click generates the next round exactly when at least two slots have an active team, no request
-- is under way, and every match of the latest round has a score or the organizer agreed.
pub generate_click_iff :
    (item : StageItem) (confirmed is_pending : Bool)
    → (generate_click item confirmed is_pending ≡ create_round item.id ∷ []) ↔ (
        (2 ≤ length (active_team_inputs item.inputs))
        × (is_pending ≡ false)
        × ((unplayed_matches (latest_round item) ≡ 0) ⊎ (confirmed ≡ true)))
unfolding generate_click generates can_generate
generate_click_iff item confirmed is_pending = ground arith

Any-filter_iff :
    {A : Type 0} (p : A → Bool) (x : A) (xs : List A)
    → Any (λ i. i ≡ x) (filter p xs) ↔ Any (λ i. i ≡ x) xs × (p x ≡ true)
Any-filter_iff p x [] = (λ h. absurd h, λ h. h.0)
Any-filter_iff p x (y ∷ ys) =
    let rest = Any-filter_iff p x ys in
    let same : y ≡ x → p y ≡ p x = λ e. ap p e in
    elim (Bool-cases (p y)) [
      | inl kept ↦ rw kept (
        λ h. elim h [
          | inl e ↦ (inl e, sym (same e) ∙ kept)
          | inr k ↦ (inr (rest.0 k).0, (rest.0 k).1)
        ],
        λ h. elim h.0 [ inl e ↦ inl e | inr k ↦ inr (rest.1 (k, h.1)) ],
      )
      | inr dropped ↦ rw dropped (
        λ h. (inr (rest.0 h).0, (rest.0 h).1),
        λ h. elim h.0 [
          | inl e ↦ absurd (false≢true (sym dropped ∙ same e ∙ h.1))
          | inr k ↦ rest.1 (k, h.1)
        ],
      )
    ]

-- A match has a slot on neither side exactly when neither of its ids is the slot's.
is_side-eq-false_iff :
    (k : ℕ) (m : Match)
    → (is_side k m ≡ false)
      ↔ ((m.stage_item_input1_id ≢ some k) × (m.stage_item_input2_id ≢ some k))
is_side-eq-false_iff k m =
    let first = is_id-eq-false_iff m.stage_item_input1_id k in
    let second = is_id-eq-false_iff m.stage_item_input2_id k in ground arith
  where
    is_id-eq-false_iff : (i : Option ℕ) (k : ℕ) → (is_id i k ≡ false) ↔ (i ≢ some k)
    is_id-eq-false_iff none k = (λ _ e. cc, λ _. refl)
    is_id-eq-false_iff (some j) k = ground arith

-- The teams that can play are the active ones among the teams in the slots.
active_team_inputs_iff :
    (x : StageItemInputFinal) (is : List StageItemInput)
    → Any (λ i. i ≡ x) (active_team_inputs is)
      ↔ (Any (λ i. i ≡ final x) is × (x.team.active ≡ true))
unfolding active_team_inputs
active_team_inputs_iff x [] = ground arith
active_team_inputs_iff x (tentative i ∷ is) = ground (arith, active_team_inputs_iff x is)
active_team_inputs_iff x (vacant i ∷ is) = ground (arith, active_team_inputs_iff x is)
active_team_inputs_iff x (final i ∷ is) =
    let same : i ≡ x → i.team.active ≡ x.team.active = λ e. ap (λ j. j.team.active) e in
    let wrapped : i ≡ x → final i ≡ final x = λ e. ap final e in
    let unwrapped : final i ≡ final x → i ≡ x = λ e. cc in
    ground (arith, active_team_inputs_iff x is)

-- A team sits out a draft exactly when it is in a slot of the stage item, is active, and is on
-- neither side of any match of the draft.
pub unpaired_inputs_iff :
    (item : StageItem) (draft : Round) (x : StageItemInputFinal)
    → Any (λ i. i ≡ x) (unpaired_inputs item draft) ↔ (
        Any (λ i. i ≡ final x) item.inputs
        × (x.team.active ≡ true)
        × All
            (λ m. (m.stage_item_input1_id ≢ some x.id) × (m.stage_item_input2_id ≢ some x.id))
            draft.matches)
unfolding unpaired_inputs is_paired
unpaired_inputs_iff item draft x =
    let kept =
      Any-filter_iff (λ (i : StageItemInputFinal). not (is_paired draft i.id)) x
        (active_team_inputs item.inputs) in
    let active = active_team_inputs_iff x item.inputs in
    let apart : (is_paired draft x.id ≡ false)
        ↔ All (λ m. (m.stage_item_input1_id ≢ some x.id) × (m.stage_item_input2_id ≢ some x.id))
            draft.matches =
      any-eq-false_iff (is_side x.id) _ (is_side-eq-false_iff x.id) draft.matches in
    ground arith

-- A score can be saved only for a match that is not shown as waiting for its teams.
pub score_submit-match_status :
    (get_time : Text → Num) (now : ℤ) (m : Match) (a b : ℕ) (is_pending : Bool)
    → score_submit m a b is_pending ≢ []
    → match_status get_time m now ≢ waiting
unfolding score_submit is_ready match_status has_team
score_submit-match_status get_time now m a b is_pending h e = ground arith
