-- ===== src/Rounds/Editor.antt =====
-- What the editor says of a stage item, and what it lets an organizer do.
use brackets.Base.{
  All, All-Unit, All-last, All-mono, List, Option, Ordered, [], ap, arith, codes, decimal, false,
  false≢true, filter-all, filter-none, find?, find?-eq-none, find?-none_of_All, if◌then◌else◌,
  is_after, last?, length, length-sort_by, none, not, refl, some, sort_by-All, sort_by-All_inv,
  sort_by-Ordered, sym, true, ℕ, ◌++◌, ◌+◌, ◌-ℤ◌, ◌∙◌, ◌∷◌, ◌≡◌, ◌≤◌,
}
use brackets.Model.{Round, StageItem, StageType, swiss}
use brackets.Inputs.{is_empty_slot, is_swiss}
use brackets.Matches.{is_scored}
use brackets.Rounds.{
  compare_rounds, sorted_rounds, played_count, is_unplayed, status_of_rounds, status_when_played,
  stage_item_status, draft_round, published_rounds, latest_round, has_id, is_absent, can_delete,
}

-- The round is public and every match of it has a result.
abbrev pub IsDone : Round → Type 0
IsDone r = (r.is_draft ≡ false) × All (λ m. is_scored m ≡ true) r.matches

-- An earlier id, or the same.
abbrev pub IsOlder : Round → Round → Type 0
IsOlder a b = a.id ≤ b.id

IsDone-played : (r : Round) → IsDone r → is_unplayed r ≡ false
unfolding played_count
IsDone-played r d = rw (filter-all is_scored r.matches d.1) (ground arith)

not_after : (a b : Round) → is_after compare_rounds a b ≡ false → IsOlder a b
unfolding compare_rounds ◌-ℤ◌
not_after a b h = ground arith

IsOlder-not_after : (a b : Round) → IsOlder a b → is_after compare_rounds a b ≡ false
unfolding compare_rounds ◌-ℤ◌
IsOlder-not_after a b h = ground arith

after_flip :
    (a b : Round) → is_after compare_rounds a b ≡ true → is_after compare_rounds b a ≡ false
unfolding compare_rounds ◌-ℤ◌
after_flip a b h = ground arith

Ordered-IsOlder :
    (rs : List Round) → Ordered (λ a b. is_after compare_rounds a b ≡ false) rs → Ordered IsOlder rs
Ordered-IsOlder [] o = tt
Ordered-IsOlder (r ∷ rs) (h, o) = (All-mono (not_after r) rs h, Ordered-IsOlder rs o)

sorted_rounds-IsOlder : (item : StageItem) → Ordered IsOlder (sorted_rounds item)
unfolding sorted_rounds
sorted_rounds-IsOlder item = Ordered-IsOlder _ (
    sort_by-Ordered compare_rounds (λ _. Unit {0}) (λ a b _ _. after_flip a b)
      (λ a b c _ _ _ p q. IsOlder-not_after a c (omega (arith, not_after a b p, not_after b c q)))
      item.rounds (All-Unit item.rounds))

no_draft_rounds :
    (item : StageItem)
    → is_absent (draft_round item) ≡ true
    → All (λ (x : Round). x.is_draft ≡ false) item.rounds
unfolding draft_round sorted_rounds
no_draft_rounds item h =
    let none_found : find? (λ (x : Round). x.is_draft) (sorted_rounds item) ≡ none = ground arith in
    sort_by-All_inv compare_rounds (λ (x : Round). x.is_draft ≡ false) item.rounds
      (find?-eq-none (λ (x : Round). x.is_draft) (sorted_rounds item) none_found)

latest_round-newest :
    (item : StageItem) (latest : Round)
    → All (λ (x : Round). x.is_draft ≡ false) item.rounds
    → latest_round item ≡ some latest
    → All (λ (x : Round). IsOlder x latest) item.rounds
unfolding latest_round sorted_rounds
latest_round-newest item latest public e =
    let all : published_rounds item ≡ sorted_rounds item =
      filter-all (λ (x : Round). not x.is_draft) (sorted_rounds item)
        (sort_by-All compare_rounds (λ (x : Round). not x.is_draft ≡ true) item.rounds
          (All-mono (λ x k. ap not k) item.rounds public)) in
    sort_by-All_inv compare_rounds (λ (x : Round). IsOlder x latest) item.rounds
      (All-last IsOlder (λ a. omega arith) (sorted_rounds item) latest (sorted_rounds-IsOlder item)
        (ap last? (sym all) ∙ e))

has_id_cases :
    (o : Option Round) (k : ℕ) → has_id o k ≡ true → (r : Round) × (o ≡ some r) × (r.id ≡ k)
has_id_cases none k h = absurd (false≢true h)
has_id_cases (some r) k h = (r, refl, grind arith)

-- A round can be deleted only in a Swiss stage item without a draft, and only if no round of the stage
-- item has a larger id.
pub can_delete_only_latest :
    (item : StageItem) (r : Round)
    → can_delete item r ≡ true
    → (item.kind ≡ swiss)
      × All (λ (x : Round). x.is_draft ≡ false) item.rounds
      × All (λ (x : Round). x.id ≤ r.id) item.rounds
unfolding can_delete
can_delete_only_latest item r h =
    let no_draft : is_absent (draft_round item) ≡ true = ground arith in
    let newest : has_id (latest_round item) r.id ≡ true = ground arith in
    let public = no_draft_rounds item no_draft in
    let (latest, e, same) = has_id_cases (latest_round item) r.id newest in
    (
      ground arith,
      public,
      All-mono (λ (x : Round) (older : IsOlder x latest). rw (← same) older) item.rounds
          (latest_round-newest item latest public e),
    )

status_of_rounds_played :
    (kind : StageType) (rs : List Round)
    → find? (λ (x : Round). x.is_draft) rs ≡ none
    → find? is_unplayed rs ≡ none
    → status_of_rounds kind rs ≡ status_when_played kind (length rs)
unfolding status_of_rounds
status_of_rounds_played kind rs no_draft none_open = ground arith

-- With every slot filled, no draft and a result for every match, the status says so: a Swiss stage
-- item is ready for its next round, and any other is played.
pub stage_item_status_played :
    (item : StageItem)
    → All (λ i. is_empty_slot i ≡ false) item.inputs
    → All IsDone item.rounds
    → stage_item_status item ≡ (
        if is_swiss item.kind
        then codes "Ready for round " ++ decimal (length item.rounds + 1)
        else codes "All matches played")
unfolding stage_item_status status_when_played sorted_rounds
stage_item_status_played item h k =
    let done = sort_by-All compare_rounds IsDone item.rounds k in
    let no_draft =
      find?-none_of_All (λ (x : Round). x.is_draft) (sorted_rounds item)
        (All-mono (λ x d. d.0) (sorted_rounds item) done) in
    let none_open =
      find?-none_of_All is_unplayed (sorted_rounds item)
        (All-mono IsDone-played (sorted_rounds item) done) in
    rw (filter-none is_empty_slot item.inputs h) (
      status_of_rounds_played item.kind (sorted_rounds item) no_draft none_open
      ∙ ap (status_when_played item.kind) (length-sort_by compare_rounds item.rounds))
