-- ===== src/Sections/Shown.antt =====
-- What the sections show, against the pages that lead to them and the matches they are about.
use brackets.Base.{
  Bool, List, Num, Text, [], any, arith, false, filter, flat_map, length, map, none, refl, sym,
  true, ℕ, ℤ, ◌++◌, ◌<◌, ◌==◌, ◌||◌, ◌↔◌, ◌∙◌, ◌∷◌, ◌≡◌,
}
use brackets.Model.{Match, StageItem, Stage, Tournament, FlattenedMatch}
use brackets.Inputs.{has_bracket_view}
use brackets.Matches.{match_winner}
use brackets.Schedule.{overview}
use brackets.Page.Content.{has_brackets, stage_items_of}
use brackets.Sections.{
  overview_section, bracket_section, brackets_of, drawn_item, side_class, stands_out,
}

length-eq_zero {ℓ} : {A : Type ℓ} (xs : List A) → (length xs == 0) ≡ true ↔ xs ≡ []
length-eq_zero [] = (λ _. refl, λ _. refl)
length-eq_zero (x ∷ xs) = (λ h. ground arith, λ h. cc)

any-append {ℓ} :
    {A : Type ℓ} (p : A → Bool) (xs ys : List A) → any p (xs ++ ys) ≡ (any p xs || any p ys)
any-append p [] ys = refl
any-append p (x ∷ xs) ys = ground (arith, any-append p xs ys)

map-filter-eq_nil {ℓ κ} :
    {A : Type ℓ} {B : Type κ} (f : A → B) (p : A → Bool) (xs : List A)
    → (map f (filter p xs) ≡ []) ↔ (any p xs ≡ false)
map-filter-eq_nil f p [] = (λ _. refl, λ _. refl)
map-filter-eq_nil f p (x ∷ xs) = ground (arith, map-filter-eq_nil f p xs)

append-eq_nil {ℓ} : {A : Type ℓ} (xs ys : List A) → (xs ++ ys ≡ []) ↔ ((xs ≡ []) × (ys ≡ []))
append-eq_nil [] ys = (λ e. (refl, e), λ h. h.1)
append-eq_nil (x ∷ xs) ys = (λ h. cc, λ h. cc)

both_false : (a b : Bool) → ((a || b) ≡ false) ↔ ((a ≡ false) × (b ≡ false))
both_false a b = ground arith

brackets_of-eq_nil :
    (items : List (ℕ × StageItem)) (id : ℕ) (ss : List Stage)
    → (brackets_of items id ss ≡ []) ↔ (any has_bracket_view (stage_items_of ss) ≡ false)
unfolding brackets_of flat_map
brackets_of-eq_nil items id [] = (λ _. refl, λ _. refl)
brackets_of-eq_nil items id (s ∷ ss) =
    let here = map-filter-eq_nil (drawn_item items id s) has_bracket_view s.stage_items in
    let rest = brackets_of-eq_nil items id ss in
    let both =
      append-eq_nil (map (drawn_item items id s) (filter has_bracket_view s.stage_items))
        (brackets_of items id ss) in
    let some_of = any-append has_bracket_view s.stage_items (stage_items_of ss) in
    let neither_of =
      both_false (any has_bracket_view s.stage_items) (any has_bracket_view (stage_items_of ss)) in
    (
      λ e. some_of ∙ neither_of.1 (here.0 (both.0 e).0, rest.0 (both.0 e).1),
      λ e.
          let split_up = neither_of.0 (sym some_of ∙ e) in
          both.1 (here.1 split_up.0, rest.1 split_up.1),
    )

-- The section of the brackets is empty exactly when the page finds no stage item with a bracket
-- view.
pub bracket_section-eq-none_iff :
    (items : List (ℕ × StageItem)) (tournament_id : ℕ) (ss : List Stage)
    → (bracket_section items tournament_id ss ≡ none) ↔ (has_brackets ss ≡ false)
unfolding bracket_section has_brackets
bracket_section-eq-none_iff items id ss =
    let nothing = brackets_of-eq_nil items id ss in
    let counted = length-eq_zero (brackets_of items id ss) in ground arith

-- The overview says that nothing is on exactly when it features no match, and what it features is
-- live or, with no live match, scheduled.
pub overview_section-nothing_on_iff :
    (get_time : Text → Num) (now : ℤ) (path : Text) (t : Tournament) (ss : List Stage)
    (matches : List FlattenedMatch)
    → ((overview_section get_time now path t ss matches).nothing_on ≡ true)
      ↔ ((overview_section get_time now path t ss matches).featured ≡ [])
unfolding overview_section
overview_section-nothing_on_iff get_time now path t ss matches =
    let no_live = length-eq_zero (overview get_time now matches).live_now in
    let none_next = length-eq_zero (overview get_time now matches).coming_up in ground arith

-- The side that stands out is the one with the higher score, and the other recedes; without a winner
-- the two look the same.
pub side_class_iff :
    (m : Match)
    → ((side_class (match_winner m) true ≡ stands_out)
        ↔ (m.stage_item_input2_score < m.stage_item_input1_score))
      × ((side_class (match_winner m) false ≡ stands_out)
          ↔ (m.stage_item_input1_score < m.stage_item_input2_score))
      × ((side_class (match_winner m) true ≡ side_class (match_winner m) false)
          ↔ (m.stage_item_input1_score ≡ m.stage_item_input2_score))
unfolding side_class match_winner
side_class_iff m = ground arith
