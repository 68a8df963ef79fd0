-- ===== src/Rounds/Form.antt =====
-- The form that adds a pairing never offers a team against itself.
use brackets.Base.{
  Bool-cases, List, Text, [], any, arith, filter, inl, inr, not, refl, sym, text_eq, text_eq_iff,
  true, ◌∷◌, ◌≡◌, ◌≢◌, ◌⊎◌,
}
use brackets.Model.{StageItemInputFinal}
use brackets.Rounds.{
  PairingForm, empty_form, choose_first, second_options, choose_second, can_submit,
}

-- What the organizer can do with the form for these teams.
pub data Edit (teams : List StageItemInputFinal) : PairingForm → PairingForm → Type 0 where
  first_team : (form : PairingForm) (value : Text) → Edit teams form (choose_first value form)
  second_team :
      (form : PairingForm) (value : Text)
      → any (λ t. text_eq t value) (second_options teams form) ≡ true
      → Edit teams form (choose_second value form)

pub data Edits (teams : List StageItemInputFinal) : PairingForm → Type 0 where
  start : Edits teams empty_form
  step : {form next : PairingForm} → Edits teams form → Edit teams form next → Edits teams next

-- The two sides differ unless the second is open.
abbrev pub IsDistinct : PairingForm → Type 0
IsDistinct form = (form.second ≡ []) ⊎ (form.first ≢ form.second)

option_differs :
    (form : PairingForm) (value : Text) (options : List Text)
    → any (λ t. text_eq t value) (filter (λ t. not (text_eq t form.first)) options) ≡ true
    → form.first ≢ value
option_differs form value [] h e = cc
option_differs form value (t ∷ ts) h e =
    ground (arith, option_differs form value ts, text_eq_iff t value, text_eq_iff t form.first)

Edit-IsDistinct :
    {teams : List StageItemInputFinal} {form next : PairingForm}
    → Edit teams form next
    → IsDistinct form
    → IsDistinct next
unfolding choose_first choose_second second_options
Edit-IsDistinct (first_team form value) h = ground (arith, text_eq_iff value form.second)
Edit-IsDistinct {teams} (second_team form value offered) h = elim (Bool-cases (text_eq [] value)) [
  | inl none_chosen ↦ inl (sym ((text_eq_iff [] value).0 none_chosen))
  | inr chosen ↦ inr (option_differs form value _ (rw chosen at offered))
]

Edits-IsDistinct :
    {teams : List StageItemInputFinal} {form : PairingForm} → Edits teams form → IsDistinct form
Edits-IsDistinct start = inl refl
Edits-IsDistinct (step edits edit) = Edit-IsDistinct edit (Edits-IsDistinct edits)

-- However the two selects are used, a form that can be submitted has two different teams.
pub Edits-distinct_teams :
    (teams : List StageItemInputFinal) (form : PairingForm)
    → Edits teams form
    → can_submit form ≡ true
    → form.first ≢ form.second
unfolding can_submit
Edits-distinct_teams teams form edits h same = ground (arith, Edits-IsDistinct edits)
