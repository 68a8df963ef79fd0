-- ===== src/Tournament/Laws.antt =====
-- What the phase and the key of a tournament's Details page promise.
use brackets.Base.{
  All, All-append, Bool-cases, List-cases, Num, Option, Option-cases, Text, [], ap, append_assoc,
  arith, false, inl, inr, none, refl, some, sym, true, truthy, ℕ, ℤ, ◌++◌, ◌<ℤ◌, ◌↔◌, ◌∙◌, ◌∷◌, ◌≡◌,
  ◌≢◌, ◌⊎◌,
}
use mathlib.Core.List.{cons-ne-nil}
use brackets.Model.{Tournament, open_status, archived}
use brackets.Tournament.{
  is_space, trim_start, trim_end, keep_unless_last, trim, normalize_dashboard_endpoint, finished,
  upcoming, tournament_phase,
}

-- The first character is no white space.
abbrev pub StartsClean : Text → Type 0
StartsClean [] = ⊥
StartsClean (c ∷ s) = is_space c ≡ false

-- The last character is no white space.
abbrev pub EndsClean : Text → Type 0
EndsClean [] = ⊥
EndsClean (c ∷ []) = is_space c ≡ false
EndsClean (c ∷ d ∷ s) = EndsClean (d ∷ s)

-- Every character is white space.
abbrev pub IsBlank : Text → Type 0
IsBlank = All (λ c. is_space c ≡ true)

StartsClean-keep : (c : ℕ) (t : Text) → is_space c ≡ false → StartsClean (keep_unless_last c t)
unfolding keep_unless_last
StartsClean-keep c [] e = rw (e, StartsClean) e
StartsClean-keep c (d ∷ t) e = e

EndsClean-keep : (c : ℕ) (t : Text) → EndsClean t → EndsClean (keep_unless_last c t)
unfolding keep_unless_last
EndsClean-keep c [] h = absurd h
EndsClean-keep c (d ∷ t) h = h

StartsClean-trim_end : (s : Text) → StartsClean s → StartsClean (trim_end s)
unfolding trim_end
StartsClean-trim_end [] h = absurd h
StartsClean-trim_end (c ∷ s) h = StartsClean-keep c (trim_end s) h

trim_end_cases : (s : Text) → ((trim_end s ≡ []) × IsBlank s) ⊎ EndsClean (trim_end s)
unfolding trim_end keep_unless_last
trim_end_cases [] = inl (refl, tt)
trim_end_cases (c ∷ s) = elim (trim_end_cases s) [
  | inr clean ↦ inr (EndsClean-keep c (trim_end s) clean)
  | inl (e, blank) ↦ elim (Bool-cases (is_space c)) [
    | inl space ↦ inl (rw (e, keep_unless_last, space) refl, (space, blank))
    | inr other ↦ inr (rw (e, keep_unless_last, other, EndsClean) other)
  ]
]

-- What trimming the front removes is white space, and what stays begins with another character.
trim_start_cases :
    (s : Text)
    → ((before : Text) × IsBlank before × (s ≡ before ++ trim_start s))
      × ((trim_start s ≡ []) ⊎ StartsClean (trim_start s))
unfolding trim_start
trim_start_cases [] = (([], tt, refl), inl refl)
trim_start_cases (c ∷ s) = elim (Bool-cases (is_space c)) [
  | inl space ↦
      let ((before, blank, cut), rest) = trim_start_cases s in
      ((c ∷ before, (space, blank), rw space (ap (◌∷◌ c) cut)), rw (space, StartsClean) rest)
  | inr other ↦ (([], tt, rw other refl), inr (rw (other, StartsClean) other))
]

trim_end_split : (s : Text) → (behind : Text) × IsBlank behind × (s ≡ trim_end s ++ behind)
unfolding trim_end keep_unless_last
trim_end_split [] = ([], tt, refl)
trim_end_split (c ∷ s) =
    let (behind, blank, cut) = trim_end_split s in
    elim (List-cases (trim_end s)) [
      | inl e ↦
          let same : s ≡ behind = rw e at cut in
          elim (Bool-cases (is_space c)) [
            | inl space ↦
                (c ∷ behind, (space, blank), rw (e, keep_unless_last, space) (ap (◌∷◌ c) same))
            | inr other ↦ (behind, blank, rw (e, keep_unless_last, other) (ap (◌∷◌ c) same))
          ]
      | inr (d, t, e) ↦
          (behind, blank, rw (e, keep_unless_last) (ap (◌∷◌ c) (cut ∙ ap (λ u. u ++ behind) e)))
    ]

-- What the normalised link says of the text that was entered: nothing means only white space, and a
-- link is the text without the white space around it.
abbrev pub Trims : Text → Option Text → Type 0
Trims s none = IsBlank s
Trims s (some t) =
    (before behind : Text) × IsBlank before
    × IsBlank behind
    × (s ≡ before ++ t ++ behind)
    × StartsClean t
    × EndsClean t

pub trim-StartsClean : (s : Text) → trim s ≢ [] → StartsClean (trim s)
unfolding trim
trim-StartsClean s h = elim (trim_start_cases s).1 [
  | inl e ↦ absurd (h (rw (e, trim_end) refl))
  | inr clean ↦ StartsClean-trim_end (trim_start s) clean
]

pub trim-EndsClean : (s : Text) → trim s ≢ [] → EndsClean (trim s)
unfolding trim
trim-EndsClean s h = elim (trim_end_cases (trim_start s)) [
  | inl (e, _) ↦ absurd (h e)
  | inr clean ↦ clean
]

trim-eq-nil : (s : Text) → trim s ≡ [] → IsBlank s
unfolding trim
trim-eq-nil s e =
    let ((before, blank, cut), _) = trim_start_cases s in
    let (behind, blank', cut') = trim_end_split (trim_start s) in
    let rest : trim_start s ≡ behind = rw e at cut' in
    rw (cut, rest) (All-append _ before behind blank blank')

pub trim_split :
    (s : Text)
    → (before behind : Text) × IsBlank before × IsBlank behind × (s ≡ before ++ trim s ++ behind)
unfolding trim
trim_split s =
    let ((before, blank, cut), _) = trim_start_cases s in
    let (behind, blank', cut') = trim_end_split (trim_start s) in
    (
      before,
      behind,
      blank,
      blank',
      cut ∙ ap (λ u. before ++ u) cut' ∙ sym (append_assoc before _ behind),
    )

normalize_some :
    (s : Text) → truthy (trim s) ≡ true → normalize_dashboard_endpoint (some s) ≡ some (trim s)
unfolding normalize_dashboard_endpoint
normalize_some s e = rw e refl

-- The normalised link of an entered text is the text without the white space at its ends, which
-- leaves a character at either end that is none; it is null exactly for white space alone.
pub normalize_dashboard_endpoint-Trims :
    (s : Text) → Trims s (normalize_dashboard_endpoint (some s))
unfolding normalize_dashboard_endpoint
normalize_dashboard_endpoint-Trims s = elim (List-cases (trim s)) [
  | inl e ↦ rw (e, Trims) (trim-eq-nil s e)
  | inr (c, t, e) ↦
      let (before, behind, blank, blank', cut) = trim_split s in
      let kept : trim s ≢ [] = (λ n. cons-ne-nil c t (sym e ∙ n)) in
      rw (normalize_some s (rw e refl), Trims)
        (before, behind, blank, blank', cut, trim-StartsClean s kept, trim-EndsClean s kept)
]

-- A tournament is upcoming exactly while it is open and its start is a readable date after now;
-- finished exactly when it is archived; and running at all other times.
pub tournament_phase_iff :
    (get_time : Text → Num) (t : Tournament) (now : ℤ)
    → ((tournament_phase get_time t now ≡ finished) ↔ (t.status ≡ archived))
      × ((tournament_phase get_time t now ≡ upcoming) ↔ (
          (t.status ≡ open_status)
          × ((start : ℤ) × (get_time t.start_time ≡ some start) × (now <ℤ start))))
unfolding tournament_phase
tournament_phase_iff get_time t now = elim (Option-cases (get_time t.start_time)) [
  | inl e ↦ (ground arith, ground arith)
  | inr (start, e) ↦
      (ground arith, (λ h. (ground arith, (start, e, ground arith)), λ h. ground (arith, h.1.1)))
]
