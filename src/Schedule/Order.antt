-- ===== src/Schedule/Order.antt =====
-- The order of the tournament's matches: by start time, then round, then match, and what that says of
-- the next match.
use brackets.Base.{
  All, All-append, All-mono, Bool, List, Num, Ordered, Ordered-of, Text, [], ap, arith, eq_of_parts,
  false, filter, inl, inr, is_after, map, max_safe_integer, neg_part, none, pos, pos_part, refl,
  some, sort_by-All, sort_by-Ordered, sym, true, ℕ, ℤ, ◌++◌, ◌+◌, ◌-ℤ◌, ◌<ℤ◌, ◌<◌, ◌∙◌, ◌∷◌, ◌≡◌,
  ◌≤◌, ◌⊎◌,
}
use brackets.Model.{Stage, Match, FlattenedMatch}
use brackets.Schedule.Published.{published, flatten_matches-kept}
use brackets.Matches.Status.{Unscored, ShownLive, next_match-IsNext}
use brackets.Schedule.{
  next_match, flatten_matches, is_published, tournament_matches, time_key, time_of,
  compare_matches_by_time,
}

All_of_map {ℓ κ μ} :
    {A : Type ℓ} {B : Type κ} (P : B → Type μ) (f : A → B) (xs : List A)
    → All P (map f xs)
    → All (λ x. P (f x)) xs
All_of_map P f [] h = tt
All_of_map P f (x ∷ xs) (p, h) = (p, All_of_map P f xs h)

module _ (get_time : Text → Num) where
  -- The start time is missing, or it is a readable date.
  abbrev pub IsReadable : FlattenedMatch → Type 0
  IsReadable e = (t : ℤ) × (time_key get_time e ≡ some t)

  -- The same round and a match id that is not larger, or a smaller round id.
  abbrev pub InRoundOrder : FlattenedMatch → FlattenedMatch → Type 0
  InRoundOrder a b =
      (a.round.id < b.round.id) ⊎ ((a.round.id ≡ b.round.id) × (a.entry.id ≤ b.entry.id))

  -- An earlier start, or the same start and the order of rounds and matches.
  abbrev pub Precedes : FlattenedMatch → FlattenedMatch → Type 0
  Precedes a b =
      (s t : ℤ) × (time_key get_time a ≡ some s)
      × (time_key get_time b ≡ some t)
      × ((s <ℤ t) ⊎ ((s ≡ t) × InRoundOrder a b))

  abbrev later : FlattenedMatch → FlattenedMatch → Bool
  later = is_after (compare_matches_by_time get_time)

  -- With both times known, the comparator is the order of the triples of time, round and match.
  module _ (a b : FlattenedMatch) (s t : ℤ) (p : time_key get_time a ≡ some s)
      (q : time_key get_time b ≡ some t) where
    later-eq-true :
        later a b ≡ true
        → (t <ℤ s)
          ⊎ ((pos_part t + neg_part s ≡ pos_part s + neg_part t)
              × ((b.round.id < a.round.id)
                  ⊎ ((b.round.id ≡ a.round.id) × (b.entry.id < a.entry.id))))
    unfolding compare_matches_by_time ◌-ℤ◌
    later-eq-true = rw (p, q) (λ h. ground arith)

    later-eq-false :
        later a b ≡ false
        → (s <ℤ t) ⊎ ((pos_part t + neg_part s ≡ pos_part s + neg_part t) × InRoundOrder a b)
    unfolding compare_matches_by_time ◌-ℤ◌
    later-eq-false = rw (p, q) (λ h. ground arith)

    not_later :
        (s <ℤ t) ⊎ ((pos_part t + neg_part s ≡ pos_part s + neg_part t) × InRoundOrder a b)
        → later a b ≡ false
    unfolding compare_matches_by_time ◌-ℤ◌
    not_later h = rw (p, q) (ground arith)

  later_flip :
      (a b : FlattenedMatch) → IsReadable a → IsReadable b → later a b ≡ true → later b a ≡ false
  later_flip a b (s, p) (t, q) h =
      not_later b a t s q p (omega (arith, later-eq-true a b s t p q h))

  later_chain :
      (a b c : FlattenedMatch)
      → IsReadable a
      → IsReadable b
      → IsReadable c
      → later a b ≡ false
      → later b c ≡ false
      → later a c ≡ false
  later_chain a b c (s, p) (t, q) (u, r) h k =
      not_later a c s u p r
        (omega (arith, later-eq-false a b s t p q h, later-eq-false b c t u q r k))

  Precedes-not_later :
      (a b : FlattenedMatch) → IsReadable a → IsReadable b → later a b ≡ false → Precedes a b
  Precedes-not_later a b (s, p) (t, q) h = (
    s,
    t,
    p,
    q,
    elim (later-eq-false a b s t p q h) [
      | inl earlier ↦ inl earlier
      | inr (same, rest) ↦ inr (eq_of_parts s t (omega arith), rest)
    ],
  )

  Ordered-Precedes :
      (es : List FlattenedMatch)
      → All IsReadable es
      → Ordered (λ a b. later a b ≡ false) es
      → Ordered Precedes es
  Ordered-Precedes es = Ordered-of Precedes-not_later es

  -- The match has no start time.
  abbrev pub IsUndated : Match → Type 0
  IsUndated m = (m.start_time ≡ none) ⊎ (m.start_time ≡ some [])

  -- The match starts at the time that its text is read as, which comes before the largest safe integer
  -- of milliseconds, as all dates of the language do.
  abbrev pub StartsAt : Match → ℤ → Type 0
  StartsAt m t =
      (c : ℕ) × (rest : Text) × (m.start_time ≡ some (c ∷ rest))
      × (get_time (c ∷ rest) ≡ some t)
      × (t <ℤ pos max_safe_integer)

  abbrev pub IsDatedOrUndated : Match → Type 0
  IsDatedOrUndated m = ((t : ℤ) × StartsAt m t) ⊎ IsUndated m

  -- A dated match comes before one without a date, and two dated ones run by their start times; those
  -- that start together, and those without a date, run by round and then by match.
  abbrev pub ComesBefore : FlattenedMatch → FlattenedMatch → Type 0
  ComesBefore a b =
      ((s t : ℤ) × StartsAt a.entry s
        × StartsAt b.entry t
        × ((s <ℤ t) ⊎ ((s ≡ t) × InRoundOrder a b)))
      ⊎ (((s : ℤ) × StartsAt a.entry s) × IsUndated b.entry)
      ⊎ (IsUndated a.entry × IsUndated b.entry × InRoundOrder a b)

  time_key_dated : (e : FlattenedMatch) (t : ℤ) → StartsAt e.entry t → time_key get_time e ≡ some t
  unfolding time_key
  time_key_dated e t (c, rest, start, reading, before) = ap (time_of get_time) start ∙ reading

  time_key_undated :
      (e : FlattenedMatch) → IsUndated e.entry → time_key get_time e ≡ some (pos max_safe_integer)
  unfolding time_key
  time_key_undated e (inl missing) = ap (time_of get_time) missing
  time_key_undated e (inr missing) = ap (time_of get_time) missing

  IsReadable-entry : (e : FlattenedMatch) → IsDatedOrUndated e.entry → IsReadable e
  IsReadable-entry e (inl (t, dated)) = (t, time_key_dated e t dated)
  IsReadable-entry e (inr undated) = (pos max_safe_integer, time_key_undated e undated)

  -- What is known of two times holds of the ones that were read.
  Precedes-keys :
      (a b : FlattenedMatch) (s t : ℤ)
      → time_key get_time a ≡ some s
      → time_key get_time b ≡ some t
      → Precedes a b
      → (s <ℤ t) ⊎ ((s ≡ t) × InRoundOrder a b)
  Precedes-keys a b s t p q (s', t', p', q', order) =
      let same_s : s' ≡ s = some_inj (sym p' ∙ p) in
      let same_t : t' ≡ t = some_inj (sym q' ∙ q) in rw (same_s, same_t) at order
    where
      some_inj : {x y : ℤ} → some x ≡ some y → x ≡ y
      some_inj e = cc

  not_below : (s t : ℤ) (P : Type 0) → (s <ℤ t) ⊎ ((s ≡ t) × P) → ¬ (t <ℤ s)
  not_below s t P h before = elim h [
    | inl earlier ↦ omega arith
    | inr (same, _) ↦ absurd (not_itself t (rw same at before))
  ]
    where
      not_itself : (x : ℤ) → ¬ (x <ℤ x)
      not_itself x h = omega arith

  ComesBefore-Precedes :
      (a b : FlattenedMatch)
      → IsDatedOrUndated a.entry
      → IsDatedOrUndated b.entry
      → Precedes a b
      → ComesBefore a b
  ComesBefore-Precedes a b (inl (s, p)) (inl (t, q)) h =
      inl (s, t, p, q, Precedes-keys a b s t (time_key_dated a s p) (time_key_dated b t q) h)
  ComesBefore-Precedes a b (inl p) (inr q) h = inr (inl (p, q))
  ComesBefore-Precedes a b (inr p) (inl (t, q)) h =
      let (_, _, _, _, before) = q in
      absurd (
        not_below (pos max_safe_integer) t (InRoundOrder a b)
          (Precedes-keys a b _ t (time_key_undated a p) (time_key_dated b t q) h) before)
  ComesBefore-Precedes a b (inr p) (inr q) h =
      let order =
        Precedes-keys a b (pos max_safe_integer) (pos max_safe_integer) (time_key_undated a p)
          (time_key_undated b q) h in
      inr (inr (p, q, undated_order order))
    where
      undated_order : {x : ℤ} {Q : Type 0} → (x <ℤ x) ⊎ ((x ≡ x) × Q) → Q
      undated_order {x} (inl earlier) = absurd (omega arith)
      undated_order {x} (inr (_, rest)) = rest

tournament_matches-Precedes :
    (get_time : Text → Num) (stages : List Stage)
    → All (IsReadable get_time) (filter is_published (flatten_matches stages))
    → Ordered (Precedes get_time) (tournament_matches get_time stages)
unfolding tournament_matches
tournament_matches-Precedes get_time stages h =
    Ordered-Precedes get_time _
      (sort_by-All (compare_matches_by_time get_time) (IsReadable get_time) _ h)
      (sort_by-Ordered (compare_matches_by_time get_time) (IsReadable get_time)
        (later_flip get_time) (later_chain get_time) _ h)

-- When each match of the published rounds has no start time or one that is read as a date (before the
-- largest safe integer of milliseconds), the matches run in order: those with a date come first, by
-- start time, and those without one last; matches that start together, and those without a date, run
-- by round id and then by match id.
pub tournament_matches-Ordered :
    (get_time : Text → Num) (stages : List Stage)
    → All (IsDatedOrUndated get_time) (published stages)
    → Ordered (ComesBefore get_time) (tournament_matches get_time stages)
unfolding tournament_matches
tournament_matches-Ordered get_time stages h =
    let known : All (λ (e : FlattenedMatch). IsDatedOrUndated get_time e.entry)
        (filter is_published (flatten_matches stages)) =
      All_of_map (IsDatedOrUndated get_time) _ _ (rw (← flatten_matches-kept stages) at h) in
    Ordered-of (ComesBefore-Precedes get_time) (tournament_matches get_time stages)
      (sort_by-All (compare_matches_by_time get_time) _ _ known)
      (tournament_matches-Precedes get_time stages (All-mono (IsReadable-entry get_time) _ known))

Ordered_after {ℓ κ} :
    {A : Type ℓ} (R : A → A → Type κ) (before : List A) (x : A) (after : List A)
    → Ordered R (before ++ x ∷ after)
    → All (R x) after
Ordered_after R [] x after (h, o) = h
Ordered_after R (y ∷ ys) x after (h, o) = Ordered_after R ys x after o

-- A match that is not live now and is the next one of the tournament's list precedes every other
-- match without a result, when the start times are missing or readable.
pub next_match-earliest :
    (get_time : Text → Num) (now : ℤ) (stages : List Stage) (e : FlattenedMatch)
    → All (IsReadable get_time) (filter is_published (flatten_matches stages))
    → next_match get_time now (tournament_matches get_time stages) ≡ some e
    → ¬ ShownLive get_time now e
    → All
        (λ x. Unscored x.entry → (x ≡ e) ⊎ Precedes get_time e x)
        (tournament_matches get_time stages)
next_match-earliest get_time now stages e h found not_live =
    let (before, after, cut, why) = next_match-IsNext get_time now _ e found in
    elim why [
      | inl (is_live, _) ↦ absurd (not_live is_live)
      | inr (_, _, scored) ↦ rw cut (
          All-append _ before (e ∷ after) (All-mono (λ x no yes. absurd (no yes)) before scored) (
            λ _. inl refl,
            All-mono (λ x p _. inr p) after
                (Ordered_after (Precedes get_time) before e after
                  (rw cut at (tournament_matches-Precedes get_time stages h))),
          ))
    ]
