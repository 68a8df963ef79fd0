-- ===== src/Rounds/Pairs.antt =====
-- The keys of pairs, the rematch marks and the teams that sit out.
use brackets.Base.{
  Any, Option, [], any, any_iff, ap, ap₂, arith, decimal, decimal-Lacks, decimal-injective, false,
  not, refl, split, split-append, split_of_Lacks, sym, text_eq, text_eq_iff, true, ℕ, ◌&&◌, ◌++◌,
  ◌↔◌, ◌∙◌, ◌∷◌, ◌≡◌, ◌⊎◌,
}
use brackets.Model.{Match, Round, StageItem}
use brackets.Rounds.{or_zero, pair_key, is_played_pair}

split-pair : (m n : ℕ) → split b'-' (decimal m ++ b'-' ∷ decimal n) ≡ decimal m ∷ decimal n ∷ []
split-pair m n =
    split-append b'-' (decimal m) (decimal n) (decimal-Lacks b'-' m refl)
    ∙ ap (λ t. decimal m ∷ t) (split_of_Lacks b'-' (decimal n) (decimal-Lacks b'-' n refl))

pair_parts :
    (m n p q : ℕ)
    → decimal m ++ b'-' ∷ decimal n ≡ decimal p ++ b'-' ∷ decimal q
    → (m ≡ p) × (n ≡ q)
pair_parts m n p q e =
    let parts : decimal m ∷ decimal n ∷ [] ≡ decimal p ∷ decimal q ∷ [] =
      sym (split-pair m n) ∙ ap (split b'-') e ∙ split-pair p q in
    (decimal-injective m p (cc), decimal-injective n q (cc))

-- Two pairs have the same key exactly when they are the same two inputs, in either order; a missing
-- input counts as 0, which is no id.
pub pair_key_iff :
    (a b c d : Option ℕ)
    → (pair_key a b ≡ pair_key c d) ↔ (
        ((or_zero a ≡ or_zero c) × (or_zero b ≡ or_zero d))
        ⊎ ((or_zero a ≡ or_zero d) × (or_zero b ≡ or_zero c)))
unfolding pair_key
pair_key_iff a b c d = (
  λ e. omega (arith, pair_parts _ _ _ _ e),
  λ h. ap₂ (λ x y. decimal x ++ b'-' ∷ decimal y) (omega arith) (omega arith),
)

-- The sides of a match are the two inputs, in either order.
abbrev pub Meets : Option ℕ → Option ℕ → Match → Type 0
Meets a b m =
    ((or_zero m.stage_item_input1_id ≡ or_zero a) × (or_zero m.stage_item_input2_id ≡ or_zero b))
    ⊎ ((or_zero m.stage_item_input1_id ≡ or_zero b) × (or_zero m.stage_item_input2_id ≡ or_zero a))

same_key_iff :
    (a b : Option ℕ) (m : Match)
    → (text_eq (pair_key m.stage_item_input1_id m.stage_item_input2_id) (pair_key a b) ≡ true)
      ↔ Meets a b m
same_key_iff a b m =
    let (to, from) =
      text_eq_iff (pair_key m.stage_item_input1_id m.stage_item_input2_id) (pair_key a b) in
    let (there, back) = pair_key_iff m.stage_item_input1_id m.stage_item_input2_id a b in
    (λ e. there (to e), λ h. from (back h))

played_round_iff :
    (a b : Option ℕ) (r : Round)
    → ((not r.is_draft
          && any
              (λ m. text_eq (pair_key m.stage_item_input1_id m.stage_item_input2_id) (pair_key a b))
              r.matches)
        ≡ true)
      ↔ ((r.is_draft ≡ false) × Any (Meets a b) r.matches)
played_round_iff a b r = ground (arith, any_iff _ (Meets a b) (same_key_iff a b) r.matches)

-- A pair counts as played exactly when some match of a published round has the two inputs as its
-- sides, in either order.
pub is_played_pair_iff :
    (item : StageItem) (a b : Option ℕ)
    → (is_played_pair item (pair_key a b) ≡ true)
      ↔ Any (λ r. (r.is_draft ≡ false) × Any (Meets a b) r.matches) item.rounds
unfolding is_played_pair
is_played_pair_iff item a b = any_iff _ _ (played_round_iff a b) item.rounds
