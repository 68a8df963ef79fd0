-- ===== src/Bracket/Labels.antt =====
-- The names of the rounds: `roundLabel` of frontend/src/app/bracket-adapter.ts.
use brackets.Base.{
  List, Text, [], ap, arith, codes, decimal-injective, refl, suc, zero, ℕ, ◌++◌, ◌+◌, ◌-◌, ◌<◌, ◌^◌,
  ◌∷◌, ◌≡◌, ◌≤◌,
}
use native.Mathlib.Nat.{pow-suc}
use brackets.Bracket.{GroupType, round_label, knockout_label, round_robin}

two_pow_pos : (n : ℕ) → 0 < 2 ^ n
two_pow_pos zero = omega arith
two_pow_pos (suc n) = omega (arith, pow-suc 2 n, two_pow_pos n)

two_pow_mono : (m n : ℕ) → m < n → 2 ^ m < 2 ^ n
two_pow_mono m zero h = absurd (omega arith)
two_pow_mono m (suc n) h = grind (arith, pow-suc 2 n, two_pow_mono m n, two_pow_pos n)

two_pow_injective : (m n : ℕ) → 2 ^ m ≡ 2 ^ n → m ≡ n
two_pow_injective m n e = ground (arith, two_pow_mono m n, two_pow_mono n m)

append_injective {ℓ} : {A : Type ℓ} (s t u : List A) → s ++ t ≡ s ++ u → t ≡ u
append_injective [] t u e = e
append_injective (x ∷ s) t u e = append_injective s t u (cc)

-- The first character; 0 if there is none.
abbrev initial : Text → ℕ
initial [] = 0
initial (c ∷ s) = c

knockout_label_injective : (m n : ℕ) → knockout_label m ≡ knockout_label n → m ≡ n
unfolding knockout_label
knockout_label_injective zero zero e = refl
knockout_label_injective (suc zero) (suc zero) e = refl
knockout_label_injective (suc (suc zero)) (suc (suc zero)) e = refl
knockout_label_injective (suc (suc (suc m))) (suc (suc (suc n))) e =
    let same = two_pow_injective (m + 4) (n + 4) (
      decimal-injective (2 ^ (m + 4)) (2 ^ (n + 4)) (append_injective (codes "Round of ") _ _ e)) in
    omega arith
knockout_label_injective zero (suc zero) e = absurd (omega (arith, ap initial e))
knockout_label_injective zero (suc (suc zero)) e = absurd (omega (arith, ap initial e))
knockout_label_injective zero (suc (suc (suc n))) e = absurd (omega (arith, ap initial e))
knockout_label_injective (suc zero) zero e = absurd (omega (arith, ap initial e))
knockout_label_injective (suc zero) (suc (suc zero)) e = absurd (omega (arith, ap initial e))
knockout_label_injective (suc zero) (suc (suc (suc n))) e = absurd (omega (arith, ap initial e))
knockout_label_injective (suc (suc zero)) zero e = absurd (omega (arith, ap initial e))
knockout_label_injective (suc (suc zero)) (suc zero) e = absurd (omega (arith, ap initial e))
knockout_label_injective (suc (suc zero)) (suc (suc (suc n))) e =
    absurd (omega (arith, ap initial e))
knockout_label_injective (suc (suc (suc m))) zero e = absurd (omega (arith, ap initial e))
knockout_label_injective (suc (suc (suc m))) (suc zero) e = absurd (omega (arith, ap initial e))
knockout_label_injective (suc (suc (suc m))) (suc (suc zero)) e =
    absurd (omega (arith, ap initial e))

-- No two rounds of a bracket or of a Swiss group have the same name, when they are numbered up to
-- the number of rounds.
pub round_label_injective :
    (group : GroupType) (count a b : ℕ)
    → a ≤ count
    → b ≤ count
    → round_label group count a ≡ round_label group count b
    → a ≡ b
unfolding round_label
round_label_injective round_robin count a b p q e =
    decimal-injective a b (append_injective (codes "Round ") _ _ e)
round_label_injective _ count a b p q e =
    let same = knockout_label_injective (count - a) (count - b) e in omega arith
