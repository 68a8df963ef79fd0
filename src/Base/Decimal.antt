-- ===== src/Base/Decimal.antt =====
-- `String(n)` and `Number(s)` on decimal integers.
use Prim.Native.Nat.{ℕ, zero, suc, ◌+◌, ◌-◌, ◌*◌, ◌/◌, ◌%◌, ◌≤◌, ◌<◌}
use mathlib.Core.Path.{◌≡◌, refl, sym, ap, ◌∙◌}
use mathlib.Core.Logic.{inl, inr}
use mathlib.Core.Bool.{Bool, true, false, ◌&&◌}
use mathlib.Core.List.{[], ◌∷◌, ◌++◌}
use mathlib.Core.Option.{Option, some}
use native.Mathlib.Omega.{arith}
use native.Mathlib.Numerals.{add-one}
use brackets.Base.Tests.{leb, ltb, if◌then◌else◌, Bool-cases}
use brackets.Base.Strings.{Text, truthy, Lacks}
use brackets.Base.Lists.{All, All-append}

-- `/\d/` on one character.
abbrev pub is_digit : ℕ → Bool
is_digit c = leb b'0' c && leb c b'9'

unfoldable pub all_digits : Text → Bool
all_digits [] = true
all_digits (c ∷ s) = is_digit c && all_digits s

digits_fuel : ℕ → ℕ → Text
digits_fuel zero n = []
digits_fuel (suc f) n =
    let more = digits_fuel f (n / 10) in
    if ltb n 10 then (b'0' + n) ∷ [] else more ++ (b'0' + n % 10) ∷ []

-- `String(n)`; a number has fewer digits than one more than itself.
unfoldable pub decimal : ℕ → Text
unfolding digits_fuel
decimal n = digits_fuel (n + 1) n

value_from : ℕ → Text → ℕ
value_from acc [] = acc
value_from acc (c ∷ s) = value_from (acc * 10 + (c - b'0')) s

-- The number that a text of digits spells.
unfoldable pub digits_value : Text → ℕ
unfolding value_from
digits_value s = value_from 0 s

value_from-append :
    (acc : ℕ) (s t : Text) → value_from acc (s ++ t) ≡ value_from (value_from acc s) t
unfolding value_from
value_from-append acc [] t = refl
value_from-append acc (c ∷ s) t = value_from-append (acc * 10 + (c - b'0')) s t

digits_fuel-value : (f n : ℕ) → n < f → value_from 0 (digits_fuel f n) ≡ n
unfolding digits_fuel value_from
digits_fuel-value zero n h = absurd (omega arith)
digits_fuel-value (suc f) n h = elim (Bool-cases (ltb n 10)) [
  | inl small ↦ rw small (ground arith)
  | inr large ↦
      rw
        (
          large,
          value_from-append 0 (digits_fuel f (n / 10)) ((b'0' + n % 10) ∷ []),
          digits_fuel-value f (n / 10) (ground arith),
        )
        (omega arith)
]

IsDigit : ℕ → Type 0
IsDigit c = is_digit c ≡ true

digits_fuel-All : (f n : ℕ) → All IsDigit (digits_fuel f n)
unfolding digits_fuel IsDigit
digits_fuel-All zero n = tt
digits_fuel-All (suc f) n = elim (Bool-cases (ltb n 10)) [
  | inl small ↦ rw small (ground arith, tt)
  | inr large ↦ rw large (
      All-append IsDigit (digits_fuel f (n / 10)) _ (digits_fuel-All f (n / 10)) (ground arith, tt))
]

All-all_digits : (s : Text) → All IsDigit s → all_digits s ≡ true
unfolding all_digits IsDigit
All-all_digits [] h = refl
All-all_digits (c ∷ s) (p, h) = rw (p, All-all_digits s h)

-- Printing and reading back gives the number.
pub digits_value-decimal : (n : ℕ) → digits_value (decimal n) ≡ n
unfolding digits_value decimal
digits_value-decimal n = digits_fuel-value (n + 1) n (omega arith)

pub all_digits-decimal : (n : ℕ) → all_digits (decimal n) ≡ true
unfolding decimal
all_digits-decimal n = All-all_digits (digits_fuel (n + 1) n) (digits_fuel-All (n + 1) n)

truthy-append : (s : Text) (c : ℕ) (t : Text) → truthy (s ++ c ∷ t) ≡ true
truthy-append [] c t = refl
truthy-append (d ∷ s) c t = refl

truthy-digits_fuel : (f n : ℕ) → truthy (digits_fuel (suc f) n) ≡ true
unfolding digits_fuel
truthy-digits_fuel f n = elim (Bool-cases (ltb n 10)) [
  | inl small ↦ rw small refl
  | inr large ↦ rw large (truthy-append (digits_fuel f (n / 10)) _ [])
]

pub truthy-decimal : (n : ℕ) → truthy (decimal n) ≡ true
unfolding decimal
truthy-decimal n = rw add-one (truthy-digits_fuel n n)

-- No digit is a separator.
All-Lacks : (sep : ℕ) → is_digit sep ≡ false → (s : Text) → All IsDigit s → Lacks sep s
unfolding IsDigit
All-Lacks sep e [] h = tt
All-Lacks sep e (c ∷ s) (p, h) = (ground arith, All-Lacks sep e s h)

pub decimal-Lacks : (sep n : ℕ) → is_digit sep ≡ false → Lacks sep (decimal n)
unfolding decimal
decimal-Lacks sep n e = All-Lacks sep e (digits_fuel (n + 1) n) (digits_fuel-All (n + 1) n)

pub decimal-injective : (m n : ℕ) → decimal m ≡ decimal n → m ≡ n
decimal-injective m n e = sym (digits_value-decimal m) ∙ ap digits_value e ∙ digits_value-decimal n

-- `Number.MAX_SAFE_INTEGER`
abbrev pub max_safe_integer : ℕ
max_safe_integer = 9_007_199_254_740_991

-- `Number(s)`. Decimal integers that a double holds exactly are read here; `other` reads all else
-- (signs, fractions, exponents, spaces, the empty text, larger integers), with `none` for NaN.
unfoldable pub to_number : (Text → Option ℕ) → Text → Option ℕ
to_number other s =
    if truthy s && all_digits s && leb (digits_value s) max_safe_integer
    then some (digits_value s)
    else other s

pub to_number-decimal :
    (other : Text → Option ℕ) (n : ℕ) → n ≤ max_safe_integer → to_number other (decimal n) ≡ some n
unfolding to_number
to_number-decimal other n h =
    rw (truthy-decimal n, all_digits-decimal n, digits_value-decimal n) (ground arith)
