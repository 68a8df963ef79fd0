-- ===== src/Base/Every.antt =====
-- What holds of every element of a list.
use mathlib.Core.Path.{◌≡◌, refl}
use mathlib.Core.Logic.{inl, inr}
use mathlib.Core.List.{List, [], ◌∷◌, map}
use mathlib.Core.Option.{some}
use Prim.Native.Nat.{ℕ, zero, suc}
use brackets.Base.Lists.{All, Any, get_elem?}

module _ {ℓ κ μ} {A : Type ℓ} {P : A → Type κ} {Q : A → Type μ} where
  pub All-mono : ((a : A) → P a → Q a) → (xs : List A) → All P xs → All Q xs
  All-mono f [] h = tt
  All-mono f (x ∷ xs) (p, h) = (f x p, All-mono f xs h)

  pub All-both {ν} :
      {R : A → Type ν}
      → ((a : A) → P a → Q a → R a)
      → (xs : List A) → All P xs
      → All Q xs
      → All R xs
  All-both {R} f [] h k = tt
  All-both {R} f (x ∷ xs) (p, h) (q, k) = (f x p q, All-both f xs h k)

pub All-map {ℓ κ ν} :
    {A : Type ℓ} {B : Type ν} (P : A → Type κ) (g : B → A)
    → ((b : B) → P (g b))
    → (xs : List B) → All P (map g xs)
All-map P g f [] = tt
All-map P g f (x ∷ xs) = (f x, All-map P g f xs)

pub All-Unit {ℓ} : {A : Type ℓ} (xs : List A) → All (λ _. Unit {0}) xs
All-Unit [] = tt
All-Unit (x ∷ xs) = (tt, All-Unit xs)

-- Every element occurs.
pub All-Any : {A : Type 0} (xs : List A) → All (λ x. Any (λ y. y ≡ x) xs) xs
All-Any [] = tt
All-Any (x ∷ xs) = (inl refl, All-mono (λ y h. inr h) xs (All-Any xs))

pub map-≡-All {ℓ} :
    {A B : Type ℓ} (f g : A → B) (xs : List A) → map f xs ≡ map g xs → All (λ x. f x ≡ g x) xs
map-≡-All f g [] h = tt
map-≡-All f g (x ∷ xs) h = (cc, map-≡-All f g xs cc)

pub All-Any_at {κ} :
    {A : Type 0} (P : A → Type κ) {x : A} (xs : List A) → All P xs → Any (λ y. y ≡ x) xs → P x
All-Any_at P [] h k = absurd k
All-Any_at P (y ∷ ys) (p, h) k = elim k [
  | inl same ↦ rw (← same) p
  | inr rest ↦ All-Any_at P ys h rest
]

-- An element is named by its index.
pub Any-get_elem? :
    {A : Type 0} (P : A → Type 0) (n : ℕ) (xs : List A) {x : A}
    → get_elem? xs n ≡ some x
    → P x
    → Any P xs
Any-get_elem? P n [] h p = cc
Any-get_elem? P zero (y ∷ ys) h p = let same : y ≡ _ = cc in inl (rw same p)
Any-get_elem? P (suc n) (y ∷ ys) h p = inr (Any-get_elem? P n ys h p)
