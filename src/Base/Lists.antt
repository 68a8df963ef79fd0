-- ===== src/Base/Lists.antt =====
-- Lists measured and indexed by native numbers, and the array methods of JavaScript with tests into
-- `Bool`.
use Prim.Native.Nat.{ℕ, zero, suc, ◌+◌, ◌-◌, ◌≤◌}
use mathlib.Core.Path.{◌≡◌, refl, ap}
use mathlib.Core.Logic.{◌⊎◌, ◌↔◌, inl, inr}
use mathlib.Core.Bool.{Bool, true, false, ◌||◌, not}
use mathlib.Core.List.{List, [], ◌∷◌, ◌++◌, map}
use mathlib.Core.Option.{Option, none, some}
use native.Mathlib.Omega.{arith}
use brackets.Base.Tests.{if◌then◌else◌, Bool-cases}

module _ {ℓ} {A : Type ℓ} where
  abbrev pub length : List A → ℕ
  length [] = 0
  length (x ∷ xs) = suc (length xs)

  abbrev pub get_elem? : List A → ℕ → Option A
  get_elem? [] i = none
  get_elem? (x ∷ xs) zero = some x
  get_elem? (x ∷ xs) (suc i) = get_elem? xs i

  abbrev pub take : ℕ → List A → List A
  take zero xs = []
  take (suc n) [] = []
  take (suc n) (x ∷ xs) = x ∷ take n xs

  abbrev pub drop : ℕ → List A → List A
  drop zero xs = xs
  drop (suc n) [] = []
  drop (suc n) (x ∷ xs) = drop n xs

  -- `xs.filter(p)`
  abbrev pub filter : (A → Bool) → List A → List A
  filter p [] = []
  filter p (x ∷ xs) = if p x then x ∷ filter p xs else filter p xs

  -- `xs.find(p)`
  abbrev pub find? : (A → Bool) → List A → Option A
  find? p [] = none
  find? p (x ∷ xs) = if p x then some x else find? p xs

  -- `xs.some(p)`
  abbrev pub any : (A → Bool) → List A → Bool
  any p [] = false
  any p (x ∷ xs) = p x || any p xs

  -- `xs.at(-1)`
  abbrev pub last? : List A → Option A
  last? [] = none
  last? (x ∷ []) = some x
  last? (x ∷ y ∷ xs) = last? (y ∷ xs)

  pub take-append-drop : (n : ℕ) (xs : List A) → take n xs ++ drop n xs ≡ xs
  take-append-drop zero xs = refl
  take-append-drop (suc n) [] = refl
  take-append-drop (suc n) (x ∷ xs) = rw (take-append-drop n xs)

  pub length-take_le : (n : ℕ) (xs : List A) → length (take n xs) ≤ n
  length-take_le zero xs = omega arith
  length-take_le (suc n) [] = omega arith
  length-take_le (suc n) (x ∷ xs) = omega (arith, length-take_le n xs)

  pub length-drop : (n : ℕ) (xs : List A) → length (drop n xs) ≡ length xs - n
  length-drop zero xs = omega arith
  length-drop (suc n) [] = omega arith
  length-drop (suc n) (x ∷ xs) = omega (arith, length-drop n xs)

  pub length-append : (xs ys : List A) → length (xs ++ ys) ≡ length xs + length ys
  length-append [] ys = omega arith
  length-append (x ∷ xs) ys = omega (arith, length-append xs ys)

  pub filter-append :
      (p : A → Bool) (xs ys : List A) → filter p (xs ++ ys) ≡ filter p xs ++ filter p ys
  filter-append p [] ys = refl
  filter-append p (x ∷ xs) ys = ground (arith, filter-append p xs ys)

  pub length-filter-le : (p : A → Bool) (xs : List A) → length (filter p xs) ≤ length xs
  length-filter-le p [] = omega arith
  length-filter-le p (x ∷ xs) = ground (arith, length-filter-le p xs)

  -- Every element passes a test or fails it.
  pub length-filter_split :
      (p : A → Bool) (xs : List A)
      → length (filter p xs) + length (filter (λ x. not (p x)) xs) ≡ length xs
  length-filter_split p [] = omega arith
  length-filter_split p (x ∷ xs) = ground (arith, length-filter_split p xs)

module _ {ℓ κ} {A : Type ℓ} where
  -- A property of every element, by recursion, which the tactics read and build.
  abbrev pub All : (A → Type κ) → List A → Type κ
  All P [] = Unit
  All P (x ∷ xs) = P x × All P xs

  -- A list whose earlier elements are related to all later ones.
  abbrev pub Ordered : (A → A → Type κ) → List A → Type κ
  Ordered R [] = Unit
  Ordered R (x ∷ xs) = All (R x) xs × Ordered R xs

  pub All-append : (P : A → Type κ) (xs ys : List A) → All P xs → All P ys → All P (xs ++ ys)
  All-append P [] ys h k = k
  All-append P (x ∷ xs) ys (p, h) k = (p, All-append P xs ys h k)

  pub All-filter : (P : A → Type κ) (p : A → Bool) (xs : List A) → All P xs → All P (filter p xs)
  All-filter P p [] h = tt
  All-filter P p (x ∷ xs) (q, h) = elim (Bool-cases (p x)) [
    | inl e ↦ rw e (q, All-filter P p xs h)
    | inr e ↦ rw e (All-filter P p xs h)
  ]

  pub All-take : (P : A → Type κ) (n : ℕ) (xs : List A) → All P xs → All P (take n xs)
  All-take P zero xs h = tt
  All-take P (suc n) [] h = tt
  All-take P (suc n) (x ∷ xs) (p, h) = (p, All-take P n xs h)

module _ {ℓ} {A : Type ℓ} where
  pub filter-none : (p : A → Bool) (xs : List A) → All (λ x. p x ≡ false) xs → filter p xs ≡ []
  filter-none p [] h = refl
  filter-none p (x ∷ xs) (e, h) = rw e (filter-none p xs h)

  pub filter-all : (p : A → Bool) (xs : List A) → All (λ x. p x ≡ true) xs → filter p xs ≡ xs
  filter-all p [] h = refl
  filter-all p (x ∷ xs) (e, h) = rw e (ap (◌∷◌ x) (filter-all p xs h))

  -- In an ordered list everything is related to the last element.
  pub All-last {κ} :
      (R : A → A → Type κ)
      → ((a : A) → R a a)
      → (xs : List A) (x : A) → Ordered R xs
      → last? xs ≡ some x
      → All (λ y. R y x) xs
  All-last R same [] x o e = cc
  All-last R same (y ∷ []) x o e = let eq : y ≡ x = ground arith in (rw eq (same x), tt)
  All-last R same (y ∷ z ∷ zs) x (h, o) e =
      let rest = All-last R same (z ∷ zs) x o e in (of_last (z ∷ zs) y h e, rest)
    where
      of_last : (ys : List A) (y : A) → All (R y) ys → last? ys ≡ some x → R y x
      of_last [] y h e = cc
      of_last (w ∷ []) y (p, _) e = let eq : w ≡ x = ground arith in rw (← eq) p
      of_last (w ∷ v ∷ vs) y (_, h) e = of_last (v ∷ vs) y h e

  pub filter-passes : (p : A → Bool) (xs : List A) → All (λ x. p x ≡ true) (filter p xs)
  filter-passes p [] = tt
  filter-passes p (x ∷ xs) = elim (Bool-cases (p x)) [
    | inl hit ↦ rw hit (hit, filter-passes p xs)
    | inr miss ↦ rw miss (filter-passes p xs)
  ]

module _ {ℓ} {A : Type ℓ} where
  -- A property of some element, by recursion.
  abbrev pub Any : (A → Type 0) → List A → Type 0
  Any P [] = ⊥
  Any P (x ∷ xs) = P x ⊎ Any P xs

module _ {ℓ} {A : Type ℓ} (p : A → Bool) where
  -- `find` returns the first element that passes.
  pub find?-eq-some :
      (xs : List A) (x : A)
      → find? p xs ≡ some x
      → (before after : List A) × (xs ≡ before ++ x ∷ after)
        × (p x ≡ true)
        × All (λ y. p y ≡ false) before
  find?-eq-some [] x e = cc
  find?-eq-some (y ∷ ys) x e = elim (Bool-cases (p y)) [
    | inl hit ↦ ([], ys, ground arith, ground arith, tt)
    | inr miss ↦
        let (before, after, split, found, none_before) = find?-eq-some ys x (ground arith) in
        (y ∷ before, after, ap (◌∷◌ y) split, found, (miss, none_before))
  ]

  pub find?-eq-none : (xs : List A) → find? p xs ≡ none → All (λ y. p y ≡ false) xs
  find?-eq-none [] e = tt
  find?-eq-none (y ∷ ys) e = elim (Bool-cases (p y)) [
    | inl hit ↦ absurd (ground arith)
    | inr miss ↦ (miss, find?-eq-none ys (ground arith))
  ]

  pub find?-none_of_All : (xs : List A) → All (λ y. p y ≡ false) xs → find? p xs ≡ none
  find?-none_of_All [] h = refl
  find?-none_of_All (y ∷ ys) (e, h) = rw e (find?-none_of_All ys h)

  -- What passes satisfies `Q`, and what satisfies `Q` passes.
  pub any_iff :
      (Q : A → Type 0)
      → ((a : A) → (p a ≡ true) ↔ Q a)
      → (xs : List A) → (any p xs ≡ true) ↔ Any Q xs
  any_iff Q h [] = ground arith
  any_iff Q h (x ∷ xs) = ground (arith, h x, any_iff Q h xs)

  -- Nothing passes exactly when everything satisfies what not passing means.
  pub any-eq-false_iff :
      (Q : A → Type 0)
      → ((a : A) → (p a ≡ false) ↔ Q a)
      → (xs : List A) → (any p xs ≡ false) ↔ All Q xs
  any-eq-false_iff Q h [] = ground arith
  any-eq-false_iff Q h (x ∷ xs) = ground (arith, h x, any-eq-false_iff Q h xs)

module _ {ℓ κ} {A : Type ℓ} {B : Type κ} where
  pub length-map : (xs : List A) (f : A → B) → length (map f xs) ≡ length xs
  length-map [] f = refl
  length-map (x ∷ xs) f = ap suc (length-map xs f)

  -- `xs.map((x, index) => f(x, index))`, counted from `i`.
  abbrev pub map_from : ℕ → (ℕ → A → B) → List A → List B
  map_from i f [] = []
  map_from i f (x ∷ xs) = f i x ∷ map_from (i + 1) f xs

-- A list in one order is in another that the first implies for its members.
pub Ordered-of {ℓ κ μ ν} :
    {A : Type ℓ} {P : A → Type κ} {R : A → A → Type μ} {S : A → A → Type ν}
    → ((a b : A) → P a → P b → R a b → S a b)
    → (xs : List A) → All P xs
    → Ordered R xs
    → Ordered S xs
Ordered-of h [] k o = tt
Ordered-of {A = A} {P} {R} {S} h (x ∷ xs) (p, k) (r, o) = (go xs k r, Ordered-of h xs k o)
  where
    go : (ys : List A) → All P ys → All (R x) ys → All (S x) ys
    go [] k r = tt
    go (y ∷ ys) (q, k) (r, rs) = (h x y p q r, go ys k rs)
