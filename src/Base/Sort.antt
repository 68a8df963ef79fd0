-- ===== src/Base/Sort.antt =====
-- `Array.prototype.sort` and `toSorted` with a comparator: the sort is stable, and a comparator's
-- NaN counts as 0.
use mathlib.Core.Path.{◌≡◌}
use mathlib.Core.Logic.{inl, inr}
use Prim.Native.Nat.{suc}
use mathlib.Core.Path.{◌≡◌, refl, ap, ◌∙◌}
use native.Mathlib.Omega.{arith}
use mathlib.Core.Bool.{Bool, true, false}
use mathlib.Core.List.{List, [], ◌∷◌, Perm}
use mathlib.Core.List.Perm
use brackets.Base.Tests.{if◌then◌else◌, Bool-cases}
use brackets.Base.Lists.{All, Ordered, length}
use brackets.Base.Int.{Num, is_positive}

module _ {ℓ} {A : Type ℓ} (compare : A → A → Num) where
  -- The comparator puts the first argument strictly after the second.
  abbrev pub is_after : A → A → Bool
  is_after a b = is_positive (compare a b)

  pub insert_sorted : A → List A → List A
  insert_sorted x [] = x ∷ []
  insert_sorted x (y ∷ ys) = if is_after x y then y ∷ insert_sorted x ys else x ∷ y ∷ ys

  unfoldable pub sort_by : List A → List A
  unfolding insert_sorted
  sort_by [] = []
  sort_by (x ∷ xs) = insert_sorted x (sort_by xs)

  insert_sorted-perm : (x : A) (ys : List A) → Perm (insert_sorted x ys) (x ∷ ys)
  unfolding insert_sorted
  insert_sorted-perm x [] = Perm.refl (x ∷ [])
  insert_sorted-perm x (y ∷ ys) = elim (Bool-cases (is_after x y)) [
    | inl e ↦ rw e (Perm.trans (Perm.cons y (insert_sorted-perm x ys)) (Perm.swap x y ys))
    | inr e ↦ rw e (Perm.refl (x ∷ y ∷ ys))
  ]

  -- Sorting only reorders.
  pub sort_by-perm : (xs : List A) → Perm (sort_by xs) xs
  unfolding sort_by
  sort_by-perm [] = Perm.refl []
  sort_by-perm (x ∷ xs) =
      Perm.trans (insert_sorted-perm x (sort_by xs)) (Perm.cons x (sort_by-perm xs))

  module _ {κ} (P : A → Type κ) where
    insert_sorted-All : (x : A) (ys : List A) → P x → All P ys → All P (insert_sorted x ys)
    unfolding insert_sorted
    insert_sorted-All x [] p h = (p, tt)
    insert_sorted-All x (y ∷ ys) p (q, h) = elim (Bool-cases (is_after x y)) [
      | inl e ↦ rw e (q, insert_sorted-All x ys p h)
      | inr e ↦ rw e (p, (q, h))
    ]

    pub sort_by-All : (xs : List A) → All P xs → All P (sort_by xs)
    unfolding sort_by
    sort_by-All [] h = tt
    sort_by-All (x ∷ xs) (p, h) = insert_sorted-All x (sort_by xs) p (sort_by-All xs h)

    insert_sorted-All_inv : (x : A) (ys : List A) → All P (insert_sorted x ys) → P x × All P ys
    unfolding insert_sorted
    insert_sorted-All_inv x [] h = h
    insert_sorted-All_inv x (y ∷ ys) h = elim (Bool-cases (is_after x y)) [
      | inl e ↦
          let (q, rest) = rw e at h in
          let (p, others) = insert_sorted-All_inv x ys rest in (p, (q, others))
      | inr e ↦ rw e at h
    ]

    -- What holds of the sorted list holds of the list.
    pub sort_by-All_inv : (xs : List A) → All P (sort_by xs) → All P xs
    unfolding sort_by
    sort_by-All_inv [] h = tt
    sort_by-All_inv (x ∷ xs) h =
        let (p, rest) = insert_sorted-All_inv x (sort_by xs) h in (p, sort_by-All_inv xs rest)

  length-insert_sorted : (x : A) (ys : List A) → length (insert_sorted x ys) ≡ suc (length ys)
  unfolding insert_sorted
  length-insert_sorted x [] = refl
  length-insert_sorted x (y ∷ ys) = ground (arith, length-insert_sorted x ys)

  pub length-sort_by : (xs : List A) → length (sort_by xs) ≡ length xs
  unfolding sort_by
  length-sort_by [] = refl
  length-sort_by (x ∷ xs) = length-insert_sorted x (sort_by xs) ∙ ap suc (length-sort_by xs)

  -- On elements that satisfy `P` the comparator is a total preorder.
  module _ {κ} (P : A → Type κ)
      (flip : (a b : A) → P a → P b → is_after a b ≡ true → is_after b a ≡ false)
      (chain : (a b c : A)
        → P a
        → P b
        → P c
        → is_after a b ≡ false
        → is_after b c ≡ false
        → is_after a c ≡ false) where
    chain-All :
        (x y : A) (ys : List A)
        → P x
        → P y
        → All P ys
        → is_after x y ≡ false
        → All (λ b. is_after y b ≡ false) ys
        → All (λ b. is_after x b ≡ false) ys
    chain-All x y [] p q h e k = tt
    chain-All x y (z ∷ zs) p q (r, h) e (f, k) = (chain x y z p q r e f, chain-All x y zs p q h e k)

    insert_sorted-Ordered :
        (x : A) (ys : List A)
        → P x
        → All P ys
        → Ordered (λ a b. is_after a b ≡ false) ys
        → Ordered (λ a b. is_after a b ≡ false) (insert_sorted x ys)
    unfolding insert_sorted
    insert_sorted-Ordered x [] p h o = (tt, tt)
    insert_sorted-Ordered x (y ∷ ys) p (q, h) (before, o) = elim (Bool-cases (is_after x y)) [
      | inl e ↦ rw e (
        insert_sorted-All (λ b. is_after y b ≡ false) x ys (flip x y p q e) before,
        insert_sorted-Ordered x ys p h o,
      )
      | inr e ↦ rw e ((e, chain-All x y ys p q h e before), (before, o))
    ]

    -- The result is in order: no element comes strictly after a later one.
    pub sort_by-Ordered :
        (xs : List A) → All P xs → Ordered (λ a b. is_after a b ≡ false) (sort_by xs)
    unfolding sort_by
    sort_by-Ordered [] h = tt
    sort_by-Ordered (x ∷ xs) (p, h) =
        insert_sorted-Ordered x (sort_by xs) p (sort_by-All P xs h) (sort_by-Ordered xs h)
