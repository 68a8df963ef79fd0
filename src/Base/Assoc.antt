-- ===== src/Base/Assoc.antt =====
-- A JavaScript `Map` with numbers for keys, as an association list. A later `set` wins.
use Prim.Native.Nat.{ℕ}
use mathlib.Core.Path.{◌≡◌, refl}
use mathlib.Core.Logic.{inl, inr}
use mathlib.Core.Bool.{true, Bool, ◌||◌, false}
use mathlib.Core.List.{List, [], ◌∷◌}
use mathlib.Core.Option.{Option, none, some}
use native.Mathlib.Omega.{arith}
use brackets.Base.Tests.{◌==◌, if◌then◌else◌, Bool-cases}
use brackets.Base.Strings.{Text, text_eq, text_eq_iff}
use brackets.Base.Lists.{any, All}

module _ {ℓ} {V : Type ℓ} where
  -- `map.get(key)`
  unfoldable pub map_get : ℕ → List (ℕ × V) → Option V
  map_get k [] = none
  map_get k ((j, v) ∷ m) = if j == k then some v else map_get k m

  -- `map.set(key, value)`
  unfoldable pub map_set : ℕ → V → List (ℕ × V) → List (ℕ × V)
  map_set k v [] = (k, v) ∷ []
  map_set k v ((j, w) ∷ m) = if j == k then (k, v) ∷ m else (j, w) ∷ map_set k v m

  set_all : List (ℕ × V) → List (ℕ × V) → List (ℕ × V)
  set_all m [] = m
  set_all m ((k, v) ∷ es) = set_all (map_set k v m) es

  -- `new Map(entries)`
  unfoldable pub map_of : List (ℕ × V) → List (ℕ × V)
  unfolding set_all
  map_of es = set_all [] es

  pub map_get-map_set :
      (k j : ℕ) (v : V) (m : List (ℕ × V))
      → map_get j (map_set k v m) ≡ (if k == j then some v else map_get j m)
  unfolding map_get map_set
  map_get-map_set k j v [] = refl
  map_get-map_set k j v ((i, w) ∷ m) = ground (arith, map_get-map_set k j v m)

  -- What holds of every entry holds of the entry that is found.
  pub map_get-All {κ} :
      (P : ℕ → V → Type κ) (k : ℕ) (m : List (ℕ × V)) {v : V}
      → All (λ e. P e.0 e.1) m
      → map_get k m ≡ some v
      → P k v
  unfolding map_get
  map_get-All P k [] {v} h e = cc
  map_get-All P k ((j, w) ∷ m) {v} (p, h) e = elim (Bool-cases (j == k)) [
    | inl same ↦
        let found : w ≡ v = ground arith in let key : j ≡ k = ground arith in rw (← found, ← key) p
    | inr other ↦ map_get-All P k m h (ground arith)
  ]

  map_set-All {κ} :
      (P : ℕ → V → Type κ) (k : ℕ) (v : V) (m : List (ℕ × V))
      → P k v
      → All (λ e. P e.0 e.1) m
      → All (λ e. P e.0 e.1) (map_set k v m)
  unfolding map_set
  map_set-All P k v [] p h = (p, tt)
  map_set-All P k v ((j, w) ∷ m) p (q, h) = elim (Bool-cases (j == k)) [
    | inl e ↦ rw e (p, h)
    | inr e ↦ rw e (q, map_set-All P k v m p h)
  ]

  set_all-All {κ} :
      (P : ℕ → V → Type κ) (m es : List (ℕ × V))
      → All (λ e. P e.0 e.1) m
      → All (λ e. P e.0 e.1) es
      → All (λ e. P e.0 e.1) (set_all m es)
  unfolding set_all
  set_all-All P m [] h k = h
  set_all-All P m ((i, v) ∷ es) h (p, k) =
      set_all-All P (map_set i v m) es (map_set-All P i v m p h) k

  pub map_of-All {κ} :
      (P : ℕ → V → Type κ) (es : List (ℕ × V))
      → All (λ e. P e.0 e.1) es
      → All (λ e. P e.0 e.1) (map_of es)
  unfolding map_of
  map_of-All P es h = set_all-All P [] es tt h

  -- No later entry has an earlier entry's key.
  abbrev pub DistinctKeys : List (ℕ × V) → Type 0
  DistinctKeys [] = Unit {0}
  DistinctKeys ((k, v) ∷ es) = All (λ e. (k == e.0) ≡ false) es × DistinctKeys es

  map_get-set_all_other :
      (k : ℕ) (m es : List (ℕ × V))
      → All (λ e. (k == e.0) ≡ false) es
      → map_get k (set_all m es) ≡ map_get k m
  unfolding set_all
  map_get-set_all_other k m [] h = refl
  map_get-set_all_other k m ((j, v) ∷ es) (p, h) =
      rw (map_get-set_all_other k (map_set j v m) es h) (ground (arith, map_get-map_set j k v m))

  -- With distinct keys every entry is found under its key.
  pub map_get-map_of :
      (es : List (ℕ × V)) → DistinctKeys es → All (λ e. map_get e.0 (map_of es) ≡ some e.1) es
  unfolding map_of
  map_get-map_of es h = go es [] h
    where
      go :
          (es m : List (ℕ × V))
          → DistinctKeys es
          → All (λ e. map_get e.0 (set_all m es) ≡ some e.1) es
      go [] m h = tt
      go ((k, v) ∷ es) m (p, h) = (
        rw (map_get-set_all_other k (map_set k v m) es p) (ground (arith, map_get-map_set k k v m)),
        go es (map_set k v m) h,
      )

  -- A key is in the map exactly when some entry has it.
  abbrev pub has_value : Option V → Bool
  has_value none = false
  has_value (some v) = true

  has_value-set_all :
      (k : ℕ) (m es : List (ℕ × V))
      → has_value (map_get k (set_all m es)) ≡ (has_value (map_get k m) || any (λ e. e.0 == k) es)
  unfolding set_all
  has_value-set_all k m [] = ground arith
  has_value-set_all k m ((j, v) ∷ es) =
      ground (arith, has_value-set_all k (map_set j v m) es, map_get-map_set j k v m)

  pub has_value-map_of :
      (k : ℕ) (es : List (ℕ × V)) → has_value (map_get k (map_of es)) ≡ any (λ e. e.0 == k) es
  unfolding map_of map_get
  has_value-map_of k es = has_value-set_all k [] es

-- A JavaScript object used as a map with texts for keys: `object[key]`.
module _ {ℓ} {V : Type ℓ} where
  unfoldable pub record_get : Text → List (Text × V) → Option V
  record_get k [] = none
  record_get k ((j, v) ∷ m) = if text_eq j k then some v else record_get k m

  -- `object[key] = value`, which keeps the place of a key that is there.
  unfoldable pub record_set : Text → V → List (Text × V) → List (Text × V)
  record_set k v [] = (k, v) ∷ []
  record_set k v ((j, w) ∷ m) = if text_eq j k then (j, v) ∷ m else (j, w) ∷ record_set k v m

  -- `delete object[key]`
  unfoldable pub record_delete : Text → List (Text × V) → List (Text × V)
  record_delete k [] = []
  record_delete k ((j, w) ∷ m) =
      let rest = record_delete k m in if text_eq j k then rest else (j, w) ∷ rest

  -- `{ ...object, ...entries }`
  unfoldable pub record_spread : List (Text × V) → List (Text × V) → List (Text × V)
  unfolding record_set
  record_spread m [] = m
  record_spread m ((k, v) ∷ es) = record_spread (record_set k v m) es

  pub record_get-record_set :
      (k j : Text) (v : V) (m : List (Text × V))
      → record_get j (record_set k v m) ≡ (if text_eq k j then some v else record_get j m)
  unfolding record_get record_set
  record_get-record_set k j v [] = refl
  record_get-record_set k j v ((i, w) ∷ m) =
      ground
        (arith, text_eq_iff k j, text_eq_iff i k, text_eq_iff i j, record_get-record_set k j v m)

  pub record_get-record_delete :
      (k j : Text) (m : List (Text × V))
      → text_eq k j ≡ false
      → record_get j (record_delete k m) ≡ record_get j m
  unfolding record_get record_delete
  record_get-record_delete k j [] h = refl
  record_get-record_delete k j ((i, w) ∷ m) h =
      ground
        (arith, text_eq_iff k j, text_eq_iff i k, text_eq_iff i j, record_get-record_delete k j m)

  pub record_get-record_set_other :
      (k j : Text) (v : V) (m : List (Text × V))
      → text_eq k j ≡ false
      → record_get j (record_set k v m) ≡ record_get j m
  record_get-record_set_other k j v m h = rw (record_get-record_set k j v m, h) refl
