-- ===== src/Home/Laws.antt =====
-- Which tournaments the home page lists, in which order, and where its links lead.
use brackets.Base.{
  All, All-append, All-filter, Any, Bool, Lacks, List, Num, Ordered, Perm, Text, [], arith, codes,
  decimal-Lacks, false, false≢true, filter, if◌then◌else◌, inl, inr, is_after, not, refl, reverse,
  some, sort_by, sort_by-All, sort_by-Ordered, sort_by-perm, sym, true, ℕ, ℤ, ◌++◌, ◌-ℤ◌, ◌<ℤ◌, ◌↔◌,
  ◌∷◌, ◌≡◌, ◌≢◌, ◌≤ℤ◌, ◌⊎◌,
}
use mathlib.Core.List.{append_cancel_left, perm_append_comm, reverse_perm, reverse-cons}
use mathlib.Core.List.Perm
use brackets.Model.{Tournament}
use brackets.Schedule.Lists.{filter-perm_split}
use brackets.Tournament.{public_tournament_key, is_open, public_tournament_path}
use brackets.Home.{by_start_time, active_tournaments, finished_tournaments, card_links, manage_path}

-- The home page lists each tournament exactly once, among the running and upcoming ones or among the
-- finished ones.
pub active-finished-perm :
    (get_time : Text → Num) (all : List Tournament)
    → Perm (active_tournaments get_time all ++ finished_tournaments get_time all) all
unfolding active_tournaments finished_tournaments
active-finished-perm get_time all =
    Perm.trans
      (Perm.append
        (sort_by-perm (by_start_time get_time) (filter (λ (t : Tournament). is_open t.status) all))
        (Perm.trans (reverse_perm _) (sort_by-perm (by_start_time get_time) _)))
      (Perm.trans
        (perm_append_comm (filter (λ (t : Tournament). is_open t.status) all)
          (filter (λ (t : Tournament). not (is_open t.status)) all))
        (filter-perm_split (λ (t : Tournament). is_open t.status) all))

module _ (get_time : Text → Num) where
  -- The start time is a date.
  abbrev pub HasStart : Tournament → Type 0
  HasStart t = (z : ℤ) × (get_time t.start_time ≡ some z)

  -- It starts no later.
  abbrev pub StartsBy : Tournament → Tournament → Type 0
  StartsBy a b =
      (s t : ℤ) × (get_time a.start_time ≡ some s) × (get_time b.start_time ≡ some t) × (s ≤ℤ t)

  abbrev later : Tournament → Tournament → Bool
  later = is_after (by_start_time get_time)

  later_iff :
      (a b : Tournament) (s t : ℤ)
      → get_time a.start_time ≡ some s
      → get_time b.start_time ≡ some t
      → (later a b ≡ true) ↔ (t <ℤ s)
  unfolding by_start_time ◌-ℤ◌
  later_iff a b s t p q = rw (p, q) (ground arith)

  StartsBy-not_later :
      (a b : Tournament) → HasStart a → HasStart b → later a b ≡ false → StartsBy a b
  StartsBy-not_later a b (s, p) (t, q) h = (s, t, p, q, ground (arith, later_iff a b s t p q))

  later_flip : (a b : Tournament) → HasStart a → HasStart b → later a b ≡ true → later b a ≡ false
  later_flip a b (s, p) (t, q) h = ground (arith, later_iff a b s t p q, later_iff b a t s q p)

  later_chain :
      (a b c : Tournament)
      → HasStart a
      → HasStart b
      → HasStart c
      → later a b ≡ false
      → later b c ≡ false
      → later a c ≡ false
  later_chain a b c (s, p) (t, q) (u, r) h k =
      ground (arith, later_iff a b s t p q, later_iff b c t u q r, later_iff a c s u p r)

  Ordered-StartsBy :
      (ts : List Tournament)
      → All HasStart ts
      → Ordered (λ a b. later a b ≡ false) ts
      → Ordered StartsBy ts
  Ordered-StartsBy [] h o = tt
  Ordered-StartsBy (t ∷ ts) (r, h) (k, o) = (All-StartsBy ts h k, Ordered-StartsBy ts h o)
    where
      All-StartsBy :
          (us : List Tournament)
          → All HasStart us
          → All (λ b. later t b ≡ false) us
          → All (StartsBy t) us
      All-StartsBy [] h k = tt
      All-StartsBy (u ∷ us) (q, h) (p, k) = (StartsBy-not_later t u r q p, All-StartsBy us h k)

  sort_by-StartsBy :
      (ts : List Tournament)
      → All HasStart ts
      → Ordered StartsBy (sort_by (by_start_time get_time) ts)
  sort_by-StartsBy ts h =
      Ordered-StartsBy _ (sort_by-All (by_start_time get_time) HasStart ts h)
        (sort_by-Ordered (by_start_time get_time) HasStart later_flip later_chain ts h)

module _ {A : Type 0} (R : A → A → Type 0) where
  Ordered-append_one :
      (xs : List A) (y : A) → Ordered R xs → All (λ x. R x y) xs → Ordered R (xs ++ y ∷ [])
  Ordered-append_one [] y o h = (tt, tt)
  Ordered-append_one (x ∷ xs) y (k, o) (r, h) =
      (All-append (R x) xs (y ∷ []) k (r, tt), Ordered-append_one xs y o h)

  reverse-All : (P : A → Type 0) (xs : List A) → All P xs → All P (reverse xs)
  reverse-All P [] h = tt
  reverse-All P (x ∷ xs) (p, h) =
      rw (reverse-cons x xs) (All-append P (reverse xs) (x ∷ []) (reverse-All P xs h) (p, tt))

-- A reversed list is in the opposite order.
reverse-Ordered :
    {A : Type 0} (R : A → A → Type 0) (xs : List A)
    → Ordered R xs
    → Ordered (λ a b. R b a) (reverse xs)
reverse-Ordered R [] o = tt
reverse-Ordered R (x ∷ xs) (k, o) = rw (reverse-cons x xs) (
    Ordered-append_one (λ a b. R b a) (reverse xs) x (reverse-Ordered R xs o)
      (reverse-All R (R x) xs k))

-- Running and upcoming tournaments are listed in the order in which they start, and the finished ones
-- in the opposite order, when every start time is a date.
pub active-finished-Ordered :
    (get_time : Text → Num) (all : List Tournament)
    → All (HasStart get_time) all
    → Ordered (StartsBy get_time) (active_tournaments get_time all)
      × Ordered (λ a b. StartsBy get_time b a) (finished_tournaments get_time all)
unfolding active_tournaments finished_tournaments
active-finished-Ordered get_time all h = (
  sort_by-StartsBy get_time _
      (All-filter (HasStart get_time) (λ (t : Tournament). is_open t.status) all h),
  reverse-Ordered (StartsBy get_time) _ (
      sort_by-StartsBy get_time _
        (All-filter (HasStart get_time) (λ (t : Tournament). not (is_open t.status)) all h)),
)

not_Lacks : (sep : ℕ) (s t : Text) → ¬ Lacks sep (s ++ sep ∷ t)
not_Lacks sep [] t (apart, _) = ground arith
not_Lacks sep (c ∷ s) t (_, h) = not_Lacks sep s t h

-- The two pages of a tournament have different addresses.
manage_path-public : (t : Tournament) → manage_path t ≢ public_tournament_path t
unfolding public_tournament_path
manage_path-public t e =
    not_Lacks b'/' (public_tournament_key t) (codes "dashboard")
      (rw (append_cancel_left (codes "/tournaments/") _ _ e) at (decimal-Lacks b'/' t.id refl))

abbrev links_of : (has_details : Bool) (manage details : Text) → List (Text × Text)
links_of has_details manage details =
    (codes "Manage", manage) ∷ (if has_details then (codes "Details", details) ∷ [] else [])

organizer_links :
    (has_details : Bool) (manage details : Text)
    → manage ≢ details
    → (Any (λ (link : Text × Text). link.1 ≡ manage) (links_of has_details manage details)
        ↔ (true ≡ true))
      × (Any (λ (link : Text × Text). link.1 ≡ details) (links_of has_details manage details)
          ↔ ((true ≡ false) ⊎ (has_details ≡ true)))
organizer_links true manage details apart =
    ((λ _. refl, λ _. inl refl), (λ _. inr refl, λ _. inr (inl refl)))
organizer_links false manage details apart = (
  (λ _. refl, λ _. inl refl),
  (
    λ found. absurd (elim found [ inl same ↦ apart same | inr nothing ↦ nothing ]),
    λ wanted. absurd (elim wanted [ inl e ↦ false≢true (sym e) | inr e ↦ false≢true e ]),
  ),
)

-- An organizer's card links to the page for organizers, a visitor's does not, and a card links to the
-- Details page except for an organizer whose tournament has none.
pub card_links_iff :
    (can_manage : Bool) (t : Tournament)
    → (Any (λ (link : Text × Text). link.1 ≡ manage_path t) (card_links can_manage t)
        ↔ (can_manage ≡ true))
      × (Any (λ (link : Text × Text). link.1 ≡ public_tournament_path t) (card_links can_manage t)
          ↔ ((can_manage ≡ false) ⊎ (t.dashboard_public ≡ true)))
unfolding card_links
card_links_iff false t = (
  (
    λ found.
        absurd (elim found [ inl same ↦ manage_path-public t (sym same) | inr nothing ↦ nothing ]),
    λ e. absurd (false≢true e),
  ),
  (λ _. inl refl, λ _. inl refl),
)
card_links_iff true t =
    organizer_links t.dashboard_public (manage_path t) (public_tournament_path t)
      (manage_path-public t)
