-- ===== src/Schedule/Slots.antt =====
-- The time slots of the schedule: `TimeSlots` of frontend/src/app/sections/tournament-schedule.tsx.
use brackets.Base.{
  All, Bool, Bool-cases, List, Option-cases, Ordered, Text, [], append-nil, append_assoc, arith,
  drop, false≢true, filter, if◌then◌else◌, inl, inr, length, length-take_le, none, refl, some, sym,
  take-append-drop, text_eq, text_eq_iff, ℕ, ◌++◌, ◌∙◌, ◌∷◌, ◌≡◌, ◌≢◌, ◌≤◌,
}
use brackets.Model.{FlattenedMatch}
use brackets.Schedule.{slot_key, add_to_group, group_from, time_slots}

abbrev Groups : Type 0
Groups = List (Text × List FlattenedMatch)

-- The group shown under a start time; none reads as empty.
pub slot_of : Text → List (Text × List FlattenedMatch) → List FlattenedMatch
slot_of k [] = []
slot_of k ((j, es) ∷ groups) = if text_eq j k then es else slot_of k groups

-- No two groups have the same start time.
abbrev pub DistinctSlots : List (Text × List FlattenedMatch) → Type 0
DistinctSlots = Ordered (λ a b. a.0 ≢ b.0)

-- The match starts at the time with this text; one without a start time is under the empty text.
abbrev pub starts_at : Text → FlattenedMatch → Bool
starts_at k e = elim e.entry.start_time [ none ↦ text_eq [] k | some time ↦ text_eq time k ]

starts_at-slot_key : (k : Text) (e : FlattenedMatch) → text_eq (slot_key e) k ≡ starts_at k e
starts_at-slot_key k e = elim (Option-cases e.entry.start_time) [
  | inl missing ↦ rw missing refl
  | inr (time, known) ↦ rw known refl
]

slot_of-add_to_group :
    (k j : Text) (e : FlattenedMatch) (groups : Groups)
    → slot_of j (add_to_group k e groups)
      ≡ (if text_eq k j then slot_of j groups ++ e ∷ [] else slot_of j groups)
unfolding slot_of add_to_group
slot_of-add_to_group k j e [] = ground arith
slot_of-add_to_group k j e ((i, es) ∷ groups) =
    ground
      (arith, text_eq_iff i k, text_eq_iff i j, text_eq_iff k j, slot_of-add_to_group k j e groups)

slot_of-group_from :
    (j : Text) (groups : Groups) (es : List FlattenedMatch)
    → slot_of j (group_from groups es) ≡ slot_of j groups ++ filter (starts_at j) es
unfolding group_from
slot_of-group_from j groups [] = sym (append-nil _)
slot_of-group_from j groups (e ∷ es) = elim (Bool-cases (starts_at j e)) [
  | inl same ↦
      rw
        (
          slot_of-group_from j (add_to_group (slot_key e) e groups) es,
          slot_of-add_to_group (slot_key e) j e groups,
          starts_at-slot_key j e,
          same,
        )
        (append_assoc (slot_of j groups) (e ∷ []) _)
  | inr other ↦
      rw
        (
          slot_of-group_from j (add_to_group (slot_key e) e groups) es,
          slot_of-add_to_group (slot_key e) j e groups,
          starts_at-slot_key j e,
          other,
        )
        refl
]

add_to_group-All :
    (i k : Text) (e : FlattenedMatch) (groups : Groups)
    → i ≢ k
    → All (λ g. i ≢ g.0) groups
    → All (λ g. i ≢ g.0) (add_to_group k e groups)
unfolding add_to_group
add_to_group-All i k e [] d h = (d, tt)
add_to_group-All i k e ((j, es) ∷ groups) d (p, h) = elim (Bool-cases (text_eq j k)) [
  | inl same ↦ rw same (p, h)
  | inr other ↦ rw other (p, add_to_group-All i k e groups d h)
]

add_to_group-DistinctSlots :
    (k : Text) (e : FlattenedMatch) (groups : Groups)
    → DistinctSlots groups
    → DistinctSlots (add_to_group k e groups)
unfolding add_to_group
add_to_group-DistinctSlots k e [] h = (tt, tt)
add_to_group-DistinctSlots k e ((j, es) ∷ groups) (p, h) = elim (Bool-cases (text_eq j k)) [
  | inl same ↦ rw same (p, h)
  | inr other ↦ rw other (
    add_to_group-All j k e groups (λ eq. false≢true (sym other ∙ (text_eq_iff j k).1 eq)) p,
    add_to_group-DistinctSlots k e groups h,
  )
]

group_from-DistinctSlots :
    (groups : Groups) (es : List FlattenedMatch)
    → DistinctSlots groups
    → DistinctSlots (group_from groups es)
unfolding group_from
group_from-DistinctSlots groups [] h = h
group_from-DistinctSlots groups (e ∷ es) h =
    group_from-DistinctSlots (add_to_group (slot_key e) e groups) es
      (add_to_group-DistinctSlots (slot_key e) e groups h)

-- With no limit, the slot of every text holds exactly the matches with that start time, in their
-- order, with those that have none under the empty text, and no two slots have the same text.
pub time_slots_lem :
    (entries : List FlattenedMatch)
    → ((k : Text) → slot_of k (time_slots none entries) ≡ filter (starts_at k) entries)
      × DistinctSlots (time_slots none entries)
unfolding time_slots slot_of
time_slots_lem entries =
    (λ k. slot_of-group_from k [] entries, group_from-DistinctSlots [] entries tt)

-- The big screen shows a prefix of the slots, of at most the given length.
pub time_slots_limit :
    (n : ℕ) (entries : List FlattenedMatch)
    → (length (time_slots (some n) entries) ≤ n)
      × ((rest : List (Text × List FlattenedMatch)) × (time_slots none entries
            ≡ time_slots (some n) entries ++ rest))
unfolding time_slots
time_slots_limit n entries =
    (length-take_le n _, (drop n _, sym (take-append-drop n (group_from [] entries))))
