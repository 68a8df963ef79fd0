-- ===== src/Schedule/Lists.antt =====
-- What flattening keeps, and the lists that the pages cut from the tournament's matches.
use brackets.Base.{
  All, All-mono, All-take, Bool, Bool-cases, List, Num, Perm, Text, [], ap, arith, filter,
  filter-passes, flat_map, fun_ext, inl, inr, length, length-take_le, map, not, refl, reverse, ℤ,
  ◌++◌, ◌∙◌, ◌∷◌, ◌≡◌, ◌≤◌,
}
use mathlib.Core.List.{map-append, perm_middle, reverse_perm}
use mathlib.Core.List.Perm
use brackets.Model.{Match, Round, Stage, StageItem, FlattenedMatch}
use brackets.Matches.{match_status, live, scheduled, is_live}
use brackets.Schedule.{
  flatten_matches, stage_matches, item_matches, round_matches, upcoming_matches, finished_matches,
  overview, is_finished, is_scheduled,
}

module _ {A B C : Type 0} where
  map-flat_map :
      (f : B → C) (g : A → List B) (xs : List A)
      → map f (flat_map g xs) ≡ flat_map (λ x. map f (g x)) xs
  unfolding flat_map
  map-flat_map f g [] = refl
  map-flat_map f g (x ∷ xs) =
      map-append f (g x) (flat_map g xs) ∙ ap (λ t. map f (g x) ++ t) (map-flat_map f g xs)

entries-round :
    (stage : Stage) (item : StageItem) (r : Round)
    → map (λ e. e.entry) (round_matches stage item r) ≡ r.matches
unfolding round_matches
entries-round stage item r = go r.matches
  where
    go :
        (ms : List Match)
        → map
            (λ (e : FlattenedMatch). e.entry)
            (map (λ m. record { stage = stage; stage_item = item; round = r; entry = m }) ms)
          ≡ ms
    go [] = refl
    go (m ∷ ms) = ap (◌∷◌ m) (go ms)

entries-item :
    (stage : Stage) (item : StageItem)
    → map (λ e. e.entry) (item_matches stage item) ≡ flat_map (λ r. r.matches) item.rounds
unfolding item_matches
entries-item stage item =
    map-flat_map (λ e. e.entry) (round_matches stage item) item.rounds
    ∙ ap (λ f. flat_map f item.rounds) (fun_ext (entries-round stage item))

entries-stage :
    (stage : Stage)
    → map (λ e. e.entry) (stage_matches stage)
      ≡ flat_map (λ item. flat_map (λ r. r.matches) item.rounds) stage.stage_items
unfolding stage_matches
entries-stage stage =
    map-flat_map (λ e. e.entry) (item_matches stage) stage.stage_items
    ∙ ap (λ f. flat_map f stage.stage_items) (fun_ext (entries-item stage))

-- Flattening keeps every match, in the order of stages, items, rounds and matches.
pub flatten_matches-entries :
    (stages : List Stage)
    → map (λ e. e.entry) (flatten_matches stages)
      ≡ flat_map
          (λ stage. flat_map (λ item. flat_map (λ r. r.matches) item.rounds) stage.stage_items)
          stages
unfolding flatten_matches
flatten_matches-entries stages =
    map-flat_map (λ e. e.entry) stage_matches stages
    ∙ ap (λ f. flat_map f stages) (fun_ext entries-stage)

pub filter-perm_split {ℓ} :
    {A : Type ℓ} (p : A → Bool) (xs : List A) → Perm (filter (λ x. not (p x)) xs ++ filter p xs) xs
filter-perm_split p [] = Perm.refl []
filter-perm_split p (x ∷ xs) = elim (Bool-cases (p x)) [
  | inl hit ↦ rw hit (
      Perm.trans (perm_middle (filter (λ y. not (p y)) xs) (filter p xs))
        (Perm.cons x (filter-perm_split p xs)))
  | inr miss ↦ rw miss (Perm.cons x (filter-perm_split p xs))
]

pub append_reverse-perm {ℓ} : {A : Type ℓ} (xs ys : List A) → Perm (xs ++ reverse ys) (xs ++ ys)
append_reverse-perm [] ys = reverse_perm ys
append_reverse-perm (x ∷ xs) ys = Perm.cons x (append_reverse-perm xs ys)

-- The upcoming and the finished matches of the schedule together are all its matches, each once.
pub upcoming-finished-perm :
    (get_time : Text → Num) (now : ℤ) (matches : List FlattenedMatch)
    → Perm (upcoming_matches get_time now matches ++ finished_matches get_time now matches) matches
unfolding upcoming_matches finished_matches
upcoming-finished-perm get_time now matches =
    Perm.trans
      (append_reverse-perm
        (filter (λ e. not (is_finished (match_status get_time e.entry now))) matches) _)
      (filter-perm_split (λ e. is_finished (match_status get_time e.entry now)) matches)

-- Every match that the overview lists as running or coming up has that status, and it lists at most
-- six coming up.
pub overview_lem :
    (get_time : Text → Num) (now : ℤ) (matches : List FlattenedMatch)
    → All (λ e. match_status get_time e.entry now ≡ live) (overview get_time now matches).live_now
      × All
          (λ e. match_status get_time e.entry now ≡ scheduled)
          (overview get_time now matches).coming_up
      × (length (overview get_time now matches).coming_up ≤ 6)
unfolding overview
overview_lem get_time now matches = (
  All-mono (λ e h. ground arith) _
      (filter-passes (λ e. is_live (match_status get_time e.entry now)) matches),
  All-mono (λ e h. ground arith) _
      (All-take _ 6 _
        (filter-passes (λ e. is_scheduled (match_status get_time e.entry now)) matches)),
  length-take_le 6 _,
)
