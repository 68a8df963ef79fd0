-- ===== src/Forms.antt =====
-- The request bodies of frontend/src/openapi/zod.gen.ts, and what a form does with them: it sends what
-- its schema accepts. The checks of the validation library are the operations of `Zod`, and what
-- its documentation says of them is `ZodLaws`.
pub mod Limits
pub mod Submits
use brackets.Base.{
  Bool, List, Num, Option, Text, [], all_digits, any, false, if◌then◌else◌, is_digit, length, max,
  min, none, not, pos, some, true, ℕ, ℤ, ◌&&◌, ◌*◌, ◌==◌, ◌||◌, ◌↔◌, ◌∷◌, ◌≡◌, ◌≤ℤ◌, ◌≤◌,
}
use brackets.Model.{StageType}

-- A text between two lengths, an integer between two bounds, and an address. An entered number is
-- none when it is no integer.
pub record Zod : Type 0 where
  pub text_within : (min : ℕ) (max : Option ℕ) → Text → Bool
  pub int_within : (min max : Option ℕ) → Num → Bool
  pub email : Text → Bool

-- The number is not below the first bound and not above the second.
abbrev pub AtLeast : Option ℕ → ℤ → Type 0
AtLeast none k = Unit
AtLeast (some min) k = pos min ≤ℤ k

abbrev pub AtMost : Option ℕ → ℤ → Type 0
AtMost none k = Unit
AtMost (some max) k = k ≤ℤ pos max

pub record ZodLaws (z : Zod) : Type 0 where
  pub text_within_iff :
      (min : ℕ) (max : Option ℕ) (s : Text)
      → (z.text_within min max s ≡ true) ↔ ((min ≤ length s) × AtMost max (pos (length s)))
  pub int_within_lem :
      (min max : Option ℕ) (n : Num)
      → z.int_within min max n ≡ true
      → (k : ℤ) × (n ≡ some k) × AtLeast min k × AtMost max k

-- An entered number of points, NaN or as it is typed, or the text that the API sent.
pub data Points : Type 0 where
  typed : Option Text → Points
  saved : Text → Points

is_sign_or_dot : ℕ → Bool
is_sign_or_dot c = c == b'-' || c == b'+' || c == b'.'

all_signs : Text → Bool
all_signs [] = true
all_signs (c ∷ s) = is_sign_or_dot c && all_signs s

digits_and_dot : Text → Bool
digits_and_dot [] = true
digits_and_dot (c ∷ s) = if is_digit c then digits_and_dot s else (c == b'.' && all_digits s)

unsigned_part : Text → Text
unsigned_part [] = []
unsigned_part (c ∷ s) = if c == b'-' || c == b'+' then s else c ∷ s

-- `/^(?!^[-+.]*$)[+-]?0*\d*\.?\d*$/`
unfoldable pub is_decimal_text : Text → Bool
unfolding is_sign_or_dot all_signs digits_and_dot unsigned_part
is_decimal_text s = not (all_signs s) && digits_and_dot (unsigned_part s)

-- `z.union([z.number(), z.string().regex(…)])`
unfoldable pub is_points : Points → Bool
is_points (typed none) = false
is_points (typed (some s)) = true
is_points (saved s) = is_decimal_text s

pub record RankingCreateBody : Type 0 where
  pub add_score_points : Bool
  pub draw_points : Points
  pub loss_points : Points
  pub win_points : Points

pub record RankingBody : Type 0 where
  pub add_score_points : Bool
  pub draw_points : Points
  pub loss_points : Points
  pub position : Num
  pub win_points : Points

pub record StageUpdateBody : Type 0 where
  pub custom_duration_minutes : Option Num
  pub name : Text

pub record StageItemCreateBody : Type 0 where
  pub name : Option Text
  pub ranking_id : Option Num
  pub stage_id : ℕ
  pub team_count : Num
  pub kind : StageType

pub record StageItemUpdateBody : Type 0 where
  pub name : Text
  pub ranking_id : ℕ

pub record TournamentUpdateBody : Type 0 where
  pub dashboard_endpoint : Text
  pub dashboard_public : Bool
  pub duration_minutes : Num
  pub margin_minutes : Num
  pub name : Text
  pub players_can_be_in_multiple_teams : Bool
  pub start_time : Text

pub record TournamentBody : Type 0 where
  pub update : TournamentUpdateBody
  pub open update use *
  pub club_id : Num

pub record PlayerBody : Type 0 where
  pub active : Bool
  pub name : Text

-- `zPlayerMultiBody` and `zTeamMultiBody`, which are alike.
pub record MultiBody : Type 0 where
  pub active : Bool
  pub names : Text

pub record TeamBody : Type 0 where
  pub active : Bool
  pub name : Text
  pub player_ids : List Num

-- `nullable()`
abbrev pub nullable {ℓ} : {A : Type ℓ} → (A → Bool) → Option A → Bool
nullable check none = true
nullable check (some a) = check a

module _ (z : Zod) where
  abbrev pub is_name : Text → Bool
  is_name = z.text_within 1 (some 100)

  unfoldable pub z_ranking_create_body : RankingCreateBody → Bool
  z_ranking_create_body b =
      is_points b.draw_points && is_points b.loss_points && is_points b.win_points

  unfoldable pub z_ranking_body : RankingBody → Bool
  z_ranking_body b =
      is_points b.draw_points
      && is_points b.loss_points
      && z.int_within none none b.position
      && is_points b.win_points

  unfoldable pub z_stage_update_body : StageUpdateBody → Bool
  z_stage_update_body b =
      nullable (z.int_within (some 1) none) b.custom_duration_minutes && is_name b.name

  unfoldable pub z_stage_item_create_body : StageItemCreateBody → Bool
  z_stage_item_create_body b =
      nullable is_name b.name
      && nullable (z.int_within none none) b.ranking_id
      && z.int_within none none (some (pos b.stage_id))
      && z.int_within (some 2) (some 64) b.team_count

  unfoldable pub z_stage_item_update_body : StageItemUpdateBody → Bool
  z_stage_item_update_body b = is_name b.name && z.int_within none none (some (pos b.ranking_id))

  -- Without `start_time`, which the forms replace by `zLocalDateTime`.
  unfoldable pub z_tournament_update_body : TournamentUpdateBody → Bool
  z_tournament_update_body b =
      z.int_within (some 1) none b.duration_minutes
      && z.int_within (some 0) none b.margin_minutes
      && is_name b.name

  unfoldable pub z_tournament_body : TournamentBody → Bool
  unfolding z_tournament_update_body
  z_tournament_body b = z.int_within none none b.club_id && z_tournament_update_body b.update

  unfoldable pub z_player_body : PlayerBody → Bool
  z_player_body b = z.text_within 1 (some 30) b.name

  unfoldable pub z_multi_body : MultiBody → Bool
  z_multi_body b = z.text_within 1 none b.names

  unfoldable pub z_team_body : TeamBody → Bool
  z_team_body b =
      z.text_within 1 (some 30) b.name
      && not (any (λ id. not (z.int_within none none id)) b.player_ids)

  -- `zLocalDateTime`: the timestamp that is sent for an entered date; `to_iso` is
  -- `new Date(value).toISOString()`, none when it throws.
  unfoldable pub z_local_date_time : (to_iso : Text → Option Text) → Text → Option Text
  z_local_date_time to_iso value = if z.text_within 1 none value then to_iso value else none
