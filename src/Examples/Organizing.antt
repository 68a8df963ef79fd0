-- ===== src/Examples/Organizing.antt =====
-- The organizers' forms, with checks that the documentation of the validation library allows.
use brackets.Base.{
  Bool, List, Num, Option, Text, [], arith, codes, false, false≢true, leb, length, ltb_ℤ, max, min,
  none, not, pos, refl, some, true, ℕ, ℤ, ◌&&◌, ◌↔◌, ◌∷◌, ◌≡◌, ◌≤◌,
}
use brackets.Model.{Player, FullTeamWithPlayers, Ranking, round_robin}
use brackets.Tournament.{public_tournament_path}
use brackets.Forms.{Zod, ZodLaws, AtLeast, AtMost, StageItemCreateBody, z_team_body}
use brackets.Management.Initial.{tournament_values}
use brackets.Management.{stage_item_added, tournament_deleted, handle}
use brackets.Forms.Submits.{IfSent}
use brackets.Management.Bodies.{IsDeletion, handle-Guarded}
use brackets.Management.Bounds.{InBounds, handle-InBounds}
use brackets.Management.Start.{tournament_values-public_tournament_path}
use brackets.Roster.{team_saved, team_values, update_team}
use brackets.Roster.Edited.{as_num, team_saved-same}
use brackets.Examples.{tournament, ants, read_nothing}

abbrev at_most : Option ℕ → ℕ → Bool
at_most none n = true
at_most (some max) n = leb n max

abbrev integer_within : (min max : Option ℕ) → Num → Bool
integer_within min max none = false
integer_within none max (some k) = elim max [ none ↦ true | some m ↦ not (ltb_ℤ (pos m) k) ]
integer_within (some n) none (some k) = not (ltb_ℤ k (pos n))
integer_within (some n) (some m) (some k) = not (ltb_ℤ k (pos n)) && not (ltb_ℤ (pos m) k)

abbrev pub checks : Zod
checks = record {
  text_within = λ min max s. leb min (length s) && at_most max (length s);
  int_within = integer_within;
  email = λ s. true;
}

text_law :
    (min : ℕ) (max : Option ℕ) (s : Text)
    → ((leb min (length s) && at_most max (length s)) ≡ true)
      ↔ ((min ≤ length s) × AtMost max (pos (length s)))
text_law min none s = ground arith
text_law min (some m) s = ground arith

int_law :
    (min max : Option ℕ) (n : Num)
    → integer_within min max n ≡ true
    → (k : ℤ) × (n ≡ some k) × AtLeast min k × AtMost max k
int_law min max none h = absurd (false≢true h)
int_law none none (some k) h = (k, refl, tt, tt)
int_law none (some m) (some k) h = (k, refl, tt, ground arith)
int_law (some n) none (some k) h = (k, refl, ground arith, tt)
int_law (some n) (some m) (some k) h = (k, refl, ground arith, ground arith)

pub checks-ZodLaws : ZodLaws checks
checks-ZodLaws = record { text_within_iff = text_law; int_within_lem = int_law }

abbrev pub as_typed : Text → Option Text
as_typed s = some s

-- A group of eight teams without a name, and with one that is trimmed.
abbrev nameless : StageItemCreateBody
nameless = record {
  name = some [];
  ranking_id = some (some (pos 1));
  stage_id = 3;
  team_count = some (pos 8);
  kind = round_robin;
}

abbrev padded : StageItemCreateBody
padded = record nameless { name = some (codes " Group ") }

handle-Guarded_example :
    IfSent
      (λ r. (false ≡ false) × (IsDeletion r → true ≡ true))
      (handle checks as_typed tournament false true tournament_deleted)
handle-Guarded_example = handle-Guarded checks as_typed tournament false true tournament_deleted

handle-InBounds_example :
    IfSent InBounds (handle checks as_typed tournament false false (stage_item_added padded))
handle-InBounds_example =
    handle-InBounds checks checks-ZodLaws as_typed tournament false false (stage_item_added padded)

abbrev ranking_at : (id position : ℕ) → Ranking
ranking_at id position = record {
  add_score_points = false;
  created = codes "1";
  draw_points = codes "1";
  id = id;
  loss_points = codes "0";
  position = position;
  tournament_id = 1;
  win_points = codes "3";
}

abbrev two_rankings : List Ranking
two_rankings = ranking_at 1 2 ∷ ranking_at 2 1 ∷ []

tournament_values-public_tournament_path_example :
    public_tournament_path (record tournament {
      dashboard_endpoint = some (tournament_values (λ s. s) tournament).dashboard_endpoint;
    })
    ≡ public_tournament_path tournament
tournament_values-public_tournament_path_example =
    tournament_values-public_tournament_path (λ s. s) tournament

abbrev ann : Player
ann = record {
  active = true;
  created = codes "1";
  draws = 0;
  elo_score = codes "1200";
  id = 71;
  losses = 0;
  name = codes "Ann";
  swiss_score = codes "0";
  tournament_id = 1;
  wins = 0;
}

abbrev ants_with_ann : FullTeamWithPlayers
ants_with_ann = record { team = ants; players = ann ∷ [] }

team_saved-same_example :
    brackets.Roster.handle checks
      (as_num read_nothing)
      false
      false
      (team_saved ants_with_ann (team_values ants_with_ann))
    ≡ some (
        update_team 11
          (record { active = true; name = codes "Ants"; player_ids = some (pos 71) ∷ [] }))
unfolding z_team_body
team_saved-same_example =
    team_saved-same checks read_nothing false ants_with_ann (ground arith, tt) refl
