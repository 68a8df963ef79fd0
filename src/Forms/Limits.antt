-- ===== src/Forms/Limits.antt =====
-- What the schemas' checks promise of names, numbers and the settings of a tournament.
use brackets.Base.{Num, Option, Text, arith, length, max, min, none, some, true, ℕ, ℤ, ◌≡◌, ◌≤◌}
use brackets.Forms.{Zod, ZodLaws, AtLeast, AtMost, TournamentUpdateBody, z_tournament_update_body}

-- Between two numbers of characters.
abbrev pub HasLength : (min max : ℕ) → Text → Type 0
HasLength min max s = (min ≤ length s) × (length s ≤ max)

-- From 1 to 100 characters.
abbrev pub IsName : Text → Type 0
IsName s = HasLength 1 100 s

-- An integer within the bounds.
abbrev pub IsWithin : (min max : Option ℕ) → Num → Type 0
IsWithin min max n = (k : ℤ) × (n ≡ some k) × AtLeast min k × AtMost max k

-- A name, a duration of a minute or more, and no negative break.
abbrev pub AreSettings : TournamentUpdateBody → Type 0
AreSettings b =
    IsName b.name
    × IsWithin (some 1) none b.duration_minutes
    × IsWithin (some 0) none b.margin_minutes

module _ (z : Zod) (laws : ZodLaws z) where
  pub text_within-HasLength :
      (min max : ℕ) (s : Text) → z.text_within min (some max) s ≡ true → HasLength min max s
  text_within-HasLength min max s h =
      let bounds = (laws.text_within_iff min (some max) s).0 h in
      (bounds.0, ground (arith, bounds.1))

  pub z_tournament_update_body-AreSettings :
      (b : TournamentUpdateBody) → z_tournament_update_body z b ≡ true → AreSettings b
  unfolding z_tournament_update_body
  z_tournament_update_body-AreSettings b valid = (
    text_within-HasLength 1 100 b.name (ground arith),
    laws.int_within_lem (some 1) none b.duration_minutes (ground arith),
    laws.int_within_lem (some 0) none b.margin_minutes (ground arith),
  )
