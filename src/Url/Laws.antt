-- ===== src/Url/Laws.antt =====
-- The API's address, and what an error message shows.
use brackets.Base.{
  Bool-cases, Text, [], ap, arith, codes, false, inl, inr, length, length-append, refl, suc,
  text_eq, text_eq_iff, true, zero, ℕ, ◌++◌, ◌==◌, ◌∙◌, ◌∷◌, ◌≡◌,
}
use brackets.Url.{keep_unless_slash, strip_slashes, strip_api, normalize_api_base_url}

-- `n` slashes.
abbrev pub slashes : ℕ → Text
slashes zero = []
slashes (suc n) = b'/' ∷ slashes n

strip_slashes-slashes : (n : ℕ) → strip_slashes (slashes n) ≡ []
unfolding strip_slashes keep_unless_slash
strip_slashes-slashes zero = refl
strip_slashes-slashes (suc n) = rw (strip_slashes-slashes n, keep_unless_slash) refl

-- A text whose last character is no slash.
abbrev pub EndsPlain : Text → Type 0
EndsPlain [] = ⊥
EndsPlain (c ∷ []) = (c == b'/') ≡ false
EndsPlain (c ∷ d ∷ s) = EndsPlain (d ∷ s)

strip_slashes-append : (s : Text) (n : ℕ) → EndsPlain s → strip_slashes (s ++ slashes n) ≡ s
unfolding strip_slashes keep_unless_slash
strip_slashes-append [] n h = absurd h
strip_slashes-append (c ∷ []) n h = rw (strip_slashes-slashes n, keep_unless_slash, h) refl
strip_slashes-append (c ∷ d ∷ s) n h = rw (strip_slashes-append (d ∷ s) n h, keep_unless_slash) refl

EndsPlain-api : (base : Text) → EndsPlain (base ++ codes "/api")
EndsPlain-api [] = refl
EndsPlain-api (c ∷ []) = refl
EndsPlain-api (c ∷ d ∷ s) = EndsPlain-api (d ∷ s)

text_eq-length : (s t : Text) → text_eq s t ≡ true → length s ≡ length t
text_eq-length s t e = ap length ((text_eq_iff s t).0 e)

strip_api-append : (base : Text) → strip_api (base ++ codes "/api") ≡ base
unfolding strip_api text_eq
strip_api-append [] = refl
strip_api-append (c ∷ s) = elim (Bool-cases (text_eq (c ∷ s ++ codes "/api") (codes "/api"))) [
  | inl same ↦ absurd (
      omega (
        arith,
        text_eq-length (c ∷ s ++ codes "/api") (codes "/api") same,
        length-append s (codes "/api"),
      ))
  | inr other ↦ rw (other, strip_api) (ap (◌∷◌ c) (strip_api-append s))
]

-- Whatever ends in "/api", with or without slashes behind it, loses exactly that, so that the callers'
-- own "/api" is not doubled.
pub normalize_api_base_url_api :
    (base : Text) (n : ℕ) → normalize_api_base_url ((base ++ codes "/api") ++ slashes n) ≡ base
unfolding normalize_api_base_url
normalize_api_base_url_api base n =
    ap strip_api (strip_slashes-append (base ++ codes "/api") n (EndsPlain-api base))
    ∙ strip_api-append base

-- The text does not end in "/api".
abbrev pub LacksApi : Text → Type 0
LacksApi [] = Unit {0}
LacksApi (c ∷ s) = (text_eq (c ∷ s) (codes "/api") ≡ false) × LacksApi s

strip_api-plain : (base : Text) → LacksApi base → strip_api base ≡ base
unfolding strip_api
strip_api-plain [] h = refl
strip_api-plain (c ∷ s) (p, h) = rw (p, strip_api) (ap (◌∷◌ c) (strip_api-plain s h))

-- Any other address only loses the slashes at its end.
pub normalize_api_base_url_plain :
    (base : Text) (n : ℕ)
    → EndsPlain base
    → LacksApi base
    → normalize_api_base_url (base ++ slashes n) ≡ base
unfolding normalize_api_base_url
normalize_api_base_url_plain base n h k =
    ap strip_api (strip_slashes-append base n h) ∙ strip_api-plain base k
