-- ===== src/Openapi/Urls/Filled.antt =====
-- What filling the parameters of an address promises.
use brackets.Base.{
  Bool, Lacks, Lacks-append, List, Text, [], ap, append-nil, append_assoc, arith, codes, drop,
  false, leb, length, none, not, record_get, refl, some, starts_with, sym, true, truthy, ℕ, ◌&&◌,
  ◌++◌, ◌==◌, ◌||◌, ◌∙◌, ◌∷◌, ◌≡◌,
}
use brackets.Openapi.{simple}
use brackets.Openapi.Urls.{
  PathValue, primitive, path_params, names_behind, closes, replace_first, strip_star, style_of,
  primitive_text, value_text, fill_param, fill_params, default_path_serializer,
}

-- An address is written of fixed parts and named parameters.
pub data Segment : Type 0 where
  fixed param : Text → Segment

abbrev pub template : List Segment → Text
template [] = []
template (fixed s ∷ segs) = s ++ template segs
template (param name ∷ segs) = b'{' ∷ name ++ b'}' ∷ template segs

-- A name has letters and underscores only.
abbrev is_name_char : ℕ → Bool
is_name_char c = (leb b'a' c && leb c b'z') || c == b'_'

abbrev all_name_chars : Text → Bool
all_name_chars [] = true
all_name_chars (c ∷ s) = is_name_char c && all_name_chars s

abbrev lacks_braces : Text → Bool
lacks_braces [] = true
lacks_braces (c ∷ s) = not (c == b'{') && not (c == b'}') && lacks_braces s

abbrev pub is_plain : Segment → Bool
is_plain (fixed s) = lacks_braces s
is_plain (param name) = truthy name && all_name_chars name

abbrev pub are_plain : List Segment → Bool
are_plain [] = true
are_plain (seg ∷ segs) = is_plain seg && are_plain segs

abbrev pub names : List Segment → List Text
names [] = []
names (fixed s ∷ segs) = names segs
names (param name ∷ segs) = name ∷ names segs

-- The address has a value for each of the parameters.
abbrev pub Given : List (Text × PathValue) → List Segment → Type 0
Given path [] = Unit
Given path (fixed s ∷ segs) = Given path segs
Given path (param name ∷ segs) =
    ((v : Text) × (record_get name path ≡ some (primitive v))) × Given path segs

module _ (encode : Text → Text) (path : List (Text × PathValue)) where
  abbrev pub filled : (segs : List Segment) → Given path segs → Text
  filled [] given = []
  filled (fixed s ∷ segs) given = s ++ filled segs given
  filled (param name ∷ segs) ((v, _), given) = encode v ++ filled segs given

names_behind-fixed :
    (s rest : Text) → lacks_braces s ≡ true → names_behind none (s ++ rest) ≡ names_behind none rest
unfolding names_behind
names_behind-fixed [] rest h = refl
names_behind-fixed (c ∷ s) rest h = ground (arith, names_behind-fixed s rest)

names_behind-name :
    (before s rest : Text)
    → all_name_chars s ≡ true
    → names_behind (some before) (s ++ b'}' ∷ rest)
      ≡ closes (some (before ++ s)) (names_behind none rest)
unfolding names_behind
names_behind-name before [] rest h = rw (append-nil before) refl
names_behind-name before (c ∷ s) rest h =
    let inside : ((c == b'{') ≡ false) × ((c == b'}') ≡ false) = (ground arith, ground arith) in
    rw (inside.0, inside.1, names_behind-name (before ++ c ∷ []) s rest (ground arith))
      (ap (λ t. closes (some t) (names_behind none rest)) (append_assoc before (c ∷ []) s))

path_params-template :
    (segs : List Segment) → are_plain segs ≡ true → names_behind none (template segs) ≡ names segs
unfolding names_behind
path_params-template [] h = refl
path_params-template (fixed s ∷ segs) h =
    names_behind-fixed s (template segs) (ground arith) ∙ path_params-template segs (ground arith)
path_params-template (param [] ∷ segs) h = ground arith
path_params-template (param (c ∷ name) ∷ segs) h =
    names_behind-name [] (c ∷ name) (template segs) (ground arith)
    ∙ ap (◌∷◌ (c ∷ name)) (path_params-template segs (ground arith))

starts_with-append : (p s : Text) → starts_with (p ++ s) p ≡ true
unfolding starts_with
starts_with-append [] s = refl
starts_with-append (c ∷ p) s = ground (arith, starts_with-append p s)

drop-append : (p s : Text) → drop (length p) (p ++ s) ≡ s
drop-append [] s = refl
drop-append (c ∷ p) s = drop-append p s

starts_with-apart :
    (d : ℕ) (s w : Text) → (d == b'{') ≡ false → starts_with (d ∷ s) (b'{' ∷ w) ≡ false
unfolding starts_with
starts_with-apart d s w h = ground arith

replace_first-hit :
    (done w v rest : Text)
    → Lacks b'{' done
    → replace_first (b'{' ∷ w) v (done ++ (b'{' ∷ (w ++ rest))) ≡ done ++ (v ++ rest)
unfolding replace_first
replace_first-hit [] w v rest h = rw (starts_with-append (b'{' ∷ w) rest, drop-append w rest) refl
replace_first-hit (d ∷ done) w v rest (apart, h) =
    rw (starts_with-apart d _ w apart, replace_first-hit done w v rest h) refl

replace_first-param :
    (name v done rest : Text)
    → Lacks b'{' done
    → replace_first (codes "{" ++ name ++ codes "}") v (done ++ (b'{' ∷ (name ++ b'}' ∷ rest)))
      ≡ done ++ (v ++ rest)
replace_first-param name v done rest h =
    ap (λ t. replace_first (b'{' ∷ (name ++ codes "}")) v (done ++ (b'{' ∷ t)))
      (sym (append_assoc name (codes "}") rest))
    ∙ replace_first-hit done (name ++ codes "}") v rest h

strip_star-plain : (name : Text) → all_name_chars name ≡ true → strip_star name ≡ (false, name)
unfolding strip_star
strip_star-plain [] h = refl
strip_star-plain (c ∷ []) h = let other : (c == b'*') ≡ false = ground arith in rw other refl
strip_star-plain (c ∷ d ∷ name) h =
    ap (λ (rest : Bool × Text). (rest.0, c ∷ rest.1)) (strip_star-plain (d ∷ name) (ground arith))

style_of-plain : (name : Text) → all_name_chars name ≡ true → style_of name ≡ (simple, name)
unfolding style_of
style_of-plain [] h = refl
style_of-plain (c ∷ name) h =
    let other : ((c == b'.') ≡ false) × ((c == b';') ≡ false) = (ground arith, ground arith) in
    rw (other.0, other.1) refl

lacks_braces-Lacks : (s : Text) → lacks_braces s ≡ true → Lacks b'{' s
lacks_braces-Lacks [] h = tt
lacks_braces-Lacks (c ∷ s) h = (ground arith, lacks_braces-Lacks s (ground arith))

module _ (encode : Text → Text) (path : List (Text × PathValue)) where
  fill_param-hit :
      (name v done rest : Text)
      → all_name_chars name ≡ true
      → record_get name path ≡ some (primitive v)
      → Lacks b'{' done
      → fill_param encode path name (done ++ (b'{' ∷ (name ++ b'}' ∷ rest)))
        ≡ done ++ (encode v ++ rest)
  unfolding fill_param value_text primitive_text
  fill_param-hit name v done rest plain given h =
      let star = strip_star-plain name plain in
      let style = style_of-plain name plain in
      rw (fill_param, star, style, given, star, style)
        (replace_first-param name (encode v) done rest h)

  fill_params-template :
      (segs : List Segment) (given : Given path segs) (done : Text)
      → are_plain segs ≡ true
      → Lacks b'{' done
      → ((s : Text) → Lacks b'{' (encode s))
      → fill_params encode path (names segs) (done ++ template segs)
        ≡ done ++ filled encode path segs given
  unfolding fill_params
  fill_params-template [] given done plain h escapes = refl
  fill_params-template (fixed s ∷ segs) given done plain h escapes =
      rw
        (
          ← append_assoc done s (template segs),
          ← append_assoc done s (filled encode path segs given),
        )
        (fill_params-template segs given (done ++ s) (ground arith)
          (Lacks-append b'{' done s h (lacks_braces-Lacks s (ground arith))) escapes)
  fill_params-template (param name ∷ segs) ((v, found), given) done plain h escapes =
      ap (fill_params encode path (names segs)) (
        fill_param-hit name v done (template segs) (ground arith) found h
        ∙ sym (append_assoc done (encode v) (template segs)))
      ∙ fill_params-template segs given (done ++ encode v) (ground arith)
          (Lacks-append b'{' done (encode v) h (escapes v)) escapes
      ∙ append_assoc done (encode v) (filled encode path segs given)

-- An address that is written of fixed parts and named parameters is filled with exactly the values
-- of the parameters, each in its place, when every parameter has a value and encoded values have no
-- brace.
pub default_path_serializer-filled :
    (encode : Text → Text) (path : List (Text × PathValue)) (segs : List Segment)
    (given : Given path segs)
    → are_plain segs ≡ true
    → ((s : Text) → Lacks b'{' (encode s))
    → default_path_serializer encode path (template segs) ≡ filled encode path segs given
unfolding default_path_serializer path_params
default_path_serializer-filled encode path segs given plain escapes =
    rw (path_params-template segs plain)
      (fill_params-template encode path segs given [] plain tt escapes)
