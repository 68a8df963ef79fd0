-- ===== src/Openapi/Urls.antt =====
-- frontend/src/openapi/core/utils.gen.ts: the address of a request from its template, its path
-- parameters and its query.
pub mod Filled
use brackets.Base.{
  Bool, List, Option, Text, [], codes, drop, false, if◌then◌else◌, length, none, record_get, some,
  starts_with, true, truthy, ◌++◌, ◌/◌, ◌==◌, ◌∷◌,
}
use brackets.Openapi.{
  ArraySeparatorStyle, label, matrix, simple, ObjectSeparatorStyle, label_object, matrix_object,
  simple_object, serialize_array_param, serialize_object_param, serialize_primitive_param,
}

-- A path parameter: a text, a number or a truth value as its text, an array or an object.
pub data PathValue : Type 0 where
  primitive : Text → PathValue
  array_value : List Text → PathValue
  object_value : List (Text × Text) → PathValue

-- The names between the braces of `url.match(/\{[^{}]+\}/g)`, from the text behind an opening brace,
-- if there is one.
abbrev closes : Option Text → List Text → List Text
closes none rest = rest
closes (some []) rest = rest
closes (some (c ∷ name)) rest = (c ∷ name) ∷ rest

names_behind : (open_name : Option Text) → Text → List Text
names_behind open_name [] = []
names_behind open_name (c ∷ s) =
    if c == b'{'
    then names_behind (some []) s
    else if c == b'}'
    then closes open_name (names_behind none s)
    else names_behind (elim open_name [ none ↦ none | some name ↦ some (name ++ c ∷ []) ]) s

unfoldable pub path_params : Text → List Text
unfolding names_behind
path_params url = names_behind none url

-- `url.replace(match, value)`: the first occurrence. The serialised values have no `$`.
unfoldable pub replace_first : (wanted value : Text) → Text → Text
replace_first wanted value [] = if truthy wanted then [] else value
replace_first wanted value (c ∷ s) =
    let rest = replace_first wanted value s in
    if starts_with (c ∷ s) wanted then value ++ drop (length wanted) (c ∷ s) else c ∷ rest

-- `name.endsWith('*')` with the name without it.
strip_star : Text → Bool × Text
strip_star [] = (false, [])
strip_star (c ∷ []) = if c == b'*' then (true, []) else (false, c ∷ [])
strip_star (c ∷ d ∷ s) = let rest = strip_star (d ∷ s) in (rest.0, c ∷ rest.1)

-- The style that a name asks for, with the name without its mark.
style_of : Text → ArraySeparatorStyle × Text
style_of [] = (simple, [])
style_of (c ∷ s) =
    if c == b'.' then (label, s) else if c == b';' then (matrix, s) else (simple, c ∷ s)

object_style : ArraySeparatorStyle → ObjectSeparatorStyle
object_style label = label_object
object_style matrix = matrix_object
object_style _ = simple_object

-- `search.startsWith('?') ? search.substring(1) : search`
abbrev pub strip_question : Text → Text
strip_question [] = []
strip_question (c ∷ s) = if c == b'?' then s else c ∷ s

-- `value ?? ''`
abbrev pub text_or_empty : Option Text → Text
text_or_empty none = []
text_or_empty (some s) = s

module _ (encode : Text → Text) where
  primitive_text : ArraySeparatorStyle → (name value : Text) → Text
  primitive_text matrix name value =
      codes ";" ++ serialize_primitive_param encode false name (some value)
  primitive_text label name value = encode (codes "." ++ value)
  primitive_text _ name value = encode value

  value_text : (explode : Bool) → ArraySeparatorStyle → (name : Text) → PathValue → Text
  value_text explode style name (primitive v) = primitive_text style name v
  value_text explode style name (array_value vs) =
      serialize_array_param encode false explode name style vs
  value_text explode style name (object_value entries) =
      serialize_object_param encode false explode name (object_style style) entries

  -- One round of the loop, for the text between the braces of a match.
  fill_param : List (Text × PathValue) → (between : Text) → (url : Text) → Text
  fill_param path between url =
      let (explode, rest) = strip_star between in
      let (style, name) = style_of rest in
      elim (record_get name path) [
        | none ↦ url
        | some v ↦
            replace_first (codes "{" ++ between ++ codes "}") (value_text explode style name v) url
      ]

  fill_params : List (Text × PathValue) → List Text → (url : Text) → Text
  fill_params path [] url = url
  fill_params path (between ∷ rest) url = fill_params path rest (fill_param path between url)

  unfoldable pub default_path_serializer : List (Text × PathValue) → (url : Text) → Text
  unfolding fill_param fill_params path_params strip_star style_of value_text primitive_text
      object_style
  default_path_serializer path url = fill_params path (path_params url) url

  -- `getUrl`; `query` is what `querySerializer` makes of the query, if there is one.
  unfoldable pub get_url :
      (base_url : Option Text)
      → Option (List (Text × PathValue))
      → (query : Option Text) (url : Text) → Text
  unfolding default_path_serializer
  get_url base_url path query url =
      let path_url : Text = if starts_with url (codes "/") then url else codes "/" ++ url in
      let whole : Text = text_or_empty base_url ++ path_url in
      let filled : Text = elim path [ none ↦ whole | some p ↦ default_path_serializer p whole ] in
      let serialized : Text = strip_question (text_or_empty query) in
      if truthy serialized then filled ++ codes "?" ++ serialized else filled
