-- ===== src/Openapi.antt =====
-- frontend/src/openapi/core/pathSerializer.gen.ts: parameters as parts of an address. `encode` is
-- `encodeURIComponent`. Values are the texts that templates make of them; a value that is an object
-- inside another throws, so it is no value here.
pub mod Urls
pub mod Endpoints
pub mod RequestTypes
use brackets.Base.{
  Bool, List, Option, Text, [], codes, false, if◌then◌else◌, join, map, none, not, some, true, ◌&&◌,
  ◌++◌, ◌∷◌,
}

pub data ArraySeparatorStyle : Type 0 where
  form space_delimited pipe_delimited label matrix simple : ArraySeparatorStyle

pub data ObjectSeparatorStyle : Type 0 where
  form_object deep_object label_object matrix_object simple_object : ObjectSeparatorStyle

unfoldable pub separator_array_explode : ArraySeparatorStyle → Text
separator_array_explode label = codes "."
separator_array_explode matrix = codes ";"
separator_array_explode simple = codes ","
separator_array_explode _ = codes "&"

unfoldable pub separator_array_no_explode : ArraySeparatorStyle → Text
separator_array_no_explode pipe_delimited = codes "|"
separator_array_no_explode space_delimited = codes "%20"
separator_array_no_explode _ = codes ","

unfoldable pub separator_object_explode : ObjectSeparatorStyle → Text
separator_object_explode label_object = codes "."
separator_object_explode matrix_object = codes ";"
separator_object_explode simple_object = codes ","
separator_object_explode _ = codes "&"

module _ (encode : Text → Text) where
  -- `allowReserved ? value : encodeURIComponent(value)`
  abbrev pub encoded : (allow_reserved : Bool) → Text → Text
  encoded allow_reserved value = if allow_reserved then value else encode value

  -- `serializePrimitiveParam`; an absent value is null or undefined.
  unfoldable pub serialize_primitive_param :
      (allow_reserved : Bool) (name : Text) (value : Option Text) → Text
  serialize_primitive_param allow_reserved name none = []
  serialize_primitive_param allow_reserved name (some value) =
      name ++ codes "=" ++ encoded allow_reserved value

  array_no_explode : (name joined : Text) → ArraySeparatorStyle → Text
  array_no_explode name joined label = codes "." ++ joined
  array_no_explode name joined matrix = codes ";" ++ name ++ codes "=" ++ joined
  array_no_explode name joined simple = joined
  array_no_explode name joined _ = name ++ codes "=" ++ joined

  array_item : (allow_reserved : Bool) (name : Text) → ArraySeparatorStyle → Text → Text
  array_item allow_reserved name label v = encoded allow_reserved v
  array_item allow_reserved name simple v = encoded allow_reserved v
  array_item allow_reserved name _ v = serialize_primitive_param allow_reserved name (some v)

  array_explode : (joined : Text) → ArraySeparatorStyle → Text
  array_explode joined label = separator_array_explode label ++ joined
  array_explode joined matrix = separator_array_explode matrix ++ joined
  array_explode joined _ = joined

  unfoldable pub serialize_array_param :
      (allow_reserved explode : Bool) (name : Text) → ArraySeparatorStyle → List Text → Text
  unfolding separator_array_explode separator_array_no_explode serialize_primitive_param
      array_no_explode array_item array_explode
  serialize_array_param allow_reserved explode name style value =
      if explode
      then array_explode
          (join (separator_array_explode style) (map (array_item allow_reserved name style) value))
          style
      else array_no_explode name
          (join (separator_array_no_explode style) (map (encoded allow_reserved) value)) style

  -- The keys and the values of an object, in turn.
  keys_and_values : (allow_reserved : Bool) → List (Text × Text) → List Text
  keys_and_values allow_reserved [] = []
  keys_and_values allow_reserved ((key, v) ∷ rest) =
      key ∷ encoded allow_reserved v ∷ keys_and_values allow_reserved rest

  object_no_explode : (name joined : Text) → ObjectSeparatorStyle → Text
  object_no_explode name joined form_object = name ++ codes "=" ++ joined
  object_no_explode name joined label_object = codes "." ++ joined
  object_no_explode name joined matrix_object = codes ";" ++ name ++ codes "=" ++ joined
  object_no_explode name joined _ = joined

  abbrev is_deep : ObjectSeparatorStyle → Bool
  is_deep deep_object = true
  is_deep _ = false

  object_item : (allow_reserved : Bool) (name : Text) → ObjectSeparatorStyle → Text × Text → Text
  object_item allow_reserved name style (key, v) =
      serialize_primitive_param allow_reserved
        (if is_deep style then name ++ codes "[" ++ key ++ codes "]" else key) (some v)

  object_explode : (joined : Text) → ObjectSeparatorStyle → Text
  object_explode joined label_object = separator_object_explode label_object ++ joined
  object_explode joined matrix_object = separator_object_explode matrix_object ++ joined
  object_explode joined _ = joined

  -- `serializeObjectParam` of an object that is no date.
  unfoldable pub serialize_object_param :
      (allow_reserved explode : Bool) (name : Text)
      → ObjectSeparatorStyle
      → List (Text × Text)
      → Text
  unfolding separator_object_explode serialize_primitive_param keys_and_values object_no_explode
      object_item object_explode
  serialize_object_param allow_reserved explode name style value =
      if not (is_deep style) && not explode
      then object_no_explode name (join (codes ",") (keys_and_values allow_reserved value)) style
      else object_explode
          (join (separator_object_explode style)
            (map (object_item allow_reserved name style) value))
          style
