-- ===== src/Grammar/Schema.antt =====
-- src/sample/json_grammar.cpp: `from_schema` and `from_schema_string`. nlohmann::json is not code of
-- the repository: the parsed document is a parameter with the members that the source calls.
use libmlxforge.Common.{
  Bool, true, false, List, [], ◌∷◌, Option, none, some, map, Bytes, ◌==◌, ◌&&◌, if◌then◌else◌,
}
use libmlxforge.Grammar.State.{Kind, Grammar, any_value}

-- The calls of nlohmann::json: `is_object`, `contains` with `[]`, iteration, `is_string` with `get`.
pub record JsonLib : Type 1 where
  pub Json : Type 0
  pub is_object : Json → Bool
  pub member : Json → Bytes → Option Json
  pub items : Json → List (Bytes × Json)
  pub string : Json → Option Bytes
  pub parse : Bytes → Option Json

unfoldable pub same_bytes : Bytes → Bytes → Bool
same_bytes [] [] = true
same_bytes (x ∷ xs) (y ∷ ys) = x == y && same_bytes xs ys
same_bytes _ _ = false

abbrev string_word : Bytes
string_word = b's' ∷ b't' ∷ b'r' ∷ b'i' ∷ b'n' ∷ b'g' ∷ []

abbrev number_word : Bytes
number_word = b'n' ∷ b'u' ∷ b'm' ∷ b'b' ∷ b'e' ∷ b'r' ∷ []

abbrev integer_word : Bytes
integer_word = b'i' ∷ b'n' ∷ b't' ∷ b'e' ∷ b'g' ∷ b'e' ∷ b'r' ∷ []

abbrev boolean_word : Bytes
boolean_word = b'b' ∷ b'o' ∷ b'o' ∷ b'l' ∷ b'e' ∷ b'a' ∷ b'n' ∷ []

abbrev type_word : Bytes
type_word = b't' ∷ b'y' ∷ b'p' ∷ b'e' ∷ []

abbrev properties_word : Bytes
properties_word = b'p' ∷ b'r' ∷ b'o' ∷ b'p' ∷ b'e' ∷ b'r' ∷ b't' ∷ b'i' ∷ b'e' ∷ b's' ∷ []

abbrev json_word : Bytes
json_word = b'j' ∷ b's' ∷ b'o' ∷ b'n' ∷ []

-- The codes of the source are the enum's values, to which it casts them.
unfoldable pub type_code : Bytes → Kind
unfolding same_bytes
type_code s =
    if same_bytes s string_word
    then Kind.string
    else if same_bytes s number_word
    then Kind.number
    else if same_bytes s integer_word
    then Kind.integer
    else if same_bytes s boolean_word
    then Kind.boolean
    else Kind.free

abbrev pub with_properties : Option (List (Bytes × Kind)) → Grammar
with_properties none = any_value
with_properties (some ps) = record any_value {
  schema = true;
  root_schema = record { keys = map (λ p. p.0) ps; types = map (λ p. p.1) ps };
}

module _ (lib : JsonLib) where
  open lib use {Json, is_object, member, items, string, parse}

  unfoldable pub property_type : Json → Kind
  unfolding type_code
  property_type prop =
      if is_object prop
      then elim (member prop type_word) [
        | none ↦ Kind.free
        | some t ↦ elim (string t) [ none ↦ Kind.free | some s ↦ type_code s ]
      ]
      else Kind.free

  -- The keys and the types of `properties`; `none` where the schema is not supported.
  unfoldable pub extract_properties : Json → Option (List (Bytes × Kind))
  unfolding property_type
  extract_properties schema =
      if is_object schema
      then elim (member schema properties_word) [
        | none ↦ none
        | some ps ↦
            if is_object ps then some (map (λ p. (p.0, property_type p.1)) (items ps)) else none
      ]
      else none

  unfoldable pub from_schema : Json → Grammar
  unfolding extract_properties
  from_schema schema = with_properties (extract_properties schema)

  abbrev pub parsed : Option Json → Grammar
  parsed none = any_value
  parsed (some schema) = with_properties (extract_properties schema)

  unfoldable pub from_schema_string : Bytes → Grammar
  unfolding extract_properties same_bytes
  from_schema_string [] = any_value
  from_schema_string (c ∷ cs) =
      if same_bytes (c ∷ cs) json_word then any_value else parsed (parse (c ∷ cs))
