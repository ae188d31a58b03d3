-- ===== src/Grammar/Tests.antt =====
-- Runs of the automaton at fixed inputs, and the theorems at inputs that exercise it.
use Prim.Native.Char.{code}
use Prim.Native.String.{String}
use libmlxforge.Common.{
  true, false, ◌↔◌, List, [], ◌∷◌, ◌++◌, Option, none, some, Bytes, ◌≡◌, ◌≢◌, refl,
}
use libmlxforge.Grammar.Decides.{takes, any_value-decides}
use libmlxforge.Grammar.Feed.{feed, accepts, advance, complete, set_compact}
use libmlxforge.Grammar.Keys.{from_schema_string_in_range}
use libmlxforge.Grammar.Prefix.{accepts-IsPrefix}
use libmlxforge.Grammar.Schema.{JsonLib, from_schema_string}
use libmlxforge.Grammar.State.{any_value, fault}
use libmlxforge.Grammar.Text.{JsonText}

abbrev codes : String → Bytes
codes String.[] = []
codes (String.◌∷◌ c s) = code c ∷ codes s

takes_nested : takes any_value (codes "{\"a\": [1, -0.5e+3, true], \"b\": {}}") ≡ true
unfolding accepts advance complete
takes_nested = refl

refuses_trailing_comma : accepts any_value (codes "[1,]") ≡ false
unfolding accepts
refuses_trailing_comma = refl

refuses_leading_zero : accepts any_value (codes "01") ≡ false
unfolding accepts
refuses_leading_zero = refl

compact_refuses_space : accepts (set_compact true any_value) (codes "[1, 2]") ≡ false
unfolding accepts
compact_refuses_space = refl

-- A library whose only document has the properties "n" (an integer) and "s" (a string).
data Doc : Type 0 where
  root properties n_prop s_prop n_type s_type : Doc

doc_member : Doc → Bytes → Option Doc
doc_member root k = some properties
doc_member n_prop k = some n_type
doc_member s_prop k = some s_type
doc_member _ k = none

doc_items : Doc → List (Bytes × Doc)
doc_items properties = (codes "n", n_prop) ∷ (codes "s", s_prop) ∷ []
doc_items _ = []

doc_string : Doc → Option Bytes
doc_string n_type = some (codes "integer")
doc_string s_type = some (codes "string")
doc_string _ = none

abbrev doc_lib : JsonLib
unfolding doc_member doc_items doc_string
doc_lib = record {
  Json = Doc;
  is_object = λ d. true;
  member = doc_member;
  items = doc_items;
  string = doc_string;
  parse = λ s. some root;
}

schema_takes :
    takes (from_schema_string doc_lib (codes "{}")) (codes "{\"n\":7,\"s\":\"x\"}") ≡ true
unfolding accepts advance complete from_schema_string doc_member doc_items doc_string
schema_takes = refl

schema_refuses_fraction :
    accepts (from_schema_string doc_lib (codes "{}")) (codes "{\"n\":7.5") ≡ false
unfolding accepts from_schema_string doc_member doc_items doc_string
schema_refuses_fraction = refl

schema_refuses_missing_key :
    accepts (from_schema_string doc_lib (codes "{}")) (codes "{\"n\":7}") ≡ false
unfolding accepts from_schema_string doc_member doc_items doc_string
schema_refuses_missing_key = refl

any_value-decides_example :
    (takes (set_compact true any_value) (codes "{\"a\":[1,true]}") ≡ true)
    ↔ JsonText false (codes "{\"a\":[1,true]}")
any_value-decides_example = any_value-decides true (codes "{\"a\":[1,true]}")

accepts-IsPrefix_example :
    (accepts (set_compact false any_value) (codes "[1, {") ≡ true)
    ↔ ∥ ((ys : Bytes) × JsonText true (codes "[1, {" ++ ys)) ∥₁
accepts-IsPrefix_example = accepts-IsPrefix false (codes "[1, {")

schema_accepts_prefix : accepts (from_schema_string doc_lib (codes "{}")) (codes "{\"n") ≡ true
unfolding accepts from_schema_string doc_member doc_items doc_string
schema_accepts_prefix = refl

from_schema_string_in_range_example :
    feed (advance (from_schema_string doc_lib (codes "{}")) (codes "{\"n")) b'"' ≢ fault
from_schema_string_in_range_example =
    from_schema_string_in_range doc_lib (codes "{}") (codes "{\"n") b'"' schema_accepts_prefix
