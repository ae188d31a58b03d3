-- ===== src/Grammar/Keys.antt =====
-- The automaton with a schema: the reads of the schema stay in range, and all keys are present.
use libmlxforge.Common.{
  ℕ, ◌+◌, ◌<◌, Bool, true, false, List, [], ◌∷◌, ◌≡◌, ◌≢◌, Bytes, arith, refl, subst, map, length,
  Option, none, some, get_elem?_below,
}
use libmlxforge.Grammar.Feed.{
  feed, feed_at, accepts, advance, one_open, push_value_done, begin_value, structural_at, between,
  feed_string, feed_escape, feed_hex, feed_lit, feed_number, schema_keys_exhausted, start_key,
  close_container, reads_root_key, pop, close_root_key, root_key_byte, finish_scalar_then,
}
use libmlxforge.Grammar.State.{Expect, Scalar, Kind, Grammar, Outcome, accept, reject, fault}
use libmlxforge.Grammar.Schema.{
  JsonLib, with_properties, parsed, extract_properties, from_schema_string,
}

-- A string is being read.
abbrev reads_string : Scalar → Bool
reads_string Scalar.string = true
reads_string Scalar.string_esc = true
reads_string Scalar.string_u = true
reads_string Scalar.no_scalar = false
reads_string Scalar.number = false
reads_string Scalar.lit = false

-- The key that is being read is one of the schema's, and a type stands beside each key.
pub record IsTyped (g : Grammar) : Type 0 where
  pub typed : length g.root_schema.types ≡ length g.root_schema.keys
  pub in_range :
      g.reading_key ≡ true
      → g.schema ≡ true
      → one_open g.stack ≡ true
      → g.schema_key_idx < length g.root_schema.keys
  pub only_strings : g.reading_key ≡ true → reads_string g.scalar ≡ true

abbrev IsTypedOf : Outcome → Type 0
IsTypedOf (accept g) = IsTyped g
IsTypedOf (reject g) = Unit
IsTypedOf fault = ⊥

push_value_done-IsTyped :
    (g : Grammar)
    → length g.root_schema.types ≡ length g.root_schema.keys
    → g.reading_key ≡ false
    → IsTyped (push_value_done g)
unfolding push_value_done
push_value_done-IsTyped g t k = ground arith

begin_value-IsTyped :
    (g : Grammar) (b : ℕ) (t : Kind)
    → length g.root_schema.types ≡ length g.root_schema.keys
    → g.reading_key ≡ false
    → IsTypedOf (begin_value g b t)
unfolding begin_value
begin_value-IsTyped g b t e k = ground arith

abbrev Idle : Grammar → Type 0
Idle g = (length g.root_schema.types ≡ length g.root_schema.keys) × (g.reading_key ≡ false)

close_container-IsTyped : (g : Grammar) → Idle g → IsTyped (close_container g)
unfolding close_container
close_container-IsTyped g (t, k) =
    ground (arith, push_value_done-IsTyped (record g { stack = pop g.stack }) t k)

start_key-IsTyped : (g : Grammar) → Idle g → schema_keys_exhausted g ≡ false → IsTyped (start_key g)
unfolding start_key schema_keys_exhausted
start_key-IsTyped g (t, k) e = ground arith

structural_at-IsTyped :
    (x : Expect) (g : Grammar) (b : ℕ) → Idle g → IsTypedOf (structural_at x g b)
unfolding structural_at
structural_at-IsTyped Expect.value g b (t, k) =
    ground (arith, begin_value-IsTyped g b g.pending_type t k)
structural_at-IsTyped Expect.array_value_or_end g b (t, k) =
    ground (arith, begin_value-IsTyped g b Kind.free t k, close_container-IsTyped g (t, k))
structural_at-IsTyped Expect.object_key_or_end g b i =
    ground (arith, start_key-IsTyped g i, close_container-IsTyped g i)
structural_at-IsTyped Expect.object_key g b i =
    ground (arith, start_key-IsTyped g i, close_container-IsTyped g i)
structural_at-IsTyped Expect.object_colon g b i = ground arith
structural_at-IsTyped Expect.object_next g b i = ground (arith, close_container-IsTyped g i)
structural_at-IsTyped Expect.array_next g b i = ground (arith, close_container-IsTyped g i)
structural_at-IsTyped Expect.end g b i = tt

between-IsTyped : (g : Grammar) (b : ℕ) → Idle g → IsTypedOf (between g b)
unfolding between
between-IsTyped g b i = ground (arith, structural_at-IsTyped g.expect g b i)

push_value_done-Idle : (g : Grammar) → Idle g → Idle (push_value_done g)
unfolding push_value_done
push_value_done-Idle g i = ground arith

close_root_key-IsTyped :
    (g : Grammar)
    → IsTyped g
    → g.reading_key ≡ true
    → g.schema ≡ true
    → one_open g.stack ≡ true
    → IsTypedOf (close_root_key (record g { scalar = Scalar.no_scalar }))
unfolding close_root_key
close_root_key-IsTyped g v k s o = grind (
  arith,
  get_elem?_below g.root_schema.keys g.schema_key_idx,
  get_elem?_below g.root_schema.types g.schema_key_idx,
)

root_key_byte-IsTyped :
    (g : Grammar) (b : ℕ) → IsTyped g → reads_root_key g ≡ true → IsTypedOf (root_key_byte g b)
unfolding root_key_byte
root_key_byte-IsTyped g b v k = grind (arith, get_elem?_below g.root_schema.keys g.schema_key_idx)

feed_string-IsTyped :
    (g : Grammar) (b : ℕ) → g.scalar ≡ Scalar.string → IsTyped g → IsTypedOf (feed_string g b)
unfolding feed_string
feed_string-IsTyped g b c v = ground (
  arith,
  close_root_key-IsTyped g v,
  root_key_byte-IsTyped g b v,
  push_value_done-IsTyped (record g { scalar = Scalar.no_scalar }),
)

feed_lit-IsTyped :
    (g : Grammar) (b : ℕ) → g.scalar ≡ Scalar.lit → IsTyped g → IsTypedOf (feed_lit g b)
unfolding feed_lit
feed_lit-IsTyped g b c v = ground (
  arith,
  push_value_done-IsTyped (record g { scalar = Scalar.no_scalar; lit_pos = g.lit_pos + 1 }),
)

finish-IsTyped : (g : Grammar) (b : ℕ) → Idle g → IsTypedOf (finish_scalar_then g b)
unfolding finish_scalar_then
finish-IsTyped g b i = ground (
  arith,
  between-IsTyped (push_value_done (record g { scalar = Scalar.no_scalar })) b
      (push_value_done-Idle (record g { scalar = Scalar.no_scalar }) i),
)

feed_number-IsTyped :
    (g : Grammar) (b : ℕ) → g.scalar ≡ Scalar.number → IsTyped g → IsTypedOf (feed_number g b)
unfolding feed_number
feed_number-IsTyped g b c v = ground (arith, finish-IsTyped g b)

feed_escape-IsTyped :
    (g : Grammar) (b : ℕ) → g.scalar ≡ Scalar.string_esc → IsTyped g → IsTypedOf (feed_escape g b)
unfolding feed_escape
feed_escape-IsTyped g b c v = ground arith

feed_hex-IsTyped :
    (g : Grammar) (b : ℕ) → g.scalar ≡ Scalar.string_u → IsTyped g → IsTypedOf (feed_hex g b)
unfolding feed_hex
feed_hex-IsTyped g b c v = ground arith

feed_at-IsTyped :
    (c : Scalar) (g : Grammar) (b : ℕ) → g.scalar ≡ c → IsTyped g → IsTypedOf (feed_at c g b)
unfolding feed_at
feed_at-IsTyped Scalar.no_scalar g b e v = between-IsTyped g b (v.typed, ground arith)
feed_at-IsTyped Scalar.string g b e v = feed_string-IsTyped g b e v
feed_at-IsTyped Scalar.string_esc g b e v = feed_escape-IsTyped g b e v
feed_at-IsTyped Scalar.string_u g b e v = feed_hex-IsTyped g b e v
feed_at-IsTyped Scalar.number g b e v = feed_number-IsTyped g b e v
feed_at-IsTyped Scalar.lit g b e v = feed_lit-IsTyped g b e v

feed-IsTyped : (g : Grammar) (b : ℕ) → IsTyped g → IsTypedOf (feed g b)
feed-IsTyped g b v = feed_at-IsTyped g.scalar g b refl v

accepts-IsTyped_step :
    (g : Grammar) (b : ℕ) (bs : Bytes) (o : Outcome)
    → feed g b ≡ o
    → IsTypedOf o
    → ((h : Grammar) → IsTyped h → accepts h bs ≡ true → IsTyped (advance h bs))
    → accepts g (b ∷ bs) ≡ true
    → IsTyped (advance g (b ∷ bs))
unfolding accepts advance
accepts-IsTyped_step g b bs (accept h) q w ih e = rw (q, advance) (ih h w (rw (q, accepts) at e))
accepts-IsTyped_step g b bs (reject h) q w ih e =
    absurd (cc (let z : false ≡ true = rw (q, accepts) at e in z))
accepts-IsTyped_step g b bs fault q w ih e = absurd w

accepts-IsTyped :
    (bs : Bytes) (g : Grammar) → IsTyped g → accepts g bs ≡ true → IsTyped (advance g bs)
accepts-IsTyped [] g v e = unfold advance in v
accepts-IsTyped (b ∷ bs) g v e =
    accepts-IsTyped_step g b bs (feed g b) refl (feed-IsTyped g b v) (accepts-IsTyped bs) e

length-keys : (ps : List (Bytes × Kind)) → length (map (λ p. p.1) ps) ≡ length (map (λ p. p.0) ps)
length-keys [] = refl
length-keys (p ∷ ps) = omega (arith, length-keys ps)

with_properties-IsTyped : (o : Option (List (Bytes × Kind))) → IsTyped (with_properties o)
with_properties-IsTyped none = ground arith
with_properties-IsTyped (some ps) = ground (arith, length-keys ps)

parsed-IsTyped : (lib : JsonLib) (o : Option (JsonLib.Json lib)) → IsTyped (parsed lib o)
parsed-IsTyped lib none = ground arith
parsed-IsTyped lib (some j) = with_properties-IsTyped (extract_properties lib j)

from_schema_string-IsTyped :
    (lib : JsonLib) (schema : Bytes) → IsTyped (from_schema_string lib schema)
unfolding from_schema_string
from_schema_string-IsTyped lib [] = ground arith
from_schema_string-IsTyped lib (c ∷ cs) = ground (arith, parsed-IsTyped lib (lib.parse (c ∷ cs)))

-- For any schema and any bytes that were accepted, the next byte, whatever it is, makes no read of
-- the schema's keys or types out of their range.
pub from_schema_string_in_range :
    (lib : JsonLib) (schema bs : Bytes) (b : ℕ)
    → accepts (from_schema_string lib schema) bs ≡ true
    → feed (advance (from_schema_string lib schema) bs) b ≢ fault
from_schema_string_in_range lib schema bs b e f = subst IsTypedOf f (
    feed-IsTyped _ b (
      accepts-IsTyped bs (from_schema_string lib schema) (from_schema_string-IsTyped lib schema) e))
