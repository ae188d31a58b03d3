-- ===== src/Grammar/Complete.antt =====
-- Completeness of the automaton where no scalar is open: a byte with which a text may go on is
-- accepted, and what stands behind the byte may follow the new state.
use libmlxforge.Common.{
  ℕ, ◌+◌, ◌≤◌, Bool, true, false, not, ◌&&◌, List, [], ◌∷◌, ◌≡◌, inl, inr, Bytes, arith, refl, ◌==◌,
  if◌then◌else◌, Bool-cases, subst, sym,
}
use libmlxforge.Grammar.Feed.{
  is_empty, back_is_brace, between, push_value_done, after_value, one_open, begin_value,
  close_container, structural_at, keys_missing, schema_keys_exhausted,
}
use libmlxforge.Grammar.State.{
  Expect, Scalar, Num, Kind, Open, Grammar, Outcome, accept, reject, is_ws,
}
use libmlxforge.Grammar.Language.{
  Fits, FitsAt, IsFree, then_, Rest, RestOf, Between, ValueThen, value_then, KeyThen, key_then,
  ColonThen, colon_then, closes, holds,
}
use libmlxforge.Grammar.Text.{
  stop, more, After, at_root, in_array, in_object, Value, string, number, word, empty_array, array,
  empty_object, object, Elements, elements, close_array, next_element, Members, members,
  close_object, next_member, unsigned, minus, zero_, leading,
}

pub push_value_done_complete :
    (g : Grammar) (bs : Bytes)
    → g.scalar ≡ Scalar.no_scalar
    → After g.allow_ws g.stack bs
    → Rest (push_value_done g) bs
unfolding push_value_done
push_value_done_complete g bs c h = go g.stack
  where
    go :
        (s : List Open)
        → Rest
            (after_value s (record g {
              schema_key_idx =
                  if back_is_brace g.stack && g.schema && one_open g.stack
                  then g.schema_key_idx + 1
                  else g.schema_key_idx;
            }))
            bs
    go [] = rw c h
    go (Open.brace ∷ s) = rw c h
    go (Open.bracket ∷ s) = rw c h

close_container_complete :
    (g : Grammar) (o : Open) (s : List Open) (bs : Bytes)
    → g.scalar ≡ Scalar.no_scalar
    → g.stack ≡ o ∷ s
    → After g.allow_ws s bs
    → Rest (close_container g) bs
unfolding close_container
close_container_complete g o s bs c e h =
    rw (e, close_container) (push_value_done_complete (record g { stack = s }) bs c h)

begin_digit :
    (g : Grammar) (b : ℕ)
    → b'1' ≤ b
    → b ≤ b'9'
    → begin_value g b Kind.free
      ≡ accept (record g { scalar = Scalar.number; num = Num.int_digits; num_int_only = false })
unfolding begin_value
begin_digit g b lo hi = ground arith

first_byte :
    (g : Grammar) (b y : ℕ) (bs : Bytes)
    → b ≡ y
    → RestOf (begin_value g y Kind.free) bs
    → RestOf (begin_value g b Kind.free) bs
first_byte g b y bs e h = subst (λ x. RestOf (begin_value g x Kind.free) bs) (sym e) h

-- What `begin_value` makes of the first byte of a value.
begin_value_complete :
    (g : Grammar) (b : ℕ) (bs w : Bytes)
    → g.scalar ≡ Scalar.no_scalar
    → g.reading_key ≡ false
    → Value g.allow_ws (b ∷ bs) w
    → After g.allow_ws g.stack w
    → RestOf (begin_value g b Kind.free) bs
unfolding begin_value
begin_value_complete g b bs w c k (string e t) a = first_byte g b b'"' bs e (then_ w t (rw k a))
begin_value_complete g b bs w c k (number (unsigned (zero_ e) t)) a =
    first_byte g b _ bs e (then_ w t a)
begin_value_complete g b bs w c k (number (unsigned (leading lo hi d) t)) a =
    subst (λ o. RestOf o bs) (sym (begin_digit g b lo hi)) (then_ w (then_ _ d t) a)
begin_value_complete g b bs w c k (number (minus e i t)) a =
    first_byte g b _ bs e (then_ w (then_ _ i t) a)
begin_value_complete g b bs w c k (word v (inl i) e) a =
    first_byte g b b't' bs (ground arith) (then_ w (ground arith) a)
begin_value_complete g b bs w c k (word v (inr (inl i)) e) a =
    first_byte g b b'f' bs (ground arith) (then_ w (ground arith) a)
begin_value_complete g b bs w c k (word v (inr (inr i)) e) a =
    first_byte g b b'n' bs (ground arith) (then_ w (ground arith) a)
begin_value_complete g b bs w c k (empty_array e t d) a =
    first_byte g b _ bs e (rw c (closes t d a))
begin_value_complete g b bs w c k (array e (elements t v o)) a =
    first_byte g b _ bs e (rw c (holds (value_then t v (in_array o a))))
begin_value_complete g b bs w c k (empty_object e t d) a =
    first_byte g b _ bs e (rw c (closes t d a))
begin_value_complete g b bs w c k (object e (members t q x u d y v o)) a =
    first_byte g b _ bs e
      (rw c (holds (key_then t q x (colon_then u d (value_then y v (in_object o a))))))

-- No value begins with whitespace, and at the root only a container begins a text with a schema.
Value-not-ws : {ws : Bool} {b : ℕ} {bs w : Bytes} → Value ws (b ∷ bs) w → is_ws b ≡ false
unfolding is_ws
Value-not-ws (string e t) = ground arith
Value-not-ws (number (unsigned (zero_ e) t)) = ground arith
Value-not-ws (number (unsigned (leading lo hi d) t)) = ground arith
Value-not-ws (number (minus e i t)) = ground arith
Value-not-ws (word v (inl i) e) = ground arith
Value-not-ws (word v (inr (inl i)) e) = ground arith
Value-not-ws (word v (inr (inr i)) e) = ground arith
Value-not-ws (empty_array e t d) = ground arith
Value-not-ws (array e o) = ground arith
Value-not-ws (empty_object e t d) = ground arith
Value-not-ws (object e m) = ground arith

Value-not-close : {ws : Bool} {b : ℕ} {bs w : Bytes} → Value ws (b ∷ bs) w → (b == b']') ≡ false
Value-not-close (string e t) = ground arith
Value-not-close (number (unsigned (zero_ e) t)) = ground arith
Value-not-close (number (unsigned (leading lo hi d) t)) = ground arith
Value-not-close (number (minus e i t)) = ground arith
Value-not-close (word v (inl i) e) = ground arith
Value-not-close (word v (inr (inl i)) e) = ground arith
Value-not-close (word v (inr (inr i)) e) = ground arith
Value-not-close (empty_array e t d) = ground arith
Value-not-close (array e o) = ground arith
Value-not-close (empty_object e t d) = ground arith
Value-not-close (object e m) = ground arith

-- The lists of the grammar, taken apart into what the automaton expects next.
ValueThen-Elements :
    {ws : Bool} {s : List Open} {bs r : Bytes}
    → Elements ws bs r
    → After ws s r
    → ValueThen ws (Open.bracket ∷ s) bs
ValueThen-Elements (elements t v o) a = value_then t v (in_array o a)

KeyThen-Members :
    {ws : Bool} {s : List Open} {bs r : Bytes}
    → Members ws bs r
    → After ws s r
    → KeyThen ws (Open.brace ∷ s) bs
KeyThen-Members (members t q x u d y v o) a =
    key_then t q x (colon_then u d (value_then y v (in_object o a)))

pub if_true :
    (bs : Bytes) (c : Bool) (x y : Outcome)
    → c ≡ true
    → RestOf x bs
    → RestOf (if c then x else y) bs
if_true bs c x y e h = subst (λ t. RestOf (if t then x else y) bs) (sym e) h

pub if_false :
    (bs : Bytes) (c : Bool) (x y : Outcome)
    → c ≡ false
    → RestOf y bs
    → RestOf (if c then x else y) bs
if_false bs c x y e h = subst (λ t. RestOf (if t then x else y) bs) (sym e) h

exhausted : (g : Grammar) → g.schema ≡ false → schema_keys_exhausted g ≡ false
unfolding schema_keys_exhausted
exhausted g n = ground arith

module _ (g : Grammar) (b : ℕ) (bs : Bytes) where
  skips : is_ws b ≡ true → g.allow_ws ≡ true → Rest g bs → RestOf (between g b) bs
  unfolding between
  skips e w h = if_true bs (is_ws b) _ _ e (if_true bs g.allow_ws _ _ w h)

  structures : is_ws b ≡ false → RestOf (structural_at g.expect g b) bs → RestOf (between g b) bs
  unfolding between
  structures e h = if_false bs (is_ws b) _ _ e h

module _ {ws : Bool} {b : ℕ} {bs : Bytes} (t : is_ws b ≡ true) where
  After-unws : {s : List Open} → After ws s (b ∷ bs) → (ws ≡ true) × After ws s bs
  unfolding is_ws
  After-unws (at_root (more _ w r)) = (w, at_root r)
  After-unws (in_array (close_array (more _ w r) c) a) = (w, in_array (close_array r c) a)
  After-unws (in_array (close_array stop c) a) = absurd (ground arith)
  After-unws (in_array (next_element (more _ w r) c m) a) = (w, in_array (next_element r c m) a)
  After-unws (in_array (next_element stop c m) a) = absurd (ground arith)
  After-unws (in_object (close_object (more _ w r) c) a) = (w, in_object (close_object r c) a)
  After-unws (in_object (close_object stop c) a) = absurd (ground arith)
  After-unws (in_object (next_member (more _ w r) c m) a) = (w, in_object (next_member r c m) a)
  After-unws (in_object (next_member stop c m) a) = absurd (ground arith)

  ValueThen-unws : {s : List Open} → ValueThen ws s (b ∷ bs) → (ws ≡ true) × ValueThen ws s bs
  ValueThen-unws (value_then (more _ w r) u a) = (w, value_then r u a)
  ValueThen-unws (value_then stop u a) = absurd (cc (Value-not-ws u))

  KeyThen-unws : {s : List Open} → KeyThen ws s (b ∷ bs) → (ws ≡ true) × KeyThen ws s bs
  unfolding is_ws
  KeyThen-unws (key_then (more _ w r) q k c) = (w, key_then r q k c)
  KeyThen-unws (key_then stop q k c) = absurd (ground arith)

  ColonThen-unws : {s : List Open} → ColonThen ws s (b ∷ bs) → (ws ≡ true) × ColonThen ws s bs
  unfolding is_ws
  ColonThen-unws (colon_then (more _ w r) c v) = (w, colon_then r c v)
  ColonThen-unws (colon_then stop c v) = absurd (ground arith)

-- Whitespace before what follows may be skipped.
Between-unws :
    {ws : Bool} (x : Expect) (s : List Open) (b : ℕ) (bs : Bytes)
    → is_ws b ≡ true
    → Between ws x s (b ∷ bs)
    → (ws ≡ true) × Between ws x s bs
unfolding is_ws
Between-unws Expect.value s b bs t h = ValueThen-unws t h
Between-unws Expect.array_value_or_end (o ∷ s) b bs t (closes (more _ w r) e a) = (w, closes r e a)
Between-unws Expect.array_value_or_end (o ∷ s) b bs t (closes stop e a) = absurd (ground arith)
Between-unws Expect.array_value_or_end (o ∷ s) b bs t (holds v) =
    let (w, u) = ValueThen-unws t v in (w, holds u)
Between-unws Expect.object_key_or_end (o ∷ s) b bs t (closes (more _ w r) e a) = (w, closes r e a)
Between-unws Expect.object_key_or_end (o ∷ s) b bs t (closes stop e a) = absurd (ground arith)
Between-unws Expect.object_key_or_end (o ∷ s) b bs t (holds v) =
    let (w, u) = KeyThen-unws t v in (w, holds u)
Between-unws Expect.object_key s b bs t h = KeyThen-unws t h
Between-unws Expect.object_colon s b bs t h = ColonThen-unws t h
Between-unws Expect.object_next s b bs t h = After-unws t h
Between-unws Expect.array_next s b bs t h = After-unws t h
Between-unws Expect.end s b bs t h = After-unws t h
Between-unws Expect.array_value_or_end [] b bs t h = absurd h
Between-unws Expect.object_key_or_end [] b bs t h = absurd h

-- The byte that the text goes on with, where it is known.
structural_byte :
    (x : Expect) (g : Grammar) (b y : ℕ) (bs : Bytes)
    → b ≡ y
    → RestOf (structural_at x g y) bs
    → RestOf (structural_at x g b) bs
structural_byte x g b y bs e h = subst (λ t. RestOf (structural_at x g t) bs) (sym e) h

structural_at_complete :
    (x : Expect) (g : Grammar) (s : List Open) (b : ℕ) (bs : Bytes)
    → g.scalar ≡ Scalar.no_scalar
    → g.reading_key ≡ false
    → g.schema ≡ false
    → g.pending_type ≡ Kind.free
    → g.stack ≡ s
    → Fits x s
    → is_ws b ≡ false
    → Between g.allow_ws x s (b ∷ bs)
    → RestOf (structural_at x g b) bs
unfolding structural_at
structural_at_complete Expect.value g s b bs c k n p e f t (value_then stop u a) =
    if_false bs (g.schema && is_empty g.stack && not (b == b'{')) (reject g) _ (ground arith) (
      subst (λ q. RestOf (begin_value g b q) bs) (sym p)
        (begin_value_complete g b bs _ c k u (rw e a)))
structural_at_complete Expect.value g s b bs c k n p e f t (value_then (more y w r) u a) =
    absurd (cc)
structural_at_complete Expect.array_value_or_end g (Open.bracket ∷ s) b bs c k n p e f t
      (closes stop y a) =
    structural_byte Expect.array_value_or_end g b b']' bs y
      (close_container_complete g _ s bs c e a)
structural_at_complete Expect.array_value_or_end g (Open.bracket ∷ s) b bs c k n p e f t
      (holds (value_then stop u a)) =
    if_false bs (b == b']') (accept (close_container g)) _ (Value-not-close u)
      (begin_value_complete g b bs _ c k u (rw e a))
structural_at_complete Expect.array_value_or_end g (Open.bracket ∷ s) b bs c k n p e f t
      (closes (more y w r) z a) =
    absurd (cc)
structural_at_complete Expect.array_value_or_end g (Open.bracket ∷ s) b bs c k n p e f t
      (holds (value_then (more y w r) u a)) =
    absurd (cc)
structural_at_complete Expect.object_key_or_end g (Open.brace ∷ s) b bs c k n p e f t
      (closes stop y a) =
    structural_byte Expect.object_key_or_end g b b'}' bs y (
      if_false bs (keys_missing g) (reject g) _ (ground arith)
        (close_container_complete g _ s bs c e a))
structural_at_complete Expect.object_key_or_end g (Open.brace ∷ s) b bs c k n p e f t
      (holds (key_then stop y d q)) =
    structural_byte Expect.object_key_or_end g b b'"' bs y
      (if_false bs (schema_keys_exhausted g) (reject g) _ (exhausted g n) (then_ _ d (rw e q)))
structural_at_complete Expect.object_key_or_end g (Open.brace ∷ s) b bs c k n p e f t
      (closes (more y w r) z a) =
    absurd (cc)
structural_at_complete Expect.object_key_or_end g (Open.brace ∷ s) b bs c k n p e f t
      (holds (key_then (more y w r) z d q)) =
    absurd (cc)
structural_at_complete Expect.object_key g (Open.brace ∷ s) b bs c k n p e f t
      (key_then stop y d q) =
    structural_byte Expect.object_key g b b'"' bs y
      (if_false bs (schema_keys_exhausted g) (reject g) _ (exhausted g n) (then_ _ d (rw e q)))
structural_at_complete Expect.object_key g (Open.brace ∷ s) b bs c k n p e f t
      (key_then (more y w r) z d q) =
    absurd (cc)
structural_at_complete Expect.object_colon g (Open.brace ∷ s) b bs c k n p e f t
      (colon_then stop y v) =
    structural_byte Expect.object_colon g b b':' bs y (rw c (rw e v))
structural_at_complete Expect.object_colon g (Open.brace ∷ s) b bs c k n p e f t
      (colon_then (more y w r) z v) =
    absurd (cc)
structural_at_complete Expect.object_next g (Open.brace ∷ s) b bs c k n p e f t
      (in_object (close_object stop y) a) =
    structural_byte Expect.object_next g b b'}' bs y (
      if_false bs (keys_missing g) (reject g) _ (ground arith)
        (close_container_complete g _ s bs c e a))
structural_at_complete Expect.object_next g (Open.brace ∷ s) b bs c k n p e f t
      (in_object (next_member stop y m) a) =
    structural_byte Expect.object_next g b b',' bs y (
      if_false bs (schema_keys_exhausted g) (reject g) _ (exhausted g n)
        (rw c (rw e (KeyThen-Members m a))))
structural_at_complete Expect.object_next g (Open.brace ∷ s) b bs c k n p e f t
      (in_object (close_object (more y w r) z) a) =
    absurd (cc)
structural_at_complete Expect.object_next g (Open.brace ∷ s) b bs c k n p e f t
      (in_object (next_member (more y w r) z m) a) =
    absurd (cc)
structural_at_complete Expect.array_next g (Open.bracket ∷ s) b bs c k n p e f t
      (in_array (close_array stop y) a) =
    structural_byte Expect.array_next g b b']' bs y (close_container_complete g _ s bs c e a)
structural_at_complete Expect.array_next g (Open.bracket ∷ s) b bs c k n p e f t
      (in_array (next_element stop y m) a) =
    structural_byte Expect.array_next g b b',' bs y (rw c (rw e (ValueThen-Elements m a)))
structural_at_complete Expect.array_next g (Open.bracket ∷ s) b bs c k n p e f t
      (in_array (close_array (more y w r) z) a) =
    absurd (cc)
structural_at_complete Expect.array_next g (Open.bracket ∷ s) b bs c k n p e f t
      (in_array (next_element (more y w r) z m) a) =
    absurd (cc)
structural_at_complete Expect.end g [] b bs c k n p e f t (at_root (more y w r)) = absurd (cc)
structural_at_complete _ g s b bs c k n p e f t h = absurd f

pub between_complete :
    (g : Grammar) (b : ℕ) (bs : Bytes)
    → g.scalar ≡ Scalar.no_scalar
    → IsFree g
    → Rest g (b ∷ bs)
    → RestOf (between g b) bs
between_complete g b bs c v h = elim (Bool-cases (is_ws b)) [
  | inl t ↦ let (w, r) = Between-unws g.expect g.stack b bs t inside in skips g b bs t w (rw c r)
  | inr t ↦ structures g b bs t (
      structural_at_complete g.expect g g.stack b bs c fits.0 v.no_schema v.any_kind refl fits.1 t
        inside)
]
  where
    inside : Between g.allow_ws g.expect g.stack (b ∷ bs)
    inside = rw c at h

    fits : FitsAt Scalar.no_scalar g
    fits = subst (λ x. FitsAt x g) c v.fits
