-- ===== src/Grammar/Sound.antt =====
-- Soundness of the automaton, one byte at a time: a text that may follow the state that `feed`
-- leaves may, behind the byte, follow the state before it.
use libmlxforge.Common.{
  ℕ, ◌+◌, Bool, true, false, ◌&&◌, ◌||◌, List, [], ◌∷◌, ◌++◌, ◌≡◌, ◌⊎◌, inl, inr, Bytes, drop,
  arith, refl, leb, ◌==◌, if◌then◌else◌, ==_iff, Option, some, none, ap, subst,
}
use libmlxforge.Grammar.Feed.{
  back_is_brace, after_value, keys_missing, start_key, schema_keys_exhausted, close_container,
  one_open, between, push_value_done, structural_at, begin_value, number_continue,
}
use libmlxforge.Grammar.State.{
  Expect, Scalar, Num, Kind, Open, Grammar, Outcome, accept, reject, is_ws, is_digit,
}
use libmlxforge.Grammar.Language.{
  Fits, FitsAt, IsFree, ValueThen, value_then, key_then, colon_then, closes, holds, ColonThen,
  KeyThen, ClosesOr, Between, Then, then_, NumberRest, Rest, RestOf,
}
use libmlxforge.Grammar.Text.{
  Digits, digits, ExpBody, signed, Exp, exp, Frac, frac, zero_, leading, Tail, tail, Ws, unsigned,
  minus, word, After, at_root, in_array, in_object, close_array, next_element, close_object,
  next_member, elements, members, true_word, false_word, null_word, stop, string, number,
  empty_array, array, empty_object, object, Members, Elements, Chars,
}

-- A split on the test of a conditional that a hypothesis `P` speaks of.
if_cases {ℓ κ} :
    {A : Type ℓ} (P : A → Type κ) (c : Bool) {x y : A}
    → P (if c then x else y)
    → ((c ≡ true) × P x) ⊎ ((c ≡ false) × P y)
if_cases P true h = inl (refl, h)
if_cases P false h = inr (refl, h)

abbrev pub NumberRestOf : Option Num → Bytes → Bytes → Type 0
NumberRestOf (some n) bs r = NumberRest n bs r
NumberRestOf none bs r = ⊥

exponent :
    (b : ℕ) {bs r : Bytes}
    → NumberRestOf (if b == b'e' || b == b'E' then some Num.exp_start else none) bs r
    → Exp (b ∷ bs) r
exponent b {bs} {r} h = elim (if_cases (λ o. NumberRestOf o bs r) (b == b'e' || b == b'E') h) [
  | inl (e, t) ↦ exp e t
  | inr (e, h) ↦ absurd h
]

exponent_or_fraction :
    (b : ℕ) {bs r : Bytes}
    → NumberRestOf (number_continue Num.int_zero false b) bs r
    → Tail (b ∷ bs) r
unfolding number_continue
exponent_or_fraction b {bs} {r} h = elim (if_cases (λ o. NumberRestOf o bs r) (b == b'.') h) [
  | inl (e, then_ m d t) ↦ tail (frac ((==_iff b _).0 e) d) t
  | inr (e, h) ↦ tail Frac.absent (exponent b h)
]

-- The digits of a number, by the state of its automaton.
pub number_continue_sound :
    (n : Num) (b : ℕ) (bs r : Bytes)
    → NumberRestOf (number_continue n false b) bs r
    → NumberRest n (b ∷ bs) r
unfolding number_continue
number_continue_sound Num.sign b bs r h = elim (if_cases (λ o. NumberRestOf o bs r) (b == b'0') h) [
  | inl (e, t) ↦ then_ bs (zero_ ((==_iff b _).0 e)) t
  | inr (e, h) ↦ elim (if_cases (λ o. NumberRestOf o bs r) (leb b'1' b && leb b b'9') h) [
    | inl (e, then_ m d t) ↦ then_ m (leading (ground arith) (ground arith) d) t
    | inr (e, h) ↦ absurd h
  ]
]
number_continue_sound Num.int_zero b bs r h = exponent_or_fraction b h
number_continue_sound Num.int_digits b bs r h =
    elim (if_cases (λ o. NumberRestOf o bs r) (is_digit b) h) [
      | inl (e, then_ m d t) ↦ then_ m (Digits.more e d) t
      | inr (e, h) ↦ then_ (b ∷ bs) Digits.stop (exponent_or_fraction b h)
    ]
number_continue_sound Num.frac_dot b bs r h =
    elim (if_cases (λ o. NumberRestOf o bs r) (is_digit b) h) [
      | inl (e, then_ m d t) ↦ then_ m (digits e d) t
      | inr (e, h) ↦ absurd h
    ]
number_continue_sound Num.frac_digits b bs r h =
    elim (if_cases (λ o. NumberRestOf o bs r) (is_digit b) h) [
      | inl (e, then_ m d t) ↦ then_ m (Digits.more e d) t
      | inr (e, h) ↦ then_ (b ∷ bs) Digits.stop (exponent b h)
    ]
number_continue_sound Num.exp_start b bs r h =
    elim (if_cases (λ o. NumberRestOf o bs r) (b == b'+' || b == b'-') h) [
      | inl (e, d) ↦ signed e d
      | inr (e, h) ↦ elim (if_cases (λ o. NumberRestOf o bs r) (is_digit b) h) [
        | inl (e, d) ↦ ExpBody.plain (digits e d)
        | inr (e, h) ↦ absurd h
      ]
    ]
number_continue_sound Num.exp_after_sign b bs r h =
    elim (if_cases (λ o. NumberRestOf o bs r) (is_digit b) h) [
      | inl (e, d) ↦ digits e d
      | inr (e, h) ↦ absurd h
    ]
number_continue_sound Num.exp_digits b bs r h =
    elim (if_cases (λ o. NumberRestOf o bs r) (is_digit b) h) [
      | inl (e, d) ↦ Digits.more e d
      | inr (e, h) ↦ absurd h
    ]

module _ {ws : Bool} (b : ℕ) (e : is_ws b ≡ true) (w : ws ≡ true) where
  After-ws : {s : List Open} {bs : Bytes} → After ws s bs → After ws s (b ∷ bs)
  After-ws (at_root t) = at_root (Ws.more e w t)
  After-ws (in_array (close_array t c) r) = in_array (close_array (Ws.more e w t) c) r
  After-ws (in_array (next_element t c m) r) = in_array (next_element (Ws.more e w t) c m) r
  After-ws (in_object (close_object t c) r) = in_object (close_object (Ws.more e w t) c) r
  After-ws (in_object (next_member t c m) r) = in_object (next_member (Ws.more e w t) c m) r

  ValueThen-ws : {s : List Open} {bs : Bytes} → ValueThen ws s bs → ValueThen ws s (b ∷ bs)
  ValueThen-ws (value_then t v a) = value_then (Ws.more e w t) v a

  KeyThen-ws : {s : List Open} {bs : Bytes} → KeyThen ws s bs → KeyThen ws s (b ∷ bs)
  KeyThen-ws (key_then t q k c) = key_then (Ws.more e w t) q k c

  ColonThen-ws : {s : List Open} {bs : Bytes} → ColonThen ws s bs → ColonThen ws s (b ∷ bs)
  ColonThen-ws (colon_then t c v) = colon_then (Ws.more e w t) c v

  -- Whitespace may stand before whatever follows.
  Between-ws :
      (x : Expect) (s : List Open) (bs : Bytes) → Between ws x s bs → Between ws x s (b ∷ bs)
  Between-ws Expect.value s bs h = ValueThen-ws h
  Between-ws Expect.array_value_or_end (o ∷ s) bs (closes t c a) = closes (Ws.more e w t) c a
  Between-ws Expect.array_value_or_end (o ∷ s) bs (holds v) = holds (ValueThen-ws v)
  Between-ws Expect.object_key_or_end (o ∷ s) bs (closes t c a) = closes (Ws.more e w t) c a
  Between-ws Expect.object_key_or_end (o ∷ s) bs (holds v) = holds (KeyThen-ws v)
  Between-ws Expect.object_key s bs h = KeyThen-ws h
  Between-ws Expect.object_colon s bs h = ColonThen-ws h
  Between-ws Expect.object_next s bs h = After-ws h
  Between-ws Expect.array_next s bs h = After-ws h
  Between-ws Expect.end s bs h = After-ws h
  Between-ws Expect.array_value_or_end [] bs h = absurd h
  Between-ws Expect.object_key_or_end [] bs h = absurd h

pub push_value_done_sound :
    (g : Grammar) (bs : Bytes)
    → g.scalar ≡ Scalar.no_scalar
    → Rest (push_value_done g) bs
    → After g.allow_ws g.stack bs
unfolding push_value_done
push_value_done_sound g bs c h = go g.stack h
  where
    go :
        (s : List Open)
        → Rest
            (after_value s (record g {
              schema_key_idx =
                  if back_is_brace g.stack && g.schema && one_open g.stack
                  then g.schema_key_idx + 1
                  else g.schema_key_idx;
            }))
            bs
        → After g.allow_ws g.stack bs
    go [] h = rw c at h
    go (Open.brace ∷ s) h = rw c at h
    go (Open.bracket ∷ s) h = rw c at h

Members-KeyThen :
    {ws : Bool} {s : List Open} {bs : Bytes}
    → KeyThen ws (Open.brace ∷ s) bs
    → Then (Members ws) (After ws s) bs
Members-KeyThen (key_then t q k (colon_then u c (value_then x v (in_object o a)))) =
    then_ _ (members t q k u c x v o) a

Elements-ValueThen :
    {ws : Bool} {s : List Open} {bs : Bytes}
    → ValueThen ws (Open.bracket ∷ s) bs
    → Then (Elements ws) (After ws s) bs
Elements-ValueThen (value_then x v (in_array o a)) = then_ _ (elements x v o) a

module _ {ws : Bool} {b : ℕ} {s : List Open} {bs : Bytes} where
  object_sound :
      b ≡ b'{' → ClosesOr ws b'}' s (KeyThen ws (Open.brace ∷ s)) bs → ValueThen ws s (b ∷ bs)
  object_sound e (closes t c a) = value_then stop (empty_object e t c) a
  object_sound e (holds k) = elim (Members-KeyThen k) [
    | then_ r m a ↦ value_then stop (object e m) a
  ]

  array_sound :
      b ≡ b'[' → ClosesOr ws b']' s (ValueThen ws (Open.bracket ∷ s)) bs → ValueThen ws s (b ∷ bs)
  array_sound e (closes t c a) = value_then stop (empty_array e t c) a
  array_sound e (holds k) = elim (Elements-ValueThen k) [
    | then_ r m a ↦ value_then stop (array e m) a
  ]

  word_sound :
      (w : Bytes)
      → ((b ∷ w ≡ true_word) ⊎ ((b ∷ w ≡ false_word) ⊎ (b ∷ w ≡ null_word)))
      → Then (λ bs r. bs ≡ w ++ r) (After ws s) bs
      → ValueThen ws s (b ∷ bs)
  word_sound w i (then_ r e a) = value_then stop (word (b ∷ w) i (ap (◌∷◌ b) e)) a

  minus_sound : b ≡ b'-' → Then (NumberRest Num.sign) (After ws s) bs → ValueThen ws s (b ∷ bs)
  minus_sound e (then_ r (then_ m i t) a) = value_then stop (number (minus e i t)) a

  zero_sound : b ≡ b'0' → Then (NumberRest Num.int_zero) (After ws s) bs → ValueThen ws s (b ∷ bs)
  zero_sound e (then_ r t a) = value_then stop (number (unsigned (zero_ e) t)) a

  digit_sound :
      (leb b'1' b && leb b b'9') ≡ true
      → Then (NumberRest Num.int_digits) (After ws s) bs
      → ValueThen ws s (b ∷ bs)
  digit_sound e (then_ r (then_ m d t) a) =
      value_then stop (number (unsigned (leading (ground arith) (ground arith) d) t)) a

pub split_rest :
    (bs : Bytes) (t : Bool) (x y : Outcome)
    → RestOf (if t then x else y) bs
    → ((t ≡ true) × RestOf x bs) ⊎ ((t ≡ false) × RestOf y bs)
split_rest bs t x y h = if_cases (λ o. RestOf o bs) t h

-- The first byte of a value.
begin_value_sound :
    (g : Grammar) (b : ℕ) (bs : Bytes)
    → g.scalar ≡ Scalar.no_scalar
    → g.reading_key ≡ false
    → RestOf (begin_value g b Kind.free) bs
    → ValueThen g.allow_ws g.stack (b ∷ bs)
unfolding begin_value
begin_value_sound g b bs c k h = elim (split_rest bs (b == b'"') _ _ h) [
  | inl (e, h) ↦ elim h [ then_ r t a ↦ value_then stop (string ((==_iff b _).0 e) t) (rw k at a) ]
  | inr (_, h) ↦ elim (split_rest bs (b == b'{') _ _ h) [
    | inl (e, h) ↦ object_sound ((==_iff b _).0 e) (rw c at h)
    | inr (_, h) ↦ elim (split_rest bs (b == b'[') _ _ h) [
      | inl (e, h) ↦ array_sound ((==_iff b _).0 e) (rw c at h)
      | inr (_, h) ↦ elim (split_rest bs (b == b't') _ _ h) [
        | inl (e, h) ↦ word_sound (drop 1 true_word) (inl (ground arith)) h
        | inr (_, h) ↦ elim (split_rest bs (b == b'f') _ _ h) [
          | inl (e, h) ↦ word_sound (drop 1 false_word) (inr (inl (ground arith))) h
          | inr (_, h) ↦ elim (split_rest bs (b == b'n') _ _ h) [
            | inl (e, h) ↦ word_sound (drop 1 null_word) (inr (inr (ground arith))) h
            | inr (_, h) ↦ elim (split_rest bs (b == b'-') _ _ h) [
              | inl (e, h) ↦ minus_sound ((==_iff b _).0 e) h
              | inr (_, h) ↦ elim (split_rest bs (b == b'0') _ _ h) [
                | inl (e, h) ↦ zero_sound ((==_iff b _).0 e) h
                | inr (_, h) ↦ elim (split_rest bs (leb b'1' b && leb b b'9') _ _ h) [
                  | inl (e, h) ↦ digit_sound e h
                  | inr (_, h) ↦ absurd h
                ]
              ]
            ]
          ]
        ]
      ]
    ]
  ]
]

close_container_sound :
    (g : Grammar) (o : Open) (s : List Open) (bs : Bytes)
    → g.scalar ≡ Scalar.no_scalar
    → g.stack ≡ o ∷ s
    → Rest (close_container g) bs
    → After g.allow_ws s bs
unfolding close_container
close_container_sound g o s bs c e h =
    let k = rw (e, close_container) at h in push_value_done_sound (record g { stack = s }) bs c k

-- A guard that refuses has let this text pass.
pub guarded :
    (g : Grammar) (bs : Bytes) (t : Bool) (y : Outcome)
    → RestOf (if t then reject g else y) bs
    → RestOf y bs
guarded g bs true y h = absurd h
guarded g bs false y h = h

key_sound :
    {ws : Bool} {s : List Open} {b : ℕ} {bs : Bytes}
    → (b == b'"') ≡ true
    → Then Chars (ColonThen ws s) bs
    → KeyThen ws s (b ∷ bs)
key_sound {b} e (then_ r k c) = key_then stop ((==_iff b _).0 e) k c

structural_at_sound :
    (x : Expect) (g : Grammar) (s : List Open) (b : ℕ) (bs : Bytes)
    → g.scalar ≡ Scalar.no_scalar
    → g.reading_key ≡ false
    → g.pending_type ≡ Kind.free
    → g.stack ≡ s
    → Fits x s
    → RestOf (structural_at x g b) bs
    → Between g.allow_ws x s (b ∷ bs)
unfolding structural_at
structural_at_sound Expect.value g s b bs c k p e f h = rw (← e) (
    begin_value_sound g b bs c k
      (subst (λ t. RestOf (begin_value g b t) bs) p (guarded g bs _ _ h)))
structural_at_sound Expect.array_value_or_end g (Open.bracket ∷ s) b bs c k p e f h =
    elim (split_rest bs (b == b']') _ _ h) [
      | inl (t, h) ↦ closes stop ((==_iff b _).0 t) (close_container_sound g _ s bs c e h)
      | inr (t, h) ↦ holds (rw (← e) (begin_value_sound g b bs c k h))
    ]
structural_at_sound Expect.object_key_or_end g (Open.brace ∷ s) b bs c k p e f h =
    elim (split_rest bs (b == b'}') _ _ h) [
      | inl (t, h) ↦ closes stop ((==_iff b _).0 t) (
          close_container_sound g _ s bs c e
            (guarded g bs (keys_missing g) (accept (close_container g)) h))
      | inr (t, h) ↦ elim (split_rest bs (b == b'"') _ _ h) [
        | inl (t, h) ↦ holds (
            rw (← e)
              (key_sound t (guarded g bs (schema_keys_exhausted g) (accept (start_key g)) h)))
        | inr (t, h) ↦ absurd h
      ]
    ]
structural_at_sound Expect.object_key g (Open.brace ∷ s) b bs c k p e f h =
    elim (split_rest bs (b == b'"') _ _ h) [
      | inl (t, h) ↦
          rw (← e) (key_sound t (guarded g bs (schema_keys_exhausted g) (accept (start_key g)) h))
      | inr (t, h) ↦ absurd h
    ]
structural_at_sound Expect.object_colon g (Open.brace ∷ s) b bs c k p e f h =
    elim (split_rest bs (b == b':') _ _ h) [
      | inl (t, h) ↦ colon_then stop ((==_iff b _).0 t) (rw e at (rw c at h))
      | inr (t, h) ↦ absurd h
    ]
structural_at_sound Expect.object_next g (Open.brace ∷ s) b bs c k p e f h =
    elim (split_rest bs (b == b',') _ _ h) [
      | inl (t, h) ↦
          let passed : Rest (record g { expect = Expect.object_key }) bs =
            guarded g bs (schema_keys_exhausted g)
              (accept (record g { expect = Expect.object_key })) h in
          elim (Members-KeyThen (rw e at (rw c at passed))) [
            | then_ r m a ↦ in_object (next_member stop ((==_iff b _).0 t) m) a
          ]
      | inr (t, h) ↦ elim (split_rest bs (b == b'}') _ _ h) [
        | inl (t, h) ↦ in_object (close_object stop ((==_iff b _).0 t)) (
            close_container_sound g _ s bs c e
              (guarded g bs (keys_missing g) (accept (close_container g)) h))
        | inr (t, h) ↦ absurd h
      ]
    ]
structural_at_sound Expect.array_next g (Open.bracket ∷ s) b bs c k p e f h =
    elim (split_rest bs (b == b',') _ _ h) [
      | inl (t, h) ↦ elim (Elements-ValueThen (rw e at (rw c at h))) [
        | then_ r m a ↦ in_array (next_element stop ((==_iff b _).0 t) m) a
      ]
      | inr (t, h) ↦ elim (split_rest bs (b == b']') _ _ h) [
        | inl (t, h) ↦
            in_array (close_array stop ((==_iff b _).0 t)) (close_container_sound g _ s bs c e h)
        | inr (t, h) ↦ absurd h
      ]
    ]
structural_at_sound Expect.end g s b bs c k p e f h = absurd h
structural_at_sound _ g s b bs c k p e f h = absurd f

pub between_sound :
    (g : Grammar) (b : ℕ) (bs : Bytes)
    → g.scalar ≡ Scalar.no_scalar
    → IsFree g
    → RestOf (between g b) bs
    → Rest g (b ∷ bs)
unfolding between
between_sound g b bs c v h = elim (split_rest bs (is_ws b) _ _ h) [
  | inl (t, h) ↦ elim (split_rest bs g.allow_ws _ _ h) [
    | inl (w, h) ↦ rw c (Between-ws b t w g.expect g.stack bs (rw c at h))
    | inr (_, h) ↦ absurd h
  ]
  | inr (t, h) ↦
      let f : FitsAt Scalar.no_scalar g = subst (λ x. FitsAt x g) c v.fits in
      rw c (structural_at_sound g.expect g g.stack b bs c f.0 v.any_kind refl f.1 h)
]
