-- ===== src/Grammar/Language.antt =====
-- The texts that may follow each state of the automaton, read off the grammar of Grammar/Text, and
-- the shape of the states that the schema-free automaton reaches.
use libmlxforge.Common.{
  ℕ, ◌<◌, Bool, true, false, List, [], ◌∷◌, ◌++◌, ◌≡◌, ◌≢◌, Bytes, length, drop,
}
use libmlxforge.Grammar.Feed.{is_escape, back_is_brace}
use libmlxforge.Grammar.State.{
  Expect, Scalar, Num, Kind, Open, Grammar, Outcome, accept, reject, fault,
}
use libmlxforge.Grammar.Text.{
  Ws, Digits, SomeDigits, ExpBody, Exp, Tail, IntPart, Hex, Chars, Value, After,
}

-- `P bs r` for some `r` that satisfies `K`.
pub data Then (P : Bytes → Bytes → Type 0) (K : Bytes → Type 0) (bs : Bytes) : Type 0 where
  then_ : (r : Bytes) → P bs r → K r → Then P K bs

pub data EscapeThen (K : Bytes → Type 0) : Bytes → Type 0 where
  simple : {c : ℕ} {bs : Bytes} → is_escape c ≡ true → Then Chars K bs → EscapeThen K (c ∷ bs)
  unicode : {c : ℕ} {bs : Bytes} → c ≡ b'u' → Then (Hex 4) (Then Chars K) bs → EscapeThen K (c ∷ bs)

abbrev pub NumberRest : Num → Bytes → Bytes → Type 0
NumberRest Num.sign = λ bs r. Then IntPart (λ m. Tail m r) bs
NumberRest Num.int_zero = Tail
NumberRest Num.int_digits = λ bs r. Then Digits (λ m. Tail m r) bs
NumberRest Num.frac_dot = λ bs r. Then SomeDigits (λ m. Exp m r) bs
NumberRest Num.frac_digits = λ bs r. Then Digits (λ m. Exp m r) bs
NumberRest Num.exp_start = ExpBody
NumberRest Num.exp_after_sign = SomeDigits
NumberRest Num.exp_digits = Digits

module _ (ws : Bool) where
  pub data ValueThen (s : List Open) : Bytes → Type 0 where
    value_then : {bs v w : Bytes} → Ws ws bs v → Value ws v w → After ws s w → ValueThen s bs

  pub data ColonThen (s : List Open) : Bytes → Type 0 where
    colon_then :
        {c : ℕ} {bs r : Bytes} → Ws ws bs (c ∷ r) → c ≡ b':' → ValueThen s r → ColonThen s bs

  pub data KeyThen (s : List Open) : Bytes → Type 0 where
    key_then :
        {q : ℕ} {bs k m : Bytes}
        → Ws ws bs (q ∷ k)
        → q ≡ b'"'
        → Chars k m
        → ColonThen s m
        → KeyThen s bs

  -- The container on top closes at once, or holds something. `c` is its closing byte.
  pub data ClosesOr (c : ℕ) (s : List Open) (P : Bytes → Type 0) : Bytes → Type 0 where
    closes : {b : ℕ} {bs r : Bytes} → Ws ws bs (b ∷ r) → b ≡ c → After ws s r → ClosesOr c s P bs
    holds : {bs : Bytes} → P bs → ClosesOr c s P bs

  -- What may follow where no scalar is open.
  abbrev pub Between : Expect → List Open → Bytes → Type 0
  Between Expect.value s = ValueThen s
  Between Expect.array_value_or_end [] = λ bs. ⊥
  Between Expect.array_value_or_end (o ∷ s) = ClosesOr b']' s (ValueThen (o ∷ s))
  Between Expect.object_key_or_end [] = λ bs. ⊥
  Between Expect.object_key_or_end (o ∷ s) = ClosesOr b'}' s (KeyThen (o ∷ s))
  Between Expect.object_key s = KeyThen s
  Between Expect.object_colon s = ColonThen s
  Between Expect.object_next s = After ws s
  Between Expect.array_next s = After ws s
  Between Expect.end s = After ws s

  -- What may follow a string, by `reading_key_`.
  abbrev pub StringThen : Bool → List Open → Bytes → Type 0
  StringThen true s = ColonThen s
  StringThen false s = After ws s

  abbrev pub RestAt : Scalar → Grammar → Bytes → Type 0
  RestAt Scalar.no_scalar g = Between g.expect g.stack
  RestAt Scalar.string g = Then Chars (StringThen g.reading_key g.stack)
  RestAt Scalar.string_esc g = EscapeThen (StringThen g.reading_key g.stack)
  RestAt Scalar.string_u g = Then (Hex g.u_left) (Then Chars (StringThen g.reading_key g.stack))
  RestAt Scalar.number g = Then (NumberRest g.num) (After ws g.stack)
  RestAt Scalar.lit g = Then (λ bs r. bs ≡ drop g.lit_pos g.lit_ ++ r) (After ws g.stack)

abbrev pub Rest : Grammar → Bytes → Type 0
Rest g = RestAt g.allow_ws g.scalar g

-- The same for what `feed` returns: no text follows a refusal.
abbrev pub RestOf : Outcome → Bytes → Type 0
RestOf (accept g) bs = Rest g bs
RestOf (reject g) bs = ⊥
RestOf fault bs = ⊥

-- The top of the stack that each position needs.
abbrev pub Fits : Expect → List Open → Type 0
Fits Expect.value s = Unit
Fits Expect.array_value_or_end (Open.bracket ∷ s) = Unit
Fits Expect.array_value_or_end _ = ⊥
Fits Expect.object_key_or_end (Open.brace ∷ s) = Unit
Fits Expect.object_key_or_end _ = ⊥
Fits Expect.object_key (Open.brace ∷ s) = Unit
Fits Expect.object_key _ = ⊥
Fits Expect.object_colon (Open.brace ∷ s) = Unit
Fits Expect.object_colon _ = ⊥
Fits Expect.object_next (Open.brace ∷ s) = Unit
Fits Expect.object_next _ = ⊥
Fits Expect.array_next (Open.bracket ∷ s) = Unit
Fits Expect.array_next _ = ⊥
Fits Expect.end [] = Unit
Fits Expect.end (o ∷ s) = ⊥

-- A scalar is open: the text has not ended, and a key stands in an object.
pub record Scanning (g : Grammar) : Type 0 where
  pub unended : g.expect ≢ Expect.end
  pub in_object : g.reading_key ≡ true → back_is_brace g.stack ≡ true

abbrev pub FitsAt : Scalar → Grammar → Type 0
FitsAt Scalar.no_scalar g = (g.reading_key ≡ false) × Fits g.expect g.stack
FitsAt Scalar.string g = Scanning g
FitsAt Scalar.string_esc g = Scanning g
FitsAt Scalar.string_u g = Scanning g × (0 < g.u_left)
FitsAt Scalar.number g = Scanning g × (g.reading_key ≡ false)
FitsAt Scalar.lit g = Scanning g × (g.reading_key ≡ false) × (g.lit_pos < length g.lit_)

-- The states of an automaton without a schema.
pub record IsFree (g : Grammar) : Type 0 where
  pub no_schema : g.schema ≡ false
  pub any_kind : g.pending_type ≡ Kind.free
  pub any_number : g.num_int_only ≡ false
  pub fits : FitsAt g.scalar g
