-- ===== src/Grammar/Text.antt =====
-- The JSON grammar of RFC 8259, on which no code of the automaton has a bearing but the tests of
-- one byte: the specification of src/sample/json_grammar.cpp. `Value ws bs r` says that `bs` is a
-- value with `r` behind it. The flag `ws` is `allow_ws_`: may whitespace stand between tokens?
use libmlxforge.Common.{
  ℕ, suc, ◌≤◌, Bool, true, ◌||◌, List, [], ◌∷◌, ◌++◌, ◌≡◌, ◌≢◌, ◌⊎◌, Bytes, ◌==◌,
}
use libmlxforge.Grammar.Feed.{is_escape}
use libmlxforge.Grammar.State.{Open, is_ws, is_digit, is_hex}

pub data Ws (ws : Bool) : Bytes → Bytes → Type 0 where
  stop : {bs : Bytes} → Ws ws bs bs
  more : {b : ℕ} {bs r : Bytes} → is_ws b ≡ true → ws ≡ true → Ws ws bs r → Ws ws (b ∷ bs) r

-- Zero or more digits, and one or more.
pub data Digits : Bytes → Bytes → Type 0 where
  stop : {bs : Bytes} → Digits bs bs
  more : {b : ℕ} {bs r : Bytes} → is_digit b ≡ true → Digits bs r → Digits (b ∷ bs) r

pub data SomeDigits : Bytes → Bytes → Type 0 where
  digits : {b : ℕ} {bs r : Bytes} → is_digit b ≡ true → Digits bs r → SomeDigits (b ∷ bs) r

pub data ExpBody : Bytes → Bytes → Type 0 where
  plain : {bs r : Bytes} → SomeDigits bs r → ExpBody bs r
  signed :
      {b : ℕ} {bs r : Bytes}
      → (b == b'+' || b == b'-') ≡ true
      → SomeDigits bs r
      → ExpBody (b ∷ bs) r

pub data Exp : Bytes → Bytes → Type 0 where
  absent : {bs : Bytes} → Exp bs bs
  exp : {b : ℕ} {bs r : Bytes} → (b == b'e' || b == b'E') ≡ true → ExpBody bs r → Exp (b ∷ bs) r

pub data Frac : Bytes → Bytes → Type 0 where
  absent : {bs : Bytes} → Frac bs bs
  frac : {b : ℕ} {bs r : Bytes} → b ≡ b'.' → SomeDigits bs r → Frac (b ∷ bs) r

pub data IntPart : Bytes → Bytes → Type 0 where
  zero_ : {b : ℕ} {bs : Bytes} → b ≡ b'0' → IntPart (b ∷ bs) bs
  leading : {b : ℕ} {bs r : Bytes} → b'1' ≤ b → b ≤ b'9' → Digits bs r → IntPart (b ∷ bs) r

-- A fraction and an exponent, each of which may be absent.
pub data Tail : Bytes → Bytes → Type 0 where
  tail : {bs m r : Bytes} → Frac bs m → Exp m r → Tail bs r

pub data Number : Bytes → Bytes → Type 0 where
  unsigned : {bs m r : Bytes} → IntPart bs m → Tail m r → Number bs r
  minus : {b : ℕ} {bs m r : Bytes} → b ≡ b'-' → IntPart bs m → Tail m r → Number (b ∷ bs) r

-- `n` hexadecimal digits.
pub data Hex : ℕ → Bytes → Bytes → Type 0 where
  stop : {n : ℕ} {bs : Bytes} → n ≡ 0 → Hex n bs bs
  more : {m n b : ℕ} {bs r : Bytes} → m ≡ suc n → is_hex b ≡ true → Hex n bs r → Hex m (b ∷ bs) r

-- What stands behind the opening quote of a string, the closing quote included.
pub data Chars : Bytes → Bytes → Type 0 where
  close : {b : ℕ} {bs : Bytes} → b ≡ b'"' → Chars (b ∷ bs) bs
  plain : {b : ℕ} {bs r : Bytes} → 0x20 ≤ b → b ≢ b'"' → b ≢ b'\\' → Chars bs r → Chars (b ∷ bs) r
  escape :
      {b c : ℕ} {bs r : Bytes} → b ≡ b'\\' → is_escape c ≡ true → Chars bs r → Chars (b ∷ c ∷ bs) r
  unicode :
      {b c : ℕ} {bs m r : Bytes}
      → b ≡ b'\\'
      → c ≡ b'u'
      → Hex 4 bs m
      → Chars m r
      → Chars (b ∷ c ∷ bs) r

abbrev pub true_word : Bytes
true_word = b't' ∷ b'r' ∷ b'u' ∷ b'e' ∷ []

abbrev pub false_word : Bytes
false_word = b'f' ∷ b'a' ∷ b'l' ∷ b's' ∷ b'e' ∷ []

abbrev pub null_word : Bytes
null_word = b'n' ∷ b'u' ∷ b'l' ∷ b'l' ∷ []

mutual
  pub data Value (ws : Bool) : Bytes → Bytes → Type 0 where
    string : {b : ℕ} {bs r : Bytes} → b ≡ b'"' → Chars bs r → Value ws (b ∷ bs) r
    number : {bs r : Bytes} → Number bs r → Value ws bs r
    word :
        {bs r : Bytes} (w : Bytes)
        → (w ≡ true_word) ⊎ ((w ≡ false_word) ⊎ (w ≡ null_word))
        → bs ≡ w ++ r
        → Value ws bs r
    empty_array :
        {b c : ℕ} {bs r : Bytes} → b ≡ b'[' → Ws ws bs (c ∷ r) → c ≡ b']' → Value ws (b ∷ bs) r
    array : {b : ℕ} {bs r : Bytes} → b ≡ b'[' → Elements ws bs r → Value ws (b ∷ bs) r
    empty_object :
        {b c : ℕ} {bs r : Bytes} → b ≡ b'{' → Ws ws bs (c ∷ r) → c ≡ b'}' → Value ws (b ∷ bs) r
    object : {b : ℕ} {bs r : Bytes} → b ≡ b'{' → Members ws bs r → Value ws (b ∷ bs) r

  pub data Elements (ws : Bool) : Bytes → Bytes → Type 0 where
    elements : {bs v w r : Bytes} → Ws ws bs v → Value ws v w → ArrayTail ws w r → Elements ws bs r

  pub data ArrayTail (ws : Bool) : Bytes → Bytes → Type 0 where
    close_array : {c : ℕ} {bs r : Bytes} → Ws ws bs (c ∷ r) → c ≡ b']' → ArrayTail ws bs r
    next_element :
        {c : ℕ} {bs m r : Bytes} → Ws ws bs (c ∷ m) → c ≡ b',' → Elements ws m r → ArrayTail ws bs r

  pub data Members (ws : Bool) : Bytes → Bytes → Type 0 where
    members :
        {q c : ℕ} {bs k m n v w r : Bytes}
        → Ws ws bs (q ∷ k)
        → q ≡ b'"'
        → Chars k m
        → Ws ws m (c ∷ n)
        → c ≡ b':'
        → Ws ws n v
        → Value ws v w
        → ObjectTail ws w r
        → Members ws bs r

  pub data ObjectTail (ws : Bool) : Bytes → Bytes → Type 0 where
    close_object : {c : ℕ} {bs r : Bytes} → Ws ws bs (c ∷ r) → c ≡ b'}' → ObjectTail ws bs r
    next_member :
        {c : ℕ} {bs m r : Bytes} → Ws ws bs (c ∷ m) → c ≡ b',' → Members ws m r → ObjectTail ws bs r

-- One value, and nothing else but whitespace.
pub data JsonText (ws : Bool) : Bytes → Type 0 where
  text : {bs v w : Bytes} → Ws ws bs v → Value ws v w → Ws ws w [] → JsonText ws bs

-- What may stand behind a value inside the containers `s`, up to the end of the text.
pub data After (ws : Bool) : List Open → Bytes → Type 0 where
  at_root : {bs : Bytes} → Ws ws bs [] → After ws [] bs
  in_array :
      {s : List Open} {bs r : Bytes}
      → ArrayTail ws bs r
      → After ws s r
      → After ws (Open.bracket ∷ s) bs
  in_object :
      {s : List Open} {bs r : Bytes}
      → ObjectTail ws bs r
      → After ws s r
      → After ws (Open.brace ∷ s) bs
