-- ===== src/Grammar/Prefix.antt =====
-- `accepts` of src/sample/json_grammar.h promises to say whether the output stays a prefix of a
-- JSON text: every state can be completed.
use mathlib.Core.Bool.{Bool-set}
use mathlib.Core.Logic.{∥∥₁_elim}
use libmlxforge.Common.{
  ℕ, zero, suc, Bool, true, false, not, ◌&&◌, ◌↔◌, List, [], ◌∷◌, ◌++◌, ◌≡◌, Bytes, arith, refl,
  ◌∙◌, drop,
}
use libmlxforge.Grammar.Feed.{feed, accepts, advance, set_compact, is_escape}
use libmlxforge.Grammar.State.{
  Expect, Scalar, Num, Open, Grammar, Outcome, accept, reject, fault, any_value, is_hex, is_digit,
}
use libmlxforge.Grammar.Language.{
  Fits, FitsAt, IsFree, StringThen, then_, simple, NumberRest, RestAt, Between, ValueThen,
  value_then, KeyThen, key_then, ColonThen, colon_then, closes,
}
use libmlxforge.Grammar.Text.{
  stop, Digits, SomeDigits, digits, Frac, Exp, ExpBody, tail, After, at_root, in_array, in_object,
  close, Hex, close_array, close_object, zero_, number, unsigned, JsonText,
}
use libmlxforge.Grammar.Free.{feed-IsFree, IsFreeOf}
use libmlxforge.Grammar.Decides.{takes, takes_iff, any_value-decides, any_value-IsFree}

-- The bytes that close the open containers.
closing : List Open → Bytes
closing [] = []
closing (Open.brace ∷ s) = b'}' ∷ closing s
closing (Open.bracket ∷ s) = b']' ∷ closing s

module _ (ws : Bool) where
  After-closing : (s : List Open) → After ws s (closing s)
  unfolding closing
  After-closing [] = at_root stop
  After-closing (Open.brace ∷ s) = in_object (close_object stop refl) (After-closing s)
  After-closing (Open.bracket ∷ s) = in_array (close_array stop refl) (After-closing s)

  ValueThen-closing : (s : List Open) → ValueThen ws s (b'0' ∷ closing s)
  ValueThen-closing s =
      value_then stop (number (unsigned (zero_ refl) (tail Frac.absent Exp.absent)))
        (After-closing s)

  ColonThen-closing : (s : List Open) → ColonThen ws s (b':' ∷ b'0' ∷ closing s)
  ColonThen-closing s = colon_then stop refl (ValueThen-closing s)

  KeyThen-closing : (s : List Open) → KeyThen ws s (b'"' ∷ b'"' ∷ b':' ∷ b'0' ∷ closing s)
  KeyThen-closing s = key_then stop refl (close refl) (ColonThen-closing s)

  Between-inhabited : (x : Expect) (s : List Open) → Fits x s → (ys : Bytes) × Between ws x s ys
  Between-inhabited Expect.value s f = (_, ValueThen-closing s)
  Between-inhabited Expect.array_value_or_end (o ∷ s) f =
      (b']' ∷ closing s, closes stop refl (After-closing s))
  Between-inhabited Expect.object_key_or_end (o ∷ s) f =
      (b'}' ∷ closing s, closes stop refl (After-closing s))
  Between-inhabited Expect.object_key s f = (_, KeyThen-closing s)
  Between-inhabited Expect.object_colon s f = (_, ColonThen-closing s)
  Between-inhabited Expect.object_next s f = (_, After-closing s)
  Between-inhabited Expect.array_next s f = (_, After-closing s)
  Between-inhabited Expect.end s f = (_, After-closing s)
  Between-inhabited _ s f = absurd f

  StringThen-inhabited : (k : Bool) (s : List Open) → (ys : Bytes) × StringThen ws k s ys
  StringThen-inhabited true s = (_, ColonThen-closing s)
  StringThen-inhabited false s = (_, After-closing s)

some_zero : (r : Bytes) → SomeDigits (b'0' ∷ r) r
unfolding is_digit
some_zero r = digits refl Digits.stop

NumberRest-inhabited : (n : Num) (r : Bytes) → (ys : Bytes) × NumberRest n ys r
NumberRest-inhabited Num.sign r = (b'0' ∷ r, then_ r (zero_ refl) (tail Frac.absent Exp.absent))
NumberRest-inhabited Num.int_zero r = (r, tail Frac.absent Exp.absent)
NumberRest-inhabited Num.int_digits r = (r, then_ r Digits.stop (tail Frac.absent Exp.absent))
NumberRest-inhabited Num.frac_dot r = (_, then_ r (some_zero r) Exp.absent)
NumberRest-inhabited Num.frac_digits r = (r, then_ r Digits.stop Exp.absent)
NumberRest-inhabited Num.exp_start r = (_, ExpBody.plain (some_zero r))
NumberRest-inhabited Num.exp_after_sign r = (_, some_zero r)
NumberRest-inhabited Num.exp_digits r = (r, Digits.stop)

Hex-inhabited : (n : ℕ) (r : Bytes) → (ys : Bytes) × Hex n ys r
unfolding is_hex
Hex-inhabited zero r = (r, Hex.stop refl)
Hex-inhabited (suc n) r = let (ys, h) = Hex-inhabited n r in (b'0' ∷ ys, Hex.more refl refl h)

Rest-inhabited_at :
    (c : Scalar) (g : Grammar) → FitsAt c g → (ys : Bytes) × RestAt g.allow_ws c g ys
unfolding is_escape
Rest-inhabited_at Scalar.no_scalar g f = Between-inhabited g.allow_ws g.expect g.stack f.1
Rest-inhabited_at Scalar.string g f =
    let (ys, k) = StringThen-inhabited g.allow_ws g.reading_key g.stack in
    (b'"' ∷ ys, then_ ys (close refl) k)
Rest-inhabited_at Scalar.string_esc g f =
    let (ys, k) = StringThen-inhabited g.allow_ws g.reading_key g.stack in
    (b'n' ∷ b'"' ∷ ys, simple refl (then_ ys (close refl) k))
Rest-inhabited_at Scalar.string_u g f =
    let (ys, k) = StringThen-inhabited g.allow_ws g.reading_key g.stack in
    let (zs, h) = Hex-inhabited g.u_left (b'"' ∷ ys) in
    (zs, then_ (b'"' ∷ ys) h (then_ ys (close refl) k))
Rest-inhabited_at Scalar.number g f =
    let (ys, h) = NumberRest-inhabited g.num (closing g.stack) in
    (ys, then_ (closing g.stack) h (After-closing g.allow_ws g.stack))
Rest-inhabited_at Scalar.lit g f = (
  drop g.lit_pos g.lit_ ++ closing g.stack,
  then_ (closing g.stack) refl (After-closing g.allow_ws g.stack),
)

accepts-IsFree_step :
    (g : Grammar) (b : ℕ) (bs : Bytes) (o : Outcome)
    → feed g b ≡ o
    → IsFreeOf o
    → ((h : Grammar) → IsFree h → accepts h bs ≡ true → IsFree (advance h bs))
    → accepts g (b ∷ bs) ≡ true
    → IsFree (advance g (b ∷ bs))
unfolding accepts advance
accepts-IsFree_step g b bs (accept h) q w ih e = rw (q, advance) (ih h w (rw (q, accepts) at e))
accepts-IsFree_step g b bs (reject h) q w ih e =
    absurd (cc (let z : false ≡ true = rw (q, accepts) at e in z))
accepts-IsFree_step g b bs fault q w ih e = absurd w

-- The state after accepted bytes has the shape of Grammar/Language.
pub accepts-IsFree :
    (bs : Bytes) (g : Grammar) → IsFree g → accepts g bs ≡ true → IsFree (advance g bs)
accepts-IsFree [] g v e = unfold advance in v
accepts-IsFree (b ∷ bs) g v e =
    accepts-IsFree_step g b bs (feed g b) refl (feed-IsFree g b v) (accepts-IsFree bs) e

takes-append_step :
    (g : Grammar) (x : ℕ) (xs ys : Bytes) (o : Outcome)
    → feed g x ≡ o
    → ((h : Grammar) → takes h (xs ++ ys) ≡ accepts h xs && takes (advance h xs) ys)
    → takes g (x ∷ (xs ++ ys)) ≡ accepts g (x ∷ xs) && takes (advance g (x ∷ xs)) ys
unfolding accepts advance
takes-append_step g x xs ys (accept h) q ih = rw (q, accepts, advance) (ih h)
takes-append_step g x xs ys (reject h) q ih = rw (q, accepts)
takes-append_step g x xs ys fault q ih = rw (q, accepts)

-- Bytes are taken one after the other.
pub takes-append :
    (xs ys : Bytes) (g : Grammar) → takes g (xs ++ ys) ≡ accepts g xs && takes (advance g xs) ys
takes-append [] ys g = unfold accepts advance in refl
takes-append (x ∷ xs) ys g = takes-append_step g x xs ys (feed g x) refl (takes-append xs ys)

-- From `any_value`, in compact mode or not, `accepts` says whether the bytes can be continued to a
-- JSON text.
pub accepts-IsPrefix :
    (compact : Bool) (bs : Bytes)
    → (accepts (set_compact compact any_value) bs ≡ true)
      ↔ ∥ ((ys : Bytes) × JsonText (not compact) (bs ++ ys)) ∥₁
accepts-IsPrefix compact bs = (
  λ e.
      let v = accepts-IsFree bs start (any_value-IsFree compact) e in
      let (ys, r) = Rest-inhabited_at (advance start bs).scalar (advance start bs) v.fits in
      ∣ (
        ys,
        (any_value-decides compact (bs ++ ys)).0 (
            takes-append bs ys start
            ∙ (let t = (takes_iff ys (advance start bs) v).1 r in ground arith)),
      ) ∣₁,
  λ p. ∥∥₁_elim p (Bool-set _ _) (λ c.
      let t = (any_value-decides compact (bs ++ c.0)).1 c.1 in
      ground (arith, takes-append bs c.0 start)),
)
  where
    start : Grammar
    start = set_compact compact any_value
