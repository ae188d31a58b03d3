-- ===== src/Grammar/CompleteFeed.antt =====
-- Completeness of `feed`, one byte at a time: the scalars, and the dispatch over them.
use native.Mathlib.Numerals.{add-one}
use libmlxforge.Common.{
  ℕ, zero, suc, ◌+◌, ◌-◌, ◌≤◌, ◌<◌, Bool, true, false, not, ◌&&◌, ◌||◌, List, ◌∷◌, ◌++◌, ◌≡◌, ◌⊎◌,
  inl, inr, Bytes, length, drop, arith, refl, ltb, leb, ◌==◌, if◌then◌else◌, Bool-cases,
  Option-cases, some, none, get_elem?_below, ap, subst, sym, ◌∙◌,
}
use libmlxforge.Grammar.Feed.{
  is_escape, push_value_done, feed_string, feed_escape, feed_hex, feed_lit, feed_number, feed_at,
  feed, number_continue, terminable, reads_root_key, one_open, finish_scalar_then, root_key_byte,
  close_root_key,
}
use libmlxforge.Grammar.State.{
  Expect, Scalar, Num, Open, Grammar, accept, reject, is_ws, is_digit, is_hex,
}
use libmlxforge.Grammar.Language.{
  FitsAt, IsFree, StringThen, Then, then_, EscapeThen, simple, NumberRest, Rest, RestOf, RestAt,
}
use libmlxforge.Grammar.Text.{
  stop, more, Digits, digits, Frac, frac, Exp, exp, ExpBody, signed, tail, After, at_root, in_array,
  in_object, Chars, close, escape, unicode, Hex, close_array, next_element, close_object,
  next_member, zero_, leading,
}
use libmlxforge.Grammar.Free.{push_value_done-IsFree}
use libmlxforge.Grammar.Sound.{NumberRestOf}
use libmlxforge.Grammar.SoundFeed.{push_value_done-scalar, drop-get_elem?, drop-length}
use libmlxforge.Grammar.Complete.{between_complete, push_value_done_complete, if_true, if_false}

-- A number goes on with `b`, or it stops in front of it.
abbrev GoesOn : Num → ℕ → Bytes → Bytes → Type 0
GoesOn n b bs r =
    NumberRestOf (number_continue n false b) bs r ⊎ ((terminable n ≡ true) × (r ≡ b ∷ bs))

exp_continue :
    (b : ℕ) → (b == b'e' || b == b'E') ≡ true → (is_digit b ≡ false) × ((b == b'.') ≡ false)
unfolding is_digit
exp_continue b e = ground arith

frac_continue : (b : ℕ) → b ≡ b'.' → is_digit b ≡ false
unfolding is_digit
frac_continue b e = ground arith

sign_continue : (b : ℕ) → is_digit b ≡ true → (b == b'+' || b == b'-') ≡ false
unfolding is_digit
sign_continue b e = ground arith

leading_continue :
    (b : ℕ) → b'1' ≤ b → b ≤ b'9' → ((b == b'0') ≡ false) × ((leb b'1' b && leb b b'9') ≡ true)
leading_continue b lo hi = ground arith

number_complete : (n : Num) (b : ℕ) (bs r : Bytes) → NumberRest n (b ∷ bs) r → GoesOn n b bs r
unfolding number_continue
number_complete Num.sign b bs r (then_ m (zero_ e) t) = inl (rw e t)
number_complete Num.sign b bs r (then_ m (leading lo hi d) t) =
    let (e, f) = leading_continue b lo hi in inl (rw (e, f) (then_ m d t))
number_complete Num.int_zero b bs r (tail (frac e d) x) = inl (rw e (then_ _ d x))
number_complete Num.int_zero b bs r (tail Frac.absent (exp e d)) =
    let (f, k) = exp_continue b e in inl (rw (k, e) d)
number_complete Num.int_zero b bs r (tail Frac.absent Exp.absent) = inr (refl, refl)
number_complete Num.int_digits b bs r (then_ m (Digits.more e d) t) = inl (rw e (then_ m d t))
number_complete Num.int_digits b bs r (then_ m Digits.stop (tail (frac e d) x)) =
    inl (rw (frac_continue b e, e) (then_ _ d x))
number_complete Num.int_digits b bs r (then_ m Digits.stop (tail Frac.absent (exp e d))) =
    let (f, k) = exp_continue b e in inl (rw (f, k, e) d)
number_complete Num.int_digits b bs r (then_ m Digits.stop (tail Frac.absent Exp.absent)) =
    inr (refl, refl)
number_complete Num.frac_dot b bs r (then_ m (digits e d) x) = inl (rw e (then_ m d x))
number_complete Num.frac_digits b bs r (then_ m (Digits.more e d) x) = inl (rw e (then_ m d x))
number_complete Num.frac_digits b bs r (then_ m Digits.stop (exp e d)) =
    let (f, k) = exp_continue b e in inl (rw (f, e) d)
number_complete Num.frac_digits b bs r (then_ m Digits.stop Exp.absent) = inr (refl, refl)
number_complete Num.exp_start b bs r (signed e d) = inl (rw e d)
number_complete Num.exp_start b bs r (ExpBody.plain (digits e d)) =
    inl (rw (sign_continue b e, e) d)
number_complete Num.exp_after_sign b bs r (digits e d) = inl (rw e d)
number_complete Num.exp_digits b bs r (Digits.more e d) = inl (rw e d)
number_complete Num.exp_digits b bs r Digits.stop = inr (refl, refl)

-- What stands behind a value begins with a byte that goes on no number.
After-not-number :
    {ws : Bool} {s : List Open} {b : ℕ} {bs : Bytes}
    → After ws s (b ∷ bs)
    → (is_digit b ≡ false) × ((b == b'.') ≡ false) × ((b == b'e' || b == b'E') ≡ false)
unfolding is_digit is_ws
After-not-number (at_root (more t w r)) = ground arith
After-not-number (in_array (close_array stop c) a) = ground arith
After-not-number (in_array (close_array (more t w r) c) a) = ground arith
After-not-number (in_array (next_element stop c m) a) = ground arith
After-not-number (in_array (next_element (more t w r) c m) a) = ground arith
After-not-number (in_object (close_object stop c) a) = ground arith
After-not-number (in_object (close_object (more t w r) c) a) = ground arith
After-not-number (in_object (next_member stop c m) a) = ground arith
After-not-number (in_object (next_member (more t w r) c m) a) = ground arith

number_ends :
    (n : Num) (b : ℕ)
    → terminable n ≡ true
    → is_digit b ≡ false
    → (b == b'.') ≡ false
    → (b == b'e' || b == b'E') ≡ false
    → number_continue n false b ≡ none
unfolding number_continue
number_ends Num.int_zero b t d p e = rw (p, e)
number_ends Num.int_digits b t d p e = rw (d, p, e)
number_ends Num.frac_digits b t d p e = rw (d, e)
number_ends Num.exp_digits b t d p e = rw d
number_ends _ b t d p e = absurd (ground arith)

finish_complete :
    (g : Grammar) (b : ℕ) (bs : Bytes)
    → g.reading_key ≡ false
    → IsFree g
    → terminable g.num ≡ true
    → After g.allow_ws g.stack (b ∷ bs)
    → RestOf (finish_scalar_then g b) bs
unfolding finish_scalar_then
finish_complete g b bs k v t a = if_true bs (terminable g.num) _ _ t (
    between_complete (push_value_done closed) b bs (push_value_done-scalar closed)
      (push_value_done-IsFree closed g.stack refl v.no_schema v.any_kind v.any_number refl k)
      (push_value_done_complete closed (b ∷ bs) refl a))
  where
    closed : Grammar
    closed = record g { scalar = Scalar.no_scalar }

feed_number_complete :
    (g : Grammar) (b : ℕ) (bs r : Bytes)
    → g.scalar ≡ Scalar.number
    → g.reading_key ≡ false
    → IsFree g
    → NumberRest g.num (b ∷ bs) r
    → After g.allow_ws g.stack r
    → RestOf (feed_number g b) bs
unfolding feed_number
feed_number_complete g b bs r c k v d a = elim (number_complete g.num b bs r d) [
  | inl goes ↦ elim (Option-cases (number_continue g.num false b)) [
    | inl o ↦ absurd (let z : ⊥ = subst (λ x. NumberRestOf x bs r) o goes in z)
    | inr (n, o) ↦
        let z : NumberRestOf (some n) bs r = subst (λ x. NumberRestOf x bs r) o goes in
        let q : Rest (record g { num = n }) bs = rw c (then_ r z a) in
        rw (ap (λ x. number_continue g.num x b) v.any_number ∙ o, feed_number) q
  ]
  | inr (t, e) ↦
      let a' : After g.allow_ws g.stack (b ∷ bs) = subst (After g.allow_ws g.stack) e a in
      let (x, y, z) = After-not-number a' in
      rw
        (
          ap (λ q. number_continue g.num q b) v.any_number ∙ number_ends g.num b t x y z,
          feed_number,
        )
        (finish_complete g b bs k v t a')
]

feed_escape_complete :
    (g : Grammar) (b : ℕ) (bs : Bytes)
    → EscapeThen (StringThen g.allow_ws g.reading_key g.stack) (b ∷ bs)
    → RestOf (feed_escape g b) bs
unfolding feed_escape
feed_escape_complete g b bs (simple i c) =
    if_true bs (is_escape b) _
      (if b == b'u' then accept (record g { scalar = Scalar.string_u; u_left = 4 }) else reject g) i
      c
feed_escape_complete g b bs (EscapeThen.unicode u c) =
    subst (λ x. RestOf (feed_escape g x) bs) (sym u) c

Hex-none : {n : ℕ} {bs m : Bytes} → n ≡ 0 → Hex n bs m → m ≡ bs
Hex-none e (Hex.stop z) = refl
Hex-none e (Hex.more y x d) = absurd (omega arith)

feed_hex_complete :
    (g : Grammar) (b : ℕ) (bs : Bytes)
    → g.scalar ≡ Scalar.string_u
    → 0 < g.u_left
    → Then (Hex g.u_left) (Then Chars (StringThen g.allow_ws g.reading_key g.stack)) (b ∷ bs)
    → RestOf (feed_hex g b) bs
unfolding feed_hex
feed_hex_complete g b bs c u (then_ m (Hex.stop z) k) = absurd (omega arith)
feed_hex_complete g b bs c u (then_ m (Hex.more {n} e x d) k) =
    if_false bs (not (is_hex b)) (reject g) _ (ground arith) (last n e d)
  where
    last :
        (n : ℕ)
        → g.u_left ≡ suc n
        → Hex n bs m
        → RestOf
            (if g.u_left == 1
              then accept (record g { scalar = Scalar.string; u_left = 0 })
              else accept (record g { u_left = g.u_left - 1 }))
            bs
    last zero e d =
        if_true bs (g.u_left == 1) _ _ (ground arith)
          (subst (Then Chars (StringThen g.allow_ws g.reading_key g.stack)) (Hex-none refl d) k)
    last (suc n) e d = if_false bs (g.u_left == 1) _ _ (ground arith) (
        rw c
          (then_ m (subst (λ t. Hex t bs m) (let q : suc n ≡ g.u_left - 1 = omega arith in q) d) k))

escape_complete :
    (g : Grammar) (bs : Bytes)
    → g.schema ≡ false
    → EscapeThen (StringThen g.allow_ws g.reading_key g.stack) bs
    → RestOf (feed_string g b'\\') bs
unfolding feed_string
escape_complete g bs n k = if_false bs (reads_root_key g) (reject g) _ (ground arith) k

feed_string_complete :
    (g : Grammar) (b : ℕ) (bs r : Bytes)
    → g.scalar ≡ Scalar.string
    → g.schema ≡ false
    → Chars (b ∷ bs) r
    → StringThen g.allow_ws g.reading_key g.stack r
    → RestOf (feed_string g b) bs
unfolding feed_string
feed_string_complete g b bs r c n (close e) k =
    subst (λ x. RestOf (feed_string g x) bs) (sym e) (closed (Bool-cases g.reading_key))
  where
    closed : (g.reading_key ≡ true) ⊎ (g.reading_key ≡ false) → RestOf (feed_string g b'"') bs
    closed (inl t) = if_true bs g.reading_key _ _ t (
        if_false bs (g.schema && one_open g.stack)
          (close_root_key (record g { scalar = Scalar.no_scalar })) _ (ground arith) (rw t at k))
    closed (inr t) =
        if_false bs g.reading_key
          (if g.schema && one_open g.stack
            then close_root_key (record g { scalar = Scalar.no_scalar })
            else accept (record g {
              scalar = Scalar.no_scalar;
              reading_key = false;
              expect = Expect.object_colon;
            }))
          _ t
          (push_value_done_complete (record g { scalar = Scalar.no_scalar }) bs refl (rw t at k))
feed_string_complete g b bs r c n (Chars.plain lo q e d) k =
    if_false bs (b == b'"') _ _ (ground arith) (
      if_false bs (b == b'\\') _ _ (ground arith) (
        if_false bs (ltb b 0x20) (reject g) _ (ground arith) (
          if_false bs (reads_root_key g) (root_key_byte g b) _ (ground arith)
            (rw c (then_ r d k)))))
feed_string_complete g b bs r c n (escape e i d) k =
    subst (λ x. RestOf (feed_string g x) bs) (sym e)
      (escape_complete g bs n (simple i (then_ r d k)))
feed_string_complete g b bs r c n (unicode e u x d) k =
    subst (λ x. RestOf (feed_string g x) bs) (sym e)
      (escape_complete g bs n (EscapeThen.unicode u (then_ _ x (then_ r d k))))

feed_lit_complete :
    (g : Grammar) (b : ℕ) (bs r : Bytes)
    → g.scalar ≡ Scalar.lit
    → g.lit_pos < length g.lit_
    → b ∷ bs ≡ drop g.lit_pos g.lit_ ++ r
    → After g.allow_ws g.stack r
    → RestOf (feed_lit g b) bs
unfolding feed_lit
feed_lit_complete g b bs r e l h a =
    let (c, o) = get_elem?_below g.lit_ g.lit_pos l in
    let w : b ∷ bs ≡ c ∷ (drop (suc g.lit_pos) g.lit_ ++ r) =
      rw (drop-get_elem? g.lit_ g.lit_pos o) at h in
    rw (o, feed_lit)
      (if_false bs (not (b == c)) (reject g) _ (ground arith)
        (next (Bool-cases (g.lit_pos + 1 == length g.lit_)) (ground (arith, add-one g.lit_pos))))
  where
    next :
        (g.lit_pos + 1 == length g.lit_ ≡ true) ⊎ (g.lit_pos + 1 == length g.lit_ ≡ false)
        → bs ≡ drop (g.lit_pos + 1) g.lit_ ++ r
        → RestOf
            (if g.lit_pos + 1 == length g.lit_
              then accept (
                  push_value_done (record g { scalar = Scalar.no_scalar; lit_pos = g.lit_pos + 1 }))
              else accept (record g { lit_pos = g.lit_pos + 1 }))
            bs
    next (inl t) w = if_true bs (g.lit_pos + 1 == length g.lit_) _ _ t (
        push_value_done_complete (record g { scalar = Scalar.no_scalar; lit_pos = g.lit_pos + 1 })
          bs refl
          (subst (After g.allow_ws g.stack)
            (sym (w ∙ ap (λ x. x ++ r) (drop-length g.lit_ (g.lit_pos + 1) (ground arith)))) a))
    next (inr t) w = if_false bs (g.lit_pos + 1 == length g.lit_) _ _ t (rw e (then_ r w a))

feed_at_complete :
    (c : Scalar) (g : Grammar) (b : ℕ) (bs : Bytes)
    → g.scalar ≡ c
    → IsFree g
    → FitsAt c g
    → RestAt g.allow_ws c g (b ∷ bs)
    → RestOf (feed_at c g b) bs
unfolding feed_at
feed_at_complete Scalar.no_scalar g b bs e v f h = between_complete g b bs e v (rw e h)
feed_at_complete Scalar.string g b bs e v f (then_ r d k) =
    feed_string_complete g b bs r e v.no_schema d k
feed_at_complete Scalar.string_esc g b bs e v f h = feed_escape_complete g b bs h
feed_at_complete Scalar.string_u g b bs e v f h = feed_hex_complete g b bs e f.1 h
feed_at_complete Scalar.number g b bs e v f (then_ r d a) =
    feed_number_complete g b bs r e f.1 v d a
feed_at_complete Scalar.lit g b bs e v f (then_ r d a) = feed_lit_complete g b bs r e f.2 d a

-- If `b ∷ bs` may follow a state, then `feed` accepts `b`, and `bs` may follow what it leaves.
pub feed_complete :
    (g : Grammar) (b : ℕ) (bs : Bytes) → IsFree g → Rest g (b ∷ bs) → RestOf (feed g b) bs
feed_complete g b bs v h = feed_at_complete g.scalar g b bs refl v v.fits h
