-- ===== src/Grammar/SoundFeed.antt =====
-- Soundness of `feed`, one byte at a time: the scalars, and the dispatch over them.
use native.Mathlib.Numerals.{add-one}
use libmlxforge.Common.{
  ℕ, zero, suc, ◌+◌, ◌-◌, ◌<◌, Bool, true, false, not, ◌&&◌, List, [], ◌∷◌, ◌++◌, ◌≡◌, inl, inr,
  Bytes, length, drop, arith, refl, ltb, ◌==◌, if◌then◌else◌, ==_iff, Option-cases, some, get_elem?,
  subst, sym, ◌∙◌,
}
use libmlxforge.Grammar.Feed.{
  is_escape, back_is_brace, push_value_done, feed_string, feed_escape, feed_hex, feed_lit,
  feed_number, feed_at, feed, number_continue, terminable, after_value, reads_root_key, one_open,
  finish_scalar_then, close_root_key,
}
use libmlxforge.Grammar.Free.{push_value_done-IsFree}
use libmlxforge.Grammar.State.{Expect, Scalar, Num, Open, Grammar, Outcome, accept, reject, is_hex}
use libmlxforge.Grammar.Language.{
  FitsAt, IsFree, StringThen, Then, then_, EscapeThen, simple, NumberRest, Rest, RestOf, RestAt,
}
use libmlxforge.Grammar.Sound.{
  between_sound, push_value_done_sound, split_rest, guarded, number_continue_sound, NumberRestOf,
}
use libmlxforge.Grammar.Text.{Digits, Frac, Exp, tail, After, Chars, close, escape, unicode, Hex}

-- Without a schema no key of the root object is being read.
unguarded :
    (g : Grammar) (x : Bool) (bs : Bytes) (o p : Outcome)
    → g.schema ≡ false
    → RestOf (if g.schema && x then o else p) bs
    → RestOf p bs
unguarded g x bs o p n h = elim (split_rest bs (g.schema && x) o p h) [
  | inl (t, h) ↦ absurd (ground arith)
  | inr (t, h) ↦ h
]

feed_escape_sound :
    (g : Grammar) (b : ℕ) (bs : Bytes)
    → RestOf (feed_escape g b) bs
    → EscapeThen (StringThen g.allow_ws g.reading_key g.stack) (b ∷ bs)
unfolding feed_escape
feed_escape_sound g b bs h = elim (split_rest bs (is_escape b) _ _ h) [
  | inl (t, h) ↦ simple t h
  | inr (t, h) ↦ elim (split_rest bs (b == b'u') _ _ h) [
    | inl (t, h) ↦ EscapeThen.unicode ((==_iff b _).0 t) h
    | inr (t, h) ↦ absurd h
  ]
]

feed_hex_sound :
    (g : Grammar) (b : ℕ) (bs : Bytes)
    → g.scalar ≡ Scalar.string_u
    → 0 < g.u_left
    → RestOf (feed_hex g b) bs
    → Then (Hex g.u_left) (Then Chars (StringThen g.allow_ws g.reading_key g.stack)) (b ∷ bs)
unfolding feed_hex
feed_hex_sound g b bs c u h = elim (split_rest bs (not (is_hex b)) _ _ h) [
  | inl (t, h) ↦ absurd h
  | inr (x, h) ↦ elim (split_rest bs (g.u_left == 1) _ _ h) [
    | inl (t, h) ↦ then_ bs (Hex.more (ground arith) (ground arith) (Hex.stop refl)) h
    | inr (t, h) ↦
        elim (let k : Then (Hex (g.u_left - 1))
              (Then Chars (StringThen g.allow_ws g.reading_key g.stack)) bs =
            rw c at h in
          k) [ then_ r d k ↦ then_ r (Hex.more (ground arith) (ground arith) d) k ]
  ]
]

escape_sound :
    (K : Bytes → Type 0) {b : ℕ} {bs : Bytes} → b ≡ b'\\' → EscapeThen K bs → Then Chars K (b ∷ bs)
escape_sound K e (simple i (then_ r k c)) = then_ r (escape e i k) c
escape_sound K e (EscapeThen.unicode u (then_ m x (then_ r k c))) = then_ r (unicode e u x k) c

feed_string_sound :
    (g : Grammar) (b : ℕ) (bs : Bytes)
    → g.scalar ≡ Scalar.string
    → g.schema ≡ false
    → RestOf (feed_string g b) bs
    → Then Chars (StringThen g.allow_ws g.reading_key g.stack) (b ∷ bs)
unfolding feed_string
feed_string_sound g b bs c n h = elim (split_rest bs (b == b'"') _ _ h) [
  | inl (q, h) ↦ elim (split_rest bs g.reading_key _ _ h) [
    | inl (k, h) ↦ then_ bs (close ((==_iff b _).0 q)) (
        rw k (
          unguarded g (one_open g.stack) bs
            (close_root_key (record g { scalar = Scalar.no_scalar }))
            (accept (record g {
              scalar = Scalar.no_scalar;
              reading_key = false;
              expect = Expect.object_colon;
            }))
            n h))
    | inr (k, h) ↦
        then_ bs (close ((==_iff b _).0 q))
          (rw k (push_value_done_sound (record g { scalar = Scalar.no_scalar }) bs refl h))
  ]
  | inr (q, h) ↦ elim (split_rest bs (b == b'\\') _ _ h) [
    | inl (e, h) ↦
        escape_sound (StringThen g.allow_ws g.reading_key g.stack) ((==_iff b _).0 e)
          (guarded g bs (reads_root_key g) (accept (record g { scalar = Scalar.string_esc })) h)
    | inr (e, h) ↦ elim (split_rest bs (ltb b 0x20) _ _ h) [
      | inl (_, h) ↦ absurd h
      | inr (t, h) ↦ elim (split_rest bs (reads_root_key g) _ _ h) [
        | inl (k, _) ↦ absurd (ground arith)
        | inr (_, h) ↦
            elim (let k : Then Chars (StringThen g.allow_ws g.reading_key g.stack) bs = rw c at h in
              k) [
                | then_ r d k ↦
                    then_ r (Chars.plain (ground arith) (ground arith) (ground arith) d) k
              ]
      ]
    ]
  ]
]

pub drop-get_elem? :
    (w : Bytes) (p : ℕ) {c : ℕ} → get_elem? w p ≡ some c → drop p w ≡ c ∷ drop (suc p) w
drop-get_elem? [] p e = cc
drop-get_elem? (x ∷ w) zero e = cc
drop-get_elem? (x ∷ w) (suc p) e = drop-get_elem? w p e

pub drop-length : (w : Bytes) (p : ℕ) → p ≡ length w → drop p w ≡ []
drop-length [] zero e = refl
drop-length [] (suc p) e = refl
drop-length (x ∷ w) zero e = absurd (omega arith)
drop-length (x ∷ w) (suc p) e = drop-length w p (omega arith)

-- The rest of a word, one byte on.
word_step :
    (w : Bytes) (p : ℕ) (b c : ℕ) (bs r : Bytes)
    → get_elem? w p ≡ some c
    → (b == c) ≡ true
    → bs ≡ drop (p + 1) w ++ r
    → b ∷ bs ≡ drop p w ++ r
word_step w p b c bs r e t h = rw (drop-get_elem? w p e) (ground (arith, add-one p))

feed_lit_sound :
    (g : Grammar) (b : ℕ) (bs : Bytes)
    → g.scalar ≡ Scalar.lit
    → RestOf (feed_lit g b) bs
    → Then (λ bs r. bs ≡ drop g.lit_pos g.lit_ ++ r) (After g.allow_ws g.stack) (b ∷ bs)
unfolding feed_lit
feed_lit_sound g b bs e h = elim (Option-cases (get_elem? g.lit_ g.lit_pos)) [
  | inl o ↦ absurd (let k : ⊥ = rw (o, feed_lit) at h in k)
  | inr (c, o) ↦
      elim (split_rest bs (not (b == c)) (reject g)
        (if g.lit_pos + 1 == length g.lit_
          then accept
              (push_value_done (record g { scalar = Scalar.no_scalar; lit_pos = g.lit_pos + 1 }))
          else accept (record g { lit_pos = g.lit_pos + 1 }))
        (rw (o, feed_lit) at h)) [
          | inl (_, h) ↦ absurd h
          | inr (t, h) ↦ elim (split_rest bs (g.lit_pos + 1 == length g.lit_) _ _ h) [
            | inl (l, h) ↦
                then_ bs
                  (word_step g.lit_ g.lit_pos b c bs bs o (ground arith)
                    (rw (drop-length g.lit_ (g.lit_pos + 1) (ground arith))))
                  (push_value_done_sound
                    (record g { scalar = Scalar.no_scalar; lit_pos = g.lit_pos + 1 }) bs refl h)
            | inr (l, h) ↦
                elim (let k : Then (λ bs r. bs ≡ drop (g.lit_pos + 1) g.lit_ ++ r)
                      (After g.allow_ws g.stack) bs =
                    rw e at h in
                  k) [
                    | then_ r d k ↦
                        then_ r (word_step g.lit_ g.lit_pos b c bs r o (ground arith) d) k
                  ]
          ]
        ]
]

-- A number may end in a terminable state.
pub number_stop : (n : Num) (bs : Bytes) → terminable n ≡ true → NumberRest n bs bs
number_stop Num.int_zero bs e = tail Frac.absent Exp.absent
number_stop Num.int_digits bs e = then_ bs Digits.stop (tail Frac.absent Exp.absent)
number_stop Num.frac_digits bs e = then_ bs Digits.stop Exp.absent
number_stop Num.exp_digits bs e = Digits.stop
number_stop _ bs e = absurd (ground arith)

pub push_value_done-scalar : (g : Grammar) → (push_value_done g).scalar ≡ g.scalar
unfolding push_value_done
push_value_done-scalar g = go g.stack
  where
    go :
        (s : List Open)
        → (after_value s (record g {
          schema_key_idx =
              if back_is_brace g.stack && g.schema && one_open g.stack
              then g.schema_key_idx + 1
              else g.schema_key_idx;
        })).scalar
          ≡ g.scalar
    go [] = refl
    go (Open.brace ∷ s) = refl
    go (Open.bracket ∷ s) = refl

pub push_value_done-allow_ws :
    (g : Grammar)
    → ((push_value_done g).allow_ws ≡ g.allow_ws) × ((push_value_done g).stack ≡ g.stack)
unfolding push_value_done
push_value_done-allow_ws g = ground arith

finish_sound :
    (g : Grammar) (b : ℕ) (bs : Bytes)
    → g.reading_key ≡ false
    → IsFree g
    → RestOf (finish_scalar_then g b) bs
    → Then (NumberRest g.num) (After g.allow_ws g.stack) (b ∷ bs)
unfolding finish_scalar_then
finish_sound g b bs k v h = elim (split_rest bs (terminable g.num) _ _ h) [
  | inl (t, h) ↦ then_ (b ∷ bs) (number_stop g.num (b ∷ bs) t) (
      push_value_done_sound closed (b ∷ bs) refl (
        between_sound (push_value_done closed) b bs (push_value_done-scalar closed)
          (push_value_done-IsFree closed g.stack refl v.no_schema v.any_kind v.any_number refl k)
          h))
  | inr (_, h) ↦ absurd h
]
  where
    closed : Grammar
    closed = record g { scalar = Scalar.no_scalar }

feed_number_sound :
    (g : Grammar) (b : ℕ) (bs : Bytes)
    → g.scalar ≡ Scalar.number
    → g.reading_key ≡ false
    → IsFree g
    → RestOf (feed_number g b) bs
    → Then (NumberRest g.num) (After g.allow_ws g.stack) (b ∷ bs)
unfolding feed_number
feed_number_sound g b bs c k v h = elim (Option-cases (number_continue g.num g.num_int_only b)) [
  | inl o ↦ finish_sound g b bs k v (rw (o, feed_number) at h)
  | inr (n, o) ↦
      elim (let m : Then (NumberRest n) (After g.allow_ws g.stack) bs =
          rw c at (let l : Rest (record g { num = n }) bs = rw (o, feed_number) at h in l) in
        m) [
          | then_ r d a ↦
              then_ r
                (number_continue_sound g.num b bs r
                  (subst (λ x. NumberRestOf x bs r) (sym o ∙ rw v.any_number) d))
                a
        ]
]

feed_at_sound :
    (c : Scalar) (g : Grammar) (b : ℕ) (bs : Bytes)
    → g.scalar ≡ c
    → IsFree g
    → FitsAt c g
    → RestOf (feed_at c g b) bs
    → RestAt g.allow_ws c g (b ∷ bs)
unfolding feed_at
feed_at_sound Scalar.no_scalar g b bs e v f h = rw e at (between_sound g b bs e v h)
feed_at_sound Scalar.string g b bs e v f h = feed_string_sound g b bs e v.no_schema h
feed_at_sound Scalar.string_esc g b bs e v f h = feed_escape_sound g b bs h
feed_at_sound Scalar.string_u g b bs e v f h = feed_hex_sound g b bs e f.1 h
feed_at_sound Scalar.number g b bs e v f h = feed_number_sound g b bs e f.1 v h
feed_at_sound Scalar.lit g b bs e v f h = feed_lit_sound g b bs e h

-- If `bs` may follow what `feed` leaves, then `b ∷ bs` may follow the state before it.
pub feed_sound :
    (g : Grammar) (b : ℕ) (bs : Bytes) → IsFree g → RestOf (feed g b) bs → Rest g (b ∷ bs)
feed_sound g b bs v h = feed_at_sound g.scalar g b bs refl v v.fits h
