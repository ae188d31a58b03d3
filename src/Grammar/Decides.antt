-- ===== src/Grammar/Decides.antt =====
-- The automaton without a schema against the grammar of Grammar/Text: which texts it takes, and
-- which prefixes of texts.
use libmlxforge.Common.{
  ℕ, Bool, true, false, not, ◌&&◌, ◌↔◌, List, [], ◌∷◌, ◌++◌, ◌≡◌, inl, inr, Bytes, arith, refl, ◌∙◌,
  subst, sym, drop, length, zero, suc, ◌<◌,
}
use libmlxforge.Grammar.Feed.{feed, accepts, advance, complete, terminable, set_compact}
use libmlxforge.Grammar.State.{
  Expect, Scalar, Num, Open, Grammar, Outcome, accept, reject, fault, any_value,
}
use libmlxforge.Grammar.Language.{
  Fits, FitsAt, IsFree, then_, NumberRest, Rest, RestOf, RestAt, Between, ValueThen, value_then,
  KeyThen, key_then, colon_then, closes, holds,
}
use libmlxforge.Grammar.Text.{
  stop, Digits, Frac, Exp, ExpBody, tail, After, at_root, in_array, in_object, Hex, close_array,
  next_element, close_object, next_member, Value, word, number, unsigned, JsonText, text,
}
use libmlxforge.Grammar.Free.{feed-IsFree, IsFreeOf}
use libmlxforge.Grammar.SoundFeed.{feed_sound, number_stop}
use libmlxforge.Grammar.CompleteFeed.{feed_complete}

complete_sound_at :
    (c : Scalar) (x : Expect) (s : List Open) (g : Grammar)
    → g.scalar ≡ c
    → g.expect ≡ x
    → g.stack ≡ s
    → FitsAt c g
    → complete g ≡ true
    → RestAt g.allow_ws c g []
unfolding complete
complete_sound_at Scalar.no_scalar Expect.end [] g c x s f t = rw (x, s) (at_root stop)
complete_sound_at Scalar.number x [] g c e s f t =
    then_ [] (number_stop g.num [] (ground arith)) (rw s (at_root stop))
complete_sound_at _ x s g c e z f t = absurd (ground arith)

NumberRest-end : (n : Num) (r : Bytes) → NumberRest n [] r → (terminable n ≡ true) × (r ≡ [])
NumberRest-end Num.int_zero r (tail Frac.absent Exp.absent) = (refl, refl)
NumberRest-end Num.int_digits r (then_ m Digits.stop (tail Frac.absent Exp.absent)) = (refl, refl)
NumberRest-end Num.frac_digits r (then_ m Digits.stop Exp.absent) = (refl, refl)
NumberRest-end Num.exp_digits r Digits.stop = (refl, refl)
NumberRest-end Num.sign r (then_ m i t) = elim i [ ]
NumberRest-end Num.frac_dot r (then_ m d x) = elim d [ ]
NumberRest-end Num.exp_start r (ExpBody.plain d) = elim d [ ]
NumberRest-end Num.exp_after_sign r d = elim d [ ]

Value-nonempty : {ws : Bool} {w : Bytes} → Value ws [] w → ⊥
Value-nonempty (number (unsigned i t)) = elim i [ ]
Value-nonempty (word v (inl i) e) = ground arith
Value-nonempty (word v (inr (inl i)) e) = ground arith
Value-nonempty (word v (inr (inr i)) e) = ground arith

-- Only at the root, behind a whole value, may the text end.
After-end : {ws : Bool} {s : List Open} → After ws s [] → s ≡ []
After-end (at_root t) = refl
After-end (in_array (close_array t c) a) = elim t [ ]
After-end (in_array (next_element t c m) a) = elim t [ ]
After-end (in_object (close_object t c) a) = elim t [ ]
After-end (in_object (next_member t c m) a) = elim t [ ]

ValueThen-end : {ws : Bool} {s : List Open} → ValueThen ws s [] → ⊥
ValueThen-end (value_then stop u a) = Value-nonempty u

KeyThen-end : {ws : Bool} {s : List Open} → KeyThen ws s [] → ⊥
KeyThen-end (key_then t q k c) = elim t [ ]

Between-end :
    (ws : Bool) (x : Expect) (s : List Open) → Fits x s → Between ws x s [] → x ≡ Expect.end
Between-end ws Expect.value s f h = absurd (ValueThen-end h)
Between-end ws Expect.array_value_or_end (o ∷ s) f (closes t c a) = elim t [ ]
Between-end ws Expect.array_value_or_end (o ∷ s) f (holds h) = absurd (ValueThen-end h)
Between-end ws Expect.object_key_or_end (o ∷ s) f (closes t c a) = elim t [ ]
Between-end ws Expect.object_key_or_end (o ∷ s) f (holds h) = absurd (KeyThen-end h)
Between-end ws Expect.object_key s f h = absurd (KeyThen-end h)
Between-end ws Expect.object_colon s f (colon_then t c v) = elim t [ ]
Between-end ws Expect.object_next (Open.brace ∷ s) f h = absurd (ground (arith, After-end h))
Between-end ws Expect.array_next (Open.bracket ∷ s) f h = absurd (ground (arith, After-end h))
Between-end ws Expect.end s f h = refl
Between-end ws _ s f h = absurd f

drop-nonempty :
    (w : Bytes) (p : ℕ) → p < length w → (r : Bytes) → ◌≡◌ {A = Bytes} [] (drop p w ++ r) → ⊥
drop-nonempty [] p l r e = elim l [ ]
drop-nonempty (x ∷ w) zero l r e = cc
drop-nonempty (x ∷ w) (suc p) l r e = drop-nonempty w p (omega arith) r e

complete-complete_at :
    (c : Scalar) (g : Grammar)
    → g.scalar ≡ c
    → FitsAt c g
    → RestAt g.allow_ws c g []
    → complete g ≡ true
unfolding complete
complete-complete_at Scalar.no_scalar g c f h =
    ground (arith, Between-end g.allow_ws g.expect g.stack f.1 h)
complete-complete_at Scalar.number g c f (then_ r d a) =
    let (t, e) = NumberRest-end g.num r d in
    let z : g.stack ≡ [] = After-end (subst (After g.allow_ws g.stack) e a) in ground arith
complete-complete_at Scalar.string g c f (then_ r d k) = elim d [ ]
complete-complete_at Scalar.string_u g c f (then_ r (Hex.stop e) k) = absurd (omega arith)
complete-complete_at Scalar.lit g c f (then_ r d k) =
    absurd (drop-nonempty g.lit_ g.lit_pos f.2 r d)
complete-complete_at Scalar.string_esc g c f h = elim h [ ]

-- The state is complete exactly where the empty text may follow.
complete_iff : (g : Grammar) → IsFree g → (complete g ≡ true) ↔ Rest g []
complete_iff g v = (
  complete_sound_at g.scalar g.expect g.stack g refl refl refl v.fits,
  complete-complete_at g.scalar g refl v.fits,
)

-- `accepts` and then `complete`, in one.
abbrev pub takes : Grammar → Bytes → Bool
takes g bs = accepts g bs && complete (advance g bs)

takes_step : Outcome → Bytes → Bool
takes_step (accept g) bs = takes g bs
takes_step (reject g) bs = false
takes_step fault bs = false

takes-step : (g : Grammar) (b : ℕ) (bs : Bytes) → takes g (b ∷ bs) ≡ takes_step (feed g b) bs
unfolding accepts advance takes_step
takes-step g b bs = go (feed g b) refl
  where
    go : (o : Outcome) → feed g b ≡ o → takes g (b ∷ bs) ≡ takes_step o bs
    go (accept h) e = rw (e, accepts, advance)
    go (reject h) e = rw (e, accepts)
    go fault e = rw (e, accepts)

takes_step_iff :
    (o : Outcome) (bs : Bytes)
    → IsFreeOf o
    → ((h : Grammar) → IsFree h → (takes h bs ≡ true) ↔ Rest h bs)
    → (takes_step o bs ≡ true) ↔ RestOf o bs
unfolding takes_step
takes_step_iff (accept h) bs w ih = ih h w
takes_step_iff (reject h) bs w ih = ((λ e. ground arith), λ r. absurd r)
takes_step_iff fault bs w ih = absurd w

-- A state takes exactly the texts that may follow it.
pub takes_iff : (bs : Bytes) (g : Grammar) → IsFree g → (takes g bs ≡ true) ↔ Rest g bs
takes_iff [] g v = unfold accepts advance in complete_iff g v
takes_iff (b ∷ bs) g v =
    let step = takes_step_iff (feed g b) bs (feed-IsFree g b v) (takes_iff bs) in
    (
      λ t. feed_sound g b bs v (step.0 (sym (takes-step g b bs) ∙ t)),
      λ r. takes-step g b bs ∙ step.1 (feed_complete g b bs v r),
    )

pub any_value-IsFree : (compact : Bool) → IsFree (set_compact compact any_value)
any_value-IsFree compact = record {
  no_schema = refl;
  any_kind = refl;
  any_number = refl;
  fits = (refl, tt);
}

-- From `any_value`, in compact mode or not, the automaton accepts all bytes of a text and is then
-- complete exactly when the text is a JSON text by the grammar of RFC 8259, in compact mode one
-- without whitespace between its tokens.
pub any_value-decides :
    (compact : Bool) (bs : Bytes)
    → (takes (set_compact compact any_value) bs ≡ true) ↔ JsonText (not compact) bs
any_value-decides compact bs =
    let e = takes_iff bs (set_compact compact any_value) (any_value-IsFree compact) in
    ((λ t. there (e.0 t)), λ t. e.1 (back t))
  where
    there : ValueThen (not compact) [] bs → JsonText (not compact) bs
    there (value_then w v (at_root z)) = text w v z

    back : JsonText (not compact) bs → ValueThen (not compact) [] bs
    back (text w v z) = value_then w v (at_root z)
