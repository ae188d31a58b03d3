-- ===== src/Grammar/Free.antt =====
-- Without a schema the automaton stays in the states of Grammar/Language, and never faults.
use libmlxforge.Common.{ℕ, ◌+◌, false, List, [], ◌∷◌, ◌≡◌, ◌≢◌, arith, refl}
use libmlxforge.Grammar.Feed.{
  between, push_value_done, feed_string, feed_escape, feed_hex, feed_lit, feed_number, feed_at,
  feed, structural_at, begin_value,
}
use libmlxforge.Grammar.State.{Expect, Scalar, Kind, Open, Grammar, Outcome, accept, reject, fault}
use libmlxforge.Grammar.Language.{Fits, IsFree}

abbrev pub IsFreeOf : Outcome → Type 0
IsFreeOf (accept g) = IsFree g
IsFreeOf (reject g) = Unit
IsFreeOf fault = ⊥

pub push_value_done-IsFree :
    (g : Grammar) (s : List Open)
    → g.stack ≡ s
    → g.schema ≡ false
    → g.pending_type ≡ Kind.free
    → g.num_int_only ≡ false
    → g.scalar ≡ Scalar.no_scalar
    → g.reading_key ≡ false
    → IsFree (push_value_done g)
unfolding push_value_done
push_value_done-IsFree g [] e n p i c k = ground arith
push_value_done-IsFree g (Open.brace ∷ s) e n p i c k = ground arith
push_value_done-IsFree g (Open.bracket ∷ s) e n p i c k = ground arith

begin_value-IsFree :
    (g : Grammar) (b : ℕ)
    → g.schema ≡ false
    → g.num_int_only ≡ false
    → g.pending_type ≡ Kind.free
    → g.expect ≢ Expect.end
    → g.scalar ≡ Scalar.no_scalar
    → g.reading_key ≡ false
    → IsFreeOf (begin_value g b Kind.free)
unfolding begin_value
begin_value-IsFree g b n i p e c k = ground arith

structural_at-IsFree :
    (e : Expect) (g : Grammar) (s : List Open) (b : ℕ)
    → g.expect ≡ e
    → g.stack ≡ s
    → Fits e s
    → g.schema ≡ false
    → g.pending_type ≡ Kind.free
    → g.num_int_only ≡ false
    → g.scalar ≡ Scalar.no_scalar
    → g.reading_key ≡ false
    → IsFreeOf (structural_at e g b)
unfolding structural_at
structural_at-IsFree Expect.value g s b e e' f n p i c k = ground (arith, begin_value-IsFree g b)
structural_at-IsFree Expect.array_value_or_end g (Open.bracket ∷ s) b e e' f n p i c k =
    ground (arith, begin_value-IsFree g b, push_value_done-IsFree (record g { stack = s }) s refl)
structural_at-IsFree Expect.object_key_or_end g (Open.brace ∷ s) b e e' f n p i c k =
    ground (arith, push_value_done-IsFree (record g { stack = s }) s refl)
structural_at-IsFree Expect.object_key g (Open.brace ∷ s) b e e' f n p i c k = ground arith
structural_at-IsFree Expect.object_colon g (Open.brace ∷ s) b e e' f n p i c k = ground arith
structural_at-IsFree Expect.object_next g (Open.brace ∷ s) b e e' f n p i c k =
    ground (arith, push_value_done-IsFree (record g { stack = s }) s refl)
structural_at-IsFree Expect.array_next g (Open.bracket ∷ s) b e e' f n p i c k =
    ground (arith, push_value_done-IsFree (record g { stack = s }) s refl)
structural_at-IsFree Expect.end g [] b e e' f n p i c k = ground arith
structural_at-IsFree _ g s b e e' f n p i c k = absurd f

between-IsFree :
    (g : Grammar) (b : ℕ) → g.scalar ≡ Scalar.no_scalar → IsFree g → IsFreeOf (between g b)
unfolding between
between-IsFree g b c v = ground (arith, structural_at-IsFree g.expect g g.stack b refl refl)

feed_string-IsFree :
    (g : Grammar) (b : ℕ) → g.scalar ≡ Scalar.string → IsFree g → IsFreeOf (feed_string g b)
unfolding feed_string
feed_string-IsFree g b c v =
    ground (arith, push_value_done-IsFree (record g { scalar = Scalar.no_scalar }) g.stack refl)

feed_escape-IsFree :
    (g : Grammar) (b : ℕ) → g.scalar ≡ Scalar.string_esc → IsFree g → IsFreeOf (feed_escape g b)
unfolding feed_escape
feed_escape-IsFree g b c v = ground arith

feed_hex-IsFree :
    (g : Grammar) (b : ℕ) → g.scalar ≡ Scalar.string_u → IsFree g → IsFreeOf (feed_hex g b)
unfolding feed_hex
feed_hex-IsFree g b c v = ground arith

feed_lit-IsFree : (g : Grammar) (b : ℕ) → g.scalar ≡ Scalar.lit → IsFree g → IsFreeOf (feed_lit g b)
unfolding feed_lit
feed_lit-IsFree g b c v = ground (
  arith,
  push_value_done-IsFree (record g { scalar = Scalar.no_scalar; lit_pos = g.lit_pos + 1 }) g.stack
      refl,
)

feed_number-IsFree :
    (g : Grammar) (b : ℕ) → g.scalar ≡ Scalar.number → IsFree g → IsFreeOf (feed_number g b)
unfolding feed_number
feed_number-IsFree g b c v = ground (
  arith,
  push_value_done-IsFree (record g { scalar = Scalar.no_scalar }) g.stack refl,
  between-IsFree (push_value_done (record g { scalar = Scalar.no_scalar })) b,
)

feed_at-IsFree :
    (c : Scalar) (g : Grammar) (b : ℕ) → g.scalar ≡ c → IsFree g → IsFreeOf (feed_at c g b)
unfolding feed_at
feed_at-IsFree Scalar.no_scalar g b e v = between-IsFree g b e v
feed_at-IsFree Scalar.string g b e v = feed_string-IsFree g b e v
feed_at-IsFree Scalar.string_esc g b e v = feed_escape-IsFree g b e v
feed_at-IsFree Scalar.string_u g b e v = feed_hex-IsFree g b e v
feed_at-IsFree Scalar.number g b e v = feed_number-IsFree g b e v
feed_at-IsFree Scalar.lit g b e v = feed_lit-IsFree g b e v

-- A byte leads to a state of this shape or is refused; it never faults.
pub feed-IsFree : (g : Grammar) (b : ℕ) → IsFree g → IsFreeOf (feed g b)
feed-IsFree g b v = feed_at-IsFree g.scalar g b refl v
