-- ===== src/Grammar/Feed.antt =====
-- src/sample/json_grammar.cpp: the automaton itself, `feed` and the functions that it calls, and
-- `accepts`, `advance` and `complete`, which run it.
use libmlxforge.Common.{
  ℕ, ◌+◌, ◌-◌, Bool, true, false, not, ◌&&◌, ◌||◌, List, [], ◌∷◌, ◌++◌, Option, none, some, Bytes,
  ltb, leb, ◌==◌, if◌then◌else◌, length, get_elem?,
}
use libmlxforge.Grammar.State.{
  Expect, Scalar, Num, Kind, Open, Grammar, Outcome, accept, reject, fault, is_ws, is_digit, is_hex,
}

-- The switch over `num_`; `none` is `false`, which leaves the state as it was.
unfoldable pub number_continue : Num → Bool → ℕ → Option Num
unfolding is_digit
number_continue Num.sign int_only b =
    if b == b'0'
    then some Num.int_zero
    else if leb b'1' b && leb b b'9'
    then some Num.int_digits
    else none
number_continue Num.int_zero int_only b =
    if int_only
    then none
    else if b == b'.'
    then some Num.frac_dot
    else if b == b'e' || b == b'E'
    then some Num.exp_start
    else none
number_continue Num.int_digits int_only b =
    if is_digit b
    then some Num.int_digits
    else if int_only
    then none
    else if b == b'.'
    then some Num.frac_dot
    else if b == b'e' || b == b'E'
    then some Num.exp_start
    else none
number_continue Num.frac_dot int_only b = if is_digit b then some Num.frac_digits else none
number_continue Num.frac_digits int_only b =
    if is_digit b
    then some Num.frac_digits
    else if b == b'e' || b == b'E'
    then some Num.exp_start
    else none
number_continue Num.exp_start int_only b =
    if b == b'+' || b == b'-'
    then some Num.exp_after_sign
    else if is_digit b
    then some Num.exp_digits
    else none
number_continue Num.exp_after_sign int_only b = if is_digit b then some Num.exp_digits else none
number_continue Num.exp_digits int_only b = if is_digit b then some Num.exp_digits else none

-- The four terminable states.
abbrev pub terminable : Num → Bool
terminable Num.int_zero = true
terminable Num.int_digits = true
terminable Num.frac_digits = true
terminable Num.exp_digits = true
terminable Num.sign = false
terminable Num.frac_dot = false
terminable Num.exp_start = false
terminable Num.exp_after_sign = false

-- `stack_.size() == 1`
abbrev pub one_open : List Open → Bool
one_open [] = false
one_open (o ∷ []) = true
one_open (o ∷ p ∷ s) = false

-- `!stack_.empty() && stack_.back() == '{'`
abbrev pub back_is_brace : List Open → Bool
back_is_brace [] = false
back_is_brace (Open.brace ∷ s) = true
back_is_brace (Open.bracket ∷ s) = false

abbrev pub pop : List Open → List Open
pop [] = []
pop (o ∷ s) = s

unfoldable pub schema_keys_exhausted : Grammar → Bool
schema_keys_exhausted g =
    g.schema && one_open g.stack && leb (length g.root_schema.keys) g.schema_key_idx

unfoldable pub start_key : Grammar → Grammar
start_key g = record g { scalar = Scalar.string; reading_key = true; cur_key = [] }

-- The part of `push_value_done` behind the count of keys.
abbrev pub after_value : List Open → Grammar → Grammar
after_value [] g = record g { expect = Expect.end }
after_value (Open.brace ∷ s) g = record g { pending_type = Kind.free; expect = Expect.object_next }
after_value (Open.bracket ∷ s) g = record g { pending_type = Kind.free; expect = Expect.array_next }

unfoldable pub push_value_done : Grammar → Grammar
push_value_done g = after_value g.stack (record g {
  schema_key_idx =
      if back_is_brace g.stack && g.schema && one_open g.stack
      then g.schema_key_idx + 1
      else g.schema_key_idx;
})

abbrev pub is_empty {ℓ} : {A : Type ℓ} → List A → Bool
is_empty [] = true
is_empty (x ∷ xs) = false

unfoldable pub close_container : Grammar → Grammar
unfolding push_value_done
close_container g =
    if is_empty g.stack then g else push_value_done (record g { stack = pop g.stack })

abbrev start_lit : Grammar → Bytes → Outcome
start_lit g word = accept (record g { scalar = Scalar.lit; lit_ = word; lit_pos = 1 })

abbrev is_integer : Kind → Bool
is_integer Kind.integer = true
is_integer Kind.free = false
is_integer Kind.string = false
is_integer Kind.number = false
is_integer Kind.boolean = false

abbrev start_number : Grammar → Kind → Num → Outcome
start_number g t n =
    accept (record g { scalar = Scalar.number; num = n; num_int_only = is_integer t })

-- Scalar type gating: the first switch of `begin_value`.
unfoldable pub type_allows : Kind → ℕ → Bool
unfolding is_digit
type_allows Kind.string b = b == b'"'
type_allows Kind.integer b = b == b'-' || is_digit b
type_allows Kind.number b = b == b'-' || is_digit b
type_allows Kind.boolean b = b == b't' || b == b'f'
type_allows Kind.free b = true

unfoldable pub begin_value : Grammar → ℕ → Kind → Outcome
unfolding type_allows
begin_value g b t =
    if not (type_allows t b)
    then reject g
    else if b == b'"'
    then accept (record g { scalar = Scalar.string })
    else if b == b'{'
    then accept (record g { stack = Open.brace ∷ g.stack; expect = Expect.object_key_or_end })
    else if b == b'['
    then accept (record g { stack = Open.bracket ∷ g.stack; expect = Expect.array_value_or_end })
    else if b == b't'
    then start_lit g (b't' ∷ b'r' ∷ b'u' ∷ b'e' ∷ [])
    else if b == b'f'
    then start_lit g (b'f' ∷ b'a' ∷ b'l' ∷ b's' ∷ b'e' ∷ [])
    else if b == b'n'
    then start_lit g (b'n' ∷ b'u' ∷ b'l' ∷ b'l' ∷ [])
    else if b == b'-'
    then start_number g t Num.sign
    else if b == b'0'
    then start_number g t Num.int_zero
    else if leb b'1' b && leb b b'9'
    then start_number g t Num.int_digits
    else reject g

-- `schema_ && stack_.size() == 1 && schema_key_idx_ != root_schema_.keys.size()`
abbrev pub keys_missing : Grammar → Bool
keys_missing g = g.schema && one_open g.stack && not (g.schema_key_idx == length g.root_schema.keys)

unfoldable pub structural_at : Expect → Grammar → ℕ → Outcome
unfolding begin_value close_container schema_keys_exhausted start_key
structural_at Expect.value g b =
    if g.schema && is_empty g.stack && not (b == b'{')
    then reject g
    else begin_value g b g.pending_type
structural_at Expect.array_value_or_end g b =
    if b == b']' then accept (close_container g) else begin_value g b Kind.free
structural_at Expect.object_key_or_end g b =
    if b == b'}'
    then (if keys_missing g then reject g else accept (close_container g))
    else if b == b'"'
    then (if schema_keys_exhausted g then reject g else accept (start_key g))
    else reject g
structural_at Expect.object_key g b =
    if b == b'"'
    then (if schema_keys_exhausted g then reject g else accept (start_key g))
    else reject g
structural_at Expect.object_colon g b =
    if b == b':' then accept (record g { expect = Expect.value }) else reject g
structural_at Expect.object_next g b =
    if b == b','
    then (if schema_keys_exhausted g
        then reject g
        else accept (record g { expect = Expect.object_key }))
    else if b == b'}'
    then (if keys_missing g then reject g else accept (close_container g))
    else reject g
structural_at Expect.array_next g b =
    if b == b','
    then accept (record g { expect = Expect.value; pending_type = Kind.free })
    else if b == b']'
    then accept (close_container g)
    else reject g
structural_at Expect.end g b = reject g

abbrev pub structural : Grammar → ℕ → Outcome
structural g b = structural_at g.expect g b

-- The tail that `feed` and `finish_scalar_then` share: whitespace, else structure.
unfoldable pub between : Grammar → ℕ → Outcome
unfolding structural_at is_ws
between g b = if is_ws b then (if g.allow_ws then accept g else reject g) else structural g b

unfoldable pub finish_scalar_then : Grammar → ℕ → Outcome
unfolding between push_value_done
finish_scalar_then g b =
    if terminable g.num
    then between (push_value_done (record g { scalar = Scalar.no_scalar })) b
    else reject g

-- `reading_key_ && schema_ && stack_.size() == 1`
abbrev pub reads_root_key : Grammar → Bool
reads_root_key g = g.reading_key && g.schema && one_open g.stack

-- A key of the root object closes: its length and its type are read from the schema.
unfoldable pub close_root_key : Grammar → Outcome
close_root_key g = elim (get_elem? g.root_schema.keys g.schema_key_idx) [
  | none ↦ fault
  | some want ↦
      if not (length g.cur_key == length want)
      then reject g
      else elim (get_elem? g.root_schema.types g.schema_key_idx) [
        | none ↦ fault
        | some t ↦
            accept
              (record g { pending_type = t; reading_key = false; expect = Expect.object_colon })
      ]
]

-- One more byte of a key of the root object; `want[cur_key_.size()]` is in range behind the test.
unfoldable pub root_key_byte : Grammar → ℕ → Outcome
root_key_byte g b = elim (get_elem? g.root_schema.keys g.schema_key_idx) [
  | none ↦ fault
  | some want ↦ elim (get_elem? want (length g.cur_key)) [
    | none ↦ reject g
    | some c ↦ if c == b then accept (record g { cur_key = g.cur_key ++ b ∷ [] }) else reject g
  ]
]

unfoldable pub feed_string : Grammar → ℕ → Outcome
unfolding close_root_key root_key_byte push_value_done
feed_string g b =
    if b == b'"'
    then (if g.reading_key
        then (if g.schema && one_open g.stack
            then close_root_key (record g { scalar = Scalar.no_scalar })
            else accept (record g {
              scalar = Scalar.no_scalar;
              reading_key = false;
              expect = Expect.object_colon;
            }))
        else accept (push_value_done (record g { scalar = Scalar.no_scalar })))
    else if b == b'\\'
    then (if reads_root_key g then reject g else accept (record g { scalar = Scalar.string_esc }))
    else if ltb b 0x20
    then reject g
    else if reads_root_key g
    then root_key_byte g b
    else accept g

-- The escapes that stand for one character.
unfoldable pub is_escape : ℕ → Bool
is_escape b =
    b == b'"'
    || b == b'\\'
    || b == b'/'
    || b == b'b'
    || b == b'f'
    || b == b'n'
    || b == b'r'
    || b == b't'

unfoldable pub feed_escape : Grammar → ℕ → Outcome
unfolding is_escape
feed_escape g b =
    if is_escape b
    then accept (record g { scalar = Scalar.string })
    else if b == b'u'
    then accept (record g { scalar = Scalar.string_u; u_left = 4 })
    else reject g

unfoldable pub feed_hex : Grammar → ℕ → Outcome
unfolding is_hex
feed_hex g b =
    if not (is_hex b)
    then reject g
    else if g.u_left == 1
    then accept (record g { scalar = Scalar.string; u_left = 0 })
    else accept (record g { u_left = g.u_left - 1 })

unfoldable pub feed_lit : Grammar → ℕ → Outcome
unfolding push_value_done
feed_lit g b = elim (get_elem? g.lit_ g.lit_pos) [
  | none ↦ reject g
  | some c ↦
      if not (b == c)
      then reject g
      else if g.lit_pos + 1 == length g.lit_
      then accept
          (push_value_done (record g { scalar = Scalar.no_scalar; lit_pos = g.lit_pos + 1 }))
      else accept (record g { lit_pos = g.lit_pos + 1 })
]

unfoldable pub feed_number : Grammar → ℕ → Outcome
unfolding number_continue finish_scalar_then
feed_number g b = elim (number_continue g.num g.num_int_only b) [
  | some n ↦ accept (record g { num = n })
  | none ↦ finish_scalar_then g b
]

unfoldable pub feed_at : Scalar → Grammar → ℕ → Outcome
unfolding feed_string feed_escape feed_hex feed_lit feed_number between
feed_at Scalar.string g b = feed_string g b
feed_at Scalar.string_esc g b = feed_escape g b
feed_at Scalar.string_u g b = feed_hex g b
feed_at Scalar.lit g b = feed_lit g b
feed_at Scalar.number g b = feed_number g b
feed_at Scalar.no_scalar g b = between g b

abbrev pub feed : Grammar → ℕ → Outcome
feed g b = feed_at g.scalar g b

-- The loop of `accepts`, on its own copy of the state.
unfoldable pub accepts : Grammar → Bytes → Bool
unfolding feed_at
accepts g [] = true
accepts g (b ∷ bs) = elim (feed g b) [ accept h ↦ accepts h bs | reject h ↦ false | fault ↦ false ]

-- The loop of `advance` drops what `feed` returns. At a fault the model keeps the state.
unfoldable pub advance : Grammar → Bytes → Grammar
unfolding feed_at
advance g [] = g
advance g (b ∷ bs) = elim (feed g b) [
  | accept h ↦ advance h bs
  | reject h ↦ advance h bs
  | fault ↦ g
]

abbrev ends : Expect → Bool
ends Expect.end = true
ends Expect.value = false
ends Expect.array_value_or_end = false
ends Expect.object_key_or_end = false
ends Expect.object_key = false
ends Expect.object_colon = false
ends Expect.object_next = false
ends Expect.array_next = false

abbrev pub is_number : Scalar → Bool
is_number Scalar.number = true
is_number Scalar.no_scalar = false
is_number Scalar.string = false
is_number Scalar.string_esc = false
is_number Scalar.string_u = false
is_number Scalar.lit = false

unfoldable pub complete : Grammar → Bool
complete g =
    if ends g.expect
    then true
    else if is_empty g.stack && is_number g.scalar
    then terminable g.num
    else false

abbrev pub set_compact : Bool → Grammar → Grammar
set_compact compact g = record g { allow_ws = not compact }

abbrev pub in_string : Grammar → Bool
in_string g = is_string g.scalar
  where
    is_string : Scalar → Bool
    is_string Scalar.string = true
    is_string Scalar.no_scalar = false
    is_string Scalar.string_esc = false
    is_string Scalar.string_u = false
    is_string Scalar.number = false
    is_string Scalar.lit = false
