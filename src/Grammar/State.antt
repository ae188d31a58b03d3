-- ===== src/Grammar/State.antt =====
-- src/sample/json_grammar.h: the state of the byte automaton behind constrained decoding, and the
-- byte tests of json_grammar.cpp. The vector `stack_` is a list whose head is the vector's back.
use libmlxforge.Common.{ℕ, Bool, true, false, ◌&&◌, ◌||◌, List, [], Bytes, leb, ◌==◌}

pub data Expect : Type 0 where
  value array_value_or_end object_key_or_end object_key object_colon : Expect
  object_next array_next end : Expect

pub data Scalar : Type 0 where
  no_scalar string string_esc string_u number lit : Scalar

pub data Num : Type 0 where
  sign int_zero int_digits frac_dot frac_digits exp_start exp_after_sign exp_digits : Num

-- The enum `Type` of the class.
pub data Kind : Type 0 where
  free string number integer boolean : Kind

-- The open containers: '{' and '['.
pub data Open : Type 0 where
  brace bracket : Open

pub record ObjectSchema : Type 0 where
  pub keys : List Bytes
  pub types : List Kind

pub record Grammar : Type 0 where
  pub expect : Expect
  pub scalar : Scalar
  pub num : Num
  pub num_int_only : Bool
  pub lit_ : Bytes
  pub lit_pos : ℕ
  pub u_left : ℕ
  pub stack : List Open
  pub allow_ws : Bool
  pub schema : Bool
  pub root_schema : ObjectSchema
  pub schema_key_idx : ℕ
  pub pending_type : Kind
  pub cur_key : Bytes
  pub reading_key : Bool

-- What `feed` returns, with the state it leaves: it mutates the state also where it returns false.
-- A read of the schema's keys out of range, which C++ leaves undefined, is `fault`.
pub data Outcome : Type 0 where
  accept reject : Grammar → Outcome
  fault : Outcome

unfoldable pub is_ws : ℕ → Bool
is_ws b = b == b' ' || b == b'\t' || b == b'\n' || b == b'\r'

unfoldable pub is_digit : ℕ → Bool
is_digit b = leb b'0' b && leb b b'9'

unfoldable pub is_hex : ℕ → Bool
unfolding is_digit
is_hex b = is_digit b || leb b'a' b && leb b b'f' || leb b'A' b && leb b b'F'

abbrev pub any_value : Grammar
any_value = record {
  expect = value;
  scalar = no_scalar;
  num = sign;
  num_int_only = false;
  lit_ = [];
  lit_pos = 0;
  u_left = 0;
  stack = [];
  allow_ws = true;
  schema = false;
  root_schema = record { keys = []; types = [] };
  schema_key_idx = 0;
  pending_type = free;
  cur_key = [];
  reading_key = false;
}
