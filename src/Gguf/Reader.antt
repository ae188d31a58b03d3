-- ===== src/Gguf/Reader.antt =====
-- src/core/gguf.cpp: `read_scalar`, `read_gguf_string`, `skip_array_elements` and
-- `skip_metadata_value`. A stream is the position and the bytes from there on. The code never tests
-- the stream: what it goes on with after a read past the end is indeterminate, and so is where it is
-- after a jump of 2^63 bytes or more. The outcome is `lost` then. Memory is taken to suffice.
use libmlxforge.Common.{
  ℕ, zero, suc, ◌+◌, ◌*◌, ◌^◌, ◌&&◌, ◌||◌, List, [], ◌∷◌, none, some, Bytes, length, take, drop,
  get_elem?, ltb, leb, ◌==◌, if◌then◌else◌,
}
use libmlxforge.Store.Format.{read}

pub data Reading (A : Type 0) : Type 0 where
  ok : A → Reading A
  throws : Reading A
  lost : Reading A

abbrev pub bind : {A B : Type 0} → Reading A → (A → Reading B) → Reading B
bind (ok x) f = f x
bind throws f = throws
bind lost f = lost

pub record Stream : Type 0 where
  pub pos : ℕ
  pub rest : Bytes

unfoldable pub read_scalar : ℕ → Stream → Reading (ℕ × Stream)
unfolding read
read_scalar n f = elim (read n f.rest) [
  | none ↦ lost
  | some (v, rest) ↦ ok (v, record { pos = f.pos + n; rest = rest })
]

unfoldable pub read_bytes : ℕ → Stream → Reading (Bytes × Stream)
read_bytes n f =
    if ltb (length f.rest) n
    then lost
    else ok (take n f.rest, record { pos = f.pos + n; rest = drop n f.rest })

unfoldable pub read_gguf_string : Stream → Reading (Bytes × Stream)
unfolding read_scalar read_bytes
read_gguf_string f = bind (read_scalar 8 f) (λ p. read_bytes p.0 p.1)

-- `seekg` from the current position. A jump behind the end is no error until something is read.
unfoldable pub seek : ℕ → Stream → Reading Stream
seek n f = if leb (2 ^ 63) n then lost else ok (record { pos = f.pos + n; rest = drop n f.rest })

-- The sizes of the value types, 0 for -1.
abbrev pub sizes : List ℕ
sizes = 1 ∷ 1 ∷ 2 ∷ 2 ∷ 4 ∷ 4 ∷ 4 ∷ 1 ∷ 0 ∷ 0 ∷ 8 ∷ 8 ∷ 8 ∷ []

abbrev pub size_of : ℕ → ℕ
size_of et = elim (get_elem? sizes et) [ none ↦ 0 | some n ↦ n ]

abbrev pub times : ℕ → (Stream → Reading Stream) → Stream → Reading Stream
times zero step f = ok f
times (suc n) step f = bind (step f) (times n step)

unfoldable pub skip_array_elements : (ℕ → Stream → Reading Stream) → ℕ → ℕ → Stream → Reading Stream
unfolding seek
skip_array_elements skip et cnt f =
    if leb et 12 && ltb 0 (size_of et) then seek (cnt * size_of et) f else times cnt (skip et) f

-- Arrays in arrays: the first number bounds how deep, and the outcome is `lost` beyond.
unfoldable pub skip_metadata_value : ℕ → ℕ → Stream → Reading Stream
unfolding skip_array_elements read_scalar seek
skip_metadata_value zero type f = lost
skip_metadata_value (suc depth) type f =
    if type == 0 || type == 1 || type == 7
    then seek 1 f
    else if type == 2 || type == 3
    then seek 2 f
    else if type == 4 || type == 5 || type == 6
    then seek 4 f
    else if type == 10 || type == 11 || type == 12
    then seek 8 f
    else if type == 8
    then bind (read_scalar 8 f) (λ p. seek p.0 p.1)
    else if type == 9
    then bind (read_scalar 4 f) (λ e.
      bind (read_scalar 8 e.1) (λ c. skip_array_elements (skip_metadata_value depth) e.0 c.0 c.1))
    else throws
