-- ===== src/Store/Format.antt =====
-- src/cache/block_store.cpp, the file format: `serialize_block` and `deserialize_block`. An array is
-- what MLX keeps of it here: its dtype, its four dimensions and the bytes of its elements, in order.
-- `serialize_block` is `none` where the source throws, or reads past the layers of V. A number on
-- disk is its little-endian bytes; a dimension that reads as zero or as a negative `int32_t` is
-- refused; `elems` wraps at 64 bits.
use libmlxforge.Common.{
  ℕ, zero, suc, ◌+◌, ◌*◌, ◌%◌, ◌^◌, Bool, true, not, ◌&&◌, ◌||◌, List, [], ◌∷◌, ◌++◌, Option, none,
  some, Bytes, length, take, drop, ltb, leb, ◌==◌, if◌then◌else◌,
}
use libmlxforge.Pool.Blocks.{KvBlock, block_bytes, word_bytes, u64_mod}

pub data Dtype : Type 0 where
  float16 : Dtype
  uint32 : Dtype
  unexpected : Dtype

pub record Array : Type 0 where
  pub dtype : Dtype
  pub shape0 : ℕ
  pub shape1 : ℕ
  pub shape2 : ℕ
  pub shape3 : ℕ
  pub elements : Bytes

abbrev pub nbytes : Array → ℕ
nbytes c = length c.elements

abbrev pub magic_number : ℕ
magic_number = 3549494337624099917

abbrev pub version_number : ℕ
version_number = 1

unfoldable pub dtype_code : Dtype → Option ℕ
dtype_code float16 = some 0
dtype_code uint32 = some 1
dtype_code unexpected = none

-- The components in the file's order: per layer those of K, then those of V.
unfoldable pub components : List (List Array) → List (List Array) → Option (List Array)
components [] vs = some []
components (k ∷ ks) [] = none
components (k ∷ ks) (v ∷ vs) = elim (components ks vs) [
  | none ↦ none
  | some cs ↦ some (k ++ (v ++ cs))
]

unfoldable pub component_bytes : Array → ℕ → Bytes
unfolding word_bytes
component_bytes c code =
    word_bytes 4 code
    ++ word_bytes 4 c.shape0
    ++ word_bytes 4 c.shape1
    ++ word_bytes 4 c.shape2
    ++ word_bytes 4 c.shape3
    ++ word_bytes 8 (nbytes c)
    ++ c.elements

unfoldable pub append_components : List Array → Option Bytes
unfolding component_bytes dtype_code
append_components [] = some []
append_components (c ∷ cs) = elim (dtype_code c.dtype) [
  | none ↦ none
  | some code ↦ elim (append_components cs) [
    | none ↦ none
    | some rest ↦ some (component_bytes c code ++ rest)
  ]
]

abbrev pub first_size : List (List Array) → ℕ
first_size [] = 0
first_size (l ∷ ls) = length l

unfoldable pub header_bytes : KvBlock Array → ℕ → Bytes
unfolding word_bytes
header_bytes block salt =
    word_bytes 8 magic_number
    ++ word_bytes 4 version_number
    ++ word_bytes 8 salt
    ++ word_bytes 4 (length block.k)
    ++ word_bytes 4 (first_size block.k)
    ++ word_bytes 4 (first_size block.v)

unfoldable pub serialize_block : KvBlock Array → ℕ → Option Bytes
unfolding header_bytes append_components components
serialize_block block salt = elim (components block.k block.v) [
  | none ↦ none
  | some cs ↦ elim (append_components cs) [
    | none ↦ none
    | some body ↦ some (header_bytes block salt ++ body)
  ]
]

-- `Reader::read` of an `n`-byte number: the number and what is left.
unfoldable pub read : ℕ → Bytes → Option (ℕ × Bytes)
read zero bs = some (0, bs)
read (suc n) [] = none
read (suc n) (b ∷ bs) = elim (read n bs) [ none ↦ none | some (v, r) ↦ some (b + 256 * v, r) ]

-- The same, refused where the test fails.
unfoldable pub read_if : (ℕ → Bool) → ℕ → Bytes → Option (ℕ × Bytes)
unfolding read
read_if ok n bs = elim (read n bs) [
  | none ↦ none
  | some (v, r) ↦ if ok v then some (v, r) else none
]

abbrev pub positive_int32 : ℕ → Bool
positive_int32 x = ltb 0 x && ltb x (2 ^ 31)

abbrev pub item_size : ℕ → ℕ
item_size code = if code == 0 then 2 else 4

abbrev pub dtype_of : ℕ → Dtype
dtype_of code = if code == 0 then float16 else uint32

abbrev pub any : ℕ → Bool
any x = true

-- The dimensions, and what is left.
unfoldable pub read_shape : Bytes → Option (ℕ × ℕ × ℕ × ℕ × Bytes)
unfolding read_if
read_shape bs = elim (read_if positive_int32 4 bs) [
  | none ↦ none
  | some (s0, r0) ↦ elim (read_if positive_int32 4 r0) [
    | none ↦ none
    | some (s1, r1) ↦ elim (read_if positive_int32 4 r1) [
      | none ↦ none
      | some (s2, r2) ↦ elim (read_if positive_int32 4 r2) [
        | none ↦ none
        | some (s3, r3) ↦ some (s0, s1, s2, s3, r3)
      ]
    ]
  ]
]

unfoldable pub read_comp : Bytes → Option (Array × Bytes)
unfolding read_if read_shape
read_comp bs = elim (read_if (λ code. leb code 1) 4 bs) [
  | none ↦ none
  | some (code, r) ↦ elim (read_shape r) [
    | none ↦ none
    | some (s0, s1, s2, s3, r) ↦ elim (read_if any 8 r) [
      | none ↦ none
      | some (n, r) ↦
          if ltb (length r) n
          then none
          else if not (n == s0 * s1 * s2 * s3 % u64_mod * item_size code % u64_mod)
          then none
          else some (
            record {
              dtype = dtype_of code;
              shape0 = s0;
              shape1 = s1;
              shape2 = s2;
              shape3 = s3;
              elements = take n r;
            },
            drop n r,
          )
    ]
  ]
]

unfoldable pub read_comps : ℕ → Bytes → Option (List Array × Bytes)
unfolding read_comp
read_comps zero bs = some ([], bs)
read_comps (suc n) bs = elim (read_comp bs) [
  | none ↦ none
  | some (c, r) ↦ elim (read_comps n r) [ none ↦ none | some (cs, t) ↦ some (c ∷ cs, t) ]
]

unfoldable pub read_layers : ℕ → ℕ → ℕ → Bytes → Option (List (List Array) × List (List Array))
unfolding read_comps
read_layers zero k_comps v_comps bs = some ([], [])
read_layers (suc n) k_comps v_comps bs = elim (read_comps k_comps bs) [
  | none ↦ none
  | some (k, r) ↦ elim (read_comps v_comps r) [
    | none ↦ none
    | some (v, t) ↦ elim (read_layers n k_comps v_comps t) [
      | none ↦ none
      | some (ks, vs) ↦ some (k ∷ ks, v ∷ vs)
    ]
  ]
]

-- The block of these layers, with its size.
unfoldable pub sized : List (List Array) → List (List Array) → KvBlock Array
unfolding block_bytes
sized ks vs =
    let block : KvBlock Array = record { k = ks; v = vs; bytes = 0 } in
    record block { bytes = block_bytes nbytes block }

-- The numbers of layers and components, and what is left.
unfoldable pub read_header : ℕ → Bytes → Option (ℕ × ℕ × ℕ × Bytes)
unfolding read_if
read_header salt bytes = elim (read_if (λ m. m == magic_number) 8 bytes) [
  | none ↦ none
  | some (m, r) ↦ elim (read_if (λ v. v == version_number) 4 r) [
    | none ↦ none
    | some (v, r) ↦ elim (read_if (λ s. s == salt) 8 r) [
      | none ↦ none
      | some (s, r) ↦ elim (read_if any 4 r) [
        | none ↦ none
        | some (n_layers, r) ↦ elim (read_if any 4 r) [
          | none ↦ none
          | some (k_comps, r) ↦ elim (read_if any 4 r) [
            | none ↦ none
            | some (v_comps, r) ↦
                if n_layers == 0 || ltb 4096 n_layers || ltb 3 k_comps || ltb 3 v_comps
                then none
                else some (n_layers, k_comps, v_comps, r)
          ]
        ]
      ]
    ]
  ]
]

unfoldable pub deserialize_block : Bytes → ℕ → Option (KvBlock Array)
unfolding read_header read_layers sized
deserialize_block bytes salt = elim (read_header salt bytes) [
  | none ↦ none
  | some (n_layers, k_comps, v_comps, r) ↦ elim (read_layers n_layers k_comps v_comps r) [
    | none ↦ none
    | some (ks, vs) ↦ some (sized ks vs)
  ]
]
