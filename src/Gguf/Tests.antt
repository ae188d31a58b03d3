-- ===== src/Gguf/Tests.antt =====
-- Tests of src/core/gguf.cpp: a small container with a string, a number and an array of arrays.
use libmlxforge.Common.{
  ℕ, ◌+◌, ◌*◌, ◌%◌, ◌^◌, ◌≤◌, ◌<◌, List, [], ◌∷◌, ◌++◌, Bytes, length, ◌≡◌, refl, arith,
}
use libmlxforge.Gguf.Container.{
  Value, scalar, text, array, nil, cons, write_header, write_value, IsValue, AllEntries, AllTensors,
}
use libmlxforge.Gguf.Directory.{GgufTensorInfo, parse_gguf_directory}
use libmlxforge.Gguf.Float.{half_to_float_lem}
use libmlxforge.Gguf.Half.{half_to_float}
use libmlxforge.Gguf.Ieee.{finite, float_value, half_value}
use libmlxforge.Gguf.Reader.{ok, throws, lost, skip_metadata_value}
use libmlxforge.Pool.Blocks.{word_bytes}
use libmlxforge.Gguf.RoundTrip.{parse_gguf_directory_lem}

abbrev bytes : Value
bytes = array 0 (cons (scalar 0 (1 ∷ [])) (cons (scalar 0 (2 ∷ [])) nil))

abbrev entries : List (Bytes × Value)
entries =
    (b'a' ∷ [], text (b'x' ∷ b'y' ∷ []))
    ∷ (b'b' ∷ [], scalar 4 (7 ∷ 0 ∷ 0 ∷ 0 ∷ []))
    ∷ (b'c' ∷ [], array 9 (cons bytes (cons bytes nil)))
    ∷ []

abbrev tensors : List GgufTensorInfo
tensors = record { name = b'w' ∷ []; ggml_type = 2; dims = 32 ∷ 4 ∷ []; offset = 0 } ∷ []

-- The header has 158 bytes.
parse_small :
    parse_gguf_directory (write_header 3 entries tensors ++ (9 ∷ 9 ∷ [])) 32
    ≡ ok (record { tensors = tensors; data_start = 160 })
unfolding parse_gguf_directory write_header word_bytes write_value
parse_small = refl

parse_bad_magic : parse_gguf_directory (1 ∷ 2 ∷ 3 ∷ 4 ∷ []) 32 ≡ throws
unfolding parse_gguf_directory
parse_bad_magic = refl

parse_cut_off : parse_gguf_directory (b'G' ∷ b'G' ∷ b'U' ∷ b'F' ∷ 3 ∷ 0 ∷ []) 32 ≡ lost
unfolding parse_gguf_directory
parse_cut_off = refl

skip_unknown : skip_metadata_value 1 13 (record { pos = 0; rest = [] }) ≡ throws
unfolding skip_metadata_value
skip_unknown = refl

bytes-IsValue : IsValue bytes
unfolding IsValue write_value
bytes-IsValue = (
  omega arith,
  omega arith,
  omega arith,
  (refl, (omega arith, refl, omega arith), (refl, (omega arith, refl, omega arith), tt)),
)

entries-AllEntries : AllEntries entries
unfolding IsValue write_value word_bytes
entries-AllEntries = (
  (omega arith, omega arith, omega arith),
  (
    (omega arith, omega arith, (omega arith, refl, omega arith)),
    (
      (
        omega arith,
        omega arith,
        (omega arith, omega arith, omega arith, (refl, bytes-IsValue, (refl, bytes-IsValue, tt))),
      ),
      tt,
    ),
  ),
)

tensors-AllTensors : AllTensors tensors
tensors-AllTensors =
    ((omega arith, omega arith, (omega arith, (omega arith, tt)), omega arith, omega arith), tt)

parse_gguf_directory_lem_example :
    (start : ℕ) × (parse_gguf_directory (write_header 3 entries tensors ++ (9 ∷ 9 ∷ [])) 32
      ≡ ok (record { tensors = tensors; data_start = start }))
    × (length (write_header 3 entries tensors) ≤ start)
    × (start < length (write_header 3 entries tensors) + 32)
    × (start % 32 ≡ 0)
unfolding write_header word_bytes write_value
parse_gguf_directory_lem_example =
    parse_gguf_directory_lem 3 entries tensors (9 ∷ 9 ∷ []) 32 (omega arith) (omega arith)
      (omega arith) entries-AllEntries tensors-AllTensors (omega arith) (omega arith)

-- 1, the least subnormal, and minus infinity.
half_one : half_to_float 0x3C00 ≡ 0x3F800000
unfolding half_to_float
half_one = refl

half_least : half_to_float 1 ≡ 0x33800000
unfolding half_to_float
half_least = refl

half_infinite : half_to_float 0xFC00 ≡ 0xFF800000
unfolding half_to_float
half_infinite = refl

half_to_float_lem_example : float_value (half_to_float 0x8003) ≡ finite 1 (3 * 2 ^ 125)
unfolding half_value
half_to_float_lem_example = half_to_float_lem 0x8003 (omega arith)
