-- ===== src/Gguf/Container.antt =====
-- The GGUF container as its format describes it: the writer's side of src/core/gguf.cpp.
use libmlxforge.Common.{ℕ, suc, ◌^◌, ◌<◌, List, [], ◌∷◌, ◌++◌, Bytes, length, ◌≡◌}
use libmlxforge.Gguf.Directory.{GgufTensorInfo, gguf_magic}
use libmlxforge.Gguf.Reader.{size_of}
use libmlxforge.Pool.Blocks.{word_bytes}

mutual
  -- A number of a type with its bytes, a string, or an array of a type.
  pub data Value : Type 0 where
    scalar : ℕ → Bytes → Value
    text : Bytes → Value
    array : ℕ → Values → Value

  pub data Values : Type 0 where
    nil : Values
    cons : Value → Values → Values

abbrev pub count : Values → ℕ
count nil = 0
count (cons v vs) = suc (count vs)

abbrev pub type_of : Value → ℕ
type_of (scalar type bs) = type
type_of (text s) = 8
type_of (array et vs) = 9

abbrev pub write_string : Bytes → Bytes
write_string s = word_bytes 8 (length s) ++ s

unfoldable mutual
  pub write_value : Value → Bytes
  write_value (scalar type bs) = bs
  write_value (text s) = write_string s
  write_value (array et vs) = word_bytes 4 et ++ (word_bytes 8 (count vs) ++ write_values vs)

  pub write_values : Values → Bytes
  write_values nil = []
  write_values (cons v vs) = write_value v ++ write_values vs

-- Each is of its type, those of an array all of the type that it names, and no length is out of
-- range.
unfoldable mutual
  pub IsValue : Value → Type 0
  IsValue (scalar type bs) = (0 < length bs) × (size_of type ≡ length bs) × (length bs < 2 ^ 63)
  IsValue (text s) = length s < 2 ^ 63
  IsValue (array et vs) =
      (et < 256 ^ 4) × (count vs < 256 ^ 8) × (length (write_values vs) < 2 ^ 63) × AllOf et vs

  pub AllOf : ℕ → Values → Type 0
  AllOf et nil = Unit
  AllOf et (cons v vs) = (type_of v ≡ et) × IsValue v × AllOf et vs

abbrev pub write_entry : Bytes × Value → Bytes
write_entry (key, v) = write_string key ++ (word_bytes 4 (type_of v) ++ write_value v)

abbrev pub write_entries : List (Bytes × Value) → Bytes
write_entries [] = []
write_entries (e ∷ l) = write_entry e ++ write_entries l

abbrev pub write_dims : List ℕ → Bytes
write_dims [] = []
write_dims (d ∷ l) = word_bytes 8 d ++ write_dims l

abbrev pub write_tensor : GgufTensorInfo → Bytes
write_tensor t =
    write_string t.name
    ++ (word_bytes 4 (length t.dims)
        ++ (write_dims t.dims ++ (word_bytes 4 t.ggml_type ++ word_bytes 8 t.offset)))

abbrev pub write_tensors : List GgufTensorInfo → Bytes
write_tensors [] = []
write_tensors (t ∷ l) = write_tensor t ++ write_tensors l

unfoldable pub write_header : ℕ → List (Bytes × Value) → List GgufTensorInfo → Bytes
write_header version entries tensors =
    word_bytes 4 gguf_magic
    ++ (word_bytes 4 version
        ++ (word_bytes 8 (length tensors)
            ++ (word_bytes 8 (length entries) ++ (write_entries entries ++ write_tensors tensors))))

abbrev pub AllEntries : List (Bytes × Value) → Type 0
AllEntries [] = Unit
AllEntries ((key, v) ∷ l) =
    ((length key < 256 ^ 8) × (type_of v < 256 ^ 4) × IsValue v) × AllEntries l

abbrev pub AllWords : List ℕ → Type 0
AllWords [] = Unit
AllWords (d ∷ l) = (d < 256 ^ 8) × AllWords l

abbrev pub AllTensors : List GgufTensorInfo → Type 0
AllTensors [] = Unit
AllTensors (t ∷ l) =
    ((length t.name < 256 ^ 8)
      × (length t.dims < 256 ^ 4)
      × AllWords t.dims
      × (t.ggml_type < 256 ^ 4)
      × (t.offset < 256 ^ 8))
    × AllTensors l
