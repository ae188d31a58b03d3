-- ===== src/Gguf/Directory.antt =====
-- src/core/gguf.cpp: `GgufTensorInfo`, `GgufDirectory` and `parse_gguf_directory`. The file is its
-- bytes; that it cannot be opened is left out. A uint64 wraps.
use libmlxforge.Common.{
  ℕ, zero, suc, ◌+◌, ◌-◌, ◌*◌, ◌/◌, ◌%◌, ◌^◌, List, [], ◌∷◌, Bytes, length, ◌==◌, if◌then◌else◌,
}
use libmlxforge.Gguf.Reader.{
  Reading, ok, throws, bind, Stream, read_scalar, read_gguf_string, skip_metadata_value, times,
}

pub record GgufTensorInfo : Type 0 where
  pub name : Bytes
  pub ggml_type : ℕ
  pub dims : List ℕ
  pub offset : ℕ

pub record GgufDirectory : Type 0 where
  pub tensors : List GgufTensorInfo
  pub data_start : ℕ

abbrev pub gguf_magic : ℕ
gguf_magic = 0x46554747

-- A round of the loop over the metadata.
unfoldable pub skip_entry : ℕ → Stream → Reading Stream
unfolding read_gguf_string read_scalar skip_metadata_value
skip_entry depth f =
    bind (read_gguf_string f)
      (λ k. bind (read_scalar 4 k.1) (λ t. skip_metadata_value depth t.0 t.1))

unfoldable pub read_dims : ℕ → Stream → Reading (List ℕ × Stream)
unfolding read_scalar
read_dims zero f = ok ([], f)
read_dims (suc n) f =
    bind (read_scalar 8 f) (λ d. bind (read_dims n d.1) (λ r. ok (d.0 ∷ r.0, r.1)))

unfoldable pub read_tensor : Stream → Reading (GgufTensorInfo × Stream)
unfolding read_gguf_string read_scalar read_dims
read_tensor f = bind (read_gguf_string f) (λ s. bind (read_scalar 4 s.1) (λ nd.
    bind (read_dims nd.0 nd.1) (λ d. bind (read_scalar 4 d.1) (λ t.
      bind (read_scalar 8 t.1)
        (λ o. ok (record { name = s.0; ggml_type = t.0; dims = d.0; offset = o.0 }, o.1))))))

unfoldable pub read_tensors : ℕ → Stream → Reading (List GgufTensorInfo × Stream)
unfolding read_tensor
read_tensors zero f = ok ([], f)
read_tensors (suc n) f =
    bind (read_tensor f) (λ t. bind (read_tensors n t.1) (λ r. ok (t.0 ∷ r.0, r.1)))

unfoldable pub aligned : ℕ → ℕ → ℕ
aligned pos alignment =
    ((pos + alignment) % 2 ^ 64 + 2 ^ 64 - 1) % 2 ^ 64 / alignment * alignment % 2 ^ 64

-- A value in an array takes twelve bytes more than the array in it, so that no array is deeper than
-- the file is long.
unfoldable pub parse_gguf_directory : Bytes → ℕ → Reading GgufDirectory
unfolding read_scalar skip_entry read_tensors aligned
parse_gguf_directory file alignment =
    bind (read_scalar 4 (record { pos = 0; rest = file })) (λ magic.
      if magic.0 == gguf_magic
      then bind (read_scalar 4 magic.1) (λ version. bind (read_scalar 8 version.1) (λ n_tensors.
        bind (read_scalar 8 n_tensors.1) (λ n_kv.
          bind (times n_kv.0 (skip_entry (suc (length file))) n_kv.1) (λ f.
            bind (read_tensors n_tensors.0 f)
              (λ r. ok (record { tensors = r.0; data_start = aligned r.1.pos alignment }))))))
      else throws)
