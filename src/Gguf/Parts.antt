-- ===== src/Gguf/Parts.antt =====
-- src/core/gguf.cpp: a metadata entry and a tensor descriptor, on what the writer wrote.
use libmlxforge.Common.{
  ℕ, suc, ◌+◌, ◌^◌, ◌<◌, List, [], ◌∷◌, ◌++◌, Bytes, length, ◌≡◌, refl, ◌∙◌, ap, arith,
  append_assoc, length-append,
}
use libmlxforge.Gguf.Container.{
  Value, type_of, write_string, write_value, write_entry, write_entries, write_dims, write_tensor,
  write_tensors, IsValue, AllEntries, AllWords, AllTensors,
}
use libmlxforge.Gguf.Directory.{GgufTensorInfo, skip_entry, read_dims, read_tensor, read_tensors}
use libmlxforge.Gguf.Reader.{ok, Stream, read_scalar, read_gguf_string, times, skip_metadata_value}
use libmlxforge.Gguf.Skip.{skip_metadata_value_lem, times_step}
use libmlxforge.Gguf.Words.{length-word_bytes, read_scalar_lem, read_gguf_string_lem}
use libmlxforge.Pool.Blocks.{word_bytes}

dims_step :
    (n d : ℕ) (l : List ℕ) (f g h : Stream)
    → read_scalar 8 f ≡ ok (d, g)
    → read_dims n g ≡ ok (l, h)
    → read_dims (suc n) f ≡ ok (d ∷ l, h)
unfolding read_dims
dims_step n d l f g h a b = rw (read_dims, a, b) refl

read_dims_lem :
    (dims : List ℕ) (q : ℕ) (f : Stream) (r : Bytes)
    → AllWords dims
    → f.rest ≡ write_dims dims ++ r
    → q ≡ f.pos + length (write_dims dims)
    → read_dims (length dims) f ≡ ok (dims, record { pos = q; rest = r })
unfolding read_dims
read_dims_lem [] q f r h e a =
    ap (λ p. ok ([], record { pos = p; rest = f.rest })) {x = f.pos} {y = q} (omega (arith, a))
    ∙ ap (λ s. ok ([], record { pos = q; rest = s })) e
read_dims_lem (d ∷ dims) q f r h e a =
    let w = word_bytes 8 d in
    let g : Stream = record { pos = f.pos + 8; rest = write_dims dims ++ r } in
    dims_step (length dims) d dims f g (record { pos = q; rest = r })
      (read_scalar_lem 8 d (f.pos + 8) f (write_dims dims ++ r) h.0
        (e ∙ append_assoc w (write_dims dims) r) refl)
      (read_dims_lem dims q g r h.1 refl
        (omega (arith, a, length-append w (write_dims dims), length-word_bytes 8 d)))

tensor_step :
    (t : GgufTensorInfo) (f a b c d e : Stream)
    → read_gguf_string f ≡ ok (t.name, a)
    → read_scalar 4 a ≡ ok (length t.dims, b)
    → read_dims (length t.dims) b ≡ ok (t.dims, c)
    → read_scalar 4 c ≡ ok (t.ggml_type, d)
    → read_scalar 8 d ≡ ok (t.offset, e)
    → read_tensor f ≡ ok (t, e)
unfolding read_tensor
tensor_step t f a b c d e p q r s u = rw (read_tensor, p, q, r, s, u) refl

entry_step :
    (depth type : ℕ) (key : Bytes) (f a b c : Stream)
    → read_gguf_string f ≡ ok (key, a)
    → read_scalar 4 a ≡ ok (type, b)
    → skip_metadata_value depth type b ≡ ok c
    → skip_entry depth f ≡ ok c
unfolding skip_entry
entry_step depth type key f a b c p q r = rw (skip_entry, p, q) r

pub assoc3 : (a b c r : Bytes) → (a ++ (b ++ c)) ++ r ≡ a ++ (b ++ (c ++ r))
assoc3 a b c r = append_assoc a (b ++ c) r ∙ ap (λ z. a ++ z) (append_assoc b c r)

pub length3 : (a b c : Bytes) → length (a ++ (b ++ c)) ≡ length a + (length b + length c)
length3 a b c = omega (arith, length-append a (b ++ c), length-append b c)

skip_entry_lem :
    (key : Bytes) (v : Value) (depth q : ℕ) (f : Stream) (r : Bytes)
    → (length key < 256 ^ 8) × (type_of v < 256 ^ 4) × IsValue v
    → length (write_entry (key, v)) < depth
    → f.rest ≡ write_entry (key, v) ++ r
    → q ≡ f.pos + length (write_entry (key, v))
    → skip_entry depth f ≡ ok (record { pos = q; rest = r })
skip_entry_lem key v depth q f r h l e a =
    let w = write_string key in
    let t = word_bytes 4 (type_of v) in
    let n = length3 w t (write_value v) in
    let m = length-word_bytes 4 (type_of v) in
    let p = f.pos + length w in
    let g : Stream = record { pos = p; rest = t ++ (write_value v ++ r) } in
    let k : Stream = record { pos = p + 4; rest = write_value v ++ r } in
    entry_step depth (type_of v) key f g k (record { pos = q; rest = r })
      (read_gguf_string_lem p f key (t ++ (write_value v ++ r)) h.0
        (e ∙ assoc3 w t (write_value v) r) refl)
      (read_scalar_lem 4 (type_of v) (p + 4) g (write_value v ++ r) h.1 refl refl)
      (skip_metadata_value_lem v depth q k r h.2 (omega (arith, l, n)) refl
        (omega (arith, a, n, m)))

pub skip_entries_lem :
    (entries : List (Bytes × Value)) (depth q : ℕ) (f : Stream) (r : Bytes)
    → AllEntries entries
    → length (write_entries entries) < depth
    → f.rest ≡ write_entries entries ++ r
    → q ≡ f.pos + length (write_entries entries)
    → times (length entries) (skip_entry depth) f ≡ ok (record { pos = q; rest = r })
skip_entries_lem [] depth q f r h l e a =
    ap (λ p. ok (record { pos = p; rest = f.rest })) {x = f.pos} {y = q} (omega (arith, a))
    ∙ ap (λ s. ok (record { pos = q; rest = s })) e
skip_entries_lem ((key, v) ∷ entries) depth q f r h l e a =
    let w = write_entry (key, v) in
    let n = length-append w (write_entries entries) in
    let g : Stream = record { pos = f.pos + length w; rest = write_entries entries ++ r } in
    times_step (length entries) (skip_entry depth) f g (record { pos = q; rest = r })
      (skip_entry_lem key v depth (f.pos + length w) f (write_entries entries ++ r) h.0
        (omega (arith, l, n)) (e ∙ append_assoc w (write_entries entries) r) refl)
      (skip_entries_lem entries depth q g r h.1 (omega (arith, l, n)) refl (omega (arith, a, n)))

read_tensor_lem :
    (t : GgufTensorInfo) (q : ℕ) (f : Stream) (r : Bytes)
    → (length t.name < 256 ^ 8)
      × (length t.dims < 256 ^ 4)
      × AllWords t.dims
      × (t.ggml_type < 256 ^ 4)
      × (t.offset < 256 ^ 8)
    → f.rest ≡ write_tensor t ++ r
    → q ≡ f.pos + length (write_tensor t)
    → read_tensor f ≡ ok (t, record { pos = q; rest = r })
read_tensor_lem t q f r h e a =
    let s = write_string t.name in
    let n = word_bytes 4 (length t.dims) in
    let d = write_dims t.dims in
    let y = word_bytes 4 t.ggml_type in
    let o = word_bytes 8 t.offset in
    let p = f.pos + length s in
    let fa : Stream = record { pos = p; rest = n ++ (d ++ (y ++ (o ++ r))) } in
    let fb : Stream = record { pos = p + 4; rest = d ++ (y ++ (o ++ r)) } in
    let fc : Stream = record { pos = p + 4 + length d; rest = y ++ (o ++ r) } in
    let fd : Stream = record { pos = p + 4 + length d + 4; rest = o ++ r } in
    let apart : write_tensor t ++ r ≡ s ++ (n ++ (d ++ (y ++ (o ++ r)))) =
      assoc3 s n (d ++ (y ++ o)) r ∙ ap (λ z. s ++ (n ++ z)) (assoc3 d y o r) in
    tensor_step t f fa fb fc fd (record { pos = q; rest = r })
      (read_gguf_string_lem p f t.name fa.rest h.0 (e ∙ apart) refl)
      (read_scalar_lem 4 (length t.dims) fb.pos fa fb.rest h.1 refl refl)
      (read_dims_lem t.dims fc.pos fb fc.rest h.2 refl refl)
      (read_scalar_lem 4 t.ggml_type fd.pos fc fd.rest h.3 refl refl)
      (read_scalar_lem 8 t.offset q fd r h.4 refl (
        omega (
          arith,
          a,
          length3 s n (d ++ (y ++ o)),
          length3 d y o,
          length-word_bytes 4 (length t.dims),
          length-word_bytes 4 t.ggml_type,
          length-word_bytes 8 t.offset,
        )))

tensors_step :
    (n : ℕ) (t : GgufTensorInfo) (l : List GgufTensorInfo) (f g h : Stream)
    → read_tensor f ≡ ok (t, g)
    → read_tensors n g ≡ ok (l, h)
    → read_tensors (suc n) f ≡ ok (t ∷ l, h)
unfolding read_tensors
tensors_step n t l f g h a b = rw (read_tensors, a, b) refl

pub read_tensors_lem :
    (tensors : List GgufTensorInfo) (q : ℕ) (f : Stream) (r : Bytes)
    → AllTensors tensors
    → f.rest ≡ write_tensors tensors ++ r
    → q ≡ f.pos + length (write_tensors tensors)
    → read_tensors (length tensors) f ≡ ok (tensors, record { pos = q; rest = r })
unfolding read_tensors
read_tensors_lem [] q f r h e a =
    ap (λ p. ok ([], record { pos = p; rest = f.rest })) {x = f.pos} {y = q} (omega (arith, a))
    ∙ ap (λ s. ok ([], record { pos = q; rest = s })) e
read_tensors_lem (t ∷ tensors) q f r h e a =
    let w = write_tensor t in
    let n = length-append w (write_tensors tensors) in
    let g : Stream = record { pos = f.pos + length w; rest = write_tensors tensors ++ r } in
    tensors_step (length tensors) t tensors f g (record { pos = q; rest = r })
      (read_tensor_lem t (f.pos + length w) f (write_tensors tensors ++ r) h.0
        (e ∙ append_assoc w (write_tensors tensors) r) refl)
      (read_tensors_lem tensors q g r h.1 refl (omega (arith, a, n)))
