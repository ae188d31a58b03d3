-- ===== src/Gguf/RoundTrip.antt =====
-- src/core/gguf.cpp, `parse_gguf_directory` on a container as its format describes it.
use native.Mathlib.Nat.{div-add-mod', mod-lt, mod-eq_of_lt, mul-mod_left}
use libmlxforge.Common.{
  ℕ, suc, ◌+◌, ◌-◌, ◌*◌, ◌/◌, ◌%◌, ◌^◌, ◌<◌, ◌≤◌, List, ◌++◌, Bytes, length, ◌≡◌, refl, ◌∙◌, ap,
  arith, append_assoc, length-append,
}
use libmlxforge.Gguf.Container.{
  Value, write_entries, write_tensors, write_header, AllEntries, AllTensors,
}
use libmlxforge.Gguf.Directory.{
  GgufTensorInfo, gguf_magic, skip_entry, read_tensors, aligned, parse_gguf_directory,
}
use libmlxforge.Gguf.Reader.{ok, Stream, read_scalar, times}
use libmlxforge.Gguf.Parts.{assoc3, length3, skip_entries_lem, read_tensors_lem}
use libmlxforge.Gguf.Words.{length-word_bytes, read_scalar_lem}
use libmlxforge.Pool.Blocks.{word_bytes}

aligned_eq :
    (pos alignment : ℕ)
    → 0 < alignment
    → pos + alignment < 2 ^ 64
    → aligned pos alignment ≡ (pos + alignment - 1) / alignment * alignment
unfolding aligned
aligned_eq pos alignment l m =
    let x = pos + alignment - 1 in
    let e : ((pos + alignment) % 2 ^ 64 + 2 ^ 64 - 1) % 2 ^ 64 ≡ x = omega (arith, l, m) in
    let d = div-add-mod' x alignment in
    ap (λ z. z / alignment * alignment % 2 ^ 64) e
    ∙ mod-eq_of_lt {n = x / alignment * alignment} (omega (arith, d, l, m))

aligned_lem :
    (pos alignment : ℕ)
    → 0 < alignment
    → pos + alignment < 2 ^ 64
    → (pos ≤ aligned pos alignment)
      × (aligned pos alignment < pos + alignment)
      × (aligned pos alignment % alignment ≡ 0)
aligned_lem pos alignment l m =
    let x = pos + alignment - 1 in
    let e = aligned_eq pos alignment l m in
    let d = div-add-mod' x alignment in
    let k = mod-lt x {m = alignment} l in
    (
      omega (arith, e, d, k, l),
      omega (arith, e, d, k, l),
      ap (λ z. z % alignment) e ∙ mul-mod_left (x / alignment) alignment,
    )

steps :
    (file : Bytes) (alignment version n_tensors n_kv : ℕ) (tensors : List GgufTensorInfo)
    (a b c d e g : Stream)
    → read_scalar 4 (record { pos = 0; rest = file }) ≡ ok (gguf_magic, a)
    → read_scalar 4 a ≡ ok (version, b)
    → read_scalar 8 b ≡ ok (n_tensors, c)
    → read_scalar 8 c ≡ ok (n_kv, d)
    → times n_kv (skip_entry (suc (length file))) d ≡ ok e
    → read_tensors n_tensors e ≡ ok (tensors, g)
    → parse_gguf_directory file alignment
      ≡ ok (record { tensors = tensors; data_start = aligned g.pos alignment })
unfolding parse_gguf_directory
steps file alignment version n_tensors n_kv tensors a b c d e g p q r s t u =
    rw (parse_gguf_directory, p, q, r, s, t, u) refl

module _ (version : ℕ) (entries : List (Bytes × Value)) (tensors : List GgufTensorInfo) where
  length-write_header :
      length (write_header version entries tensors)
      ≡ 24 + length (write_entries entries) + length (write_tensors tensors)
  unfolding write_header
  length-write_header =
      let m = word_bytes 4 gguf_magic in
      let v = word_bytes 4 version in
      let t = word_bytes 8 (length tensors) in
      let k = word_bytes 8 (length entries) in
      let w = write_entries entries in
      omega (
        arith,
        length3 m v (t ++ (k ++ (w ++ write_tensors tensors))),
        length3 t k (w ++ write_tensors tensors),
        length-append w (write_tensors tensors),
        length-word_bytes 4 gguf_magic,
        length-word_bytes 4 version,
        length-word_bytes 8 (length tensors),
        length-word_bytes 8 (length entries),
      )

  -- The parse, up to where the data start.
  parse_lem :
      (contents : Bytes) (alignment : ℕ)
      → version < 256 ^ 4
      → length entries < 256 ^ 8
      → length tensors < 256 ^ 8
      → AllEntries entries
      → AllTensors tensors
      → parse_gguf_directory (write_header version entries tensors ++ contents) alignment
        ≡ ok (record {
          tensors = tensors;
          data_start = aligned (length (write_header version entries tensors)) alignment;
        })
  unfolding write_header
  parse_lem contents alignment lv le lt he ht =
      let m = word_bytes 4 gguf_magic in
      let v = word_bytes 4 version in
      let t = word_bytes 8 (length tensors) in
      let k = word_bytes 8 (length entries) in
      let es = write_entries entries in
      let ts = write_tensors tensors in
      let head = write_header version entries tensors in
      let apart : head ++ contents ≡ m ++ (v ++ (t ++ (k ++ (es ++ (ts ++ contents))))) =
        assoc3 m v (t ++ (k ++ (es ++ ts))) contents
        ∙ ap (λ z. m ++ (v ++ z))
            (assoc3 t k (es ++ ts) contents
              ∙ ap (λ z. t ++ (k ++ z)) (append_assoc es ts contents)) in
      let n = length-write_header in
      let p = 24 + length es in
      let f : Stream = record { pos = 0; rest = head ++ contents } in
      let a : Stream = record { pos = 4; rest = v ++ (t ++ (k ++ (es ++ (ts ++ contents)))) } in
      let b : Stream = record { pos = 8; rest = t ++ (k ++ (es ++ (ts ++ contents))) } in
      let c : Stream = record { pos = 16; rest = k ++ (es ++ (ts ++ contents)) } in
      let d : Stream = record { pos = 24; rest = es ++ (ts ++ contents) } in
      let e : Stream = record { pos = p; rest = ts ++ contents } in
      steps (head ++ contents) alignment version (length tensors) (length entries) tensors a b c d e
        (record { pos = length head; rest = contents })
        (read_scalar_lem 4 gguf_magic 4 f a.rest (omega arith) apart refl)
        (read_scalar_lem 4 version 8 a b.rest lv refl refl)
        (read_scalar_lem 8 (length tensors) 16 b c.rest lt refl refl)
        (read_scalar_lem 8 (length entries) 24 c d.rest le refl refl)
        (skip_entries_lem entries (suc (length (head ++ contents))) p d e.rest he
          (omega (arith, length-append head contents, n)) refl refl)
        (read_tensors_lem tensors (length head) e contents ht refl (omega (arith, n)))

  -- A file of a header as the format describes it, with values of any depth, and of any data: the
  -- parse goes past every value and gives the tensors' descriptors, and the data start at the first
  -- multiple of the alignment behind the header. The alignment is not 0, the counts and lengths
  -- are in the range of their words, and a uint64 holds the end.
  pub parse_gguf_directory_lem :
      (contents : Bytes) (alignment : ℕ)
      → version < 256 ^ 4
      → length entries < 256 ^ 8
      → length tensors < 256 ^ 8
      → AllEntries entries
      → AllTensors tensors
      → 0 < alignment
      → length (write_header version entries tensors) + alignment < 2 ^ 64
      → (start : ℕ) × (parse_gguf_directory
            (write_header version entries tensors ++ contents)
            alignment
          ≡ ok (record { tensors = tensors; data_start = start }))
        × (length (write_header version entries tensors) ≤ start)
        × (start < length (write_header version entries tensors) + alignment)
        × (start % alignment ≡ 0)
  parse_gguf_directory_lem contents alignment lv le lt he ht l m =
      let n = length (write_header version entries tensors) in
      let (x, y, z) = aligned_lem n alignment l m in
      (aligned n alignment, parse_lem contents alignment lv le lt he ht, x, y, z)
