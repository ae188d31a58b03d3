-- ===== src/Gguf/Words.antt =====
-- src/core/gguf.cpp: the readers of words, strings and jumps on what the container's writer wrote.
use libmlxforge.Common.{
  ℕ, zero, suc, ◌+◌, ◌/◌, ◌^◌, ◌<◌, false, ◌++◌, Bytes, length, ltb, leb, ◌≡◌, refl, sym, ◌∙◌, ap,
  arith, append_assoc, length-append, take-append, drop-append,
}
use libmlxforge.Gguf.Container.{write_string}
use libmlxforge.Gguf.Reader.{ok, Stream, read_scalar, read_bytes, read_gguf_string, seek}
use libmlxforge.Pool.Blocks.{word_bytes}
use libmlxforge.Store.Words.{read-word_bytes}

pub length-word_bytes : (n x : ℕ) → length (word_bytes n x) ≡ n
unfolding word_bytes
length-word_bytes zero x = refl
length-word_bytes (suc n) x = ap suc (length-word_bytes n (x / 256))

-- Behind a word the stream is at `q`, with `r` left.
pub read_scalar_lem :
    (n x q : ℕ) (f : Stream) (r : Bytes)
    → x < 256 ^ n
    → f.rest ≡ word_bytes n x ++ r
    → q ≡ f.pos + n
    → read_scalar n f ≡ ok (x, record { pos = q; rest = r })
unfolding read_scalar
read_scalar_lem n x q f r l e a =
    rw (read_scalar, e, read-word_bytes n x r l)
      (ap (λ p. ok (x, record { pos = p; rest = r })) (sym a))

read_bytes_lem :
    (n q : ℕ) (f : Stream) (s r : Bytes)
    → length s ≡ n
    → f.rest ≡ s ++ r
    → q ≡ f.pos + n
    → read_bytes n f ≡ ok (s, record { pos = q; rest = r })
unfolding read_bytes
read_bytes_lem n q f s r l e a =
    let b : ltb (length (s ++ r)) n ≡ false = ground (arith, length-append s r, l) in
    rw (read_bytes, e, b, take-append n s r l, drop-append n s r l)
      (ap (λ p. ok (s, record { pos = p; rest = r })) (sym a))

pub read_gguf_string_lem :
    (q : ℕ) (f : Stream) (s r : Bytes)
    → length s < 256 ^ 8
    → f.rest ≡ write_string s ++ r
    → q ≡ f.pos + length (write_string s)
    → read_gguf_string f ≡ ok (s, record { pos = q; rest = r })
unfolding read_gguf_string
read_gguf_string_lem q f s r l e a =
    rw
      (
        read_gguf_string,
        read_scalar_lem 8 (length s) (f.pos + 8) f (s ++ r) l
            (e ∙ append_assoc (word_bytes 8 (length s)) s r) refl,
      )
      (read_bytes_lem (length s) q (record { pos = f.pos + 8; rest = s ++ r }) s r refl refl
        (omega
          (arith, a, length-append (word_bytes 8 (length s)) s, length-word_bytes 8 (length s))))

pub seek_lem :
    (n q : ℕ) (f : Stream) (s r : Bytes)
    → length s ≡ n
    → n < 2 ^ 63
    → f.rest ≡ s ++ r
    → q ≡ f.pos + n
    → seek n f ≡ ok (record { pos = q; rest = r })
unfolding seek
seek_lem n q f s r l m e a =
    let b : leb (2 ^ 63) n ≡ false = ground (arith, m) in
    rw (seek, e, b, drop-append n s r l) (ap (λ p. ok (record { pos = p; rest = r })) (sym a))
