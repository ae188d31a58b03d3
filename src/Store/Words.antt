-- ===== src/Store/Words.antt =====
-- Numbers and lists of src/cache/block_store.cpp's file format, read back as they were written.
use native.Mathlib.Nat.{div-add-mod}
use libmlxforge.Common.{
  ℕ, zero, suc, ◌/◌, ◌^◌, ◌<◌, Bool, true, false, ◌++◌, none, some, Bytes, ◌≡◌, refl, arith,
}
use libmlxforge.Pool.Blocks.{word_bytes}
use libmlxforge.Store.Format.{read, read_if}

word_range : (x n : ℕ) → x < 256 ^ suc n → x / 256 < 256 ^ n
word_range x n l = grind arith

pub read-word_bytes :
    (n x : ℕ) (r : Bytes) → x < 256 ^ n → read n (word_bytes n x ++ r) ≡ some (x, r)
unfolding read word_bytes
read-word_bytes zero x r l = ground arith
read-word_bytes (suc n) x r l =
    ground (arith, read-word_bytes n (x / 256) r (word_range x n l), div-add-mod x 256)

pub read_if-word_bytes :
    (ok : ℕ → Bool) (n x : ℕ) (r : Bytes)
    → x < 256 ^ n
    → ok x ≡ true
    → read_if ok n (word_bytes n x ++ r) ≡ some (x, r)
unfolding read_if
read_if-word_bytes ok n x r l t = rw (read_if, read-word_bytes n x r l, t) refl

pub read_if-word_bytes_not :
    (ok : ℕ → Bool) (n x : ℕ) (r : Bytes)
    → x < 256 ^ n
    → ok x ≡ false
    → read_if ok n (word_bytes n x ++ r) ≡ none
unfolding read_if
read_if-word_bytes_not ok n x r l t = rw (read_if, read-word_bytes n x r l, t) refl
