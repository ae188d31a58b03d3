-- ===== src/Token/Utf8.antt =====
-- src/tokenizer/bpe.cpp, the UTF-8 helpers and the byte alphabet of GPT-2. A code point is a
-- `uint32_t`. Shifts and masks are quotients and remainders; what they put together has no bits in
-- common but in a lead byte, where `bit_or` is kept.
use Prim.Native.Nat.{bit_or}
use libmlxforge.Common.{
  ℕ, zero, suc, ◌+◌, ◌-◌, ◌*◌, ◌/◌, ◌%◌, Bool, ◌&&◌, ◌||◌, List, [], ◌∷◌, Option, none, some, Bytes,
  ltb, leb, ◌==◌, if◌then◌else◌,
}

unfoldable pub append_utf8 : ℕ → Bytes
append_utf8 cp =
    if ltb cp 0x80
    then cp ∷ []
    else if ltb cp 0x800
    then bit_or 0xC0 (cp / 64) ∷ (0x80 + cp % 64) ∷ []
    else if ltb cp 0x10000
    then bit_or 0xE0 (cp / 4096) ∷ (0x80 + cp / 64 % 64) ∷ (0x80 + cp % 64) ∷ []
    else (bit_or 0xF0 (cp / 262144) % 256)
      ∷ (0x80 + cp / 4096 % 64)
      ∷ (0x80 + cp / 64 % 64)
      ∷ (0x80 + cp % 64)
      ∷ []

-- The code point at the head of `c ∷ s` and the number of its bytes; a lead byte that is invalid or
-- cut off stands for itself.
unfoldable pub code_point : ℕ → Bytes → ℕ × ℕ
code_point c [] = (c, 1)
code_point c (s1 ∷ []) = if c / 32 == 6 then (c % 32 * 64 + s1 % 64, 2) else (c, 1)
code_point c (s1 ∷ s2 ∷ []) =
    if c / 32 == 6
    then (c % 32 * 64 + s1 % 64, 2)
    else if c / 16 == 0xE
    then (c % 16 * 4096 + s1 % 64 * 64 + s2 % 64, 3)
    else (c, 1)
code_point c (s1 ∷ s2 ∷ s3 ∷ s) =
    if c / 32 == 6
    then (c % 32 * 64 + s1 % 64, 2)
    else if c / 16 == 0xE
    then (c % 16 * 4096 + s1 % 64 * 64 + s2 % 64, 3)
    else if c / 8 == 0x1E
    then (c % 8 * 262144 + s1 % 64 * 4096 + s2 % 64 * 64 + s3 % 64, 4)
    else (c, 1)

-- The loop of `decode_utf8` at byte `i`, with `skip` bytes left of the code point before: the code
-- points, and the offsets, with the end's behind them.
unfoldable pub decode_from : ℕ → ℕ → Bytes → List ℕ × List ℕ
unfolding code_point
decode_from skip i [] = ([], i ∷ [])
decode_from (suc skip) i (c ∷ s) = decode_from skip (suc i) s
decode_from zero i (c ∷ s) =
    let u = code_point c s in
    let rest = decode_from (u.1 - 1) (suc i) s in (u.0 ∷ rest.0, i ∷ rest.1)

unfoldable pub decode_utf8 : Bytes → List ℕ × List ℕ
unfolding decode_from
decode_utf8 s = decode_from 0 0 s

-- The bytes that stand for themselves.
unfoldable pub printable : ℕ → Bool
printable b = (leb 0x21 b && leb b 0x7E) || (leb 0xA1 b && leb b 0xAC) || (leb 0xAE b && leb b 0xFF)

-- The counter `n` of the constructor of `ByteMap`, before byte `b`.
unfoldable pub unprintable_below : ℕ → ℕ
unfolding printable
unprintable_below zero = 0
unprintable_below (suc b) = let n = unprintable_below b in if printable b then n else suc n

unfoldable pub byte_code_point : ℕ → ℕ
unfolding unprintable_below printable
byte_code_point b = if printable b then b else 256 + unprintable_below b

unfoldable pub to_uni : ℕ → Bytes
unfolding append_utf8 byte_code_point
to_uni b = append_utf8 (byte_code_point b)

-- The byte below `b` of code point `c`: the last one that `from_uni` was given.
unfoldable pub byte_below : ℕ → ℕ → Option ℕ
unfolding byte_code_point
byte_below c zero = none
byte_below c (suc b) = let rest = byte_below c b in if byte_code_point b == c then some b else rest

unfoldable pub from_uni : ℕ → Option ℕ
unfolding byte_below
from_uni c = byte_below c 256

-- The dense table has the code points below 0x200.
unfoldable pub from_uni_dense : ℕ → Option ℕ
unfolding from_uni
from_uni_dense c = if ltb c 0x200 then from_uni c else none
