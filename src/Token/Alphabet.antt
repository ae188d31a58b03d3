-- ===== src/Token/Alphabet.antt =====
-- The byte alphabet of src/tokenizer/bpe.cpp: what `to_uni` writes, `decode_utf8` and `from_uni` read.
use Prim.Native.Nat.{bit_or}
use libmlxforge.Common.{
  ℕ, zero, suc, ◌+◌, ◌-◌, ◌*◌, ◌/◌, ◌%◌, ◌≤◌, ◌<◌, Bool, true, ◌&&◌, List, [], ◌∷◌, ◌++◌, none,
  some, Bytes, ltb, ◌==◌, if◌then◌else◌, ◌≡◌, refl, sym, ◌∙◌, ap, subst, arith, Bool-cases, inl,
  inr, ◌⊎◌, ==_iff,
}
use libmlxforge.Token.Bpe.{map_bytes, token_bytes}
use libmlxforge.Token.Utf8.{
  append_utf8, code_point, decode_from, decode_utf8, byte_code_point, to_uni, byte_below, from_uni,
  from_uni_dense,
}

abbrev all_below : ℕ → (ℕ → Bool) → Bool
all_below zero test = true
all_below (suc n) test = test n && all_below n test

all_below_lem :
    (n : ℕ) (test : ℕ → Bool) → all_below n test ≡ true → (b : ℕ) → b < n → test b ≡ true
all_below_lem zero test a b l = absurd (omega (arith, l))
all_below_lem (suc n) test a b l = elim (Bool-cases (b == n)) [
  | inl e ↦ subst (λ x. test x ≡ true) (sym ((==_iff b n).0 e)) (ground (arith, a))
  | inr e ↦ all_below_lem n test (ground (arith, a)) b (ground (arith, l, e))
]

-- The code points in closed form.
abbrev closed : ℕ → ℕ
closed b =
    if ltb b 33
    then b + 256
    else if ltb b 127
    then b
    else if ltb b 161
    then b + 162
    else if b == 173
    then 323
    else b

byte_code_point-closed_all : all_below 256 (λ b. byte_code_point b == closed b) ≡ true
unfolding byte_code_point
byte_code_point-closed_all = refl

byte_code_point-closed : (b : ℕ) → b < 256 → byte_code_point b ≡ closed b
byte_code_point-closed b l =
    (==_iff (byte_code_point b) (closed b)).0
      (all_below_lem 256 (λ x. byte_code_point x == closed x) byte_code_point-closed_all b l)

closed_injective : (a b : ℕ) → a < 256 → b < 256 → closed a ≡ closed b → a ≡ b
closed_injective a b k l e = ground arith

closed_range : (b : ℕ) → b < 256 → closed b < 512
closed_range b l = ground arith

byte_below-byte_code_point : (n b : ℕ) → b < n → n ≤ 256 → byte_below (byte_code_point b) n ≡ some b
unfolding byte_below
byte_below-byte_code_point zero b k l = absurd (omega (arith, k))
byte_below-byte_code_point (suc n) b k l =
    elim (Bool-cases (byte_code_point n == byte_code_point b)) [
      | inl e ↦
          let same : closed n ≡ closed b =
            sym (byte_code_point-closed n (omega (arith, l)))
            ∙ (==_iff (byte_code_point n) (byte_code_point b)).0 e
            ∙ byte_code_point-closed b (omega (arith, k, l)) in
          rw e (ap some (closed_injective n b (omega (arith, l)) (omega (arith, k, l)) same))
      | inr e ↦ rw e (byte_below-byte_code_point n b (ground (arith, e, k)) (omega (arith, l)))
    ]

from_uni_dense_low : (c : ℕ) → c < 512 → from_uni_dense c ≡ from_uni c
unfolding from_uni_dense
from_uni_dense_low c l = ap (λ x. if x then from_uni c else none) (ltb_low c l)
  where
    ltb_low : (n : ℕ) → n < 512 → ltb n 0x200 ≡ true
    ltb_low n k = ground arith

from_uni-byte_code_point : (b : ℕ) → b < 256 → from_uni (byte_code_point b) ≡ some b
unfolding from_uni
from_uni-byte_code_point b l = byte_below-byte_code_point 256 b l (omega arith)

code_point_low : (b : ℕ) → b < 256 → byte_code_point b < 512
code_point_low b l = subst (λ x. x < 512) (sym (byte_code_point-closed b l)) (closed_range b l)

token_bytes-byte_code_point :
    (b : ℕ) (cp : List ℕ) → b < 256 → token_bytes (byte_code_point b ∷ cp) ≡ b ∷ token_bytes cp
unfolding token_bytes
token_bytes-byte_code_point b cp l =
    let dense : from_uni_dense (byte_code_point b) ≡ some b =
      from_uni_dense_low (byte_code_point b) (code_point_low b l) ∙ from_uni-byte_code_point b l in
    rw (token_bytes, dense) refl

-- Offsets have no bearing on the code points.
decode_from_shift : (skip i j : ℕ) (s : Bytes) → (decode_from skip i s).0 ≡ (decode_from skip j s).0
unfolding decode_from
decode_from_shift skip i j [] = refl
decode_from_shift (suc skip) i j (c ∷ s) = decode_from_shift skip (suc i) (suc j) s
decode_from_shift zero i j (c ∷ s) =
    ap (◌∷◌ (code_point c s).0) (decode_from_shift ((code_point c s).1 - 1) (suc i) (suc j) s)

code_point_one : (c : ℕ) (s : Bytes) → c < 128 → code_point c s ≡ (c, 1)
unfolding code_point
code_point_one c [] l = refl
code_point_one c (s1 ∷ []) l = ground arith
code_point_one c (s1 ∷ s2 ∷ []) l = ground arith
code_point_one c (s1 ∷ s2 ∷ s3 ∷ s) l = ground arith

code_point_two :
    (c s1 : ℕ) (s : Bytes) → c / 32 ≡ 6 → code_point c (s1 ∷ s) ≡ (c % 32 * 64 + s1 % 64, 2)
unfolding code_point
code_point_two c s1 [] l = ground arith
code_point_two c s1 (s2 ∷ []) l = ground arith
code_point_two c s1 (s2 ∷ s3 ∷ s) l = ground arith

decode_one :
    (c v i : ℕ) (s : Bytes)
    → code_point c s ≡ (v, 1)
    → (decode_from 0 i (c ∷ s)).0 ≡ v ∷ (decode_from 0 (suc i) s).0
unfolding decode_from
decode_one c v i s e = ap (λ u. u.0 ∷ (decode_from (u.1 - 1) (suc i) s).0) e

decode_two :
    (c x v i : ℕ) (s : Bytes)
    → code_point c (x ∷ s) ≡ (v, 2)
    → (decode_from 0 i (c ∷ x ∷ s)).0 ≡ v ∷ (decode_from 0 (suc (suc i)) s).0
unfolding decode_from
decode_two c x v i s e = ap (λ u. u.0 ∷ (decode_from (u.1 - 1) (suc i) (x ∷ s)).0) e

lead_all : all_below 8 (λ q. bit_or 0xC0 q == 192 + q) ≡ true
lead_all = refl

lead_lem : (q : ℕ) → q < 8 → bit_or 0xC0 q ≡ 192 + q
lead_lem q l =
    (==_iff (bit_or 0xC0 q) (192 + q)).0
      (all_below_lem 8 (λ x. bit_or 0xC0 x == 192 + x) lead_all q l)

append_utf8_short : (cp : ℕ) → cp < 128 → append_utf8 cp ≡ cp ∷ []
unfolding append_utf8
append_utf8_short cp l = ground arith

append_utf8_long :
    (cp : ℕ) → 128 ≤ cp → cp < 512 → append_utf8 cp ≡ (192 + cp / 64) ∷ (128 + cp % 64) ∷ []
unfolding append_utf8
append_utf8_long cp l k = ground (arith, lead_lem (cp / 64) (omega (arith, k)))

-- A code point below 0x200 and what is behind it.
decode_utf8-append_utf8 :
    (cp : ℕ) (s : Bytes) → cp < 512 → (decode_utf8 (append_utf8 cp ++ s)).0 ≡ cp ∷ (decode_utf8 s).0
unfolding decode_utf8
decode_utf8-append_utf8 cp s l = elim (Bool-cases (ltb cp 128)) [
  | inl e ↦
      let low : cp < 128 = ground (arith, e) in
      rw (append_utf8_short cp low)
        (decode_one cp cp 0 s (code_point_one cp s low) ∙ ap (◌∷◌ cp) (decode_from_shift 0 1 0 s))
  | inr e ↦
      let value : (192 + cp / 64) % 32 * 64 + (128 + cp % 64) % 64 ≡ cp = omega (arith, l) in
      let two =
        code_point_two (192 + cp / 64) (128 + cp % 64) s (omega (arith, l))
        ∙ ap (λ v. (v, 2)) value in
      rw (append_utf8_long cp (ground (arith, e)) l) (
        decode_two (192 + cp / 64) (128 + cp % 64) cp 0 s two
        ∙ ap (◌∷◌ cp) (decode_from_shift 0 2 0 s))
]

abbrev pub AllBytes : Bytes → Type 0
AllBytes [] = Unit
AllBytes (b ∷ s) = (b < 256) × AllBytes s

-- What is written in the alphabet is read back.
pub token_bytes-map_bytes : (s : Bytes) → AllBytes s → token_bytes (decode_utf8 (map_bytes s)).0 ≡ s
unfolding map_bytes token_bytes decode_utf8
token_bytes-map_bytes [] a = refl
token_bytes-map_bytes (b ∷ s) a =
    ap token_bytes
      (decode_utf8-append_utf8 (byte_code_point b) (map_bytes s) (code_point_low b a.0))
    ∙ token_bytes-byte_code_point b (decode_utf8 (map_bytes s)).0 a.0
    ∙ ap (◌∷◌ b) (token_bytes-map_bytes s a.1)

-- How a byte is written: alone, or behind the lead byte of two.
pub to_uni-cases :
    (b : ℕ)
    → b < 256
    → ((c : ℕ) × (to_uni b ≡ c ∷ []) × (c < 128))
      ⊎ ((c d : ℕ) × (to_uni b ≡ c ∷ d ∷ []) × (192 ≤ c) × (c < 224))
unfolding to_uni
to_uni-cases b l =
    let cp : ℕ = byte_code_point b in
    let low = code_point_low b l in
    elim (Bool-cases (ltb cp 128)) [
      | inl e ↦ let k : cp < 128 = ground (arith, e) in inl (cp, append_utf8_short cp k, k)
      | inr e ↦ inr (
        192 + cp / 64,
        128 + cp % 64,
        append_utf8_long cp (ground (arith, e)) low,
        omega arith,
        omega (arith, low),
      )
    ]
