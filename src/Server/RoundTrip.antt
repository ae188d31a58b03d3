-- ===== src/Server/RoundTrip.antt =====
-- src/server/base64.h against RFC 4648: what the standard's encoding writes is read back.
use libmlxforge.Common.{
  ℕ, ◌+◌, ◌-◌, ◌*◌, ◌/◌, ◌%◌, ◌^◌, ◌<◌, true, false, [], ◌∷◌, some, Bytes, ltb, leb, ◌==◌,
  if◌then◌else◌, ◌≡◌, refl, ◌∙◌, ap, arith,
}
use libmlxforge.Server.Base64.{sextet, is_space, decode_loop, base64_decode}
use libmlxforge.Token.Alphabet.{AllBytes}

-- The alphabet of the standard.
abbrev pub digit : ℕ → ℕ
digit v =
    if ltb v 26
    then v + b'A'
    else if ltb v 52
    then v - 26 + b'a'
    else if ltb v 62
    then v - 52 + b'0'
    else if v == 62
    then b'+'
    else b'/'

-- The encoding of the standard, with padding.
abbrev pub base64_encode : Bytes → Bytes
base64_encode [] = []
base64_encode (a ∷ []) = digit (a / 4) ∷ digit (a % 4 * 16) ∷ b'=' ∷ b'=' ∷ []
base64_encode (a ∷ b ∷ []) =
    digit (a / 4) ∷ digit (a % 4 * 16 + b / 16) ∷ digit (b % 16 * 4) ∷ b'=' ∷ []
base64_encode (a ∷ b ∷ c ∷ s) =
    let rest = base64_encode s in
    digit (a / 4)
    ∷ digit (a % 4 * 16 + b / 16)
    ∷ digit (b % 16 * 4 + c / 64)
    ∷ digit (c % 64)
    ∷ rest

pub record Reads (c v : ℕ) : Type 0 where
  pub value : sextet c ≡ some v
  pub padding : (c == b'=') ≡ false
  pub space : is_space c ≡ false

pub digit_lem : (v : ℕ) → v < 64 → Reads (digit v) v
unfolding sextet
digit_lem v l = record {
  value = ground (arith, l);
  padding = ground (arith, l);
  space = ground (arith, l);
}

loop-kept :
    (buf bits c v : ℕ) (s : Bytes)
    → Reads c v
    → leb 8 (bits + 6) ≡ false
    → decode_loop buf bits (c ∷ s) ≡ decode_loop ((buf * 64 + v) % 2 ^ 32) (bits + 6) s
unfolding decode_loop
loop-kept buf bits c v s r e = rw (decode_loop, r.value, r.padding, r.space, e) refl

loop-emitted :
    (buf bits c v : ℕ) (s out : Bytes)
    → Reads c v
    → leb 8 (bits + 6) ≡ true
    → decode_loop ((buf * 64 + v) % 2 ^ 32) (bits + 6 - 8) s ≡ some out
    → decode_loop buf bits (c ∷ s) ≡ some ((buf * 64 + v) % 2 ^ 32 / 2 ^ (bits + 6 - 8) % 256 ∷ out)
unfolding decode_loop
loop-emitted buf bits c v s out r e f = rw (decode_loop, r.value, r.padding, r.space, e, f) refl

-- The bytes of a group, as the buffer gives them.
first_byte :
    (buf a w : ℕ)
    → a < 256
    → w < 16
    → ((buf * 64 + a / 4) % 2 ^ 32 * 64 + (a % 4 * 16 + w)) % 2 ^ 32 / 2 ^ 4 % 256 ≡ a
first_byte buf a w l m = omega (arith, l, m)

second_byte :
    (buf b u w : ℕ)
    → b < 256
    → w < 4
    → ((buf * 64 + (u * 16 + b / 16)) % 2 ^ 32 * 64 + (b % 16 * 4 + w)) % 2 ^ 32 / 2 ^ 2 % 256 ≡ b
second_byte buf b u w l m = omega (arith, l, m)

third_byte :
    (buf c u : ℕ)
    → c < 256
    → ((buf * 64 + (u * 4 + c / 64)) % 2 ^ 32 * 64 + c % 64) % 2 ^ 32 / 2 ^ 0 % 256 ≡ c
third_byte buf c u l = omega (arith, l)

-- A padding ends it.
loop-padding : (buf bits : ℕ) (s : Bytes) → decode_loop buf bits (b'=' ∷ s) ≡ some []
unfolding decode_loop
loop-padding buf bits s = refl

loop-base64_encode :
    (s : Bytes) (buf : ℕ) → AllBytes s → decode_loop buf 0 (base64_encode s) ≡ some s
unfolding decode_loop
loop-base64_encode [] buf h = refl
loop-base64_encode (a ∷ []) buf h =
    let n = (buf * 64 + a / 4) % 2 ^ 32 in
    let m = (n * 64 + a % 4 * 16) % 2 ^ 32 in
    let tail : Bytes = b'=' ∷ b'=' ∷ [] in
    let byte : m / 2 ^ 4 % 256 ≡ a = omega (arith, first_byte buf a 0 h.0 (omega arith)) in
    loop-kept buf 0 (digit (a / 4)) (a / 4) (digit (a % 4 * 16) ∷ tail)
      (digit_lem (a / 4) (omega (arith, h.0))) refl
    ∙ loop-emitted n 6 (digit (a % 4 * 16)) (a % 4 * 16) tail []
        (digit_lem (a % 4 * 16) (omega arith)) refl (loop-padding m 4 (b'=' ∷ []))
    ∙ ap (λ x. some (x ∷ [])) byte
loop-base64_encode (a ∷ b ∷ []) buf (h, (k, t)) =
    let u = a % 4 * 16 + b / 16 in
    let n = (buf * 64 + a / 4) % 2 ^ 32 in
    let m = (n * 64 + u) % 2 ^ 32 in
    let r = (m * 64 + b % 16 * 4) % 2 ^ 32 in
    let tail : Bytes = b'=' ∷ [] in
    let one : m / 2 ^ 4 % 256 ≡ a = first_byte buf a (b / 16) h (omega (arith, k)) in
    let two : r / 2 ^ 2 % 256 ≡ b = omega (arith, second_byte n b (a % 4) 0 k (omega arith)) in
    loop-kept buf 0 (digit (a / 4)) (a / 4) (digit u ∷ digit (b % 16 * 4) ∷ tail)
      (digit_lem (a / 4) (omega (arith, h))) refl
    ∙ loop-emitted n 6 (digit u) u (digit (b % 16 * 4) ∷ tail) (r / 2 ^ 2 % 256 ∷ [])
        (digit_lem u (omega (arith, k))) refl
        (loop-emitted m 4 (digit (b % 16 * 4)) (b % 16 * 4) tail []
          (digit_lem (b % 16 * 4) (omega arith)) refl (loop-padding r 2 []))
    ∙ ap (λ x. some (x ∷ r / 2 ^ 2 % 256 ∷ [])) one
    ∙ ap (λ x. some (a ∷ x ∷ [])) two
loop-base64_encode (a ∷ b ∷ c ∷ s) buf (h, (k, (t, w))) =
    let u = a % 4 * 16 + b / 16 in
    let v = b % 16 * 4 + c / 64 in
    let rest = base64_encode s in
    let n = (buf * 64 + a / 4) % 2 ^ 32 in
    let m = (n * 64 + u) % 2 ^ 32 in
    let r = (m * 64 + v) % 2 ^ 32 in
    let q = (r * 64 + c % 64) % 2 ^ 32 in
    let one : m / 2 ^ 4 % 256 ≡ a = first_byte buf a (b / 16) h (omega (arith, k)) in
    let two : r / 2 ^ 2 % 256 ≡ b = second_byte n b (a % 4) (c / 64) k (omega (arith, t)) in
    let three : q / 2 ^ 0 % 256 ≡ c = third_byte m c (b % 16) t in
    loop-kept buf 0 (digit (a / 4)) (a / 4) (digit u ∷ digit v ∷ digit (c % 64) ∷ rest)
      (digit_lem (a / 4) (omega (arith, h))) refl
    ∙ loop-emitted n 6 (digit u) u (digit v ∷ digit (c % 64) ∷ rest)
        (r / 2 ^ 2 % 256 ∷ q / 2 ^ 0 % 256 ∷ s) (digit_lem u (omega (arith, k))) refl
        (loop-emitted m 4 (digit v) v (digit (c % 64) ∷ rest) (q / 2 ^ 0 % 256 ∷ s)
          (digit_lem v (omega (arith, t))) refl
          (loop-emitted r 2 (digit (c % 64)) (c % 64) rest s (digit_lem (c % 64) (omega arith)) refl
            (loop-base64_encode s q w)))
    ∙ ap (λ x. some (x ∷ r / 2 ^ 2 % 256 ∷ q / 2 ^ 0 % 256 ∷ s)) one
    ∙ ap (λ x. some (a ∷ x ∷ q / 2 ^ 0 % 256 ∷ s)) two
    ∙ ap (λ x. some (a ∷ b ∷ x ∷ s)) three

-- Bytes that were encoded by the standard are decoded to themselves.
pub base64_decode-base64_encode :
    (s : Bytes) → AllBytes s → base64_decode (base64_encode s) ≡ some s
unfolding base64_decode
base64_decode-base64_encode s h = loop-base64_encode s 0 h
