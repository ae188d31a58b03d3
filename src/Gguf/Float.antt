-- ===== src/Gguf/Float.antt =====
-- src/core/gguf.cpp: what a half is worth, `half_to_float` keeps.
use libmlxforge.Common.{
  ℕ, ◌+◌, ◌-◌, ◌*◌, ◌/◌, ◌%◌, ◌^◌, ◌<◌, false, ◌==◌, ◌≡◌, refl, ◌∙◌, ap, arith, Bool-cases, inl,
  inr,
}
use libmlxforge.Gguf.Half.{normalize, half_to_float}
use libmlxforge.Gguf.Ieee.{finite, float_value, half_value}
use libmlxforge.Gguf.Normalize.{normalize_lem, subnormal_worth, normal_worth}

-- What the fields of a float stand for.
float_fields :
    (sign exp mant : ℕ)
    → mant < 2 ^ 23
    → 0 < exp
    → exp < 255
    → float_value (sign * 2 ^ 31 + exp * 2 ^ 23 + mant)
      ≡ finite sign ((2 ^ 23 + mant) * 2 ^ (exp - 1))
unfolding float_value
float_fields sign exp mant m p q =
    let f = sign * 2 ^ 31 + exp * 2 ^ 23 + mant in
    let a : f / 2 ^ 31 ≡ sign = omega (arith, m, q) in
    let b : f / 2 ^ 23 % 256 ≡ exp = omega (arith, m, q) in
    let c : f % 2 ^ 23 ≡ mant = omega (arith, m) in
    let x : (exp == 0) ≡ false = ground (arith, p) in
    let y : (exp == 255) ≡ false = ground (arith, q) in rw (float_value, a, b, c, x, y) refl

zero_case :
    (h : ℕ)
    → h < 2 ^ 16
    → h / 1024 % 32 ≡ 0
    → h % 1024 ≡ 0
    → float_value (half_to_float h) ≡ half_value h
unfolding half_to_float half_value float_value
zero_case h l e m =
    let s = h / 2 ^ 15 in
    let a : h / 2 ^ 15 % 2 * 2 ^ 31 / 2 ^ 31 ≡ s = omega (arith, l) in
    let b : h / 2 ^ 15 % 2 * 2 ^ 31 / 2 ^ 23 % 256 ≡ 0 = omega arith in
    let c : h / 2 ^ 15 % 2 * 2 ^ 31 % 2 ^ 23 ≡ 0 = omega arith in
    rw (half_to_float, e, m, float_value, a, b, c, half_value) refl

subnormal_case :
    (h : ℕ)
    → h < 2 ^ 16
    → h / 1024 % 32 ≡ 0
    → (h % 1024 == 0) ≡ false
    → float_value (half_to_float h) ≡ half_value h
unfolding half_to_float half_value
subnormal_case h l e m =
    let mant = h % 1024 in
    let n = normalize 10 113 mant in
    let s = h / 2 ^ 15 in
    let (u, v, w, x, y) =
      normalize_lem 10 113 mant (ground (arith, m)) (omega arith) (ground (arith, m)) (omega arith)
        (omega arith) in
    let f : h / 2 ^ 15 % 2 * 2 ^ 31 + n.0 * 2 ^ 23 % 2 ^ 32 + n.1 % 1024 * 2 ^ 13
        ≡ s * 2 ^ 31 + n.0 * 2 ^ 23 + n.1 % 1024 * 2 ^ 13 =
      omega (arith, l, v) in
    rw (half_to_float, e, m, half_value)
      (ap float_value f
        ∙ float_fields s n.0 (n.1 % 1024 * 2 ^ 13) (omega arith) u (omega (arith, v))
        ∙ ap (finite s) (subnormal_worth n.0 n.1 mant u w x y))

special_case :
    (h : ℕ) → h < 2 ^ 16 → h / 1024 % 32 ≡ 31 → float_value (half_to_float h) ≡ half_value h
unfolding half_to_float half_value float_value
special_case h l e =
    let s = h / 2 ^ 15 in
    let mant = h % 1024 in
    let f = h / 2 ^ 15 % 2 * 2 ^ 31 + 0x7F800000 + mant * 2 ^ 13 in
    let a : f / 2 ^ 31 ≡ s = omega (arith, l) in
    let b : f / 2 ^ 23 % 256 ≡ 255 = omega arith in
    let c : f % 2 ^ 23 ≡ mant * 2 ^ 13 = omega arith in
    let d : (mant * 2 ^ 13 == 0) ≡ (mant == 0) = ground arith in
    rw (half_to_float, e, float_value, a, b, c, d, half_value) refl

normal_case :
    (h : ℕ)
    → h < 2 ^ 16
    → (h / 1024 % 32 == 0) ≡ false
    → (h / 1024 % 32 == 31) ≡ false
    → float_value (half_to_float h) ≡ half_value h
unfolding half_to_float half_value
normal_case h l e x =
    let s = h / 2 ^ 15 in
    let exp = h / 1024 % 32 in
    let mant = h % 1024 in
    let p : 0 < exp = ground (arith, e) in
    let q : exp < 31 = ground (arith, x) in
    let f : h / 2 ^ 15 % 2 * 2 ^ 31
          + ((exp + 2 ^ 32 - 15) % 2 ^ 32 + 127) % 2 ^ 32 * 2 ^ 23 % 2 ^ 32
          + mant * 2 ^ 13
        ≡ s * 2 ^ 31 + (exp + 112) * 2 ^ 23 + mant * 2 ^ 13 =
      omega (arith, l, p, q) in
    rw (half_to_float, e, x, half_value)
      (ap float_value f
        ∙ float_fields s (exp + 112) (mant * 2 ^ 13) (omega arith) (omega arith) (omega (arith, q))
        ∙ ap (finite s) (normal_worth exp mant p))

-- The float has the sign and the worth of the half, for every half: zeros, subnormal and normal
-- numbers, infinities and NaNs with their payload.
pub half_to_float_lem : (h : ℕ) → h < 2 ^ 16 → float_value (half_to_float h) ≡ half_value h
half_to_float_lem h l = elim (Bool-cases (h / 1024 % 32 == 0)) [
  | inl e ↦ elim (Bool-cases (h % 1024 == 0)) [
    | inl m ↦ zero_case h l (ground (arith, e)) (ground (arith, m))
    | inr m ↦ subnormal_case h l (ground (arith, e)) m
  ]
  | inr e ↦ elim (Bool-cases (h / 1024 % 32 == 31)) [
    | inl x ↦ special_case h l (ground (arith, x))
    | inr x ↦ normal_case h l e x
  ]
]
