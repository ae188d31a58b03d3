-- ===== src/Gguf/Normalize.antt =====
-- src/core/gguf.cpp: the loop of `half_to_float` for subnormal numbers, and the worth of what is put
-- together.
use native.Mathlib.Nat.{pow-suc}
use libmlxforge.Common.{
  ℕ, zero, suc, ◌+◌, ◌-◌, ◌*◌, ◌/◌, ◌%◌, ◌^◌, ◌<◌, ◌≤◌, true, false, ◌==◌, leb, ◌≡◌, refl, sym, ◌∙◌,
  ap, subst, arith, Bool-cases, inl, inr,
}
use libmlxforge.Gguf.Half.{normalize}

-- An exponent and a mantissa with its leading bit, worth mant * 2 ^ exp.
abbrev IsLeading : ℕ × ℕ → ℕ → ℕ → Type 0
IsLeading n exp mant =
    (0 < n.0) × (n.0 ≤ exp) × (1024 ≤ n.1) × (n.1 < 2048) × (n.1 * 2 ^ n.0 ≡ mant * 2 ^ exp)

normalize_again :
    (rounds exp mant : ℕ)
    → mant < 1024
    → 0 < exp
    → exp < 2 ^ 32
    → normalize (suc rounds) exp mant ≡ normalize rounds (exp - 1) (mant * 2)
unfolding normalize
normalize_again rounds exp mant q s t =
    let b : (mant / 1024 % 2 == 0) ≡ true = ground (arith, q) in
    rw (normalize, b)
      (ap (λ e. normalize rounds e (mant * 2 % 2 ^ 32)) {x = (exp + 2 ^ 32 - 1) % 2 ^ 32}
          {y = exp - 1} (omega (arith, s, t))
        ∙ ap (λ m. normalize rounds (exp - 1) m) {x = mant * 2 % 2 ^ 32} {y = mant * 2}
            (omega (arith, q)))

normalize_stop :
    (rounds exp mant : ℕ)
    → 1024 ≤ mant
    → mant < 2048
    → normalize (suc rounds) exp mant ≡ (exp, mant)
unfolding normalize
normalize_stop rounds exp mant p q =
    let b : (mant / 1024 % 2 == 0) ≡ false = ground (arith, p, q) in rw (normalize, b) refl

double_lem : (m e k : ℕ) → k ≡ suc e → m * 2 * 2 ^ e ≡ m * 2 ^ k
double_lem m e k h = grind (arith, pow-suc 2 e, ap (λ z. 2 ^ z) h)

-- A round keeps mant * 2 ^ exp, and the rounds suffice to reach the leading bit.
pub normalize_lem :
    (rounds exp mant : ℕ)
    → 0 < mant
    → mant < 2048
    → 1024 ≤ mant * 2 ^ rounds
    → rounds < exp
    → exp < 2 ^ 32
    → IsLeading (normalize rounds exp mant) exp mant
unfolding normalize
normalize_lem zero exp mant p q r s t = (omega (arith, s), omega arith, omega (arith, r), q, refl)
normalize_lem (suc rounds) exp mant p q r s t = elim (Bool-cases (leb 1024 mant)) [
  | inl b ↦
      subst (λ n. IsLeading n exp mant) (sym (normalize_stop rounds exp mant (ground (arith, b)) q))
        (omega (arith, s), omega arith, ground (arith, b), q, refl)
  | inr b ↦
      let l : mant < 1024 = ground (arith, b) in
      let more : 1024 ≤ mant * 2 * 2 ^ rounds =
        subst (λ z. 1024 ≤ z) (sym (double_lem mant rounds (suc rounds) refl)) r in
      let (u, v, w, x, y) =
        normalize_lem rounds (exp - 1) (mant * 2) (omega (arith, p)) (omega (arith, l)) more
          (omega (arith, s)) (omega (arith, t)) in
      subst (λ n. IsLeading n exp mant)
        (sym (normalize_again rounds exp mant l (omega (arith, s)) t))
        (u, omega (arith, v), w, x, y ∙ double_lem mant (exp - 1) exp (omega (arith, s)))
]

swap_lem : (a b c : ℕ) → a * c * b ≡ a * b * c
swap_lem a b c = grind arith

pub subnormal_worth :
    (e m mant : ℕ)
    → 0 < e
    → 1024 ≤ m
    → m < 2048
    → m * 2 ^ e ≡ mant * 2 ^ 113
    → (2 ^ 23 + m % 1024 * 2 ^ 13) * 2 ^ (e - 1) ≡ mant * 2 ^ 125
subnormal_worth e m mant p q1 r h =
    let q = 2 ^ (e - 1) in
    let a : 2 ^ 23 + m % 1024 * 2 ^ 13 ≡ m * 2 ^ 13 = omega (arith, q1, r) in
    let b : m * q * 2 ≡ mant * 2 ^ 113 =
      swap_lem m 2 q ∙ double_lem m (e - 1) e (omega (arith, p)) ∙ h in
    ap (λ z. z * q) a ∙ swap_lem m q (2 ^ 13) ∙ omega (arith, b)

pow-add_lem : (k n m : ℕ) → m ≡ n + k → 2 ^ m ≡ 2 ^ n * 2 ^ k
pow-add_lem zero n m e = ap (λ z. 2 ^ z) {x = m} {y = n} (omega (arith, e)) ∙ omega arith
pow-add_lem (suc k) n zero e = absurd (omega (arith, e))
pow-add_lem (suc k) n (suc m) e =
    grind (arith, pow-suc 2 m, pow-suc 2 k, pow-add_lem k n m (omega (arith, e)))

regroup : (a b c d : ℕ) → a * b * (c * d) ≡ a * c * (b * d)
regroup a b c d = grind arith

pub normal_worth :
    (e m : ℕ)
    → 0 < e
    → (2 ^ 23 + m * 2 ^ 13) * 2 ^ (e + 112 - 1) ≡ (2 ^ 10 + m) * 2 ^ (e - 1) * 2 ^ 125
normal_worth e m p =
    let q = 2 ^ (e - 1) in
    let a : 2 ^ 23 + m * 2 ^ 13 ≡ (2 ^ 10 + m) * 2 ^ 13 = omega arith in
    let b : 2 ^ (e + 112 - 1) ≡ q * 2 ^ 112 =
      pow-add_lem 112 (e - 1) (e + 112 - 1) (omega (arith, p)) in
    ap (λ z. z * 2 ^ (e + 112 - 1)) a
    ∙ ap (λ z. (2 ^ 10 + m) * 2 ^ 13 * z) b
    ∙ regroup (2 ^ 10 + m) (2 ^ 13) q (2 ^ 112)
