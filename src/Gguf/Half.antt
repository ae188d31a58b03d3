-- ===== src/Gguf/Half.antt =====
-- src/core/gguf.cpp: `half_to_float`, from the bits of a half to the bits of a float. Shifts and
-- masks are products, quotients and remainders, and what `|` puts together has no bits in common. A
-- uint32 wraps.
use libmlxforge.Common.{ℕ, zero, suc, ◌+◌, ◌-◌, ◌*◌, ◌/◌, ◌%◌, ◌^◌, ◌==◌, if◌then◌else◌}

-- The loop on `exp` and `mant`, which takes ten rounds at most.
unfoldable pub normalize : ℕ → ℕ → ℕ → ℕ × ℕ
normalize zero exp mant = (exp, mant)
normalize (suc rounds) exp mant =
    let rest = normalize rounds ((exp + 2 ^ 32 - 1) % 2 ^ 32) (mant * 2 % 2 ^ 32) in
    if mant / 1024 % 2 == 0 then rest else (exp, mant)

unfoldable pub half_to_float : ℕ → ℕ
unfolding normalize
half_to_float h =
    let sign = h / 2 ^ 15 % 2 * 2 ^ 31 in
    let exp = h / 1024 % 32 in
    let mant = h % 1024 in
    let n = normalize 10 (127 - 15 + 1) mant in
    if exp == 0
    then if mant == 0 then sign else sign + n.0 * 2 ^ 23 % 2 ^ 32 + n.1 % 1024 * 2 ^ 13
    else if exp == 31
    then sign + 0x7F800000 + mant * 2 ^ 13
    else sign + ((exp + 2 ^ 32 - 15) % 2 ^ 32 + 127) % 2 ^ 32 * 2 ^ 23 % 2 ^ 32 + mant * 2 ^ 13
