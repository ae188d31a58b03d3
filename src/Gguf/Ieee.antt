-- ===== src/Gguf/Ieee.antt =====
-- What the bits of a half and of a float, as src/core/gguf.cpp reads and makes them, stand for in
-- IEEE 754.
use libmlxforge.Common.{ℕ, ◌+◌, ◌-◌, ◌*◌, ◌/◌, ◌%◌, ◌^◌, ◌==◌, if◌then◌else◌}

-- A sign, and a magnitude in units of 2 ^ -149, the least one of a float.
pub data Real : Type 0 where
  finite : ℕ → ℕ → Real
  infinite : ℕ → Real
  nan : ℕ → ℕ → Real

unfoldable pub float_value : ℕ → Real
float_value f =
    let sign = f / 2 ^ 31 in
    let exp = f / 2 ^ 23 % 256 in
    let mant = f % 2 ^ 23 in
    if exp == 0
    then finite sign mant
    else if exp == 255
    then if mant == 0 then infinite sign else nan sign mant
    else finite sign ((2 ^ 23 + mant) * 2 ^ (exp - 1))

-- A half has units of 2 ^ -24. The payload of a NaN stands at the same place below the point.
unfoldable pub half_value : ℕ → Real
half_value h =
    let sign = h / 2 ^ 15 in
    let exp = h / 2 ^ 10 % 32 in
    let mant = h % 2 ^ 10 in
    if exp == 0
    then finite sign (mant * 2 ^ 125)
    else if exp == 31
    then if mant == 0 then infinite sign else nan sign (mant * 2 ^ 13)
    else finite sign ((2 ^ 10 + mant) * 2 ^ (exp - 1) * 2 ^ 125)
