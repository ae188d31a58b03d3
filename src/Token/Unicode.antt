-- ===== src/Token/Unicode.antt =====
-- src/tokenizer/unicode_tables.h: the binary search over the ranges of a class. The generated tables
-- are a parameter, three lists of ranges.
use libmlxforge.Common.{
  ℕ, zero, suc, ◌+◌, ◌-◌, ◌/◌, Bool, true, false, List, none, some, length, get_elem?, ltb,
  if◌then◌else◌,
}

pub record Range : Type 0 where
  pub lo : ℕ
  pub hi : ℕ

pub record Classes : Type 0 where
  pub letters : List Range
  pub numbers : List Range
  pub whitespace : List Range

-- The loop of `in_ranges`. A round at least halves `hi - lo`; a read past the table is false.
unfoldable pub search : ℕ → ℕ → List Range → ℕ → ℕ → Bool
search zero cp table lo hi = false
search (suc rounds) cp table lo hi =
    let mid = lo + (hi - lo) / 2 in
    let below = search rounds cp table lo mid in
    let above = search rounds cp table (mid + 1) hi in
    if ltb lo hi
    then elim (get_elem? table mid) [
      | none ↦ false
      | some r ↦ if ltb cp r.lo then below else if ltb r.hi cp then above else true
    ]
    else false

unfoldable pub in_ranges : ℕ → List Range → Bool
unfolding search
in_ranges cp table = search (suc (length table)) cp table 0 (length table)

unfoldable pub is_letter : Classes → ℕ → Bool
unfolding in_ranges
is_letter u cp = in_ranges cp u.letters

unfoldable pub is_number : Classes → ℕ → Bool
unfolding in_ranges
is_number u cp = in_ranges cp u.numbers

unfoldable pub is_whitespace : Classes → ℕ → Bool
unfolding in_ranges
is_whitespace u cp = in_ranges cp u.whitespace
