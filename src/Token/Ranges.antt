-- ===== src/Token/Ranges.antt =====
-- src/tokenizer/unicode_tables.h: the binary search finds a range that covers the code point, if any.
use libmlxforge.Common.{
  ℕ, zero, suc, ◌+◌, ◌-◌, ◌/◌, ◌≤◌, ◌<◌, true, List, [], ◌∷◌, some, length, get_elem?,
  get_elem?_below, ltb, ==_iff, ◌==◌, ◌≡◌, refl, sym, ◌∙◌, ap, arith, ◌↔◌, Bool-cases, Option-cases,
  inl, inr,
}
use libmlxforge.Token.Unicode.{Range, search, in_ranges}

-- Some range covers the code point.
abbrev pub IsCovered : ℕ → List Range → Type 0
IsCovered cp table =
    (i : ℕ) × (r : Range) × (get_elem? table i ≡ some r) × (r.lo ≤ cp) × (cp ≤ r.hi)

-- The ranges rise, and none is empty.
pub record IsSorted (table : List Range) : Type 0 where
  pub nonempty : (i : ℕ) (r : Range) → get_elem? table i ≡ some r → r.lo ≤ r.hi
  pub rising :
      (i j : ℕ) (r s : Range)
      → i < j
      → get_elem? table i ≡ some r
      → get_elem? table j ≡ some s
      → r.hi < s.lo

some_range : (r s : Range) → some r ≡ some s → r ≡ s
some_range r s e = cc

search_sound :
    (rounds cp : ℕ) (table : List Range) (lo hi : ℕ)
    → search rounds cp table lo hi ≡ true
    → IsCovered cp table
unfolding search
search_sound zero cp table lo hi e = absurd (ground (arith, e))
search_sound (suc rounds) cp table lo hi e = elim (Bool-cases (ltb lo hi)) [
  | inr k ↦ absurd (ground (arith, e, k))
  | inl k ↦ elim (Option-cases (get_elem? table (lo + (hi - lo) / 2))) [
    | inl n ↦ absurd (ground (arith, e, k, n))
    | inr (r, n) ↦ elim (Bool-cases (ltb cp r.lo)) [
      | inl b ↦ search_sound rounds cp table lo (lo + (hi - lo) / 2) (ground (arith, e, k, n, b))
      | inr b ↦ elim (Bool-cases (ltb r.hi cp)) [
        | inl a ↦
            search_sound rounds cp table (lo + (hi - lo) / 2 + 1) hi (ground (arith, e, k, n, b, a))
        | inr a ↦ (lo + (hi - lo) / 2, r, n, ground (arith, b), ground (arith, a))
      ]
    ]
  ]
]

get_elem?_within :
    (table : List Range) (i : ℕ) (r : Range) → get_elem? table i ≡ some r → i < length table
get_elem?_within [] i r e = absurd (ground (arith, e))
get_elem?_within (x ∷ table) zero r e = omega arith
get_elem?_within (x ∷ table) (suc i) r e = omega (arith, get_elem?_within table i r e)

-- Where the middle range lies above the code point, the covering one comes before it, and behind it
-- where it lies below.
before_lem :
    (cp : ℕ) (table : List Range) (i j : ℕ) (r m : Range)
    → IsSorted table
    → get_elem? table i ≡ some r
    → get_elem? table j ≡ some m
    → r.lo ≤ cp
    → cp < m.lo
    → i < j
before_lem cp table i j r m s e f a c = elim (Bool-cases (ltb i j)) [
  | inl t ↦ ground (arith, t)
  | inr t ↦ elim (Bool-cases (i == j)) [
    | inl u ↦
        let same : r ≡ m = some_range r m (sym e ∙ ap (get_elem? table) ((==_iff i j).0 u) ∙ f) in
        absurd (omega (arith, a, c, ap (λ x. x.lo) same))
    | inr u ↦
        absurd (omega (arith, s.rising j i m r (ground (arith, t, u)) f e, s.nonempty j m f, a, c))
  ]
]

after_lem :
    (cp : ℕ) (table : List Range) (i j : ℕ) (r m : Range)
    → IsSorted table
    → get_elem? table i ≡ some r
    → get_elem? table j ≡ some m
    → cp ≤ r.hi
    → m.hi < cp
    → j < i
after_lem cp table i j r m s e f a c = elim (Bool-cases (ltb j i)) [
  | inl t ↦ ground (arith, t)
  | inr t ↦ elim (Bool-cases (i == j)) [
    | inl u ↦
        let same : r ≡ m = some_range r m (sym e ∙ ap (get_elem? table) ((==_iff i j).0 u) ∙ f) in
        absurd (omega (arith, a, c, ap (λ x. x.hi) same))
    | inr u ↦
        absurd (omega (arith, s.rising i j r m (ground (arith, t, u)) e f, s.nonempty j m f, a, c))
  ]
]

search_complete :
    (rounds cp : ℕ) (table : List Range) (lo hi i : ℕ) (r : Range)
    → IsSorted table
    → hi ≤ length table
    → hi - lo < rounds
    → lo ≤ i
    → i < hi
    → get_elem? table i ≡ some r
    → r.lo ≤ cp
    → cp ≤ r.hi
    → search rounds cp table lo hi ≡ true
unfolding search
search_complete zero cp table lo hi i r s h f l k e a b = absurd (omega (arith, f))
search_complete (suc rounds) cp table lo hi i r s h f l k e a b =
    let mid : ℕ = lo + (hi - lo) / 2 in
    let inside : mid < hi = omega (arith, l, k) in
    let (m, n) = get_elem?_below table mid (omega (arith, inside, h)) in
    let nonempty : ltb lo hi ≡ true = ground (arith, l, k) in
    elim (Bool-cases (ltb cp m.lo)) [
      | inl below ↦
          rw (search, nonempty, n, below)
            (search_complete rounds cp table lo mid i r s (omega (arith, inside, h))
              (omega (arith, inside, f, l, k)) l
              (before_lem cp table i mid r m s e n a (ground (arith, below))) e a b)
      | inr not_below ↦ elim (Bool-cases (ltb m.hi cp)) [
        | inl above ↦
            rw (search, nonempty, n, not_below, above)
              (search_complete rounds cp table (mid + 1) hi i r s h (omega (arith, inside, f))
                (omega (arith, after_lem cp table i mid r m s e n b (ground (arith, above)))) k e a
                b)
        | inr not_above ↦ rw (search, nonempty, n, not_below, not_above) refl
      ]
    ]

-- On sorted ranges the search is true exactly where some range covers the code point.
pub in_ranges_iff :
    (cp : ℕ) (table : List Range)
    → IsSorted table
    → (in_ranges cp table ≡ true) ↔ IsCovered cp table
unfolding in_ranges
in_ranges_iff cp table s = (
  search_sound (suc (length table)) cp table 0 (length table),
  λ (i, r, e, a, b).
      search_complete (suc (length table)) cp table 0 (length table) i r s (omega arith)
        (omega arith) (omega arith) (get_elem?_within table i r e) e a b,
)
