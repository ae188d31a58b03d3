-- ===== src/Token/Merge.antt =====
-- src/tokenizer/bpe.cpp, `bpe_piece`: the merge loop ends, keeps the text, and stays in the vocabulary.
use libmlxforge.Common.{
  ℕ, ◌≤◌, ◌<◌, true, ◌&&◌, List, [], ◌∷◌, ◌++◌, Option, none, some, Bytes, length, ltb,
  if◌then◌else◌, ◌≡◌, refl, sym, ◌∙◌, ap, arith, Bool-cases, inl, inr, ◌⊎◌, append_assoc,
}
use libmlxforge.Token.Bpe.{bytes_eq, lookup, Pair, best_from, merge_pair}

abbrev pub flat : List Bytes → Bytes
flat [] = []
flat (s ∷ l) = s ++ flat l

pub bytes_eq_sound : (a b : Bytes) → bytes_eq a b ≡ true → a ≡ b
bytes_eq_sound [] [] e = refl
bytes_eq_sound [] (y ∷ b) e = ground arith
bytes_eq_sound (x ∷ a) [] e = ground arith
bytes_eq_sound (x ∷ a) (y ∷ b) e = ground (arith, bytes_eq_sound a b)

pub bytes_eq_refl : (a : Bytes) → bytes_eq a a ≡ true
bytes_eq_refl [] = refl
bytes_eq_refl (x ∷ a) = ground (arith, bytes_eq_refl a)

pub bytes_eq_same : (a b : Bytes) → a ≡ b → bytes_eq a b ≡ true
bytes_eq_same a b p = ap (bytes_eq a) (sym p) ∙ bytes_eq_refl a

-- A merge keeps the text.
pub flat-merge_pair : (a b : Bytes) (l : List Bytes) → flat (merge_pair a b l) ≡ flat l
unfolding merge_pair
flat-merge_pair a b [] = refl
flat-merge_pair a b (x ∷ []) = refl
flat-merge_pair a b (x ∷ y ∷ l) = elim (Bool-cases (bytes_eq x a && bytes_eq y b)) [
  | inr e ↦ rw e (ap (λ t. x ++ t) (flat-merge_pair a b (y ∷ l)))
  | inl e ↦
      let here : a ≡ x = sym (bytes_eq_sound x a (ground (arith, e))) in
      let there : b ≡ y = sym (bytes_eq_sound y b (ground (arith, e))) in
      rw e (
        ap (λ t. (a ++ b) ++ t) (flat-merge_pair a b l)
        ∙ append_assoc a b (flat l)
        ∙ ap (λ t. t ++ (b ++ flat l)) here
        ∙ ap (λ t. x ++ (t ++ flat l)) there)
]

length-merge_pair : (a b : Bytes) (l : List Bytes) → length (merge_pair a b l) ≤ length l
unfolding merge_pair
length-merge_pair a b [] = omega arith
length-merge_pair a b (x ∷ []) = omega arith
length-merge_pair a b (x ∷ y ∷ l) =
    ground (arith, length-merge_pair a b l, length-merge_pair a b (y ∷ l))

-- The pair stands somewhere, side by side.
abbrev pub IsAdjacent : Bytes → Bytes → List Bytes → Type 0
IsAdjacent a b [] = ⊥
IsAdjacent a b (x ∷ []) = ⊥
IsAdjacent a b (x ∷ y ∷ l) = ((x ≡ a) × (y ≡ b)) ⊎ IsAdjacent a b (y ∷ l)

pub shorter_merge_pair :
    (a b : Bytes) (l : List Bytes) → IsAdjacent a b l → length (merge_pair a b l) < length l
unfolding merge_pair
shorter_merge_pair a b [] h = absurd h
shorter_merge_pair a b (x ∷ []) h = absurd h
shorter_merge_pair a b (x ∷ y ∷ l) h = elim (Bool-cases (bytes_eq x a && bytes_eq y b)) [
  | inl e ↦ rw e (omega (arith, length-merge_pair a b l))
  | inr e ↦ elim h [
    | inl (p, q) ↦ absurd (ground (arith, e, bytes_eq_same x a p, bytes_eq_same y b q))
    | inr k ↦ rw e (omega (arith, shorter_merge_pair a b (y ∷ l) k))
  ]
]

abbrev pub key : Bytes → Bytes → Bytes
key a b = a ++ (b' ' ∷ b)

-- What the scan keeps at one pair, of rank `o`.
abbrev better : Option ℕ → Option Pair → Bytes → Bytes → Option Pair
better o best a b = elim o [
  | none ↦ best
  | some r ↦ elim best [
    | none ↦ some (record { rank = r; left = a; right = b })
    | some p ↦ if ltb r p.rank then some (record { rank = r; left = a; right = b }) else some p
  ]
]

-- The pair has this rank.
abbrev pub IsRanked : List (Bytes × ℕ) → Pair → Type 0
IsRanked ranks p = lookup (key p.left p.right) ranks ≡ some p.rank

-- A rank is not below that of the best pair, if there is one.
abbrev pub AtLeast : ℕ → Option Pair → Type 0
AtLeast r none = ⊥
AtLeast r (some p) = p.rank ≤ r

some_injective : {A : Type 0} (a b : A) → some a ≡ some b → a ≡ b
some_injective a b e = cc

-- It is the old one or this one, and of no higher rank than either.
better_lem :
    (ranks : List (Bytes × ℕ)) (o : Option ℕ) (best : Option Pair) (a b : Bytes)
    → lookup (key a b) ranks ≡ o
    → ((better o best a b ≡ best)
        ⊎ ((p : Pair) × (better o best a b ≡ some p)
            × (p.left ≡ a)
            × (p.right ≡ b)
            × IsRanked ranks p))
      × ((r : ℕ) → o ≡ some r → AtLeast r (better o best a b))
      × ((r : ℕ) → AtLeast r best → AtLeast r (better o best a b))
better_lem ranks none best a b e = (inl refl, (λ r f. cc), λ r h. h)
better_lem ranks (some k) none a b e = (
  inr (record { rank = k; left = a; right = b }, refl, refl, refl, e),
  (λ r f. omega (arith, some_injective k r f)),
  λ r h. absurd h,
)
better_lem ranks (some k) (some p) a b e = elim (Bool-cases (ltb k p.rank)) [
  | inl t ↦ rw t (
    inr (record { rank = k; left = a; right = b }, refl, refl, refl, e),
    (λ r f. omega (arith, some_injective k r f)),
    λ r h. ground (arith, t, h),
  )
  | inr t ↦ rw t (inl refl, (λ r f. ground (arith, t, some_injective k r f)), λ r h. h)
]

best_step :
    (ranks : List (Bytes × ℕ)) (best : Option Pair) (x y : Bytes) (l : List Bytes)
    (res : Option Pair)
    → ((better (lookup (key x y) ranks) best x y ≡ best)
        ⊎ ((p : Pair) × (better (lookup (key x y) ranks) best x y ≡ some p)
            × (p.left ≡ x)
            × (p.right ≡ y)
            × IsRanked ranks p))
    → ((res ≡ better (lookup (key x y) ranks) best x y)
        ⊎ ((p : Pair) × (res ≡ some p) × IsAdjacent p.left p.right (y ∷ l) × IsRanked ranks p))
    → (res ≡ best)
      ⊎ ((p : Pair) × (res ≡ some p) × IsAdjacent p.left p.right (x ∷ y ∷ l) × IsRanked ranks p)
best_step ranks best x y l res c (inr (p, e, a, k)) = inr (p, e, inr a, k)
best_step ranks best x y l res (inl c) (inl g) = inl (g ∙ c)
best_step ranks best x y l res (inr (p, e, u, v, k)) (inl g) = inr (p, g ∙ e, inl (sym u, sym v), k)

-- The scan finds a pair that stands in the list and is ranked, and no ranked pair of it is lower.
pub best_from_lem :
    (ranks : List (Bytes × ℕ)) (best : Option Pair) (l : List Bytes)
    → ((best_from ranks best l ≡ best)
        ⊎ ((p : Pair) × (best_from ranks best l ≡ some p)
            × IsAdjacent p.left p.right l
            × IsRanked ranks p))
      × ((a b : Bytes) (r : ℕ)
          → IsAdjacent a b l
          → lookup (key a b) ranks ≡ some r
          → AtLeast r (best_from ranks best l))
      × ((r : ℕ) → AtLeast r best → AtLeast r (best_from ranks best l))
unfolding best_from
best_from_lem ranks best [] = (inl refl, (λ a b r h. absurd h), λ r h. h)
best_from_lem ranks best (x ∷ []) = (inl refl, (λ a b r h. absurd h), λ r h. h)
best_from_lem ranks best (x ∷ y ∷ l) =
    let (c, d, f) = better_lem ranks (lookup (key x y) ranks) best x y refl in
    let (g, h, i) = best_from_lem ranks (better (lookup (key x y) ranks) best x y) (y ∷ l) in
    (
      best_step ranks best x y l (best_from ranks best (x ∷ y ∷ l)) c g,
      (λ a b r j e. elim j [
        | inl (p, q) ↦
            i r (d r (ap (λ t. lookup (key t y) ranks) p ∙ ap (λ t. lookup (key a t) ranks) q ∙ e))
        | inr k ↦ h a b r k e
      ]),
      λ r k. i r (f r k),
    )
