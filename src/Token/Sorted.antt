-- ===== src/Token/Sorted.antt =====
-- src/tokenizer/bpe.cpp, `from_gguf`: the literals in their order.
use libmlxforge.Common.{
  ℕ, zero, suc, ◌≤◌, ◌<◌, Bool, true, false, List, [], ◌∷◌, some, Bytes, length, get_elem?, leb,
  if◌then◌else◌, ◌≡◌, ap, arith, Bool-cases, inl, inr, ◌⊎◌,
}
use libmlxforge.Token.FromGguf.{sort_longest, insert_longest}
use libmlxforge.Token.Cut.{IsIn}

some_entry : (a b : Bytes × ℕ) → some a ≡ some b → a ≡ b
some_entry a b e = cc

one_of {ℓ κ} :
    {A : Type ℓ} (P : A → Type κ) (b : Bool) (x y : A) → P (if b then x else y) → P x ⊎ P y
one_of P true x y h = inl h
one_of P false x y h = inr h

IsIn-insert_longest :
    (lit l : Bytes) (id n : ℕ) (m : List (Bytes × ℕ))
    → IsIn lit id (insert_longest (l, n) m)
    → IsIn lit id ((l, n) ∷ m)
unfolding insert_longest
IsIn-insert_longest lit l id n [] i = i
IsIn-insert_longest lit l id n (x ∷ m) i =
    elim (one_of (IsIn lit id) (leb (length x.0) (length l)) ((l, n) ∷ x ∷ m)
      (x ∷ insert_longest (l, n) m) i) [
        | inl j ↦ j
        | inr (inl j) ↦ inr (inl j)
        | inr (inr j) ↦ elim (IsIn-insert_longest lit l id n m j) [
          | inl k ↦ inl k
          | inr k ↦ inr (inr k)
        ]
      ]

pub IsIn-sort_longest :
    (lit : Bytes) (id : ℕ) (m : List (Bytes × ℕ)) → IsIn lit id (sort_longest m) → IsIn lit id m
unfolding sort_longest
IsIn-sort_longest lit id [] i = i
IsIn-sort_longest lit id ((l, n) ∷ m) i = elim (IsIn-insert_longest lit l id n (sort_longest m) i) [
  | inl k ↦ inl k
  | inr k ↦ inr (IsIn-sort_longest lit id m k)
]

-- The longest literal comes first.
abbrev pub IsLongestFirst : List (Bytes × ℕ) → Type 0
IsLongestFirst m =
    (i j : ℕ) (a b : Bytes × ℕ)
    → i < j
    → get_elem? m i ≡ some a
    → get_elem? m j ≡ some b
    → length b.0 ≤ length a.0

abbrev Below : ℕ → List (Bytes × ℕ) → Type 0
Below n [] = Unit
Below n (x ∷ m) = (length x.0 ≤ n) × Below n m

abbrev Falling : List (Bytes × ℕ) → Type 0
Falling [] = Unit
Falling (x ∷ m) = Below (length x.0) m × Falling m

Below-larger : (a b : ℕ) (m : List (Bytes × ℕ)) → a ≤ b → Below a m → Below b m
Below-larger a b [] l h = tt
Below-larger a b (x ∷ m) l h = (omega (arith, l, h.0), Below-larger a b m l h.1)

Below-insert_longest :
    (k : ℕ) (e : Bytes × ℕ) (m : List (Bytes × ℕ))
    → length e.0 ≤ k
    → Below k m
    → Below k (insert_longest e m)
unfolding insert_longest
Below-insert_longest k e [] l h = (l, tt)
Below-insert_longest k e (x ∷ m) l h = elim (Bool-cases (leb (length x.0) (length e.0))) [
  | inl t ↦ rw (Below, insert_longest, t) (l, (h.0, h.1))
  | inr t ↦ rw (Below, insert_longest, t) (h.0, Below-insert_longest k e m l h.1)
]

Falling-insert_longest :
    (e : Bytes × ℕ) (m : List (Bytes × ℕ)) → Falling m → Falling (insert_longest e m)
unfolding insert_longest
Falling-insert_longest e [] h = (tt, tt)
Falling-insert_longest e (x ∷ m) h = elim (Bool-cases (leb (length x.0) (length e.0))) [
  | inl t ↦
      rw (Falling, insert_longest, t)
        ((ground (arith, t), Below-larger (length x.0) (length e.0) m (ground (arith, t)) h.0), h)
  | inr t ↦
      rw (Falling, insert_longest, t)
        (
          Below-insert_longest (length x.0) e m (ground (arith, t)) h.0,
          Falling-insert_longest e m h.1,
        )
]

pub Falling-sort_longest : (m : List (Bytes × ℕ)) → Falling (sort_longest m)
unfolding sort_longest
Falling-sort_longest [] = tt
Falling-sort_longest (e ∷ m) = Falling-insert_longest e (sort_longest m) (Falling-sort_longest m)

Below-get_elem? :
    (k j : ℕ) (b : Bytes × ℕ) (m : List (Bytes × ℕ))
    → Below k m
    → get_elem? m j ≡ some b
    → length b.0 ≤ k
Below-get_elem? k j b [] h e = absurd (ground (arith, e))
Below-get_elem? k zero b (x ∷ m) h e =
    let same : x ≡ b = some_entry x b e in omega (arith, h.0, ap (λ y. length y.0) same)
Below-get_elem? k (suc j) b (x ∷ m) h e = Below-get_elem? k j b m h.1 e

pub Falling_lem : (m : List (Bytes × ℕ)) → Falling m → IsLongestFirst m
Falling_lem [] f i j a b l e g = absurd (ground (arith, e))
Falling_lem (x ∷ m) f i zero a b l e g = absurd (omega (arith, l))
Falling_lem (x ∷ m) f zero (suc j) a b l e g =
    let same : x ≡ a = some_entry x a e in
    omega (arith, Below-get_elem? (length x.0) j b m f.0 g, ap (λ y. length y.0) same)
Falling_lem (x ∷ m) f (suc i) (suc j) a b l e g = Falling_lem m f.1 i j a b (omega (arith, l)) e g

IsIn-insert_front :
    (lit : Bytes) (id : ℕ) (e : Bytes × ℕ) (m : List (Bytes × ℕ))
    → IsIn lit id (e ∷ m)
    → IsIn lit id (insert_longest e m)
unfolding insert_longest
IsIn-insert_front lit id e [] i = i
IsIn-insert_front lit id e (x ∷ m) i = elim (Bool-cases (leb (length x.0) (length e.0))) [
  | inl t ↦ rw (insert_longest, t) i
  | inr t ↦
      rw (insert_longest, t)
        (elim i [
          | inl j ↦ inr (IsIn-insert_front lit id e m (inl j))
          | inr (inl j) ↦ inl j
          | inr (inr j) ↦ inr (IsIn-insert_front lit id e m (inr j))
        ])
]

pub IsIn-sorted :
    (lit : Bytes) (id : ℕ) (m : List (Bytes × ℕ)) → IsIn lit id m → IsIn lit id (sort_longest m)
unfolding sort_longest
IsIn-sorted lit id [] i = i
IsIn-sorted lit id (e ∷ m) (inl j) = IsIn-insert_front lit id e (sort_longest m) (inl j)
IsIn-sorted lit id (e ∷ m) (inr j) =
    IsIn-insert_front lit id e (sort_longest m) (inr (IsIn-sorted lit id m j))
