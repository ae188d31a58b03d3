-- ===== src/Cache/Arrays.antt =====
-- The arrays of MLX as src/cache uses them, an interface: an array of axes (rows, heads, sequence,
-- width) is its rows, a row is its slots along the sequence, and a slot holds what the other axes do.
use libmlxforge.Common.{
  ℕ, ◌+◌, ◌-◌, ◌≤◌, ◌<◌, List, [], ◌∷◌, ◌++◌, none, some, map, length, replicate, take, drop,
  get_elem?, ◌≡◌,
}

pub record ArrayLib (A S : Type 0) : Type 0 where
  pub rows : A → List (List S)
  -- The sizes of axis 0 and axis 2.
  pub batch_size : A → ℕ
  pub seq : A → ℕ
  -- Zeros with so many rows and slots, else shaped like an array.
  pub zeros : ℕ → ℕ → A → A
  pub zero_slot : A → S
  -- Rows of zeros, else shaped like an array.
  pub zero_rows : ℕ → A → A
  -- The slots from one to before another.
  pub slice_seq : A → ℕ → ℕ → A
  -- An array with another written over its slots from a position on.
  pub slice_update : A → A → ℕ → A
  pub concat_rows : A → A → A
  pub concat_seq : A → A → A
  -- Zeros before and behind.
  pub pad : A → ℕ → ℕ → A
  -- The rows at these indices.
  pub take_rows : A → List ℕ → A

module _ {X : Type 0} where
  abbrev pub AllLength : ℕ → List (List X) → Type 0
  AllLength n [] = Unit
  AllLength n (r ∷ l) = (length r ≡ n) × AllLength n l

  abbrev pub zip_rows : (X → X → X) → List X → List X → List X
  zip_rows f [] ys = []
  zip_rows f (x ∷ xs) [] = []
  zip_rows f (x ∷ xs) (y ∷ ys) = f x y ∷ zip_rows f xs ys

  abbrev pub picks : List X → List ℕ → List X
  picks l [] = []
  picks l (i ∷ is) = elim (get_elem? l i) [ none ↦ picks l is | some x ↦ x ∷ picks l is ]

abbrev pub AllBelow : ℕ → List ℕ → Type 0
AllBelow n [] = Unit
AllBelow n (i ∷ is) = (i < n) × AllBelow n is

-- The array has `b` rows of `n` slots.
pub record IsRect {A S : Type 0} (lib : ArrayLib A S) (b n : ℕ) (a : A) : Type 0 where
  pub count : length (lib.rows a) ≡ b
  pub widths : AllLength n (lib.rows a)

-- What MLX documents of these operations.
pub record ArrayLaws {A S : Type 0} (lib : ArrayLib A S) : Type 0 where
  pub batch_size : (a : A) → lib.batch_size a ≡ length (lib.rows a)
  pub seq : (a : A) (b n : ℕ) → IsRect lib b n a → 0 < b → lib.seq a ≡ n
  pub zeros :
      (b n : ℕ) (a : A) → lib.rows (lib.zeros b n a) ≡ replicate b (replicate n (lib.zero_slot a))
  pub zero_rows :
      (a : A) (d b n : ℕ)
      → IsRect lib b n a
      → 0 < b
      → lib.rows (lib.zero_rows d a) ≡ replicate d (replicate n (lib.zero_slot a))
  pub slice_seq :
      (a : A) (b n from to : ℕ)
      → IsRect lib b n a
      → from ≤ to
      → to ≤ n
      → lib.rows (lib.slice_seq a from to) ≡ map (λ r. take (to - from) (drop from r)) (lib.rows a)
  pub slice_update :
      (a x : A) (b n k p : ℕ)
      → IsRect lib b n a
      → IsRect lib b k x
      → p + k ≤ n
      → lib.rows (lib.slice_update a x p)
        ≡ zip_rows (λ r s. take p r ++ (s ++ drop (p + k) r)) (lib.rows a) (lib.rows x)
  pub concat_rows :
      (a x : A) (b d n : ℕ)
      → IsRect lib b n a
      → IsRect lib d n x
      → lib.rows (lib.concat_rows a x) ≡ lib.rows a ++ lib.rows x
  pub concat_seq :
      (a x : A) (b n k : ℕ)
      → IsRect lib b n a
      → IsRect lib b k x
      → lib.rows (lib.concat_seq a x) ≡ zip_rows (λ r s. r ++ s) (lib.rows a) (lib.rows x)
  pub pad :
      (a : A) (left right : ℕ)
      → lib.rows (lib.pad a left right)
        ≡ map
            (λ r. replicate left (lib.zero_slot a) ++ (r ++ replicate right (lib.zero_slot a)))
            (lib.rows a)
  pub take_rows :
      (a : A) (is : List ℕ)
      → AllBelow (length (lib.rows a)) is
      → lib.rows (lib.take_rows a is) ≡ picks (lib.rows a) is
