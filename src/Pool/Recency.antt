-- ===== src/Pool/Recency.antt =====
-- What the pool of src/cache/block_pool.h promises: a list of entries, the most recent first.
use libmlxforge.Common.{ℕ, ◌+◌, ◌-◌, List, [], ◌∷◌, none, some, ◌≡◌, leb, ◌==◌, if◌then◌else◌, map}
use libmlxforge.Pool.Blocks.{KvBlock, find}

abbrev pub Entry {ℓ} : Type ℓ → Type ℓ
Entry A = ℕ × KvBlock A

module _ {ℓ} {A : Type ℓ} where
  abbrev pub total : List (Entry A) → ℕ
  total [] = 0
  total ((h, b) ∷ es) = b.bytes + total es

  abbrev pub hashes : List (Entry A) → List ℕ
  hashes = map (λ e. e.0)

  -- No hash stands twice.
  abbrev pub IsDistinct : List (Entry A) → Type ℓ
  IsDistinct [] = Unit
  IsDistinct ((h, b) ∷ es) = (find h es ≡ none) × IsDistinct es

  abbrev pub without : ℕ → List (Entry A) → List (Entry A)
  without h [] = []
  without h ((j, b) ∷ es) = if j == h then es else (j, b) ∷ without h es

  -- A hit goes to the front.
  abbrev pub touch : ℕ → List (Entry A) → List (Entry A)
  touch h es = elim (find h es) [ none ↦ es | some b ↦ (h, b) ∷ without h es ]

  -- The longest run of the most recent entries that fits into `room` bytes, and the rest.
  abbrev pub keep : ℕ → List (Entry A) → List (Entry A)
  keep room [] = []
  keep room ((h, b) ∷ es) =
      let rest = (h, b) ∷ keep (room - b.bytes) es in if leb b.bytes room then rest else []
