-- ===== src/Serve/Bucket.antt =====
-- src/runtime/batching.cpp, `next_bucket`: the batch size that a decode step is padded to.
use libmlxforge.Common.{
  ℕ, ◌+◌, ◌*◌, ◌/◌, ◌%◌, ◌≤◌, ◌<◌, List, [], ◌∷◌, leb, if◌then◌else◌, ◌≡◌, ◌⊎◌, arith,
}

-- The loop over the fixed sizes, and what follows it.
unfoldable pub bucket_in : List ℕ → ℕ → ℕ
bucket_in [] n = (n + 31) / 32 * 32
bucket_in (b ∷ bs) n = let rest = bucket_in bs n in if leb n b then b else rest

unfoldable pub next_bucket : ℕ → ℕ
unfolding bucket_in
next_bucket n = bucket_in (1 ∷ 2 ∷ 4 ∷ 8 ∷ 16 ∷ 32 ∷ []) n

-- The sizes in use.
abbrev pub IsBucket : ℕ → Type 0
IsBucket b = (b ≡ 1) ⊎ (b ≡ 2) ⊎ (b ≡ 4) ⊎ (b ≡ 8) ⊎ (b ≡ 16) ⊎ ((0 < b) × (b % 32 ≡ 0))

next_bucket-IsBucket : (n : ℕ) → IsBucket (next_bucket n)
unfolding next_bucket
next_bucket-IsBucket n = ground arith

next_bucket_above : (n : ℕ) → n ≤ next_bucket n
unfolding next_bucket
next_bucket_above n = ground arith

next_bucket_least : (n b : ℕ) → IsBucket b → n ≤ b → next_bucket n ≤ b
unfolding next_bucket
next_bucket_least n b i l = ground arith

-- The bucket of `n` is the least size in use that is not below `n`.
pub next_bucket_lem :
    (n : ℕ)
    → IsBucket (next_bucket n)
      × (n ≤ next_bucket n)
      × ((b : ℕ) → IsBucket b → n ≤ b → next_bucket n ≤ b)
next_bucket_lem n = (next_bucket-IsBucket n, next_bucket_above n, next_bucket_least n)
