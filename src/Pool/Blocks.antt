-- ===== src/Pool/Blocks.antt =====
-- src/cache/block_pool.h and block_pool.cpp: the chained hash, the block and the pool. Arrays are
-- MLX's: their type is a parameter, with `nbytes`. `lru_` is a list whose head is its front, and an
-- entry's iterator `lru_it` is the place of the entry's hash in it. The map holds one entry for a
-- key. `bytes_` is a number that does not wrap. The calls of `on_evict_` are returned in order.
use Prim.Native.Nat.{bit_xor}
use mathlib.Core.List.{reverse, flat_map}
use libmlxforge.Common.{
  ℕ, zero, suc, ◌+◌, ◌-◌, ◌*◌, ◌/◌, ◌%◌, ◌^◌, Bool, true, false, ◌&&◌, not, List, [], ◌∷◌, Option,
  none, some, Bytes, ltb, ◌==◌, if◌then◌else◌,
}

abbrev pub u64_mod : ℕ
u64_mod = 2 ^ 64

-- FNV-1a: the byte is mixed in, and the product wraps at 64 bits.
unfoldable pub fnv1a : Bytes → ℕ → ℕ
fnv1a [] h = h
fnv1a (p ∷ ps) h = fnv1a ps (bit_xor h p * 1099511628211 % u64_mod)

-- The bytes of a word in memory, little-endian.
unfoldable pub word_bytes : ℕ → ℕ → Bytes
word_bytes zero x = []
word_bytes (suc n) x = (x % 256) ∷ word_bytes n (x / 256)

abbrev pub offset_basis : ℕ
offset_basis = 14695981039346656037

-- A token id is its 32-bit pattern.
unfoldable pub chain_hash : ℕ → List ℕ → ℕ
unfolding fnv1a word_bytes
chain_hash prev ids =
    fnv1a (flat_map (λ id. word_bytes 4 id) ids) (fnv1a (word_bytes 8 prev) offset_basis)

pub record KvBlock {ℓ} (A : Type ℓ) : Type ℓ where
  pub k : List (List A)
  pub v : List (List A)
  pub bytes : ℕ

module _ {ℓ} {A : Type ℓ} (nbytes : A → ℕ) where
  abbrev sum_layer : List A → ℕ
  sum_layer [] = 0
  sum_layer (c ∷ cs) = nbytes c + sum_layer cs

  abbrev sum_layers : List (List A) → ℕ
  sum_layers [] = 0
  sum_layers (l ∷ ls) = sum_layer l + sum_layers ls

  unfoldable pub block_bytes : KvBlock A → ℕ
  block_bytes b = sum_layers b.k + sum_layers b.v

module _ {ℓ} {B : Type ℓ} where
  -- The hash map.
  unfoldable pub find : ℕ → List (ℕ × B) → Option B
  find h [] = none
  find h ((j, b) ∷ m) = if j == h then some b else find h m

  unfoldable pub erase : ℕ → List (ℕ × B) → List (ℕ × B)
  erase h [] = []
  erase h ((j, b) ∷ m) = if j == h then erase h m else (j, b) ∷ erase h m

abbrev pub is_some {ℓ} : {A : Type ℓ} → Option A → Bool
is_some none = false
is_some (some a) = true

-- `lru_.splice(lru_.begin(), lru_, it)` takes the hash out of its place.
unfoldable pub unlink : ℕ → List ℕ → List ℕ
unlink h [] = []
unlink h (j ∷ l) = if j == h then l else j ∷ unlink h l

pub record BlockPool {ℓ} (A : Type ℓ) : Type ℓ where
  pub lru : List ℕ
  pub map_ : List (ℕ × KvBlock A)
  pub budget : ℕ
  pub bytes : ℕ

module _ {ℓ} {A : Type ℓ} where
  abbrev pub new_pool : ℕ → BlockPool A
  new_pool budget = record { lru = []; map_ = []; budget = budget; bytes = 0 }

  unfoldable pub get : BlockPool A → ℕ → BlockPool A × Option (KvBlock A)
  unfolding find unlink
  get p hash = elim (find hash p.map_) [
    | none ↦ (p, none)
    | some b ↦ (record p { lru = hash ∷ unlink hash p.lru }, some b)
  ]

  unfoldable pub contains : BlockPool A → ℕ → Bool
  unfolding find
  contains p hash = is_some (find hash p.map_)

  -- The loop of `evict_to_budget`, over the hashes from the back of the list. A victim that the
  -- map does not hold would be a read through the map's end: `none`.
  unfoldable pub evict_from :
      List ℕ → BlockPool A → List (ℕ × KvBlock A) → Option (BlockPool A × List (ℕ × KvBlock A))
  unfolding find erase
  evict_from [] p out = some (record p { lru = [] }, reverse out)
  evict_from (victim ∷ l) p out =
      if ltb p.budget p.bytes
      then elim (find victim p.map_) [
        | none ↦ none
        | some b ↦
            evict_from l (record p { bytes = p.bytes - b.bytes; map_ = erase victim p.map_ })
              ((victim, b) ∷ out)
      ]
      else some (record p { lru = reverse (victim ∷ l) }, reverse out)

  unfoldable pub evict_to_budget : BlockPool A → Option (BlockPool A × List (ℕ × KvBlock A))
  unfolding evict_from
  evict_to_budget p = if p.budget == 0 then some (p, []) else evict_from (reverse p.lru) p []

  unfoldable pub insert : BlockPool A → ℕ → KvBlock A → Option (BlockPool A × List (ℕ × KvBlock A))
  unfolding evict_to_budget find
  insert p hash block =
      if is_some (find hash p.map_)
      then some (p, [])
      else if not (p.budget == 0) && ltb p.budget block.bytes
      then some (p, [])
      else evict_to_budget (record p {
        lru = hash ∷ p.lru;
        bytes = p.bytes + block.bytes;
        map_ = (hash, block) ∷ p.map_;
      })
