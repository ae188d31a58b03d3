-- ===== src/Prefix/Tests.antt =====
-- The prefix cache at a concrete row.
use libmlxforge.Common.{
  ℕ, true, List, [], ◌∷◌, ◌*◌, ◌/◌, ◌-◌, ◌≤◌, ◌<◌, some, ◌≡◌, refl, inl, arith, length, take, drop,
  min,
}
use libmlxforge.Pool.Blocks.{KvBlock, BlockPool, new_pool, find}
use libmlxforge.Pool.Recency.{Entry}
use libmlxforge.Pool.Refines.{Represents}
use libmlxforge.Prefix.Cache.{PrefixCacheConfig, Match, keys, seal, harvest, match_}
use libmlxforge.Prefix.Harvest.{AllEntries, AllSealedKeys, harvest-Represents, match-harvest}
use libmlxforge.Prefix.Keys.{AllHeld, AllMatched}
use libmlxforge.Prefix.Match.{no_spill, match_bounds}

abbrev cfg : PrefixCacheConfig
cfg = record {
  enabled = true;
  block_size = 2;
  pool_bytes = 0;
  salt = 11;
  spill_dir = [];
  spill_bytes = 0;
}

-- An array is a list of bytes, one for a position.
abbrev slice_seq : List ℕ → ℕ → ℕ → List ℕ
slice_seq c start stop = take (stop - start) (drop start c)

abbrev fetch : ℕ → List (List ℕ) × List (List ℕ)
fetch l = ((1 ∷ 2 ∷ 3 ∷ 4 ∷ 5 ∷ []) ∷ [], (6 ∷ 7 ∷ 8 ∷ 9 ∷ 10 ∷ []) ∷ [])

abbrev tokens : List ℕ
tokens = (40 ∷ 41 ∷ 42 ∷ 43 ∷ 44 ∷ [])

abbrev prompt : List ℕ
prompt = (40 ∷ 41 ∷ 42 ∷ 43 ∷ 50 ∷ 51 ∷ [])

-- Each block is of four bytes.
abbrev FourBytes : ℕ → KvBlock (List ℕ) → Type 0
FourBytes h b = b.bytes ≡ 4

empty-Represents : Represents (new_pool {A = List ℕ} 0) []
unfolding find
empty-Represents = record {
  order = refl;
  same = λ h. refl;
  counted = refl;
  distinct = tt;
  within = inl refl;
}

empty-AllEntries : AllEntries FourBytes []
unfolding find
empty-AllEntries h b e = ground arith

row-AllSealedKeys :
    AllSealedKeys FourBytes
      (seal length slice_seq 2 1 fetch)
      0
      (keys 2 (min 5 (length tokens) / 2) 11 tokens)
unfolding seal keys
row-AllSealedKeys = (refl, (refl, tt))

harvest-Represents_example :
    (q : BlockPool (List ℕ)) × (ev : List (Entry (List ℕ))) × (es' : List (Entry (List ℕ)))
    × (harvest length slice_seq cfg (new_pool 0) tokens 5 1 fetch ≡ some (q, ev))
    × Represents q es'
    × AllEntries FourBytes es'
    × ((new_pool {A = List ℕ} 0).budget ≡ 0
        → AllHeld es' (keys 2 (min 5 (length tokens) / 2) 11 tokens))
harvest-Represents_example =
    harvest-Represents length slice_seq FourBytes cfg (new_pool 0) [] tokens 5 1 fetch
      empty-Represents empty-AllEntries row-AllSealedKeys

match-harvest_example :
    (q : BlockPool (List ℕ)) × (ev : List (Entry (List ℕ))) × (m : Match (List ℕ)) × (q' : BlockPool
      (List ℕ))
    × (harvest length slice_seq cfg (new_pool 0) tokens 5 1 fetch ≡ some (q, ev))
    × (match_ cfg no_spill q prompt ≡ some (m, q', []))
    × (min (2 * 2) (length prompt - 1) ≤ m.tokens)
    × AllMatched FourBytes (keys 2 (length prompt / 2) 11 prompt) m.blocks
match-harvest_example =
    match-harvest length slice_seq FourBytes cfg (new_pool 0) [] tokens 5 1 fetch prompt 2
      (omega arith) refl empty-Represents empty-AllEntries row-AllSealedKeys (omega arith)
      (omega arith) refl

match_bounds_example :
    (m : Match (List ℕ)) × (q : BlockPool (List ℕ)) × (ev : List (Entry (List ℕ))) × (es' : List
      (Entry (List ℕ)))
    × (match_ cfg no_spill (new_pool 0) prompt ≡ some (m, q, ev))
    × Represents q es'
    × (m.tokens < length prompt)
    × (m.tokens ≤ length m.blocks * 2)
    × (length m.blocks * 2 ≤ length prompt)
match_bounds_example =
    match_bounds no_spill cfg (new_pool 0) [] prompt (omega arith) (λ e. ground (arith, e))
      empty-Represents
