-- ===== src/Pool/Tests.antt =====
-- The pool at concrete blocks.
use libmlxforge.Common.{ℕ, List, [], ◌∷◌, ◌++◌, some, ◌≡◌, refl, inr, ◌⊎◌, arith}
use mathlib.Core.List.{reverse}
use libmlxforge.Pool.Blocks.{KvBlock, BlockPool, find, get, contains, insert, is_some, chain_hash}
use libmlxforge.Pool.Recency.{Entry, touch}
use libmlxforge.Pool.Refines.{Represents, get-Represents, insert-Represents, stored}

abbrev block : ℕ → KvBlock ℕ
block n = record { k = (n ∷ []) ∷ []; v = (n ∷ []) ∷ []; bytes = n }

abbrev entries : List (Entry ℕ)
entries = (7, block 3) ∷ (9, block 4) ∷ []

abbrev pool : BlockPool ℕ
pool = record { lru = (7 ∷ 9 ∷ []); map_ = entries; budget = 8; bytes = 7 }

pool-Represents : Represents pool entries
unfolding find
pool-Represents = record {
  order = refl;
  same = λ h. refl;
  counted = refl;
  distinct = (refl, (refl, tt));
  within = inr (omega arith);
}

get-Represents_example :
    Represents (get pool 9).0 (touch 9 entries)
    × ((get pool 9).1 ≡ find 9 entries)
    × (contains pool 9 ≡ is_some (find 9 entries))
get-Represents_example = get-Represents pool entries 9 pool-Represents

insert-Represents_example :
    (q : BlockPool ℕ) × (ev : List (Entry ℕ)) × (insert pool 5 (block 2) ≡ some (q, ev))
    × Represents q (stored 8 5 (block 2) entries)
    × (((ev ≡ []) × (stored 8 5 (block 2) entries ≡ entries))
        ⊎ (stored 8 5 (block 2) entries ++ reverse ev ≡ (5, block 2) ∷ entries))
insert-Represents_example = insert-Represents pool entries 5 (block 2) pool-Represents

-- The least recent entry makes room.
stored_evicts : stored 8 5 (block 2) entries ≡ (5, block 2) ∷ (7, block 3) ∷ []
unfolding find
stored_evicts = refl

-- FNV-1a of one zero byte after the eight bytes of a seed.
chain_hash_moves : chain_hash 0 [] ≡ 12161962213042174405
unfolding chain_hash mathlib.Core.List.flat_map
chain_hash_moves = refl
