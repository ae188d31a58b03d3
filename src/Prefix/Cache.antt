-- ===== src/Prefix/Cache.antt =====
-- src/cache/prefix_cache.h and prefix_cache.cpp: `match` and `harvest` over the block pool. The
-- hook `on_miss_` is a function, `none` everywhere where it is not set: what the second level
-- answers is taken as fixed during one call. Arrays are MLX's, and so are `slice` (the contiguous
-- slice from one position to another) and `nbytes`. Sizes are unbounded and fit `int`. The blocks handed to the pool's evict
-- hook are returned in order, and `none` is the pool's fault.
use libmlxforge.Common.{
  ℕ, zero, suc, ◌+◌, ◌-◌, ◌*◌, ◌/◌, Bool, List, [], ◌∷◌, ◌++◌, Option, none, some, if◌then◌else◌,
  length, take, drop, min, map, Bytes,
}
use libmlxforge.Pool.Blocks.{KvBlock, BlockPool, chain_hash, get, contains, insert, block_bytes}

pub record PrefixCacheConfig : Type 0 where
  pub enabled : Bool
  pub block_size : ℕ
  pub pool_bytes : ℕ
  pub salt : ℕ
  pub spill_dir : Bytes
  pub spill_bytes : ℕ

pub record Match (A : Type 0) : Type 0 where
  pub blocks : List (KvBlock A)
  pub tokens : ℕ

-- The keys of the first `n` blocks of `ids`, each chained onto the one before it.
unfoldable pub keys : ℕ → ℕ → ℕ → List ℕ → List ℕ
keys bs zero h ids = []
keys bs (suc n) h ids = let key = chain_hash h (take bs ids) in key ∷ keys bs n key (drop bs ids)

module _ {A : Type 0} where
  -- The pool's answer, or else the second level's, which goes back into the pool.
  unfoldable pub find_block :
      (ℕ → Option (KvBlock A))
      → BlockPool A
      → ℕ
      → Option (Option (KvBlock A) × BlockPool A × List (ℕ × KvBlock A))
  find_block on_miss p h = elim (get p h).1 [
    | some blk ↦ some (some blk, (get p h).0, [])
    | none ↦ elim (on_miss h) [
      | none ↦ some (none, (get p h).0, [])
      | some blk ↦ elim (insert (get p h).0 h blk) [
        | none ↦ none
        | some (q, ev) ↦ some (some blk, q, ev)
      ]
    ]
  ]

  -- The loop of `match`, over the keys.
  unfoldable pub match_keys :
      (ℕ → Option (KvBlock A))
      → List ℕ
      → BlockPool A
      → Option (List (KvBlock A) × BlockPool A × List (ℕ × KvBlock A))
  unfolding find_block
  match_keys on_miss [] p = some ([], p, [])
  match_keys on_miss (h ∷ hs) p = elim (find_block on_miss p h) [
    | none ↦ none
    | some (none, q, ev) ↦ some ([], q, ev)
    | some (some blk, q, ev) ↦ elim (match_keys on_miss hs q) [
      | none ↦ none
      | some (blks, r, ev') ↦ some (blk ∷ blks, r, ev ++ ev')
    ]
  ]

  unfoldable pub match_ :
      PrefixCacheConfig
      → (ℕ → Option (KvBlock A))
      → BlockPool A
      → List ℕ
      → Option (Match A × BlockPool A × List (ℕ × KvBlock A))
  unfolding match_keys keys
  match_ cfg on_miss p ids =
      elim (match_keys on_miss (keys cfg.block_size (length ids / cfg.block_size) cfg.salt ids) p) [
        | none ↦ none
        | some (blks, q, ev) ↦ some (
          record { blocks = blks; tokens = min (length blks * cfg.block_size) (length ids - 1) },
          q,
          ev,
        )
      ]

  -- The indices of the keys that the pool does not hold, from `b` on.
  unfoldable pub fresh_from : BlockPool A → ℕ → List ℕ → List (ℕ × ℕ)
  fresh_from p b [] = []
  fresh_from p b (h ∷ hs) =
      let rest = fresh_from p (suc b) hs in if contains p h then rest else (h, b) ∷ rest

  unfoldable pub insert_all :
      (ℕ → KvBlock A) → List (ℕ × ℕ) → BlockPool A → Option (BlockPool A × List (ℕ × KvBlock A))
  insert_all sealed [] p = some (p, [])
  insert_all sealed ((h, b) ∷ fs) p = elim (insert p h (sealed b)) [
    | none ↦ none
    | some (q, ev) ↦ elim (insert_all sealed fs q) [
      | none ↦ none
      | some (r, ev') ↦ some (r, ev ++ ev')
    ]
  ]

  module _ (nbytes : A → ℕ) (slice : A → ℕ → ℕ → A) where
    -- The block from position `start` on, of the layers from `l` on.
    abbrev layers_at : (ℕ → List A × List A) → ℕ → ℕ → ℕ → ℕ → List (List A) × List (List A)
    layers_at fetch start stop l zero = ([], [])
    layers_at fetch start stop l (suc n) =
        let rest = layers_at fetch start stop (suc l) n in
        (
          map (λ c. slice c start stop) (fetch l).0 ∷ rest.0,
          map (λ c. slice c start stop) (fetch l).1 ∷ rest.1,
        )

    unfoldable pub seal : ℕ → ℕ → (ℕ → List A × List A) → ℕ → KvBlock A
    unfolding block_bytes
    seal bs n_layers fetch b =
        let (ks, vs) = layers_at fetch (b * bs) (b * bs + bs) 0 n_layers in
        let empty : KvBlock A = record { k = ks; v = vs; bytes = 0 } in
        record empty { bytes = block_bytes nbytes empty }

    unfoldable pub harvest :
        PrefixCacheConfig
        → BlockPool A
        → List ℕ
        → ℕ
        → ℕ
        → (ℕ → List A × List A)
        → Option (BlockPool A × List (ℕ × KvBlock A))
    unfolding insert_all fresh_from keys seal
    harvest cfg p ids len n_layers fetch =
        let n_full = min len (length ids) / cfg.block_size in
        insert_all (seal cfg.block_size n_layers fetch)
          (fresh_from p 0 (keys cfg.block_size n_full cfg.salt ids)) p
