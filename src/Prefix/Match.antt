-- ===== src/Prefix/Match.antt =====
-- What `match` of src/cache/prefix_cache.cpp returns.
use libmlxforge.Common.{
  ℕ, zero, suc, ◌-◌, ◌*◌, ◌/◌, ◌≤◌, ◌<◌, List, [], ◌∷◌, ◌++◌, Option, none, some, length, take,
  drop, min, ◌≡◌, ◌≢◌, refl, ◌∙◌, ap, arith, inl, inr, Option-cases,
}
use libmlxforge.Pool.Blocks.{KvBlock, BlockPool, chain_hash, get, find}
use libmlxforge.Pool.Recency.{Entry, touch}
use libmlxforge.Pool.Refines.{Represents, get-Represents, insert-Represents, find-touch, stored}
use libmlxforge.Prefix.Cache.{PrefixCacheConfig, Match, keys, find_block, match_keys, match_}

pub length-keys : (bs n h : ℕ) (ids : List ℕ) → length (keys bs n h ids) ≡ n
unfolding keys
length-keys bs zero h ids = refl
length-keys bs (suc n) h ids = ap suc (length-keys bs n (chain_hash h (take bs ids)) (drop bs ids))

-- Whole blocks do not reach past the end.
pub blocks_below : (a n b : ℕ) → a ≤ n / b → a * b ≤ n
blocks_below a n b l = grind arith

module _ {A : Type 0} where
  -- The longest run of keys that are all held, from the first on.
  abbrev pub found_run : (ℕ → Option (KvBlock A)) → List ℕ → List (KvBlock A)
  found_run f [] = []
  found_run f (h ∷ hs) = elim (f h) [ none ↦ [] | some b ↦ b ∷ found_run f hs ]

  found_run_ext :
      (f g : ℕ → Option (KvBlock A))
      → ((h : ℕ) → f h ≡ g h)
      → (hs : List ℕ) → found_run f hs ≡ found_run g hs
  found_run_ext f g e [] = refl
  found_run_ext f g e (h ∷ hs) = ground (arith, e h, found_run_ext f g e hs)

  -- The hook of a cache with no second level.
  abbrev pub no_spill : ℕ → Option (KvBlock A)
  no_spill h = none

  match_keys-found_run :
      (hs : List ℕ) (p : BlockPool A) (es : List (Entry A))
      → Represents p es
      → (q : BlockPool A) × (es' : List (Entry A)) × (match_keys no_spill hs p
          ≡ some (found_run (λ h. find h es) hs, q, []))
        × Represents q es'
        × ((j : ℕ) → find j es' ≡ find j es)
  unfolding match_keys
  match_keys-found_run [] p es r = (p, es, refl, r, λ j. refl)
  match_keys-found_run (h ∷ hs) p es r =
      let (s, e, c) = get-Represents p es h r in
      elim (Option-cases (find h es)) [
        | inl n ↦ ((get p h).0, touch h es, ground arith, s, λ j. find-touch h j es r.distinct)
        | inr (b, n) ↦
            let (q, es', i, t, f) = match_keys-found_run hs (get p h).0 (touch h es) s in
            let same =
              found_run_ext (λ k. find k (touch h es)) (λ k. find k es)
                (λ k. find-touch h k es r.distinct) hs in
            (q, es', ground arith, t, λ j. f j ∙ find-touch h j es r.distinct)
      ]

  -- Without a second level `match` never faults: its blocks are the longest run of held keys of the
  -- full blocks of the prompt, and the pool holds afterwards what it held before.
  pub match-found_run :
      (cfg : PrefixCacheConfig) (p : BlockPool A) (es : List (Entry A)) (ids : List ℕ)
      → Represents p es
      → let run =
          found_run
            (λ h. find h es)
            (keys cfg.block_size (length ids / cfg.block_size) cfg.salt ids) in
        (q : BlockPool A) × (es' : List (Entry A)) × (match_ cfg no_spill p ids
          ≡ some (
            record { blocks = run; tokens = min (length run * cfg.block_size) (length ids - 1) },
            q,
            [],
          ))
        × Represents q es'
        × ((j : ℕ) → find j es' ≡ find j es)
  unfolding match_
  match-found_run cfg p es ids r =
      let (q, es', i, t, f) =
        match_keys-found_run (keys cfg.block_size (length ids / cfg.block_size) cfg.salt ids) p es
          r in
      (q, es', ground arith, t, f)

  module _ (on_miss : ℕ → Option (KvBlock A)) where
    -- A block comes from the pool or from the second level; the pool keeps standing for entries.
    find_block-Represents :
        (p : BlockPool A) (es : List (Entry A)) (h : ℕ)
        → Represents p es
        → (o : Option (KvBlock A)) × (q : BlockPool A) × (ev : List (Entry A)) × (es' : List
            (Entry A))
          × (find_block on_miss p h ≡ some (o, q, ev))
          × Represents q es'
    unfolding find_block
    find_block-Represents p es h r =
        let (s, e, c) = get-Represents p es h r in
        elim (Option-cases (find h es)) [
          | inr (b, n) ↦ (some b, (get p h).0, [], touch h es, ground arith, s)
          | inl n ↦ elim (Option-cases (on_miss h)) [
            | inl m ↦ (none, (get p h).0, [], touch h es, ground arith, s)
            | inr (b, m) ↦
                let (q, ev, i, t, d) = insert-Represents (get p h).0 (touch h es) h b s in
                (some b, q, ev, stored (get p h).0.budget h b (touch h es), ground arith, t)
          ]
        ]

    match_keys_bounds :
        (hs : List ℕ) (p : BlockPool A) (es : List (Entry A))
        → Represents p es
        → (blks : List (KvBlock A)) × (q : BlockPool A) × (ev : List (Entry A)) × (es' : List
            (Entry A))
          × (match_keys on_miss hs p ≡ some (blks, q, ev))
          × Represents q es'
          × (length blks ≤ length hs)
    unfolding match_keys
    match_keys_bounds [] p es r = ([], p, [], es, refl, r, omega arith)
    match_keys_bounds (h ∷ hs) p es r =
        let (o, q, ev, es', i, t) = find_block-Represents p es h r in
        elim (Option-cases o) [
          | inl n ↦
              ([], q, ev, es', rw (i ∙ ap (λ x. some (x, q, ev)) n, match_keys), t, omega arith)
          | inr (b, n) ↦
              let (blks, s, ev', fs, j, u, l) = match_keys_bounds hs q es' t in
              (
                b ∷ blks,
                s,
                ev ++ ev',
                fs,
                rw (i ∙ ap (λ x. some (x, q, ev)) n, match_keys, j),
                u,
                omega arith,
              )
        ]

    -- With any second level `match` never faults. The last token of a prompt is never taken from
    -- the cache, and the reused tokens lie in the matched blocks, which lie in the prompt.
    pub match_bounds :
        (cfg : PrefixCacheConfig) (p : BlockPool A) (es : List (Entry A)) (ids : List ℕ)
        → 0 < cfg.block_size
        → ids ≢ []
        → Represents p es
        → (m : Match A) × (q : BlockPool A) × (ev : List (Entry A)) × (es' : List (Entry A))
          × (match_ cfg on_miss p ids ≡ some (m, q, ev))
          × Represents q es'
          × (m.tokens < length ids)
          × (m.tokens ≤ length m.blocks * cfg.block_size)
          × (length m.blocks * cfg.block_size ≤ length ids)
    unfolding match_
    match_bounds cfg p es [] pos ne r = absurd (ne refl)
    match_bounds cfg p es (id ∷ ids) pos ne r =
        let n : ℕ = length (id ∷ ids) / cfg.block_size in
        let (blks, q, ev, es', i, t, l) =
          match_keys_bounds (keys cfg.block_size n cfg.salt (id ∷ ids)) p es r in
        let short : length blks ≤ n =
          omega (arith, length-keys cfg.block_size n cfg.salt (id ∷ ids)) in
        (
          record {
            blocks = blks;
            tokens = min (length blks * cfg.block_size) (length (id ∷ ids) - 1);
          },
          q,
          ev,
          es',
          ground arith,
          t,
          omega arith,
          omega arith,
          blocks_below (length blks) (length (id ∷ ids)) cfg.block_size short,
        )
