-- ===== src/Prefix/Harvest.antt =====
-- What `harvest` of src/cache/prefix_cache.cpp leaves in the pool, and what a later `match` finds.
use native.Mathlib.Nat.{le-div_iff_mul-le}
use libmlxforge.Common.{
  ℕ, suc, ◌-◌, ◌*◌, ◌/◌, ◌≤◌, ◌<◌, true, List, [], ◌∷◌, ◌++◌, none, some, ◌==◌, length, take, min,
  ◌≡◌, ◌≢◌, refl, sym, ◌∙◌, arith, inl, inr, ◌⊎◌, Bool-cases, subst, ==_iff,
}
use libmlxforge.Pool.Blocks.{KvBlock, BlockPool, contains, find}
use libmlxforge.Pool.Recency.{Entry, keep}
use libmlxforge.Pool.Refines.{
  Represents, get-Represents, insert-Represents, stored, find-stored, find-stored_self,
  insert-budget,
}
use libmlxforge.Prefix.Cache.{
  PrefixCacheConfig, Match, keys, match_, fresh_from, insert_all, seal, harvest,
}
use libmlxforge.Prefix.Keys.{
  keys-take, AllHeld, AllHeld-keys, length-found_run, AllMatched, AllMatched-found_run,
}
use libmlxforge.Prefix.Match.{no_spill, match-found_run}

min_mono : (k n b c : ℕ) → k ≤ n → min (k * b) c ≤ min (n * b) c
min_mono k n b c l = grind arith

module _ {A : Type 0} where
  -- Every entry is one that `P` allows under its key.
  abbrev pub AllEntries : (ℕ → KvBlock A → Type 0) → List (Entry A) → Type 0
  AllEntries P es = (h : ℕ) (b : KvBlock A) → find h es ≡ some b → P h b

  find-keep :
      (room j : ℕ) (c : KvBlock A) (es : List (Entry A))
      → find j (keep room es) ≡ some c
      → find j es ≡ some c
  unfolding find
  find-keep room j c [] e = e
  find-keep room j c ((h, b) ∷ es) e = ground (arith, find-keep (room - b.bytes) j c es)

  find-stored_old :
      (budget h j : ℕ) (b c : KvBlock A) (es : List (Entry A))
      → find j (stored budget h b es) ≡ some c
      → find j ((h, b) ∷ es) ≡ some c ⊎ (find j es ≡ some c)
  find-stored_old budget h j b c es e = ground (arith, find-keep budget j c ((h, b) ∷ es))

  AllEntries-stored :
      (P : ℕ → KvBlock A → Type 0) (budget h : ℕ) (b : KvBlock A) (es : List (Entry A))
      → AllEntries P es
      → P h b
      → AllEntries P (stored budget h b es)
  unfolding find
  AllEntries-stored P budget h b es a p j c e = elim (find-stored_old budget h j b c es e) [
    | inr f ↦ a j c f
    | inl f ↦ elim (Bool-cases (h == j)) [
      | inl s ↦
          let here : h ≡ j = (==_iff h j).0 s in
          let same : b ≡ c = ground arith in subst (λ x. P x c) here (subst (λ x. P h x) same p)
      | inr s ↦ a j c (ground arith)
    ]
  ]

  -- Every new block is one that `P` allows under its key.
  abbrev pub AllSealed : (ℕ → KvBlock A → Type 0) → (ℕ → KvBlock A) → List (ℕ × ℕ) → Type 0
  AllSealed P sealed [] = Unit
  AllSealed P sealed ((h, i) ∷ fs) = P h (sealed i) × AllSealed P sealed fs

  -- The same, for the keys from index `b` on.
  abbrev pub AllSealedKeys : (ℕ → KvBlock A → Type 0) → (ℕ → KvBlock A) → ℕ → List ℕ → Type 0
  AllSealedKeys P sealed b [] = Unit
  AllSealedKeys P sealed b (h ∷ hs) = P h (sealed b) × AllSealedKeys P sealed (suc b) hs

  AllSealed-fresh_from :
      (P : ℕ → KvBlock A → Type 0) (sealed : ℕ → KvBlock A) (p : BlockPool A) (b : ℕ) (hs : List ℕ)
      → AllSealedKeys P sealed b hs
      → AllSealed P sealed (fresh_from p b hs)
  unfolding fresh_from
  AllSealed-fresh_from P sealed p b [] a = tt
  AllSealed-fresh_from P sealed p b (h ∷ hs) a =
      ground (arith, AllSealed-fresh_from P sealed p (suc b) hs a.1)

  AllHeld-fresh_from :
      (p : BlockPool A) (es : List (Entry A)) (b : ℕ) (hs : List ℕ)
      → ((j : ℕ) → contains p j ≡ true → find j es ≢ none)
      → ((j : ℕ) → find j (fresh_from p b hs) ≢ none → find j es ≢ none)
      → AllHeld es hs
  unfolding fresh_from find
  AllHeld-fresh_from p es b [] old new = tt
  AllHeld-fresh_from p es b (h ∷ hs) old new = elim (Bool-cases (contains p h)) [
    | inl c ↦ (old h c, AllHeld-fresh_from p es (suc b) hs old (λ j n. new j (ground (arith, n))))
    | inr c ↦ (
      new h (ground arith),
      AllHeld-fresh_from p es (suc b) hs old (λ j n. new j (ground (arith, n))),
    )
  ]

  found_next :
      (budget h j i : ℕ) (b : KvBlock A) (es : List (Entry A)) (fs : List (ℕ × ℕ))
      → budget ≡ 0
      → (find j es ≢ none) ⊎ (find j ((h, i) ∷ fs) ≢ none)
      → (find j (stored budget h b es) ≢ none) ⊎ (find j fs ≢ none)
  unfolding find
  found_next budget h j i b es fs z (inl o) =
      inl (subst (λ x. find j (stored x h b es) ≢ none) (sym z) (find-stored h j b es o))
  found_next budget h j i b es fs z (inr o) = elim (Bool-cases (h == j)) [
    | inr d ↦ inr (ground (arith, o))
    | inl d ↦ inl (
        subst (λ x. find j (stored x h b es) ≢ none) (sym z)
          (subst (λ x. find x (stored 0 h b es) ≢ none) ((==_iff h j).0 d)
            (find-stored_self h b es)))
  ]

  contains-found :
      (p : BlockPool A) (es : List (Entry A)) (j : ℕ)
      → Represents p es
      → contains p j ≡ true
      → find j es ≢ none
  unfolding find
  contains-found p es j r c = let (s, e, f) = get-Represents p es j r in ground (arith, f, c)

  insert_all-Represents :
      (P : ℕ → KvBlock A → Type 0) (sealed : ℕ → KvBlock A) (fs : List (ℕ × ℕ)) (p : BlockPool A)
      (es : List (Entry A))
      → Represents p es
      → AllEntries P es
      → AllSealed P sealed fs
      → (q : BlockPool A) × (ev : List (Entry A)) × (es' : List (Entry A)) × (insert_all sealed fs p
          ≡ some (q, ev))
        × Represents q es'
        × AllEntries P es'
        × (q.budget ≡ p.budget)
        × (p.budget ≡ 0 → (j : ℕ) → (find j es ≢ none) ⊎ (find j fs ≢ none) → find j es' ≢ none)
  unfolding insert_all find
  insert_all-Represents P sealed [] p es r a s =
      (p, [], es, refl, r, a, refl, λ z j o. ground (arith, o))
  insert_all-Represents P sealed ((h, i) ∷ fs) p es r a s =
      let (q, ev, ins, t, d) = insert-Represents p es h (sealed i) r in
      let kept : q.budget ≡ p.budget = insert-budget p q h (sealed i) ev ins in
      let (u, ev', es', all, v, b, k, f) =
        insert_all-Represents P sealed fs q (stored p.budget h (sealed i) es) t
          (AllEntries-stored P p.budget h (sealed i) es a s.0) s.1 in
      (
        u,
        ev ++ ev',
        es',
        ground (arith, ins, all),
        v,
        b,
        k ∙ kept,
        λ z j o. f (kept ∙ z) j (found_next p.budget h j i (sealed i) es fs z o),
      )

  module _ (nbytes : A → ℕ) (slice : A → ℕ → ℕ → A) where
    -- `harvest` never faults. Where every entry, and every block it would seal from the row, is one
    -- that `P` allows under its key, so is every entry afterwards; and in a pool without a budget
    -- every full block of the tokens is held.
    pub harvest-Represents :
        (P : ℕ → KvBlock A → Type 0) (cfg : PrefixCacheConfig) (p : BlockPool A)
        (es : List (Entry A)) (ids : List ℕ) (len n_layers : ℕ) (fetch : ℕ → List A × List A)
        → Represents p es
        → AllEntries P es
        → AllSealedKeys P
            (seal nbytes slice cfg.block_size n_layers fetch)
            0
            (keys cfg.block_size (min len (length ids) / cfg.block_size) cfg.salt ids)
        → (q : BlockPool A) × (ev : List (Entry A)) × (es' : List (Entry A)) × (harvest nbytes slice
              cfg p ids len n_layers fetch
            ≡ some (q, ev))
          × Represents q es'
          × AllEntries P es'
          × (p.budget ≡ 0
              → AllHeld es'
                  (keys cfg.block_size (min len (length ids) / cfg.block_size) cfg.salt ids))
    unfolding harvest
    harvest-Represents P cfg p es ids len n_layers fetch r a s =
        let hs : List ℕ =
          keys cfg.block_size (min len (length ids) / cfg.block_size) cfg.salt ids in
        let blk : ℕ → KvBlock A = seal nbytes slice cfg.block_size n_layers fetch in
        let (q, ev, es', i, t, b, k, f) =
          insert_all-Represents P blk (fresh_from p 0 hs) p es r a
            (AllSealed-fresh_from P blk p 0 hs s) in
        (
          q,
          ev,
          es',
          i,
          t,
          b,
          λ z.
              AllHeld-fresh_from p es' 0 hs (λ j c. f z j (inl (contains-found p es j r c)))
                (λ j n. f z j (inr n)),
        )

  match-AllHeld :
      (P : ℕ → KvBlock A → Type 0) (cfg : PrefixCacheConfig) (p : BlockPool A) (es : List (Entry A))
      (ids prompt : List ℕ) (k n : ℕ)
      → 0 < cfg.block_size
      → Represents p es
      → AllEntries P es
      → AllHeld es (keys cfg.block_size n cfg.salt ids)
      → k ≤ n
      → k * cfg.block_size ≤ length prompt
      → take (k * cfg.block_size) prompt ≡ take (k * cfg.block_size) ids
      → (m : Match A) × (q : BlockPool A) × (match_ cfg no_spill p prompt ≡ some (m, q, []))
        × (min (k * cfg.block_size) (length prompt - 1) ≤ m.tokens)
        × AllMatched P
            (keys cfg.block_size (length prompt / cfg.block_size) cfg.salt prompt)
            m.blocks
  match-AllHeld P cfg p es ids prompt k n pos r a held l fits e =
      let (q, es', i, t, f) = match-found_run cfg p es prompt r in
      let shared : keys cfg.block_size k cfg.salt prompt ≡ keys cfg.block_size k cfg.salt ids =
        keys-take cfg.block_size k cfg.salt prompt ids e in
      let first : AllHeld es (keys cfg.block_size k cfg.salt prompt) =
        rw shared (AllHeld-keys es cfg.block_size k n cfg.salt ids l held) in
      let below : k ≤ length prompt / cfg.block_size = (le-div_iff_mul-le pos).1 fits in
      let long =
        length-found_run es cfg.block_size k (length prompt / cfg.block_size) cfg.salt prompt below
          first in
      (
        _,
        q,
        i,
        min_mono k _ cfg.block_size (length prompt - 1) long,
        AllMatched-found_run P es
            (keys cfg.block_size (length prompt / cfg.block_size) cfg.salt prompt) a,
      )

  -- `harvest`, then `match`: in a pool without a budget, a prompt that shares its first `k` blocks
  -- with the harvested tokens reuses these blocks' tokens, all but the prompt's last one; and each
  -- block that it gets is one that `P` allows under its key, where the blocks before and those
  -- sealed from the row were.
  pub match-harvest :
      (nbytes : A → ℕ) (slice : A → ℕ → ℕ → A) (P : ℕ → KvBlock A → Type 0)
      (cfg : PrefixCacheConfig) (p : BlockPool A) (es : List (Entry A)) (ids : List ℕ)
      (len n_layers : ℕ) (fetch : ℕ → List A × List A) (prompt : List ℕ) (k : ℕ)
      → 0 < cfg.block_size
      → p.budget ≡ 0
      → Represents p es
      → AllEntries P es
      → AllSealedKeys P
          (seal nbytes slice cfg.block_size n_layers fetch)
          0
          (keys cfg.block_size (min len (length ids) / cfg.block_size) cfg.salt ids)
      → k * cfg.block_size ≤ min len (length ids)
      → k * cfg.block_size ≤ length prompt
      → take (k * cfg.block_size) prompt ≡ take (k * cfg.block_size) ids
      → (q : BlockPool A) × (ev : List (Entry A)) × (m : Match A) × (q' : BlockPool A) × (harvest
            nbytes slice cfg p ids len n_layers fetch
          ≡ some (q, ev))
        × (match_ cfg no_spill q prompt ≡ some (m, q', []))
        × (min (k * cfg.block_size) (length prompt - 1) ≤ m.tokens)
        × AllMatched P
            (keys cfg.block_size (length prompt / cfg.block_size) cfg.salt prompt)
            m.blocks
  match-harvest nbytes slice P cfg p es ids len n_layers fetch prompt k pos z r a s fits fits' e =
      let (q, ev, es', h, t, b, held) =
        harvest-Represents nbytes slice P cfg p es ids len n_layers fetch r a s in
      let (m, q', i, l, u) =
        match-AllHeld P cfg q es' ids prompt k (min len (length ids) / cfg.block_size) pos t b
          (held z) ((le-div_iff_mul-le pos).1 fits) fits' e in
      (q, ev, m, q', h, i, l, u)
