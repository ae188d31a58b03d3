-- ===== src/Pool/Refines.antt =====
-- The pool of src/cache/block_pool.cpp refines the recency list of Pool/Recency: `get`, `contains`
-- and `insert` with its evictions.
use mathlib.Core.List.{append-nil, reverse, reverse-reverse, reverse-append}
use libmlxforge.Common.{
  ℕ, ◌+◌, ◌-◌, ◌≤◌, not, ◌&&◌, List, [], ◌∷◌, ◌++◌, none, some, ◌≡◌, ◌≢◌, refl, sym, arith, ltb,
  ◌==◌, if◌then◌else◌, ap, ◌∙◌, Bool-cases, Option-cases, ◌||◌, inl, inr, ◌⊎◌,
}
use libmlxforge.Pool.Blocks.{
  KvBlock, BlockPool, find, erase, unlink, evict_from, evict_to_budget, get, contains, insert,
  is_some,
}
use libmlxforge.Pool.Evict.{
  evict_from_lem, trim, cut, keep-reverse, total-reverse, find-reverse, IsDistinct-reverse,
  hashes-reverse, IsDistinct-keep, total-keep-le,
}
use libmlxforge.Pool.Recency.{Entry, total, hashes, IsDistinct, without, touch, keep}

-- The pool `p` stands for the entries `es`.
pub record Represents {A : Type 0} (p : BlockPool A) (es : List (Entry A)) : Type 0 where
  pub order : p.lru ≡ hashes es
  pub same : (h : ℕ) → find h p.map_ ≡ find h es
  pub counted : p.bytes ≡ total es
  pub distinct : IsDistinct es
  pub within : (p.budget ≡ 0) ⊎ (total es ≤ p.budget)

module _ {A : Type 0} where
  unlink-hashes : (h : ℕ) (es : List (Entry A)) → unlink h (hashes es) ≡ hashes (without h es)
  unfolding unlink
  unlink-hashes h [] = refl
  unlink-hashes h ((j, b) ∷ es) = ground (arith, unlink-hashes h es)

  find-without-none :
      (h j : ℕ) (es : List (Entry A)) → find j es ≡ none → find j (without h es) ≡ none
  unfolding find
  find-without-none h j [] e = refl
  find-without-none h j ((i, b) ∷ es) e = ground (arith, find-without-none h j es)

  find-without :
      (h j : ℕ) (es : List (Entry A))
      → IsDistinct es
      → find j (without h es) ≡ (if h == j then none else find j es)
  unfolding find
  find-without h j [] d = ground arith
  find-without h j ((i, b) ∷ es) d = ground (arith, find-without h j es d.1)

  IsDistinct-without : (h : ℕ) (es : List (Entry A)) → IsDistinct es → IsDistinct (without h es)
  unfolding find
  IsDistinct-without h [] d = tt
  IsDistinct-without h ((i, b) ∷ es) d =
      ground (arith, IsDistinct-without h es d.1, find-without-none h i es d.0)

  total-without :
      (h : ℕ) (es : List (Entry A)) (b : KvBlock A)
      → find h es ≡ some b
      → b.bytes + total (without h es) ≡ total es
  unfolding find
  total-without h [] b e = cc
  total-without h ((i, c) ∷ es) b e = ground (arith, total-without h es b)

  get_hit :
      (p : BlockPool A) (es : List (Entry A)) (hash : ℕ) (b : KvBlock A)
      → Represents p es
      → find hash es ≡ some b
      → Represents (record p { lru = hash ∷ unlink hash p.lru }) ((hash, b) ∷ without hash es)
  unfolding find
  get_hit p es hash b r e = record {
    order = ap (◌∷◌ hash) (rw r.order (unlink-hashes hash es));
    same = λ h. ground (arith, r.same h, find-without hash h es r.distinct);
    counted = ground (arith, total-without hash es b e, r.counted);
    distinct =
        ground (arith, find-without hash hash es r.distinct, IsDistinct-without hash es r.distinct);
    within = ground (arith, total-without hash es b e);
  }

  -- A lookup finds what the recency list holds, and moves a hit to its front.
  pub get-Represents :
      (p : BlockPool A) (es : List (Entry A)) (hash : ℕ)
      → Represents p es
      → Represents (get p hash).0 (touch hash es)
        × ((get p hash).1 ≡ find hash es)
        × (contains p hash ≡ is_some (find hash es))
  unfolding get contains
  get-Represents p es hash r = elim (Option-cases (find hash es)) [
    | inl e ↦
        (rw (r.same hash ∙ e, get, touch, e) r, rw (r.same hash ∙ e, get, e), rw (r.same hash))
    | inr (b, e) ↦ (
      rw (r.same hash ∙ e, get, touch, e) (get_hit p es hash b r e),
      rw (r.same hash ∙ e, get, e),
      rw (r.same hash),
    )
  ]

  -- Recency has no bearing on what is found.
  pub find-touch : (h j : ℕ) (es : List (Entry A)) → IsDistinct es → find j (touch h es) ≡ find j es
  unfolding find
  find-touch h j es d = ground (arith, find-without h j es d)

  -- The entries after an insertion.
  abbrev pub stored : ℕ → ℕ → KvBlock A → List (Entry A) → List (Entry A)
  stored budget h b es =
      if is_some (find h es) || (not (budget == 0) && ltb budget b.bytes)
      then es
      else if budget == 0
      then (h, b) ∷ es
      else keep budget ((h, b) ∷ es)

  pub find-stored :
      (h j : ℕ) (b : KvBlock A) (es : List (Entry A))
      → find j es ≢ none
      → find j (stored 0 h b es) ≢ none
  unfolding find
  find-stored h j b es e = ground arith

  pub find-stored_self :
      (h : ℕ) (b : KvBlock A) (es : List (Entry A)) → find h (stored 0 h b es) ≢ none
  unfolding find
  find-stored_self h b es = ground arith

  cut-append-trim : (room : ℕ) (rs : List (Entry A)) → cut room rs ++ trim room rs ≡ rs
  cut-append-trim room [] = refl
  cut-append-trim room (e ∷ rs) = ground (arith, cut-append-trim room rs)

  IsDistinct-trim : (room : ℕ) (rs : List (Entry A)) → IsDistinct rs → IsDistinct (trim room rs)
  IsDistinct-trim room [] d = tt
  IsDistinct-trim room (e ∷ rs) d = ground (arith, IsDistinct-trim room rs)

  -- The pool with a new entry at its front, before the eviction.
  abbrev pushed : BlockPool A → ℕ → KvBlock A → BlockPool A
  pushed p h b = record p { lru = h ∷ p.lru; bytes = p.bytes + b.bytes; map_ = (h, b) ∷ p.map_ }

  module _ (p : BlockPool A) (es : List (Entry A)) (hash : ℕ) (block : KvBlock A)
      (r : Represents p es) (new : find hash es ≡ none) where
    pushed_same : (h : ℕ) → find h ((hash, block) ∷ p.map_) ≡ find h ((hash, block) ∷ es)
    unfolding find
    pushed_same h = ground (arith, r.same h)

    pushed_unbounded : p.budget ≡ 0 → Represents (pushed p hash block) ((hash, block) ∷ es)
    pushed_unbounded z = record {
      order = ap (◌∷◌ hash) r.order;
      same = pushed_same;
      counted = ground (arith, r.counted);
      distinct = (new, r.distinct);
      within = inl z;
    }

    evict_pushed :
        (p.budget ≢ 0)
        → (q : BlockPool A) × (ev : List (Entry A)) × (evict_to_budget (pushed p hash block)
            ≡ some (q, ev))
          × Represents q (keep p.budget ((hash, block) ∷ es))
          × (keep p.budget ((hash, block) ∷ es) ++ reverse ev ≡ (hash, block) ∷ es)
    unfolding evict_to_budget
    evict_pushed z =
        let all : List (Entry A) = (hash, block) ∷ es in
        let rs : List (Entry A) = reverse all in
        let (q, e, l, f, c, g) =
          evict_from_lem rs (pushed p hash block) [] (IsDistinct-reverse all (new, r.distinct))
            (λ h. pushed_same h ∙ sym (find-reverse h all (new, r.distinct)))
            (ground (arith, total-reverse all, r.counted)) in
        let same_keep : keep p.budget all ≡ reverse (trim p.budget rs) =
          ap (keep p.budget) (sym (reverse-reverse all)) ∙ keep-reverse p.budget rs in
        (
          q,
          cut p.budget rs,
          ground (arith, e, hashes-reverse all),
          record {
            order = l ∙ hashes-reverse (trim p.budget rs) ∙ ap hashes (sym same_keep);
            same = λ h.
                f h
                ∙ sym (
                    find-reverse h (trim p.budget rs)
                      (IsDistinct-trim p.budget rs (IsDistinct-reverse all (new, r.distinct))))
                ∙ ap (find h) (sym same_keep);
            counted = c ∙ sym (total-reverse (trim p.budget rs)) ∙ ap total (sym same_keep);
            distinct = IsDistinct-keep p.budget all (new, r.distinct);
            within = inr (rw g (total-keep-le p.budget all));
          },
          ap (λ x. x ++ reverse (cut p.budget rs)) same_keep
              ∙ sym (reverse-append (cut p.budget rs) (trim p.budget rs))
              ∙ ap reverse (cut-append-trim p.budget rs)
              ∙ reverse-reverse all,
        )

  -- An insertion never reads past the map's end. It leaves the entries of `stored`: either what was
  -- there, and the hook gets nothing, or the new entry and those before it, less what the hook gets,
  -- the least recent first.
  pub insert-Represents :
      (p : BlockPool A) (es : List (Entry A)) (hash : ℕ) (block : KvBlock A)
      → Represents p es
      → (q : BlockPool A) × (ev : List (Entry A)) × (insert p hash block ≡ some (q, ev))
        × Represents q (stored p.budget hash block es)
        × (((ev ≡ []) × (stored p.budget hash block es ≡ es))
            ⊎ (stored p.budget hash block es ++ reverse ev ≡ (hash, block) ∷ es))
  unfolding insert evict_to_budget
  insert-Represents p es hash block r = elim (Option-cases (find hash es)) [
    | inr (b, e) ↦
        (p, [], rw (r.same hash ∙ e, insert), rw (e, stored) r, inl (refl, ground (arith, e)))
    | inl e ↦ elim (Bool-cases (p.budget == 0)) [
      | inl z ↦ (
        pushed p hash block,
        [],
        ground (arith, r.same hash),
        rw (e, stored) (rw z (pushed_unbounded p es hash block r e (ground arith))),
        inr (ground (arith, e, z, append-nil ((hash, block) ∷ es))),
      )
      | inr z ↦ elim (Bool-cases (ltb p.budget block.bytes)) [
        | inl big ↦ (
          p,
          [],
          ground (arith, r.same hash),
          rw (e, stored) (rw (z, big) r),
          inl (refl, ground (arith, e, z, big)),
        )
        | inr small ↦
            let (q, ev, i, w, d) = evict_pushed p es hash block r e (ground arith) in
            (
              q,
              ev,
              ground (arith, r.same hash),
              rw (e, stored) (rw (z, small) w),
              inr (rw (e, stored) (rw (z, small) d)),
            )
      ]
    ]
  ]

  evict_from-budget :
      (l : List ℕ) (p q : BlockPool A) (out ev : List (Entry A))
      → evict_from l p out ≡ some (q, ev)
      → q.budget ≡ p.budget
  unfolding evict_from
  evict_from-budget [] p q out ev e = ground arith
  evict_from-budget (v ∷ l) p q out ev e = elim (Option-cases (find v p.map_)) [
    | inl n ↦ ground arith
    | inr (b, n) ↦ ground (
      arith,
      evict_from-budget l (record p { bytes = p.bytes - b.bytes; map_ = erase v p.map_ }) q
          ((v, b) ∷ out) ev,
    )
  ]

  pub insert-budget :
      (p q : BlockPool A) (h : ℕ) (b : KvBlock A) (ev : List (Entry A))
      → insert p h b ≡ some (q, ev)
      → q.budget ≡ p.budget
  unfolding insert evict_to_budget
  insert-budget p q h b ev e =
      ground (arith, evict_from-budget (reverse (h ∷ p.lru)) (pushed p h b) q [] ev)
