-- ===== src/Store/Counted.antt =====
-- The account of the store of src/cache/block_store.cpp: `bytes_` is what the index adds up to.
use libmlxforge.Common.{
  ℕ, zero, suc, ◌-◌, ◌≤◌, ◌<◌, ◌&&◌, List, [], ◌∷◌, ◌++◌, none, some, Bytes, length, ltb, ◌==◌, ◌≡◌,
  ◌≢◌, refl, sym, ◌∙◌, arith, inl, inr, ◌⊎◌, Option-cases, Bool-cases, ==_iff, subst,
}
use libmlxforge.Pool.Blocks.{find, erase}
use libmlxforge.Store.Index.{
  StoreEntry, BlockStore, put, contains, spill, pick, drop_victim, evict_loop,
  evict_to_budget_locked,
}
use libmlxforge.Store.Keyed.{
  sum, Distinct, find-erase-none, Distinct-erase, sum-erase, length-erase_found, FoundIn,
  FoundIn-self, find-pick, Until,
}

-- The account is right.
pub record IsCounted (s : BlockStore) : Type 0 where
  pub counted : s.bytes ≡ sum s.index
  pub distinct : Distinct s.index

-- Nothing is in the second index that is not in the first.
abbrev pub Shrinks : BlockStore → BlockStore → Type 0
Shrinks s t = (j : ℕ) → find j s.index ≡ none → find j t.index ≡ none

drop_lem :
    (s : BlockStore) (h : ℕ) (e : StoreEntry)
    → IsCounted s
    → find h s.index ≡ some e
    → IsCounted
        (record s { bytes = s.bytes - e.size; index = erase h s.index; files = erase h s.files })
      × (length (erase h s.index) < length s.index)
drop_lem s h e c f = (
  record {
    counted = omega (arith, sum-erase h s.index e c.distinct f, c.counted);
    distinct = Distinct-erase h s.index c.distinct;
  },
  length-erase_found h s.index e f,
)

pub drop_victim-IsCounted :
    (s : BlockStore) (l : List (ℕ × StoreEntry))
    → s.index ≡ l
    → IsCounted s
    → IsCounted (drop_victim l s)
      × ((drop_victim l s).index ≡ [] ⊎ (length (drop_victim l s).index < length s.index))
      × ((drop_victim l s).queue ≡ s.queue)
      × ((drop_victim l s).budget ≡ s.budget)
      × Shrinks s (drop_victim l s)
unfolding drop_victim
drop_victim-IsCounted s [] w c = (c, inl w, refl, refl, λ j n. n)
drop_victim-IsCounted s (x ∷ l) w c =
    let all : FoundIn s.index (x ∷ l) =
      subst (λ y. FoundIn s.index y) w (FoundIn-self s.index c.distinct) in
    let (d, m) = drop_lem s (pick x l).0 (pick x l).1 c (find-pick x l s.index all.0 all.1) in
    (d, inr m, refl, refl, λ j n. find-erase-none (pick x l).0 j s.index n)

pub evict_loop-IsCounted :
    (n : ℕ) (s : BlockStore)
    → IsCounted s
    → length s.index ≤ n
    → IsCounted (evict_loop n s)
      × ((evict_loop n s).bytes ≤ s.budget ⊎ (length (evict_loop n s).index ≤ 1))
      × ((evict_loop n s).queue ≡ s.queue)
      × ((evict_loop n s).budget ≡ s.budget)
      × Shrinks s (evict_loop n s)
unfolding evict_loop
evict_loop-IsCounted zero s c l = (c, inr (omega (arith, l)), refl, refl, λ j n. n)
evict_loop-IsCounted (suc n) s c l =
    elim (Bool-cases (ltb s.budget s.bytes && ltb 1 (length s.index))) [
      | inr t ↦ rw (evict_loop, t) (c, ground (arith, t), refl, refl, λ j n. n)
      | inl t ↦
          let (d, m, q, b, k) = drop_victim-IsCounted s s.index refl c in
          let (u, v, w, x, y) =
            evict_loop-IsCounted n (drop_victim s.index s) d (ground (arith, m, l)) in
          rw (evict_loop, t) (u, ground (arith, v, b), w ∙ q, x ∙ b, λ j n. y j (k j n))
    ]

pub evict_to_budget_locked-IsCounted :
    (s : BlockStore)
    → IsCounted s
    → IsCounted (evict_to_budget_locked s)
      × ((s.budget ≡ 0)
          ⊎ ((evict_to_budget_locked s).bytes ≤ s.budget)
          ⊎ (length (evict_to_budget_locked s).index ≤ 1))
      × ((evict_to_budget_locked s).queue ≡ s.queue)
      × Shrinks s (evict_to_budget_locked s)
unfolding evict_to_budget_locked
evict_to_budget_locked-IsCounted s c = elim (Bool-cases (s.budget == 0)) [
  | inl t ↦ rw (evict_to_budget_locked, t) (c, inl ((==_iff s.budget 0).0 t), refl, λ j n. n)
  | inr t ↦
      let (u, v, w, x, y) = evict_loop-IsCounted (length s.index) s c (omega arith) in
      rw (evict_to_budget_locked, t) (u, ground (arith, v), w, y)
]

-- The account is right, no block is both on disk and in flight, or twice in flight, and no stamp is
-- later than the last one that was given.
pub record IsConsistent (s : BlockStore) : Type 0 where
  pub account : IsCounted s
  pub waiting : Distinct s.queue
  pub apart : (h : ℕ) → find h s.queue ≢ none → find h s.index ≡ none
  pub recent : Until s.stamp s.index

find-append_none :
    {B : Type 0} (j h : ℕ) (b : B) (l : List (ℕ × B))
    → find j (l ++ ((h, b) ∷ [])) ≢ none
    → (find j l ≢ none) ⊎ (h ≡ j)
unfolding find
find-append_none j h b [] n = elim (Bool-cases (h == j)) [
  | inl t ↦ inr ((==_iff h j).0 t)
  | inr t ↦ absurd (n (ground arith))
]
find-append_none j h b ((i, c) ∷ l) n = elim (Bool-cases (i == j)) [
  | inl t ↦ inl (λ e. ground (arith, t, e))
  | inr t ↦ elim (find-append_none j h b l (λ e. n (ground (arith, t, e)))) [
    | inl o ↦ inl (λ e. o (ground (arith, t, e)))
    | inr o ↦ inr o
  ]
]

find-append_other :
    {B : Type 0} (j h : ℕ) (b : B) (l : List (ℕ × B))
    → find j l ≡ none
    → h ≢ j
    → find j (l ++ ((h, b) ∷ [])) ≡ none
unfolding find
find-append_other j h b [] e n = ground (arith, n)
find-append_other j h b ((i, c) ∷ l) e n = ground (arith, n, find-append_other j h b l)

Distinct-append :
    {B : Type 0} (h : ℕ) (b : B) (l : List (ℕ × B))
    → Distinct l
    → find h l ≡ none
    → Distinct (l ++ ((h, b) ∷ []))
unfolding find
Distinct-append h b [] d e = (refl, tt)
Distinct-append h b ((i, c) ∷ l) d e = (
  find-append_other i h b l d.0 (λ x. ground (arith, x, e)),
  Distinct-append h b l d.1 (ground arith),
)

-- The hook on an eviction puts a block that is neither on disk nor in flight behind the queue, and
-- changes nothing else; any other block changes nothing. The account stays right.
pub spill-IsConsistent :
    (s : BlockStore) (hash : ℕ) (b : Bytes)
    → IsConsistent s
    → IsConsistent (spill s hash b)
      × ((((find hash s.index ≢ none) ⊎ (find hash s.queue ≢ none)) × (spill s hash b ≡ s))
          ⊎ ((find hash s.index ≡ none)
              × (find hash s.queue ≡ none)
              × (spill s hash b ≡ record s { queue = s.queue ++ ((hash, b) ∷ []) })))
unfolding spill contains put
spill-IsConsistent s hash b c = elim (Option-cases (find hash s.index)) [
  | inr (e, i) ↦ rw i (c, inl (inl (λ n. cc), refl))
  | inl i ↦ elim (Option-cases (find hash s.queue)) [
    | inr (x, q) ↦ rw (i, q) (c, inl (inr (λ n. cc), refl))
    | inl q ↦
        rw (i, q)
          (
            record {
              account = record { counted = c.account.counted; distinct = c.account.distinct };
              waiting = Distinct-append hash b s.queue c.waiting q;
              apart = λ j n. elim (find-append_none j hash b s.queue n) [
                | inl o ↦ c.apart j o
                | inr o ↦ rw (sym o) i
              ];
              recent = c.recent;
            },
            inr (refl, refl, refl),
          )
  ]
]
