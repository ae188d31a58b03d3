-- ===== src/Store/Written.antt =====
-- The writer of src/cache/block_store.cpp: `finish_write` with its eviction.
use libmlxforge.Common.{
  ℕ, zero, suc, ◌+◌, ◌-◌, ◌≤◌, ◌<◌, Bool, true, false, ◌&&◌, List, [], ◌∷◌, none, some, Bytes,
  length, ltb, ◌==◌, ◌≡◌, ◌≢◌, refl, sym, ◌∙◌, ap, arith, inl, inr, ◌⊎◌, Bool-cases, subst,
}
use libmlxforge.Pool.Blocks.{find, erase}
use libmlxforge.Store.Index.{
  StoreEntry, BlockStore, pick, drop_victim, evict_loop, evict_to_budget_locked, finish_write, tail,
}
use libmlxforge.Store.Keyed.{
  Distinct, find-erase-none, find-erase_self, Distinct-erase, sum-erase_absent,
}
use libmlxforge.Store.Keyed.{
  Until, Until-later, Until-erase, find-erase_before, find-erase_other, pick_older,
}
use libmlxforge.Store.Counted.{
  IsCounted, IsConsistent, drop_victim-IsCounted, evict_to_budget_locked-IsCounted,
}

written_lem :
    (s : BlockStore) (hash : ℕ) (b : Bytes) (f : List (ℕ × Bytes))
    → IsCounted s
    → find hash s.index ≡ none
    → IsCounted (record s {
      index = (hash, record { size = length b; stamp = suc s.stamp }) ∷ erase hash s.index;
      stamp = suc s.stamp;
      bytes = s.bytes + length b;
      files = f;
    })
written_lem s hash b f c n = record {
  counted = omega (arith, sum-erase_absent hash s.index n, c.counted);
  distinct = (find-erase_self hash s.index, Distinct-erase hash s.index c.distinct);
}

rest_apart :
    (s : BlockStore) (hash : ℕ) (b : Bytes) (rest : List (ℕ × Bytes)) (h : ℕ)
    → IsConsistent s
    → s.queue ≡ (hash, b) ∷ rest
    → find h rest ≢ none
    → (hash ≢ h) × (find h s.index ≡ none)
unfolding find
rest_apart s hash b rest h c w n =
    let d : Distinct ((hash, b) ∷ rest) = subst Distinct w c.waiting in
    let ne : hash ≢ h = (λ e. n (subst (λ x. find x rest ≡ none) e d.0)) in
    (ne, c.apart h (λ e. n (ground (arith, w, e, ne))))

file_front : (hash : ℕ) (b : Bytes) (l : List (ℕ × Bytes)) → find hash ((hash, b) ∷ l) ≡ some b
unfolding find
file_front hash b l = ground arith

fresh_lem :
    (h hash : ℕ) (e : StoreEntry) (l : List (ℕ × StoreEntry))
    → hash ≢ h
    → find h l ≡ none
    → find h ((hash, e) ∷ erase hash l) ≡ none
unfolding find
fresh_lem h hash e l n f = ground (arith, n, find-erase-none hash h l f)

front_apart :
    (s : BlockStore) (hash : ℕ) (b : Bytes) (rest : List (ℕ × Bytes))
    → IsConsistent s
    → s.queue ≡ (hash, b) ∷ rest
    → find hash s.index ≡ none
unfolding find
front_apart s hash b rest c w = c.apart hash (λ e. ground (arith, w, e))

popped :
    (s t : BlockStore) (hash : ℕ) (b : Bytes) (rest : List (ℕ × Bytes))
    → IsConsistent s
    → s.queue ≡ (hash, b) ∷ rest
    → IsCounted t
    → Until t.stamp t.index
    → t.queue ≡ s.queue
    → ((h : ℕ) → hash ≢ h → find h s.index ≡ none → find h t.index ≡ none)
    → IsConsistent (record t { queue = tail t.queue }) × (tail t.queue ≡ rest)
popped s t hash b rest c w u r q k =
    let same : tail t.queue ≡ rest = ap tail (q ∙ w) in
    let d : Distinct ((hash, b) ∷ rest) = subst Distinct w c.waiting in
    (
      record {
        account = record { counted = u.counted; distinct = u.distinct };
        waiting = subst Distinct (sym same) d.1;
        apart = λ h n.
            let (x, y) = rest_apart s hash b rest h c w (subst (λ l. find h l ≢ none) same n) in
            k h x y;
        recent = r;
      },
      same,
    )

-- What is found in the second index is found in the first.
abbrev Kept : BlockStore → BlockStore → Type 0
Kept s t = (j : ℕ) (x : StoreEntry) → find j t.index ≡ some x → find j s.index ≡ some x

-- The block is in front, on disk, and later than all others.
record IsNewest (hash : ℕ) (e : StoreEntry) (b : Bytes) (n : ℕ) (s : BlockStore) : Type 0 where
  others : List (ℕ × StoreEntry)
  front : s.index ≡ (hash, e) ∷ others
  older : Until n others
  last : e.stamp ≡ suc n
  given : s.stamp ≡ suc n
  stored : find hash s.files ≡ some b

erase-other :
    (h j : ℕ) (e : StoreEntry) (l : List (ℕ × StoreEntry))
    → j ≢ h
    → erase j ((h, e) ∷ l) ≡ (h, e) ∷ erase j l
unfolding erase
erase-other h j e l n = ground (arith, n)

erase-absent : (h : ℕ) (l : List (ℕ × StoreEntry)) → find h l ≡ none → erase h l ≡ l
unfolding find erase
erase-absent h [] e = refl
erase-absent h ((i, x) ∷ l) e = elim (Bool-cases (i == h)) [
  | inl t ↦ absurd (ground (arith, e, t))
  | inr t ↦ rw (erase, t) (ap (◌∷◌ (i, x)) (erase-absent h l (ground (arith, e, t))))
]

drop_victim-cons :
    (s : BlockStore) (x : ℕ × StoreEntry) (l : List (ℕ × StoreEntry))
    → drop_victim (x ∷ l) s ≡ record s {
      bytes = s.bytes - (pick x l).1.size;
      index = erase (pick x l).0 s.index;
      files = erase (pick x l).0 s.files;
    }
unfolding drop_victim
drop_victim-cons s x l = refl

drop_victim-IsNewest :
    (s : BlockStore) (hash : ℕ) (e : StoreEntry) (b : Bytes) (n : ℕ)
    → IsCounted s
    → IsNewest hash e b n s
    → 1 < length s.index
    → IsNewest hash e b n (drop_victim s.index s) × Kept s (drop_victim s.index s)
drop_victim-IsNewest s hash e b n c w l = go w.others w.front w.older
  where
    go :
        (o : List (ℕ × StoreEntry))
        → s.index ≡ (hash, e) ∷ o
        → Until n o
        → IsNewest hash e b n (drop_victim s.index s) × Kept s (drop_victim s.index s)
    go [] f u = absurd (omega (arith, ap length f, l))
    go (v ∷ o) f u =
        let d : Distinct ((hash, e) ∷ (v ∷ o)) = subst Distinct f c.distinct in
        let p = (pick (hash, e) (v ∷ o)).0 in
        let ne : p ≢ hash = pick_older hash e v o n w.last u d.1 d.0 in
        subst (λ x. IsNewest hash e b n x × Kept s x)
          (sym (ap (λ z. drop_victim z s) f ∙ drop_victim-cons s (hash, e) (v ∷ o)))
          (
            record {
              others = erase p (v ∷ o);
              front = ap (erase p) f ∙ erase-other hash p e (v ∷ o) ne;
              older = Until-erase n p (v ∷ o) u;
              last = w.last;
              given = w.given;
              stored = find-erase_other p hash s.files ne ∙ w.stored;
            },
            λ j x g. find-erase_before p j x s.index g,
          )

evict_loop-IsNewest :
    (r : ℕ) (s : BlockStore) (hash : ℕ) (e : StoreEntry) (b : Bytes) (n : ℕ)
    → IsCounted s
    → IsNewest hash e b n s
    → IsNewest hash e b n (evict_loop r s) × Kept s (evict_loop r s)
unfolding evict_loop
evict_loop-IsNewest zero s hash e b n c w = (w, λ j x g. g)
evict_loop-IsNewest (suc r) s hash e b n c w =
    elim (Bool-cases (ltb s.budget s.bytes && ltb 1 (length s.index))) [
      | inr t ↦ rw (evict_loop, t) (w, λ j x g. g)
      | inl t ↦
          let (d, k) = drop_victim-IsNewest s hash e b n c w (ground (arith, t)) in
          let (u, m) =
            evict_loop-IsNewest r (drop_victim s.index s) hash e b n
              (drop_victim-IsCounted s s.index refl c).0 d in
          rw (evict_loop, t) (u, λ j x g. k j x (m j x g))
    ]

loop_fits : (r : ℕ) (s : BlockStore) → s.bytes ≤ s.budget → evict_loop r s ≡ s
unfolding evict_loop
loop_fits zero s l = refl
loop_fits (suc r) s l =
    let t : (ltb s.budget s.bytes && ltb 1 (length s.index)) ≡ false = ground (arith, l) in
    rw (evict_loop, t) refl

-- Where all fits nothing is dropped.
evict_fits : (s : BlockStore) → (s.budget ≡ 0) ⊎ (s.bytes ≤ s.budget) → evict_to_budget_locked s ≡ s
unfolding evict_to_budget_locked
evict_fits s f = elim (Bool-cases (s.budget == 0)) [
  | inl t ↦ rw (evict_to_budget_locked, t) refl
  | inr t ↦ rw (evict_to_budget_locked, t) (loop_fits (length s.index) s (ground (arith, t, f)))
]

evict_to_budget_locked-IsNewest :
    (s : BlockStore) (hash : ℕ) (e : StoreEntry) (b : Bytes) (n : ℕ)
    → IsCounted s
    → IsNewest hash e b n s
    → IsNewest hash e b n (evict_to_budget_locked s) × Kept s (evict_to_budget_locked s)
unfolding evict_to_budget_locked
evict_to_budget_locked-IsNewest s hash e b n c w = elim (Bool-cases (s.budget == 0)) [
  | inl t ↦ rw (evict_to_budget_locked, t) (w, λ j x g. g)
  | inr t ↦ rw (evict_to_budget_locked, t) (evict_loop-IsNewest (length s.index) s hash e b n c w)
]

IsNewest-Until :
    (hash n : ℕ) (e : StoreEntry) (b : Bytes) (s : BlockStore)
    → IsNewest hash e b n s
    → Until s.stamp s.index
IsNewest-Until hash n e b s w =
    subst (λ l. Until s.stamp l) (sym w.front)
      (
        omega (arith, w.last, w.given),
        Until-later n s.stamp w.others (omega (arith, w.given)) w.older,
      )

find-front :
    (hash : ℕ) (e : StoreEntry) (l m : List (ℕ × StoreEntry))
    → m ≡ (hash, e) ∷ l
    → find hash m ≡ some e
unfolding find
find-front hash e l m f = subst (λ z. find hash z ≡ some e) (sym f) (ground arith)

kept_lem :
    (hash j : ℕ) (e x : StoreEntry) (l : List (ℕ × StoreEntry))
    → find j ((hash, e) ∷ erase hash l) ≡ some x
    → (hash ≡ j) ⊎ (find j l ≡ some x)
unfolding find
kept_lem hash j e x l f = elim (Bool-cases (hash == j)) [
  | inl t ↦ inl (ground (arith, t))
  | inr t ↦ inr (find-erase_before hash j x l (ground (arith, t, f)))
]

-- The store behind a block that was written and not yet weighed.
abbrev stored : BlockStore → ℕ → Bytes → BlockStore
stored s hash b = record s {
  index = (hash, record { size = length b; stamp = suc s.stamp }) ∷ erase hash s.index;
  stamp = suc s.stamp;
  bytes = s.bytes + length b;
  files = (hash, b) ∷ erase hash s.files;
}

-- What a block that was written leaves: it is found, in the index with its size and the latest
-- stamp, and on disk with its bytes; what else is found was there before; and all that was there
-- still is where it fits, while else what is left fits, or is a single block.
pub record IsWritten (s : BlockStore) (hash : ℕ) (b : Bytes) (t : BlockStore) : Type 0 where
  pub found : find hash t.index ≡ some (record { size = length b; stamp = suc s.stamp })
  pub on_disk : find hash t.files ≡ some b
  pub before :
      (j : ℕ) (x : StoreEntry) → find j t.index ≡ some x → (hash ≡ j) ⊎ (find j s.index ≡ some x)
  pub weighed :
      (((s.budget ≡ 0) ⊎ (s.bytes + length b ≤ s.budget))
        × (t.index ≡ (hash, record { size = length b; stamp = suc s.stamp }) ∷ s.index)
        × (t.bytes ≡ s.bytes + length b))
      ⊎ ((s.budget < s.bytes + length b) × ((t.bytes ≤ s.budget) ⊎ (length t.index ≤ 1)))

budget-cases : (n m : ℕ) → ((n ≡ 0) ⊎ (m ≤ n)) ⊎ ((n ≢ 0) × (n < m))
budget-cases n m = ground arith

-- A file that was not written changes nothing but the queue. One that was written enters the index
-- and the account and is not dropped again, whatever the eviction drops; the account stays right.
pub finish_write-IsConsistent :
    (s : BlockStore) (hash : ℕ) (b : Bytes) (rest : List (ℕ × Bytes)) (ok : Bool)
    → IsConsistent s
    → s.queue ≡ (hash, b) ∷ rest
    → IsConsistent (finish_write s hash b ok)
      × ((finish_write s hash b ok).queue ≡ rest)
      × (((ok ≡ false) × (finish_write s hash b ok ≡ record s { queue = rest }))
          ⊎ ((ok ≡ true) × IsWritten s hash b (finish_write s hash b ok)))
unfolding finish_write
finish_write-IsConsistent s hash b rest false c w =
    let (d, e) = popped s s hash b rest c w c.account c.recent refl (λ h x y. y) in
    (d, e, inl (refl, ap (λ q. record s { queue = q }) e))
finish_write-IsConsistent s hash b rest true c w =
    let entry : StoreEntry = record { size = length b; stamp = suc s.stamp } in
    let t = stored s hash b in
    let absent = front_apart s hash b rest c w in
    let a : IsCounted t = written_lem s hash b t.files c.account absent in
    let (u, v, q, k) = evict_to_budget_locked-IsCounted t a in
    let newest : IsNewest hash entry b s.stamp t = record {
      others = erase hash s.index;
      front = refl;
      older = Until-erase s.stamp hash s.index c.recent;
      last = refl;
      given = refl;
      stored = file_front hash b (erase hash s.files);
    } in
    let (n, m) = evict_to_budget_locked-IsNewest t hash entry b s.stamp a newest in
    let (d, e) =
      popped s (evict_to_budget_locked t) hash b rest c w u
        (IsNewest-Until hash s.stamp entry b (evict_to_budget_locked t) n) q
        (λ h x y. k h (fresh_lem h hash entry s.index x y)) in
    (
      d,
      e,
      inr (
        refl,
        record {
          found = find-front hash entry n.others (evict_to_budget_locked t).index n.front;
          on_disk = n.stored;
          before = λ j x g. kept_lem hash j entry x s.index (m j x g);
          weighed = elim (budget-cases s.budget (s.bytes + length b)) [
            | inl fits ↦
                let f = evict_fits t fits in
                inl (
                  fits,
                  ap (λ z. z.index) f ∙ ap (◌∷◌ (hash, entry)) (erase-absent hash s.index absent),
                  ap (λ z. z.bytes) f,
                )
            | inr (x, y) ↦ inr (y, elim v [ inl z ↦ absurd (x z) | inr z ↦ z ])
          ];
        },
      ),
    )
