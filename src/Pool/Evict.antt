-- ===== src/Pool/Evict.antt =====
-- The loop of `evict_to_budget` of src/cache/block_pool.cpp against `keep`.
use mathlib.Core.List.{reverse, reverse-cons, append_assoc, append-nil}
use libmlxforge.Common.{
  ℕ, ◌+◌, ◌-◌, ◌≤◌, true, false, List, [], ◌∷◌, ◌++◌, Option, none, some, ◌≡◌, refl, sym, arith,
  ltb, ◌==◌, if◌then◌else◌, ap, ◌∙◌, Bool-cases, inl, inr,
}
use libmlxforge.Pool.Blocks.{KvBlock, BlockPool, find, erase, evict_from}
use libmlxforge.Pool.Recency.{Entry, total, hashes, IsDistinct, keep}

module _ {A : Type 0} where
  abbrev or_else : Option (KvBlock A) → Option (KvBlock A) → Option (KvBlock A)
  or_else none o = o
  or_else (some b) o = some b

  find-append :
      (h : ℕ) (xs ys : List (Entry A)) → find h (xs ++ ys) ≡ or_else (find h xs) (find h ys)
  unfolding find
  find-append h [] ys = refl
  find-append h ((j, b) ∷ xs) ys = ground (arith, find-append h xs ys)

  IsDistinct-snoc :
      (xs : List (Entry A)) (h : ℕ) (b : KvBlock A)
      → find h xs ≡ none
      → IsDistinct xs
      → IsDistinct (xs ++ (h, b) ∷ [])
  unfolding find
  IsDistinct-snoc [] h b e d = (refl, tt)
  IsDistinct-snoc ((j, c) ∷ xs) h b e d = (
    find-append j xs ((h, b) ∷ []) ∙ ground (arith, d.0),
    IsDistinct-snoc xs h b (ground arith) d.1,
  )

  pub find-erase :
      (h j : ℕ) (m : List (Entry A)) → find j (erase h m) ≡ (if h == j then none else find j m)
  unfolding find erase
  find-erase h j [] = ground arith
  find-erase h j ((i, b) ∷ m) = ground (arith, find-erase h j m)

  total-append : (xs ys : List (Entry A)) → total (xs ++ ys) ≡ total xs + total ys
  total-append [] ys = omega arith
  total-append ((h, b) ∷ xs) ys = omega (arith, total-append xs ys)

  pub total-reverse : (es : List (Entry A)) → total (reverse es) ≡ total es
  total-reverse [] = refl
  total-reverse ((h, b) ∷ es) =
      rw (reverse-cons (h, b) es)
        (omega (arith, total-append (reverse es) ((h, b) ∷ []), total-reverse es))

  find-reverse-none : (h : ℕ) (es : List (Entry A)) → find h es ≡ none → find h (reverse es) ≡ none
  unfolding find
  find-reverse-none h [] e = refl
  find-reverse-none h ((j, b) ∷ es) e =
      rw (reverse-cons (j, b) es)
        (find-append h (reverse es) ((j, b) ∷ []) ∙ ground (arith, find-reverse-none h es))

  pub IsDistinct-reverse : (es : List (Entry A)) → IsDistinct es → IsDistinct (reverse es)
  IsDistinct-reverse [] d = tt
  IsDistinct-reverse ((h, b) ∷ es) d =
      rw (reverse-cons (h, b) es)
        (IsDistinct-snoc (reverse es) h b (find-reverse-none h es d.0) (IsDistinct-reverse es d.1))

  pub find-reverse : (h : ℕ) (es : List (Entry A)) → IsDistinct es → find h (reverse es) ≡ find h es
  unfolding find
  find-reverse h [] d = refl
  find-reverse h ((j, b) ∷ es) d = rw (reverse-cons (j, b) es) (
      find-append h (reverse es) ((j, b) ∷ [])
      ∙ ground (arith, find-reverse h es d.1, find-reverse-none h es))

  -- The entries from the back that the loop leaves, and those that it evicts.
  abbrev pub trim : ℕ → List (Entry A) → List (Entry A)
  trim room [] = []
  trim room (e ∷ rs) = if ltb room (total (e ∷ rs)) then trim room rs else e ∷ rs

  abbrev pub cut : ℕ → List (Entry A) → List (Entry A)
  cut room [] = []
  cut room (e ∷ rs) = let rest = e ∷ cut room rs in if ltb room (total (e ∷ rs)) then rest else []

  keep-snoc :
      (room : ℕ) (xs : List (Entry A)) (h : ℕ) (b : KvBlock A)
      → keep room (xs ++ (h, b) ∷ [])
        ≡ (if ltb room (total xs + b.bytes) then keep room xs else xs ++ (h, b) ∷ [])
  keep-snoc room [] h b = ground arith
  keep-snoc room ((j, c) ∷ xs) h b = ground (arith, keep-snoc (room - c.bytes) xs h b)

  keep-all : (room : ℕ) (xs : List (Entry A)) → total xs ≤ room → keep room xs ≡ xs
  keep-all room [] h = refl
  keep-all room ((j, c) ∷ xs) h = ground (arith, keep-all (room - c.bytes) xs)

  pub keep-reverse :
      (room : ℕ) (rs : List (Entry A)) → keep room (reverse rs) ≡ reverse (trim room rs)
  keep-reverse room [] = refl
  keep-reverse room ((h, b) ∷ rs) = rw (reverse-cons (h, b) rs) (
      keep-snoc room (reverse rs) h b
      ∙ ground (arith, keep-reverse room rs, total-reverse rs, reverse-cons (h, b) rs))

  pub total-keep-le : (room : ℕ) (xs : List (Entry A)) → total (keep room xs) ≤ room
  total-keep-le room [] = omega arith
  total-keep-le room ((j, c) ∷ xs) = ground (arith, total-keep-le (room - c.bytes) xs)

  find-keep-none :
      (h room : ℕ) (xs : List (Entry A)) → find h xs ≡ none → find h (keep room xs) ≡ none
  unfolding find
  find-keep-none h room [] e = refl
  find-keep-none h room ((j, c) ∷ xs) e = ground (arith, find-keep-none h (room - c.bytes) xs)

  pub IsDistinct-keep : (room : ℕ) (xs : List (Entry A)) → IsDistinct xs → IsDistinct (keep room xs)
  unfolding find
  IsDistinct-keep room [] d = tt
  IsDistinct-keep room ((j, c) ∷ xs) d =
      ground
        (arith, IsDistinct-keep (room - c.bytes) xs d.1, find-keep-none j (room - c.bytes) xs d.0)

  hashes-append : (xs ys : List (Entry A)) → hashes (xs ++ ys) ≡ hashes xs ++ hashes ys
  hashes-append [] ys = refl
  hashes-append (x ∷ xs) ys = ap (◌∷◌ x.0) (hashes-append xs ys)

  pub hashes-reverse : (es : List (Entry A)) → reverse (hashes es) ≡ hashes (reverse es)
  hashes-reverse [] = refl
  hashes-reverse (e ∷ es) =
      rw (reverse-cons e.0 (hashes es), reverse-cons e es)
        (ap (λ l. l ++ e.0 ∷ []) (hashes-reverse es) ∙ sym (hashes-append (reverse es) (e ∷ [])))

  find-rest :
      (h : ℕ) (b : KvBlock A) (rs m : List (Entry A))
      → find h rs ≡ none
      → ((j : ℕ) → find j m ≡ find j ((h, b) ∷ rs))
      → (j : ℕ) → find j (erase h m) ≡ find j rs
  unfolding find
  find-rest h b rs m d same j = ground (arith, find-erase h j m, same j)

  evicts :
      (v : ℕ) (l : List ℕ) (p : BlockPool A) (out : List (Entry A)) (b : KvBlock A)
      → ltb p.budget p.bytes ≡ true
      → find v p.map_ ≡ some b
      → evict_from (v ∷ l) p out
        ≡ evict_from l
            (record p { bytes = p.bytes - b.bytes; map_ = erase v p.map_ })
            ((v, b) ∷ out)
  unfolding evict_from
  evicts v l p out b t e = ground arith

  fits :
      (v : ℕ) (l : List ℕ) (p : BlockPool A) (out : List (Entry A))
      → ltb p.budget p.bytes ≡ false
      → evict_from (v ∷ l) p out ≡ some (record p { lru = reverse (v ∷ l) }, reverse out)
  unfolding evict_from
  fits v l p out t = ground arith

  found : (h : ℕ) (b : KvBlock A) (rs : List (Entry A)) → find h ((h, b) ∷ rs) ≡ some b
  unfolding find
  found h b rs = ground arith

  -- What the loop does from the entries `rs`, the back of the list first.
  pub evict_from_lem :
      (rs : List (Entry A)) (p : BlockPool A) (out : List (Entry A))
      → IsDistinct rs
      → ((h : ℕ) → find h p.map_ ≡ find h rs)
      → p.bytes ≡ total rs
      → (q : BlockPool A) × (evict_from (hashes rs) p out
          ≡ some (q, reverse out ++ cut p.budget rs))
        × (q.lru ≡ reverse (hashes (trim p.budget rs)))
        × ((h : ℕ) → find h q.map_ ≡ find h (trim p.budget rs))
        × (q.bytes ≡ total (trim p.budget rs))
        × (q.budget ≡ p.budget)
  evict_from_lem [] p out d same counted =
      (record p { lru = [] }, unfold evict_from in rw append-nil, refl, same, counted, refl)
  evict_from_lem ((h, b) ∷ rs) p out d same counted =
      elim (Bool-cases (ltb p.budget (total ((h, b) ∷ rs)))) [
        | inl t ↦
            let next : BlockPool A = record p {
              bytes = p.bytes - b.bytes;
              map_ = erase h p.map_;
            } in
            let (q, e, l, f, c, g) =
              evict_from_lem rs next ((h, b) ∷ out) d.1 (find-rest h b rs p.map_ d.0 same)
                (omega arith) in
            (
              q,
              evicts h (hashes rs) p out b (ground arith) (same h ∙ found h b rs)
                  ∙ e
                  ∙ ap (λ x. some (q, x))
                      (rw t (
                        rw (reverse-cons (h, b) out)
                          (append_assoc (reverse out) ((h, b) ∷ []) (cut p.budget rs)))),
              rw t l,
              rw t f,
              rw t c,
              g,
            )
        | inr t ↦ (
          record p { lru = reverse (h ∷ hashes rs) },
          fits h (hashes rs) p out (ground arith)
              ∙ ap (λ x. some (record p { lru = reverse (h ∷ hashes rs) }, x))
                  (rw t (sym (append-nil (reverse out)))),
          rw t refl,
          rw t same,
          rw t counted,
          refl,
        )
      ]
