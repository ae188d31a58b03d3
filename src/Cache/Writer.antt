-- ===== src/Cache/Writer.antt =====
-- src/cache/kv_quant.cpp: `update_kv_components` on all components, as both caches call it.
use libmlxforge.Common.{
  ℕ, zero, suc, ◌+◌, ◌-◌, ◌≤◌, ◌<◌, List, [], ◌∷◌, map, length, replicate, take, drop, ltb, ◌==◌,
  if◌then◌else◌, ◌≡◌, refl, sym, ◌∙◌, ap, subst, arith, Bool-cases, inl, inr,
}
use libmlxforge.Common.{◌%◌, ◌⊎◌}
use libmlxforge.Cache.Arrays.{ArrayLib, ArrayLaws, IsRect}
use libmlxforge.Cache.Batch.{k_step, growth, grow, write, update_kv_components}
use libmlxforge.Cache.Contents.{contents, take_all}
use libmlxforge.Cache.Moves.{All, appended}
use libmlxforge.Cache.Write.{
  fresh, fresh_lem, longer_lem, cut_lem, written_lem, contents-same, take-take,
}

module _ {A S : Type 0} (lib : ArrayLib A S) (laws : ArrayLaws lib) where
  -- What the rows hold before a write: of a store without arrays, nothing.
  abbrev pub before : List ℕ → ℕ → ℕ → List A → List A → List (List (List S))
  before lps p b [] xs = map (λ x. replicate b []) xs
  before lps p b (a ∷ store) xs = map (λ y. contents lps p (lib.rows y)) (a ∷ store)

  -- And behind it: the new slots of each array.
  abbrev pub after : List ℕ → ℕ → List (List (List S)) → List A → List (List (List S))
  after lps p [] xs = []
  after lps p (h ∷ hs) [] = []
  after lps p (h ∷ hs) (x ∷ xs) = appended lps p h (lib.rows x) ∷ after lps p hs xs

  contents-start :
      (b : ℕ) (lps : List ℕ) (rows : List (List S))
      → length lps ≡ b
      → length rows ≡ b
      → contents lps 0 rows ≡ replicate b []
  contents-start zero [] rows e f = refl
  contents-start zero (lp ∷ lps) rows e f = absurd (omega (arith, e))
  contents-start (suc b) [] rows e f = absurd (omega (arith, e))
  contents-start (suc b) (lp ∷ lps) [] e f = absurd (omega (arith, f))
  contents-start (suc b) (lp ∷ lps) (r ∷ rows) e f =
      ap (λ x. x ∷ contents lps 0 rows) (drop_nil lp)
      ∙ ap (◌∷◌ []) (contents-start b lps rows (omega (arith, e)) (omega (arith, f)))
    where
      drop_nil : (k : ℕ) → ◌≡◌ {A = List S} (drop k []) []
      drop_nil zero = refl
      drop_nil (suc k) = refl

  grow-fresh :
      (add b k : ℕ) (xs : List A) (lps : List ℕ)
      → All (IsRect lib b k) xs
      → length lps ≡ b
      → All (IsRect lib b add) (grow lib 0 add k_step [] xs)
        × (map (λ y. contents lps 0 (lib.rows y)) (grow lib 0 add k_step [] xs)
            ≡ map (λ x. replicate b []) xs)
        × (length (grow lib 0 add k_step [] xs) ≡ length xs)
  unfolding grow
  grow-fresh add b k [] lps h e = (tt, refl, refl)
  grow-fresh add b k (x ∷ xs) lps h e =
      let (r, c, l) = grow-fresh add b k xs lps h.1 e in
      let f = fresh_lem lib laws b k add x h.0 in
      (
        (f, r),
        ap (λ y. y ∷ map (λ y. contents lps 0 (lib.rows y)) (grow lib 0 add k_step [] xs))
              (contents-start b lps (lib.rows (fresh lib laws add x)) e f.count)
            ∙ ap (◌∷◌ (replicate b [])) c,
        ap suc l,
      )

  abbrev width : ℕ → ℕ → ℕ
  width n p = if p % k_step == 0 then n else p

  current_lem :
      (b n p : ℕ) (a : A)
      → IsRect lib b n a
      → p ≤ n
      → IsRect lib b (width n p) (if p % k_step == 0 then a else lib.slice_seq a 0 p)
        × (map (take p) (lib.rows (if p % k_step == 0 then a else lib.slice_seq a 0 p))
            ≡ map (take p) (lib.rows a))
        × (p ≤ width n p)
  current_lem b n p a r l = elim (Bool-cases (p % k_step == 0)) [
    | inl e ↦ rw e (r, refl, l)
    | inr e ↦ let (x, y) = cut_lem lib laws b n p a r l in rw e (x, y, omega arith)
  ]

  grow-longer :
      (add b k n p : ℕ) (store xs : List A) (lps : List ℕ)
      → All (IsRect lib b n) store
      → All (IsRect lib b k) xs
      → length store ≡ length xs
      → p ≤ n
      → All (IsRect lib b (width n p + add)) (grow lib p add k_step store xs)
        × (map (λ y. contents lps p (lib.rows y)) (grow lib p add k_step store xs)
            ≡ map (λ y. contents lps p (lib.rows y)) store)
        × (length (grow lib p add k_step store xs) ≡ length xs)
  unfolding grow
  grow-longer add b k n p [] [] lps h g e l = (tt, refl, refl)
  grow-longer add b k n p [] (x ∷ xs) lps h g e l = absurd (omega (arith, e))
  grow-longer add b k n p (a ∷ store) [] lps h g e l = absurd (omega (arith, e))
  grow-longer add b k n p (a ∷ store) (x ∷ xs) lps h g e l =
      let (r, c, len) = grow-longer add b k n p store xs lps h.1 g.1 (omega (arith, e)) l in
      let cur = if p % k_step == 0 then a else lib.slice_seq a 0 p in
      let (u, v, w) = current_lem b n p a h.0 l in
      let (s, t) = longer_lem lib laws b k add p (width n p) cur x u g.0 w in
      (
        (s, r),
        ap (λ y. y ∷ map (λ y. contents lps p (lib.rows y)) (grow lib p add k_step store xs))
              (contents-same lps p (lib.rows (lib.concat_seq cur (fresh lib laws add x)))
                (lib.rows a) (take p) (t ∙ v) (take-take p))
            ∙ ap (◌∷◌ (contents lps p (lib.rows a))) c,
        ap suc len,
      )

  write_lem :
      (b k n p : ℕ) (room xs : List A) (lps : List ℕ)
      → All (IsRect lib b n) room
      → All (IsRect lib b k) xs
      → length room ≡ length xs
      → p + k ≤ n
      → All (IsRect lib b n) (write lib p room xs)
        × (map (λ y. contents lps (p + k) (lib.rows y)) (write lib p room xs)
            ≡ after lps p (map (λ y. contents lps p (lib.rows y)) room) xs)
        × (length (write lib p room xs) ≡ length xs)
  write_lem b k n p [] [] lps h g e l = (tt, refl, refl)
  write_lem b k n p [] (x ∷ xs) lps h g e l = absurd (omega (arith, e))
  write_lem b k n p (a ∷ room) [] lps h g e l = absurd (omega (arith, e))
  write_lem b k n p (a ∷ room) (x ∷ xs) lps h g e l =
      let (r, c, len) = write_lem b k n p room xs lps h.1 g.1 (omega (arith, e)) l in
      let (u, v) = written_lem lib laws b k n p a x lps h.0 g.0 l in
      (
        (u, r),
        ap (λ y. y ∷ map (λ y. contents lps (p + k) (lib.rows y)) (write lib p room xs)) v
            ∙ ap (◌∷◌ (appended lps p (contents lps p (lib.rows a)) (lib.rows x))) c,
        ap suc len,
      )

  slices_lem :
      (b n to : ℕ) (l : List A)
      → All (IsRect lib b n) l
      → to ≤ n
      → map lib.rows (map (λ a. lib.slice_seq a 0 to) l) ≡ map (λ a. map (take to) (lib.rows a)) l
  slices_lem b n to [] h k = refl
  slices_lem b n to (a ∷ l) h k =
      ap (λ y. y ∷ map lib.rows (map (λ a. lib.slice_seq a 0 to) l))
        (laws.slice_seq a b n 0 to h.0 (omega arith) k
          ∙ ap (λ m. map (take m) (lib.rows a)) {x = to - 0} {y = to} (omega arith))
      ∙ ap (◌∷◌ (map (take to) (lib.rows a))) (slices_lem b n to l h.1 k)

  -- The state after a write: the arrays and what is returned.
  abbrev pub Wrote :
      ℕ → ℕ → ℕ → List ℕ → List (List (List S)) → A → List A → List A × List A → Type 0
  Wrote b k p lps old x xs res =
      (m : ℕ) × (p + k ≤ m)
      × All (IsRect lib b m) res.0
      × (map (λ a. contents lps (p + k) (lib.rows a)) res.0 ≡ after lps p old (x ∷ xs))
      × (map lib.rows res.1 ≡ map (λ a. map (take (p + k)) (lib.rows a)) res.0)

  wrote :
      (b k m p : ℕ) (room : List A) (x : A) (xs : List A) (lps : List ℕ)
      (old : List (List (List S)))
      → All (IsRect lib b k) (x ∷ xs)
      → All (IsRect lib b m) room
      → map (λ y. contents lps p (lib.rows y)) room ≡ old
      → length room ≡ suc (length xs)
      → p + k ≤ m
      → (p + k ≤ m)
        × All (IsRect lib b m) (write lib p room (x ∷ xs))
        × (map (λ a. contents lps (p + k) (lib.rows a)) (write lib p room (x ∷ xs))
            ≡ after lps p old (x ∷ xs))
        × (map lib.rows (
              map
                (λ a. lib.slice_seq a 0 (p + k))
                (take (suc (length xs)) (write lib p room (x ∷ xs))))
            ≡ map (λ a. map (take (p + k)) (lib.rows a)) (write lib p room (x ∷ xs)))
  wrote b k m p room x xs lps old h r c l fit =
      let (u, v, w) = write_lem b k m p room (x ∷ xs) lps r h l fit in
      let st = write lib p room (x ∷ xs) in
      (
        fit,
        u,
        v ∙ ap (λ o. after lps p o (x ∷ xs)) c,
        ap (λ z. map lib.rows (map (λ a. lib.slice_seq a 0 (p + k)) z))
              (take_all (suc (length xs)) st (omega (arith, w)))
            ∙ slices_lem b m (p + k) st u fit,
      )

  width_lem : (n p : ℕ) → p ≤ n → p ≤ width n p
  width_lem n p l = ground (arith, l)

  write_first :
      (b k : ℕ) (x : A) (xs : List A) (lps : List ℕ)
      → lib.seq x ≡ k
      → length lps ≡ b
      → All (IsRect lib b (lib.seq x)) (x ∷ xs)
      → Wrote b
          (lib.seq x)
          0
          lps
          (before lps 0 b [] (x ∷ xs))
          x
          xs
          (update_kv_components lib [] (x ∷ xs) 0 k_step)
  unfolding update_kv_components
  write_first b k x xs lps q e h =
      let n = lib.seq x in
      let add = growth lib k_step n in
      let (r, c, l) = grow-fresh add b n (x ∷ xs) lps h e in
      let (i, j, m, o) =
        wrote b n add 0 (grow lib 0 add k_step [] (x ∷ xs)) x xs lps
          (map (λ y. replicate b []) (x ∷ xs)) h r c l (omega arith) in
      (add, i, j, m, o)

  write_later :
      (b n p : ℕ) (a : A) (store : List A) (x : A) (xs : List A) (lps : List ℕ)
      → lib.seq a ≡ n
      → All (IsRect lib b (lib.seq x)) (x ∷ xs)
      → All (IsRect lib b n) (a ∷ store)
      → length (a ∷ store) ≡ suc (length xs)
      → p ≤ n
      → Wrote b
          (lib.seq x)
          p
          lps
          (before lps p b (a ∷ store) (x ∷ xs))
          x
          xs
          (update_kv_components lib (a ∷ store) (x ∷ xs) p k_step)
  unfolding update_kv_components
  write_later b n p a store x xs lps t h g u v =
      let k = lib.seq x in
      let old = map (λ y. contents lps p (lib.rows y)) (a ∷ store) in
      elim (Bool-cases (ltb (lib.seq a) (p + k))) [
        | inl f ↦
            let add = growth lib k_step k in
            let (r, c, l) = grow-longer add b k n p (a ∷ store) (x ∷ xs) lps g h u v in
            let (i, j, m, o) =
              wrote b k (width n p + add) p (grow lib p add k_step (a ∷ store) (x ∷ xs)) x xs lps
                old h r c l (omega (arith, width_lem n p v)) in
            rw (update_kv_components, f) (width n p + add, i, j, m, o)
        | inr f ↦
            let (i, j, m, o) =
              wrote b k n p (a ∷ store) x xs lps old h g refl u (ground (arith, f, t)) in
            rw (update_kv_components, f) (n, i, j, m, o)
      ]

  -- A write at `p`, in the steps of the caches, to a store that is empty, where `p` is 0,
  -- or has an array as wide as `p` at least for each that is written: all arrays stay of one width with room for the
  -- write, their rows hold what they held and the new slots behind it, less what of these is padding,
  -- and what is returned is the slots up to the new write position.
  pub update_kv_components_lem :
      (b k n p : ℕ) (store : List A) (x : A) (xs : List A) (lps : List ℕ)
      → 0 < b
      → length lps ≡ b
      → All (IsRect lib b k) (x ∷ xs)
      → All (IsRect lib b n) store
      → ((store ≡ []) × (p ≡ 0)) ⊎ ((length store ≡ suc (length xs)) × (p ≤ n))
      → Wrote b k p lps
          (before lps p b store (x ∷ xs))
          x
          xs
          (update_kv_components lib store (x ∷ xs) p k_step)
  update_kv_components_lem b k n p [] x xs lps pos e h g (inr (u, v)) = absurd (omega (arith, u))
  update_kv_components_lem b k n p (a ∷ store) x xs lps pos e h g (inl (u, v)) =
      absurd (omega (arith, ap length u))
  update_kv_components_lem b k n p [] x xs lps pos e h g (inl (u, v)) =
      let q = laws.seq x b k h.0 pos in
      subst
        (λ z.
          Wrote b k z lps (before lps z b [] (x ∷ xs)) x xs
            (update_kv_components lib [] (x ∷ xs) z k_step))
        (sym v)
        (subst
          (λ z.
            Wrote b z 0 lps (before lps 0 b [] (x ∷ xs)) x xs
              (update_kv_components lib [] (x ∷ xs) 0 k_step))
          q (write_first b k x xs lps q e (subst (λ z. All (IsRect lib b z) (x ∷ xs)) (sym q) h)))
  update_kv_components_lem b k n p (a ∷ store) x xs lps pos e h g (inr (u, v)) =
      let q = laws.seq x b k h.0 pos in
      subst
        (λ z.
          Wrote b z p lps (before lps p b (a ∷ store) (x ∷ xs)) x xs
            (update_kv_components lib (a ∷ store) (x ∷ xs) p k_step))
        q
        (write_later b n p a store x xs lps (laws.seq a b n g.0 pos)
          (subst (λ z. All (IsRect lib b z) (x ∷ xs)) (sym q) h) g u v)
