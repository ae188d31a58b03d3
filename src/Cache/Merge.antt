-- ===== src/Cache/Merge.antt =====
-- src/cache/batch_kv_cache.cpp: `merge` keeps what the rows of both caches hold.
use libmlxforge.Common.{
  ℕ, ◌+◌, ◌-◌, ◌≤◌, ◌<◌, max, true, false, List, [], ◌∷◌, ◌++◌, some, map, length, ◌==◌, ◌≡◌, refl,
  sym, ◌∙◌, ap, subst, arith, length-append,
}
use libmlxforge.Cache.Arrays.{ArrayLib, ArrayLaws, IsRect, AllLength}
use libmlxforge.Cache.Batch.{
  Layer, BatchKvCache, pad_array, merge_arrays, merge_layers, merge, s_cap, same_config,
}
use libmlxforge.Cache.Contents.{contents, contents-append}
use libmlxforge.Cache.Moves.{All}
use libmlxforge.Cache.Justify.{pad_array_lem}
use libmlxforge.Cache.Surgery.{length-map, AllLength-append}
use libmlxforge.Cache.Whole.{arrays, FirstKeys, NonEmpty, IsWell, held, s_cap_lem, All-append}

-- The layers of both have as many arrays.
abbrev pub SameShape : {A : Type 0} → List (Layer A) → List (Layer A) → Type 0
SameShape [] [] = Unit
SameShape [] (o ∷ os) = ⊥
SameShape (l ∷ ls) [] = ⊥
SameShape (l ∷ ls) (o ∷ os) =
    (length l.keys ≡ length o.keys) × (length l.values ≡ length o.values) × SameShape ls os

-- Two lists side by side.
abbrev pub zips : {X Y : Type 0} → (X → X → Y) → List X → List X → List Y
zips f [] ys = []
zips f (x ∷ xs) [] = []
zips f (x ∷ xs) (y ∷ ys) = f x y ∷ zips f xs ys

zips-append :
    {X Y : Type 0} (f : X → X → Y) (a b c d : List X)
    → length a ≡ length b
    → zips f (a ++ c) (b ++ d) ≡ zips f a b ++ zips f c d
zips-append f [] [] c d e = refl
zips-append f [] (y ∷ b) c d e = absurd (omega (arith, e))
zips-append f (x ∷ a) [] c d e = absurd (omega (arith, e))
zips-append f (x ∷ a) (y ∷ b) c d e = ap (◌∷◌ (f x y)) (zips-append f a b c d (omega (arith, e)))

module _ {A S : Type 0} (lib : ArrayLib A S) (laws : ArrayLaws lib) where
  merge_arrays_lem :
      (f g : A → A) (a b : List A)
      → merge_arrays lib f g a b ≡ zips (λ x y. lib.concat_rows (f x) (g y)) a b
  unfolding merge_arrays
  merge_arrays_lem f g [] b = refl
  merge_arrays_lem f g (x ∷ a) [] = refl
  merge_arrays_lem f g (x ∷ a) (y ∷ b) =
      ap (◌∷◌ (lib.concat_rows (f x) (g y))) (merge_arrays_lem f g a b)

  arrays-merge_layers :
      (f g : A → A) (ls os : List (Layer A))
      → SameShape ls os
      → arrays (merge_layers lib f g ls os)
        ≡ zips (λ x y. lib.concat_rows (f x) (g y)) (arrays ls) (arrays os)
  unfolding merge_layers
  arrays-merge_layers f g [] [] h = refl
  arrays-merge_layers f g [] (o ∷ os) h = absurd h
  arrays-merge_layers f g (l ∷ ls) [] h = absurd h
  arrays-merge_layers f g (l ∷ ls) (o ∷ os) (k, v, h) =
      let z : A → A → A = λ x y. lib.concat_rows (f x) (g y) in
      ap (λ x. x ++ (merge_arrays lib f g l.values o.values ++ arrays (merge_layers lib f g ls os)))
        (merge_arrays_lem f g l.keys o.keys)
      ∙ ap (λ x. zips z l.keys o.keys ++ (x ++ arrays (merge_layers lib f g ls os)))
          (merge_arrays_lem f g l.values o.values)
      ∙ ap (λ x. zips z l.keys o.keys ++ (zips z l.values o.values ++ x))
          (arrays-merge_layers f g ls os h)
      ∙ ap (λ x. zips z l.keys o.keys ++ x)
          (sym (zips-append z l.values o.values (arrays ls) (arrays os) v))
      ∙ sym (zips-append z l.keys o.keys (l.values ++ arrays ls) (o.values ++ arrays os) k)

  FirstKeys-merge_layers :
      (f g : A → A) (ls os : List (Layer A))
      → FirstKeys ls
      → FirstKeys os
      → FirstKeys (merge_layers lib f g ls os)
  unfolding merge_layers merge_arrays
  FirstKeys-merge_layers f g [] os h k = absurd h
  FirstKeys-merge_layers f g (l ∷ ls) [] h k = absurd k
  FirstKeys-merge_layers f g (l ∷ ls) (o ∷ os) h k = go l.keys o.keys h k
    where
      go : (a b : List A) → NonEmpty a → NonEmpty b → NonEmpty (merge_arrays lib f g a b)
      go [] b h k = absurd h
      go (x ∷ a) [] h k = absurd k
      go (x ∷ a) (y ∷ b) h k = tt

  -- Two arrays, each well formed, justified and put together.
  lift_two :
      (P Q R : A → Type 0) (z : A → A → A) (u v : A → List (List S)) (w : A → List (List S))
      (a b : List A)
      → ((x y : A) → P x → Q y → R (z x y) × (w (z x y) ≡ u x ++ v y))
      → All P a
      → All Q b
      → All R (zips z a b) × (map w (zips z a b) ≡ zips (λ g h. g ++ h) (map u a) (map v b))
  lift_two P Q R z u v w [] b h p q = (tt, refl)
  lift_two P Q R z u v w (x ∷ a) [] h p q = (tt, refl)
  lift_two P Q R z u v w (x ∷ a) (y ∷ b) h p q =
      let (r, e) = h x y p.0 q.0 in
      let (rs, es) = lift_two P Q R z u v w a b h p.1 q.1 in
      ((r, rs), ap (λ k. k ∷ map w (zips z a b)) e ∙ ap (◌∷◌ (u x ++ v y)) es)

All-later :
    (s n m : ℕ) (l : List ℕ)
    → n + s ≤ m
    → All (λ v. v ≤ n) l
    → All (λ v. v ≤ m) (map (λ v. v + s) l)
All-later s n m [] k h = tt
All-later s n m (x ∷ l) k h = (omega (arith, h.0, k), All-later s n m l k h.1)

module _ {A S : Type 0} (lib : ArrayLib A S) (laws : ArrayLaws lib) where
  -- Two caches of the same shape are merged without an error, and the rows of both hold what they held
  -- before: those of the first stand before those of the second.
  pub merge_lem :
      (m n : ℕ) (c o : BatchKvCache A)
      → same_config c.qcfg o.qcfg ≡ true
      → 0 < c.batch
      → 0 < o.batch
      → SameShape c.layers o.layers
      → IsWell lib m c
      → IsWell lib n o
      → (r : BatchKvCache A) × (merge lib c o ≡ some r)
        × IsWell lib (max m n) r
        × (held lib r ≡ zips (λ g h. g ++ h) (held lib c) (held lib o))
        × (r.offset ≡ c.offset ++ o.offset)
  unfolding merge
  merge_lem m n c o same p q shape w v =
      let i = max c.idx o.idx in
      let size = max m n in
      let f = pad_array lib i size c.idx in
      let g = pad_array lib i size o.idx in
      let z : A → A → A = λ x y. lib.concat_rows (f x) (g y) in
      let lc = map (λ k. k + (i - c.idx)) c.left_padding in
      let lo = map (λ k. k + (i - o.idx)) o.left_padding in
      let sizes : max (s_cap lib c) (s_cap lib o) ≡ size =
        ap (λ k. max k (s_cap lib o))
          (s_cap_lem lib laws c c.batch m c.layers refl p w.first w.rects)
        ∙ ap (max m) (s_cap_lem lib laws o o.batch n o.layers refl q v.first v.rects) in
      let r : BatchKvCache A = record c {
        layers = merge_layers lib f g c.layers o.layers;
        left_padding = lc ++ lo;
        offset = c.offset ++ o.offset;
        idx = i;
        batch = c.batch + o.batch;
      } in
      let flat = arrays-merge_layers lib laws f g c.layers o.layers shape in
      let lens : length lc ≡ c.batch =
        length-map (λ k. k + (i - c.idx)) c.left_padding ∙ w.paddings in
      let (rects, holds) =
        lift_two lib laws (IsRect lib c.batch m) (IsRect lib o.batch n)
          (IsRect lib (c.batch + o.batch) size) z (λ a. contents c.left_padding c.idx (lib.rows a))
          (λ a. contents o.left_padding o.idx (lib.rows a))
          (λ a. contents (lc ++ lo) i (lib.rows a)) (arrays c.layers) (arrays o.layers)
          (λ x y h k.
            let (rx, ex) =
              pad_array_lem lib laws i size c.idx c.batch m x h p w.fits (omega arith) (omega arith)
                (omega (arith, w.fits, v.fits)) c.left_padding in
            let (ry, ey) =
              pad_array_lem lib laws i size o.idx o.batch n y k q v.fits (omega arith) (omega arith)
                (omega (arith, w.fits, v.fits)) o.left_padding in
            let cat = laws.concat_rows (f x) (g y) c.batch o.batch size rx ry in
            (
              record {
                count =
                    ap length cat
                    ∙ omega (
                      arith,
                      length-append (lib.rows (f x)) (lib.rows (g y)),
                      rx.count,
                      ry.count,
                    );
                widths =
                    subst (AllLength size) (sym cat)
                      (AllLength-append size (lib.rows (f x)) (lib.rows (g y)) rx.widths ry.widths);
              },
              ap (contents (lc ++ lo) i) cat
                  ∙ contents-append lc lo i (lib.rows (f x)) (lib.rows (g y)) (lens ∙ sym rx.count)
                  ∙ ap (λ k. k ++ contents lo i (lib.rows (g y))) ex
                  ∙ ap (λ k. contents c.left_padding c.idx (lib.rows x) ++ k) ey,
            ))
          w.rects v.rects in
      (
        r,
        merged m n c o same p q sizes,
        record {
          paddings = omega (
            arith,
            length-append lc lo,
            lens,
            length-map (λ k. k + (i - o.idx)) o.left_padding,
            v.paddings,
          );
          offsets = omega (arith, length-append c.offset o.offset, w.offsets, v.offsets);
          rects = subst (All (IsRect lib (c.batch + o.batch) size)) (sym flat) rects;
          first = FirstKeys-merge_layers lib laws f g c.layers o.layers w.first v.first;
          fits = omega (arith, w.fits, v.fits);
          behind =
              All-append (λ k. k ≤ i) lc lo
                (All-later (i - c.idx) c.idx i c.left_padding (omega arith) w.behind)
                (All-later (i - o.idx) o.idx i o.left_padding (omega arith) v.behind);
        },
        ap (map (λ a. contents (lc ++ lo) i (lib.rows a))) flat ∙ holds,
        refl,
      )
    where
      merged :
          (m n : ℕ) (c o : BatchKvCache A)
          → same_config c.qcfg o.qcfg ≡ true
          → 0 < c.batch
          → 0 < o.batch
          → max (s_cap lib c) (s_cap lib o) ≡ max m n
          → merge lib c o
            ≡ some (record c {
              layers =
                  merge_layers lib
                    (pad_array lib (max c.idx o.idx) (max m n) c.idx)
                    (pad_array lib (max c.idx o.idx) (max m n) o.idx)
                    c.layers
                    o.layers;
              left_padding =
                  map (λ k. k + (max c.idx o.idx - c.idx)) c.left_padding
                  ++ map (λ k. k + (max c.idx o.idx - o.idx)) o.left_padding;
              offset = c.offset ++ o.offset;
              idx = max c.idx o.idx;
              batch = c.batch + o.batch;
            })
      merged m n c o same p q e =
          let c0 : (c.batch == 0) ≡ false = ground (arith, p) in
          let o0 : (o.batch == 0) ≡ false = ground (arith, q) in rw (merge, same, o0, c0, e) refl
