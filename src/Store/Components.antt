-- ===== src/Store/Components.antt =====
-- src/cache/block_store.cpp: arrays and layers are read back as they were written.
use native.Mathlib.Nat.{mod-eq_of_lt}
use libmlxforge.Common.{
  ℕ, ◌*◌, ◌%◌, ◌^◌, ◌<◌, true, false, List, [], ◌∷◌, ◌++◌, some, Bytes, length, ltb, leb, ◌==◌, ◌≡◌,
  refl, sym, ◌∙◌, ap, arith, take-append, drop-append, length-append, Option-cases, inl, inr,
}
use mathlib.Core.List.{append_assoc}
use libmlxforge.Pool.Blocks.{word_bytes, u64_mod}
use libmlxforge.Store.Format.{
  Dtype, Array, nbytes, dtype_code, components, component_bytes, append_components, read_shape,
  read_comp, read_comps, read_layers, item_size, positive_int32, dtype_of, any,
}
use libmlxforge.Store.Words.{read_if-word_bytes}

-- An array of one of the two storage dtypes: positive dimensions, as many bytes as they ask for.
pub record IsStored (c : Array) (code : ℕ) : Type 0 where
  pub coded : dtype_code c.dtype ≡ some code
  pub positive0 : positive_int32 c.shape0 ≡ true
  pub positive1 : positive_int32 c.shape1 ≡ true
  pub positive2 : positive_int32 c.shape2 ≡ true
  pub positive3 : positive_int32 c.shape3 ≡ true
  pub full : nbytes c ≡ c.shape0 * c.shape1 * c.shape2 * c.shape3 * item_size code
  pub small : nbytes c < u64_mod

positive_below : (x : ℕ) → positive_int32 x ≡ true → x < 256 ^ 4
positive_below x t = ground arith

component_append :
    (c : Array) (code : ℕ) (r : Bytes)
    → component_bytes c code ++ r
      ≡ word_bytes 4 code
        ++ (word_bytes 4 c.shape0
            ++ (word_bytes 4 c.shape1
                ++ (word_bytes 4 c.shape2
                    ++ (word_bytes 4 c.shape3 ++ (word_bytes 8 (nbytes c) ++ (c.elements ++ r))))))
unfolding component_bytes word_bytes
component_append c code r = refl

read_shape-word_bytes :
    (s0 s1 s2 s3 : ℕ) (r : Bytes)
    → positive_int32 s0 ≡ true
    → positive_int32 s1 ≡ true
    → positive_int32 s2 ≡ true
    → positive_int32 s3 ≡ true
    → read_shape
        (word_bytes 4 s0 ++ (word_bytes 4 s1 ++ (word_bytes 4 s2 ++ (word_bytes 4 s3 ++ r))))
      ≡ some (s0, s1, s2, s3, r)
unfolding read_shape
read_shape-word_bytes s0 s1 s2 s3 r p0 p1 p2 p3 =
    rw
      (
        read_shape,
        read_if-word_bytes positive_int32 4 s0
            (word_bytes 4 s1 ++ (word_bytes 4 s2 ++ (word_bytes 4 s3 ++ r))) (positive_below s0 p0)
            p0,
        read_if-word_bytes positive_int32 4 s1 (word_bytes 4 s2 ++ (word_bytes 4 s3 ++ r))
            (positive_below s1 p1) p1,
        read_if-word_bytes positive_int32 4 s2 (word_bytes 4 s3 ++ r) (positive_below s2 p2) p2,
        read_if-word_bytes positive_int32 4 s3 r (positive_below s3 p3) p3,
      )
      refl

code_lem : (d : Dtype) (code : ℕ) → dtype_code d ≡ some code → (code < 2) × (dtype_of code ≡ d)
unfolding dtype_code
code_lem d code e = ground (arith, e)

size_lem : (p n k : ℕ) → n ≡ p * k → n < u64_mod → 0 < k → p % u64_mod * k % u64_mod ≡ n
size_lem p n k e l pos =
    let less : p < u64_mod = grind (arith, e, l, pos) in
    ap (λ x. x * k % u64_mod) (mod-eq_of_lt less) ∙ ap (λ x. x % u64_mod) (sym e) ∙ mod-eq_of_lt l

long_lem : (xs r : Bytes) → ltb (length (xs ++ r)) (length xs) ≡ false
long_lem xs r = ground (arith, length-append xs r)

leb_lem : (code : ℕ) → code < 2 → leb code 1 ≡ true
leb_lem code l = ground arith

below_lem : (code : ℕ) → code < 2 → code < 256 ^ 4
below_lem code l = omega arith

pub same_lem : (n : ℕ) → (n == n) ≡ true
same_lem n = ground arith

item_size_lem : (code : ℕ) → 0 < item_size code
item_size_lem code = ground arith

read_comp-component_bytes :
    (c : Array) (code : ℕ) (r : Bytes)
    → IsStored c code
    → read_comp (component_bytes c code ++ r) ≡ some (c, r)
unfolding read_comp
read_comp-component_bytes c code r s =
    let (two, dt) = code_lem c.dtype code s.coded in
    let size =
      size_lem (c.shape0 * c.shape1 * c.shape2 * c.shape3) (nbytes c) (item_size code) s.full
        s.small (item_size_lem code) in
    rw
      (
        component_append c code r,
        read_comp,
        read_if-word_bytes (λ x. leb x 1) 4 code _ (below_lem code two) (leb_lem code two),
        read_shape-word_bytes c.shape0 c.shape1 c.shape2 c.shape3 _ s.positive0 s.positive1
            s.positive2 s.positive3,
        read_if-word_bytes any 8 (nbytes c) (c.elements ++ r) s.small refl,
        long_lem c.elements r,
        size,
        same_lem (nbytes c),
        take-append (nbytes c) c.elements r refl,
        drop-append (nbytes c) c.elements r refl,
        dt,
      )
      refl

abbrev pub AllStored : List Array → Type 0
AllStored [] = Unit
AllStored (c ∷ cs) = (code : ℕ) × IsStored c code × AllStored cs

-- Layers of `n` components of K and `m` of V each.
abbrev pub AllLayers : ℕ → ℕ → List (List Array) → List (List Array) → Type 0
AllLayers n m [] [] = Unit
AllLayers n m [] (v ∷ vs) = ⊥
AllLayers n m (k ∷ ks) [] = ⊥
AllLayers n m (k ∷ ks) (v ∷ vs) =
    (length k ≡ n) × (length v ≡ m) × AllStored k × AllStored v × AllLayers n m ks vs

read_comps_step :
    (c : Array) (code : ℕ) (cs : List Array) (b r : Bytes)
    → IsStored c code
    → read_comps (length cs) (b ++ r) ≡ some (cs, r)
    → read_comps (length (c ∷ cs)) (component_bytes c code ++ b ++ r) ≡ some (c ∷ cs, r)
unfolding read_comps
read_comps_step c code cs b r s f =
    let e : read_comp (component_bytes c code ++ b ++ r) ≡ some (c, b ++ r) =
      ap read_comp (append_assoc (component_bytes c code) b r)
      ∙ read_comp-component_bytes c code (b ++ r) s in
    rw (read_comps, e, f) refl

read_comps-append_components :
    (cs : List Array)
    → AllStored cs
    → (b : Bytes) × (append_components cs ≡ some b)
      × ((r : Bytes) → read_comps (length cs) (b ++ r) ≡ some (cs, r))
unfolding append_components read_comps
read_comps-append_components [] a = ([], refl, λ r. refl)
read_comps-append_components (c ∷ cs) (code, s, a) =
    let (b, e, f) = read_comps-append_components cs a in
    (
      component_bytes c code ++ b,
      rw (append_components, s.coded, e) refl,
      λ r. read_comps_step c code cs b r s (f r),
    )

append_components-append :
    (cs ds : List Array) (a b : Bytes)
    → append_components cs ≡ some a
    → append_components ds ≡ some b
    → append_components (cs ++ ds) ≡ some (a ++ b)
unfolding append_components
append_components-append [] ds a b e f = ground (arith, f)
append_components-append (c ∷ cs) ds a b e f = elim (Option-cases (dtype_code c.dtype)) [
  | inl n ↦ ground (arith, e, n)
  | inr (code, n) ↦ elim (Option-cases (append_components cs)) [
    | inl m ↦ ground (arith, e, n, m)
    | inr (x, m) ↦
        let g = append_components-append cs ds x b m f in
        let h : component_bytes c code ++ x ≡ a = ground (arith, e, n, m) in
        rw (append_components, n, g)
          (ap some (sym (append_assoc (component_bytes c code) x b) ∙ ap (λ y. y ++ b) h))
  ]
]

read_layers_step :
    (k v : List Array) (ks vs : List (List Array)) (n m : ℕ) (bk bv b : Bytes)
    → length k ≡ n
    → length v ≡ m
    → read_comps (length k) (bk ++ (bv ++ b)) ≡ some (k, bv ++ b)
    → read_comps (length v) (bv ++ b) ≡ some (v, b)
    → read_layers (length ks) n m b ≡ some (ks, vs)
    → read_layers (length (k ∷ ks)) n m (bk ++ (bv ++ b)) ≡ some (k ∷ ks, v ∷ vs)
unfolding read_layers
read_layers_step k v ks vs n m bk bv b kn vm fk fv f =
    let fk' : read_comps n (bk ++ (bv ++ b)) ≡ some (k, bv ++ b) = rw (sym kn) fk in
    let fv' : read_comps m (bv ++ b) ≡ some (v, b) = rw (sym vm) fv in
    rw (read_layers, fk', fv', f) refl

pub read_layers-components :
    (n m : ℕ) (ks vs : List (List Array))
    → AllLayers n m ks vs
    → (cs : List Array) × (b : Bytes) × (components ks vs ≡ some cs)
      × (append_components cs ≡ some b)
      × (read_layers (length ks) n m b ≡ some (ks, vs))
unfolding components read_layers append_components
read_layers-components n m [] [] a = ([], [], refl, refl, refl)
read_layers-components n m [] (v ∷ vs) a = absurd a
read_layers-components n m (k ∷ ks) [] a = absurd a
read_layers-components n m (k ∷ ks) (v ∷ vs) (kn, vm, ak, av, a) =
    let (cs, b, c, e, f) = read_layers-components n m ks vs a in
    let (bk, ek, fk) = read_comps-append_components k ak in
    let (bv, ev, fv) = read_comps-append_components v av in
    (
      k ++ (v ++ cs),
      bk ++ (bv ++ b),
      rw (components, c) refl,
      append_components-append k (v ++ cs) bk (bv ++ b) ek
          (append_components-append v cs bv b ev e),
      read_layers_step k v ks vs n m bk bv b kn vm (fk (bv ++ b)) (fv b) f,
    )
