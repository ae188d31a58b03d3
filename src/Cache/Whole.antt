-- ===== src/Cache/Whole.antt =====
-- src/cache/batch_kv_cache.cpp: what a cache holds, and when it is well formed.
use libmlxforge.Common.{
  ℕ, zero, suc, ◌≤◌, ◌<◌, List, [], ◌∷◌, ◌++◌, some, map, length, replicate, get_elem?, ◌≡◌, refl,
  sym, ◌∙◌, ap, subst, get_elem?_below,
}
use libmlxforge.Cache.Arrays.{ArrayLib, ArrayLaws, IsRect, AllBelow, picks}
use libmlxforge.Cache.Batch.{Layer, BatchKvCache, s_cap, first_seq}
use libmlxforge.Cache.Contents.{contents}
use libmlxforge.Cache.Moves.{All, picks-some}

-- All arrays of keys and values.
abbrev pub arrays : {A : Type 0} → List (Layer A) → List A
arrays [] = []
arrays (l ∷ ls) = l.keys ++ (l.values ++ arrays ls)

abbrev pub NonEmpty : {A : Type 0} → List A → Type 0
NonEmpty [] = ⊥
NonEmpty (x ∷ l) = Unit

-- The first layer has keys: `s_cap` reads them.
abbrev pub FirstKeys : {A : Type 0} → List (Layer A) → Type 0
FirstKeys [] = ⊥
FirstKeys (l ∷ ls) = NonEmpty l.keys

pub record IsWell {A S : Type 0} (lib : ArrayLib A S) (cap : ℕ) (c : BatchKvCache A) : Type 0 where
  pub paddings : length c.left_padding ≡ c.batch
  pub offsets : length c.offset ≡ c.batch
  pub rects : All (IsRect lib c.batch cap) (arrays c.layers)
  pub first : FirstKeys c.layers
  pub fits : c.idx ≤ cap
  pub behind : All (λ lp. lp ≤ c.idx) c.left_padding

-- For each array the contents of its rows.
abbrev pub held : {A S : Type 0} → ArrayLib A S → BatchKvCache A → List (List (List S))
held lib c = map (λ a. contents c.left_padding c.idx (lib.rows a)) (arrays c.layers)

pub map-append : {X Y : Type 0} (f : X → Y) (a b : List X) → map f (a ++ b) ≡ map f a ++ map f b
map-append f [] b = refl
map-append f (x ∷ a) b = ap (◌∷◌ (f x)) (map-append f a b)

pub arrays-map :
    {A : Type 0} (f : A → A) (g : Layer A → Layer A) (ls : List (Layer A))
    → ((l : Layer A) → (g l).keys ≡ map f l.keys)
    → ((l : Layer A) → (g l).values ≡ map f l.values)
    → arrays (map g ls) ≡ map f (arrays ls)
arrays-map f g [] h k = refl
arrays-map f g (l ∷ ls) h k =
    ap (λ x. x ++ ((g l).values ++ arrays (map g ls))) (h l)
    ∙ ap (λ x. map f l.keys ++ (x ++ arrays (map g ls))) (k l)
    ∙ ap (λ x. map f l.keys ++ (map f l.values ++ x)) (arrays-map f g ls h k)
    ∙ ap (λ x. map f l.keys ++ x) (sym (map-append f l.values (arrays ls)))
    ∙ sym (map-append f l.keys (l.values ++ arrays ls))

pub FirstKeys-map :
    {A : Type 0} (f : A → A) (g : Layer A → Layer A) (ls : List (Layer A))
    → ((l : Layer A) → (g l).keys ≡ map f l.keys)
    → FirstKeys ls
    → FirstKeys (map g ls)
FirstKeys-map f g [] h k = k
FirstKeys-map f g (l ∷ ls) h k = subst NonEmpty (sym (h l)) (go l.keys k)
  where
    go : (xs : List _) → NonEmpty xs → NonEmpty (map f xs)
    go [] e = e
    go (x ∷ xs) e = tt

-- An operation on each array: the shape of the arrays and what they hold.
pub lift :
    {A S : Type 0} (P Q : A → Type 0) (f : A → A) (u v : A → List (List S))
    (w : List (List S) → List (List S)) (l : List A)
    → ((a : A) → P a → Q (f a) × (v (f a) ≡ w (u a)))
    → All P l
    → All Q (map f l) × (map v (map f l) ≡ map w (map u l))
lift P Q f u v w [] h p = (tt, refl)
lift P Q f u v w (a ∷ l) h p =
    let (x, e) = h a p.0 in
    let (y, d) = lift P Q f u v w l h p.1 in
    ((x, y), ap (λ z. z ∷ map v (map f l)) e ∙ ap (◌∷◌ (w (u a))) d)

pub s_cap_lem :
    {A S : Type 0} (lib : ArrayLib A S) (laws : ArrayLaws lib) (c : BatchKvCache A) (b n : ℕ)
    (ls : List (Layer A))
    → c.layers ≡ ls
    → 0 < b
    → FirstKeys ls
    → All (IsRect lib b n) (arrays ls)
    → s_cap lib c ≡ n
unfolding s_cap
s_cap_lem lib laws c b n [] e p f h = absurd f
s_cap_lem lib laws c b n (l ∷ ls) e p f h =
    ap (λ x. elim x [ [] ↦ 0 | k ∷ ks ↦ first_seq lib k.keys ]) e ∙ go l.keys f h
  where
    go :
        (ks : List _)
        → NonEmpty ks
        → All (IsRect lib b n) (ks ++ (l.values ++ arrays ls))
        → first_seq lib ks ≡ n
    go [] f h = absurd f
    go (k ∷ ks) f h = laws.seq k b n h.0 p

pub All-append : {X : Type 0} (P : X → Type 0) (a b : List X) → All P a → All P b → All P (a ++ b)
All-append P [] b h k = k
All-append P (x ∷ a) b h k = (h.0, All-append P a b h.1 k)

pub All-replicate : {X : Type 0} (P : X → Type 0) (n : ℕ) (x : X) → P x → All P (replicate n x)
All-replicate P zero x h = tt
All-replicate P (suc n) x h = (h, All-replicate P n x h)

pub All-get_elem? :
    {X : Type 0} (P : X → Type 0) (l : List X) (i : ℕ) (x : X)
    → All P l
    → get_elem? l i ≡ some x
    → P x
All-get_elem? P [] i x h e = absurd (cc)
All-get_elem? P (y ∷ l) zero x h e = let same : y ≡ x = cc in subst P same h.0
All-get_elem? P (y ∷ l) (suc i) x h e = All-get_elem? P l i x h.1 e

pub All-picks :
    {X : Type 0} (P : X → Type 0) (l : List X) (is : List ℕ)
    → All P l
    → AllBelow (length l) is
    → All P (picks l is)
All-picks P l [] h b = tt
All-picks P l (i ∷ is) h b =
    let (x, e) = get_elem?_below l i b.0 in
    subst (All P) (sym (picks-some l i x is e)) (All-get_elem? P l i x h e, All-picks P l is h b.1)
