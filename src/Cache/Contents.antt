-- ===== src/Cache/Contents.antt =====
-- What a batch of src/cache/batch_kv_cache.cpp holds: the slots of each row from its left padding to
-- the write position. The lemmas on lists, for the operations that move the slots.
use libmlxforge.Common.{
  ℕ, zero, suc, ◌+◌, ◌-◌, ◌≤◌, List, [], ◌∷◌, ◌++◌, length, replicate, take, drop, ◌≡◌, refl, ◌∙◌,
  ap, arith,
}

module _ {X : Type 0} where
  abbrev pub content : ℕ → ℕ → List X → List X
  content lp idx row = drop lp (take idx row)

  -- The rows of an array, without their padding.
  abbrev pub contents : List ℕ → ℕ → List (List X) → List (List X)
  contents [] idx rows = []
  contents (lp ∷ lps) idx [] = []
  contents (lp ∷ lps) idx (r ∷ rows) = content lp idx r ∷ contents lps idx rows

  pub take_all : (n : ℕ) (r : List X) → length r ≤ n → take n r ≡ r
  take_all zero [] l = refl
  take_all zero (x ∷ r) l = absurd (omega (arith, l))
  take_all (suc n) [] l = refl
  take_all (suc n) (x ∷ r) l = ap (◌∷◌ x) (take_all n r (omega (arith, l)))

  pub take_trimmed :
      (n m : ℕ) (r z : List X) → n ≤ m → m ≤ length r → take n (take m r ++ z) ≡ take n r
  take_trimmed zero m r z l k = refl
  take_trimmed (suc n) zero r z l k = absurd (omega (arith, l))
  take_trimmed (suc n) (suc m) [] z l k = absurd (omega (arith, k))
  take_trimmed (suc n) (suc m) (x ∷ r) z l k =
      ap (◌∷◌ x) (take_trimmed n m r z (omega (arith, l)) (omega (arith, k)))

  pub content-padded :
      (left lp idx : ℕ) (x : X) (r : List X)
      → content (left + lp) (left + idx) (replicate left x ++ r) ≡ content lp idx r
  content-padded zero lp idx x r =
      ap (λ k. drop k (take (0 + idx) r)) {x = 0 + lp} {y = lp} (omega arith)
      ∙ ap (λ k. drop lp (take k r)) {x = 0 + idx} {y = idx} (omega arith)
  content-padded (suc left) lp idx x r =
      ap (λ k. drop k (take (suc left + idx) (replicate (suc left) x ++ r))) {x = suc left + lp}
        {y = suc (left + lp)} (omega arith)
      ∙ ap (λ k. drop (suc (left + lp)) (take k (replicate (suc left) x ++ r))) {x = suc left + idx}
          {y = suc (left + idx)} (omega arith)
      ∙ content-padded left lp idx x r

  drop_nil : (k : ℕ) → ◌≡◌ {A = List X} (drop k []) []
  drop_nil zero = refl
  drop_nil (suc k) = refl

  pub content-shifted :
      (s lp idx : ℕ) (r : List X)
      → s ≤ lp
      → content (lp - s) (idx - s) (drop s r) ≡ content lp idx r
  content-shifted zero lp idx r l =
      ap (λ k. drop k (take (idx - 0) r)) {x = lp - 0} {y = lp} (omega arith)
      ∙ ap (λ k. drop lp (take k r)) {x = idx - 0} {y = idx} (omega arith)
  content-shifted (suc s) zero idx r l = absurd (omega (arith, l))
  content-shifted (suc s) (suc lp) zero r l =
      ap (λ k. drop (suc lp - suc s) (take k (drop (suc s) r))) {x = 0 - suc s} {y = 0}
        (omega arith)
      ∙ drop_nil (suc lp - suc s)
  content-shifted (suc s) (suc lp) (suc idx) [] l = drop_take_nil (suc lp - suc s) (suc idx - suc s)
    where
      drop_take_nil : (k n : ℕ) → ◌≡◌ {A = List X} (drop k (take n [])) []
      drop_take_nil k zero = drop_nil k
      drop_take_nil k (suc n) = drop_nil k
  content-shifted (suc s) (suc lp) (suc idx) (x ∷ r) l =
      ap (λ k. drop k (take (suc idx - suc s) (drop s r))) {x = suc lp - suc s} {y = lp - s}
        (omega arith)
      ∙ ap (λ k. drop (lp - s) (take k (drop s r))) {x = suc idx - suc s} {y = idx - s}
          (omega arith)
      ∙ content-shifted s lp idx r (omega (arith, l))

  pub drop-append_both :
      (k : ℕ) (a b : List X) → drop k (a ++ b) ≡ drop k a ++ drop (k - length a) b
  drop-append_both zero a b = ap (λ n. a ++ drop n b) {x = 0} {y = 0 - length a} (omega arith)
  drop-append_both (suc k) [] b = ap (λ n. drop n b) {x = suc k} {y = suc k - 0} (omega arith)
  drop-append_both (suc k) (x ∷ a) b =
      drop-append_both k a b
      ∙ ap (λ n. drop k a ++ drop n b) {x = k - length a} {y = suc k - suc (length a)} (omega arith)

  pub contents-append :
      (ps qs : List ℕ) (idx : ℕ) (xs ys : List (List X))
      → length ps ≡ length xs
      → contents (ps ++ qs) idx (xs ++ ys) ≡ contents ps idx xs ++ contents qs idx ys
  contents-append [] qs idx [] ys e = refl
  contents-append [] qs idx (x ∷ xs) ys e = absurd (omega (arith, e))
  contents-append (a ∷ ps) qs idx [] ys e = absurd (omega (arith, e))
  contents-append (a ∷ ps) qs idx (x ∷ xs) ys e =
      ap (◌∷◌ (content a idx x)) (contents-append ps qs idx xs ys (omega (arith, e)))

  pub contents-dummies :
      (n idx k : ℕ) (r : List X) → contents (replicate n idx) idx (replicate n r) ≡ replicate n []
  contents-dummies zero idx k r = refl
  contents-dummies (suc n) idx k r =
      ap (λ x. x ∷ contents (replicate n idx) idx (replicate n r)) (empty idx r)
      ∙ ap (◌∷◌ []) (contents-dummies n idx k r)
    where
      empty : (i : ℕ) (r : List X) → content i i r ≡ []
      empty zero r = refl
      empty (suc i) [] = refl
      empty (suc i) (x ∷ r) = empty i r
