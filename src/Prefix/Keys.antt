-- ===== src/Prefix/Keys.antt =====
-- The keys of src/cache/prefix_cache.cpp: prompts that share their first blocks share their keys.
use libmlxforge.Common.{
  ℕ, zero, suc, ◌+◌, ◌*◌, ◌≤◌, List, [], ◌∷◌, some, none, take, drop, length, ◌≡◌, ◌≢◌, refl, sym,
  ◌∙◌, ap, arith, Option-cases, inl, inr,
}
use libmlxforge.Pool.Blocks.{KvBlock, chain_hash, find}
use libmlxforge.Pool.Recency.{Entry}
use libmlxforge.Prefix.Cache.{keys}
use libmlxforge.Prefix.Match.{found_run}

take-take : {A : Type 0} (n t : ℕ) (xs : List A) → n ≤ t → take n (take t xs) ≡ take n xs
take-take zero t xs l = refl
take-take (suc n) zero xs l = absurd (omega (arith, l))
take-take (suc n) (suc t) [] l = refl
take-take (suc n) (suc t) (x ∷ xs) l = ap (◌∷◌ x) (take-take n t xs (omega (arith, l)))

take-drop :
    {A : Type 0} (n m t : ℕ) (xs : List A) → t ≡ n + m → take m (drop n xs) ≡ drop n (take t xs)
take-drop zero m t xs e = ap (λ x. take x xs) (omega (arith, e))
take-drop (suc n) m zero xs e = absurd (omega (arith, e))
take-drop (suc n) zero (suc t) [] e = refl
take-drop (suc n) (suc m) (suc t) [] e = refl
take-drop (suc n) m (suc t) (x ∷ xs) e = take-drop n m t xs (omega (arith, e))

-- Lists that agree on their first `t` elements agree on their first `n`, and on `m` after these.
split_same :
    {A : Type 0} (n m t : ℕ) (xs ys : List A)
    → t ≡ n + m
    → take t xs ≡ take t ys
    → (take n xs ≡ take n ys) × (take m (drop n xs) ≡ take m (drop n ys))
split_same n m t xs ys e f =
    let l : n ≤ t = omega (arith, e) in
    (
      sym (take-take n t xs l) ∙ ap (take n) f ∙ take-take n t ys l,
      take-drop n m t xs e ∙ ap (drop n) f ∙ sym (take-drop n m t ys e),
    )

pub keys-take :
    (bs k h : ℕ) (ids ids' : List ℕ)
    → take (k * bs) ids ≡ take (k * bs) ids'
    → keys bs k h ids ≡ keys bs k h ids'
unfolding keys
keys-take bs zero h ids ids' e = refl
keys-take bs (suc k) h ids ids' e =
    let (first, rest) = split_same bs (k * bs) (suc k * bs) ids ids' (grind arith) e in
    let key : chain_hash h (take bs ids) ≡ chain_hash h (take bs ids') = ap (chain_hash h) first in
    rw key (
      ap (◌∷◌ (chain_hash h (take bs ids')))
        (keys-take bs k (chain_hash h (take bs ids')) (drop bs ids) (drop bs ids') rest))

module _ {A : Type 0} where
  -- Every key is held.
  abbrev pub AllHeld : List (Entry A) → List ℕ → Type 0
  AllHeld es [] = Unit
  AllHeld es (h ∷ hs) = (find h es ≢ none) × AllHeld es hs

  pub AllHeld-keys :
      (es : List (Entry A)) (bs k t h : ℕ) (ids : List ℕ)
      → k ≤ t
      → AllHeld es (keys bs t h ids)
      → AllHeld es (keys bs k h ids)
  unfolding keys
  AllHeld-keys es bs zero t h ids l a = tt
  AllHeld-keys es bs (suc k) zero h ids l a = absurd (omega (arith, l))
  AllHeld-keys es bs (suc k) (suc t) h ids l a = (
    a.0,
    AllHeld-keys es bs k t (chain_hash h (take bs ids)) (drop bs ids) (omega (arith, l)) a.1,
  )

  pub length-found_run :
      (es : List (Entry A)) (bs k t h : ℕ) (ids : List ℕ)
      → k ≤ t
      → AllHeld es (keys bs k h ids)
      → k ≤ length (found_run (λ j. find j es) (keys bs t h ids))
  unfolding keys
  length-found_run es bs zero t h ids l a = omega arith
  length-found_run es bs (suc k) zero h ids l a = absurd (omega (arith, l))
  length-found_run es bs (suc k) (suc t) h ids l a =
      elim (Option-cases (find (chain_hash h (take bs ids)) es)) [
        | inl n ↦ absurd (a.0 n)
        | inr (b, n) ↦ ground (
          arith,
          length-found_run es bs k t (chain_hash h (take bs ids)) (drop bs ids) (omega (arith, l))
              a.1,
        )
      ]

  -- Each block is one that `P` allows under its key.
  abbrev pub AllMatched : (ℕ → KvBlock A → Type 0) → List ℕ → List (KvBlock A) → Type 0
  AllMatched P hs [] = Unit
  AllMatched P [] (b ∷ bs) = ⊥
  AllMatched P (h ∷ hs) (b ∷ bs) = P h b × AllMatched P hs bs

  pub AllMatched-found_run :
      (P : ℕ → KvBlock A → Type 0) (es : List (Entry A)) (hs : List ℕ)
      → ((h : ℕ) (b : KvBlock A) → find h es ≡ some b → P h b)
      → AllMatched P hs (found_run (λ j. find j es) hs)
  AllMatched-found_run P es [] a = tt
  AllMatched-found_run P es (h ∷ hs) a = elim (Option-cases (find h es)) [
    | inl n ↦ rw (AllMatched, n) tt
    | inr (b, n) ↦ rw (AllMatched, n) (a h b n, AllMatched-found_run P es hs a)
  ]
