-- ===== src/Token/Numbers.antt =====
-- src/tokenizer/bpe.cpp, `from_gguf`: the ids of tokens and the ranks of merges.
use libmlxforge.Common.{
  ℕ, zero, suc, ◌+◌, ◌≤◌, List, [], ◌∷◌, some, Bytes, get_elem?, ◌≡◌, refl, sym, ◌∙◌, ap, arith,
  Bool-cases, inl, inr,
}
use libmlxforge.Token.Bpe.{bytes_eq, lookup}
use libmlxforge.Token.FromGguf.{number_tokens}
use libmlxforge.Token.Merge.{bytes_eq_sound, bytes_eq_same}

some_nat : (a b : ℕ) → some a ≡ some b → a ≡ b
some_nat a b e = cc

-- A lookup gives an id whose token it is.
pub lookup-number_tokens :
    (n : ℕ) (l : List Bytes) (s : Bytes) (id : ℕ)
    → lookup s (number_tokens n l) ≡ some id
    → (k : ℕ) × (id ≡ n + k) × (get_elem? l k ≡ some s)
unfolding lookup number_tokens
lookup-number_tokens n [] s id e = absurd (ground (arith, e))
lookup-number_tokens n (tok ∷ l) s id e = elim (Bool-cases (bytes_eq tok s)) [
  | inl h ↦
      (0, omega (arith, some_nat n id (sym (rw h refl) ∙ e)), ap some (bytes_eq_sound tok s h))
  | inr h ↦
      let (k, d, g) = lookup-number_tokens (suc n) l s id (sym (rw h refl) ∙ e) in
      (suc k, omega (arith, d), g)
]

-- An entry of the list is found under its own name, with the number of the first such entry.
number_tokens-lookup :
    (n k : ℕ) (l : List Bytes) (s : Bytes)
    → get_elem? l k ≡ some s
    → (id : ℕ) × (lookup s (number_tokens n l) ≡ some id) × (id ≤ n + k)
unfolding lookup number_tokens
number_tokens-lookup n k [] s e = absurd (ground (arith, e))
number_tokens-lookup n zero (tok ∷ l) s e =
    let same : tok ≡ s = cc in (n, rw (lookup, bytes_eq_same tok s same) refl, omega arith)
number_tokens-lookup n (suc k) (tok ∷ l) s e = elim (Bool-cases (bytes_eq tok s)) [
  | inl h ↦ (n, rw (lookup, h) refl, omega arith)
  | inr h ↦
      let (id, f, g) = number_tokens-lookup (suc n) k l s e in
      (id, rw (lookup, h) f, omega (arith, g))
]

-- The table has the entries of the list under their numbers, the first of those that are the same.
pub record Numbers (m : List (Bytes × ℕ)) (l : List Bytes) : Type 0 where
  pub sound : (s : Bytes) (n : ℕ) → lookup s m ≡ some n → get_elem? l n ≡ some s
  pub complete :
      (s : Bytes) (k : ℕ) → get_elem? l k ≡ some s → (n : ℕ) × (lookup s m ≡ some n) × (n ≤ k)

pub number_tokens-Numbers : (l : List Bytes) → Numbers (number_tokens 0 l) l
number_tokens-Numbers l = record {
  sound = λ s id h.
      let (k, d, g) = lookup-number_tokens 0 l s id h in ap (get_elem? l) (omega (arith, d)) ∙ g;
  complete = λ s k e. let (id, f, g) = number_tokens-lookup 0 k l s e in (id, f, omega (arith, g));
}
