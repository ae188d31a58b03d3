-- ===== src/Token/Bounds.antt =====
-- src/tokenizer/bpe.cpp, `match_piece`: a piece is not empty and lies in the text.
use libmlxforge.Common.{
  ℕ, zero, suc, ◌+◌, ◌≤◌, ◌<◌, Bool, true, List, [], ◌∷◌, none, length, drop, get_elem?, ltb, ◌==◌,
  if◌then◌else◌, ◌≡◌, refl, arith, Bool-cases, inl, inr, length-drop,
}
use libmlxforge.Token.Piece.{
  at, run, run_capped, contraction, past_newline, letter_run, symbol_run, space_run, match_piece,
  is_symbol, is_newline,
}
use libmlxforge.Token.Unicode.{Classes, is_letter, is_number, is_whitespace}

run_below : (test : ℕ → Bool) (cs : List ℕ) → run test cs ≤ length cs
unfolding run
run_below test [] = omega arith
run_below test (c ∷ cs) = ground (arith, run_below test cs)

run_pos : (test : ℕ → Bool) (c : ℕ) (cs : List ℕ) → test c ≡ true → 0 < run test (c ∷ cs)
unfolding run
run_pos test c cs e = ground (arith, e)

run_capped_below : (cap : ℕ) (test : ℕ → Bool) (cs : List ℕ) → run_capped cap test cs ≤ length cs
unfolding run_capped
run_capped_below zero test cs = omega arith
run_capped_below (suc cap) test [] = omega arith
run_capped_below (suc cap) test (c ∷ cs) = ground (arith, run_capped_below cap test cs)

run_capped_pos :
    (cap : ℕ) (test : ℕ → Bool) (c : ℕ) (cs : List ℕ)
    → 0 < cap
    → test c ≡ true
    → 0 < run_capped cap test (c ∷ cs)
unfolding run_capped
run_capped_pos zero test c cs l e = absurd (omega (arith, l))
run_capped_pos (suc cap) test c cs l e = ground (arith, e)

get_elem?_past : (cs : List ℕ) (k : ℕ) → length cs ≤ k → get_elem? cs k ≡ none
get_elem?_past [] k l = refl
get_elem?_past (c ∷ cs) zero l = absurd (omega (arith, l))
get_elem?_past (c ∷ cs) (suc k) l = get_elem?_past cs k (omega (arith, l))

at_below : (cs : List ℕ) (k want : ℕ) → at cs k want ≡ true → k < length cs
unfolding at
at_below cs k want e = elim (Bool-cases (ltb k (length cs))) [
  | inl t ↦ ground (arith, t)
  | inr t ↦ ground (arith, t, e, get_elem?_past cs k)
]

contraction_below : (cs : List ℕ) → contraction cs ≤ length cs
unfolding contraction
contraction_below cs = ground (
  arith,
  at_below cs 1 b's',
  at_below cs 1 b't',
  at_below cs 2 b'e',
  at_below cs 1 b'm',
  at_below cs 2 b'l',
  at_below cs 1 b'd',
)

past_newline_below : (n : ℕ) (cs : List ℕ) → past_newline n cs ≤ length cs
unfolding past_newline
past_newline_below zero cs = omega arith
past_newline_below (suc n) [] = omega arith
past_newline_below (suc n) (c ∷ cs) = ground (arith, past_newline_below n cs)

space_run_below :
    (ws : ℕ) (cs : List ℕ)
    → ws ≤ length cs
    → 0 < length cs
    → (0 < space_run ws cs) × (space_run ws cs ≤ length cs)
unfolding space_run
space_run_below ws cs l k = ground (arith, past_newline_below ws cs)

two_runs :
    (f g : ℕ → Bool) (lead : ℕ) (xs : List ℕ)
    → lead ≤ length xs
    → lead + run f (drop lead xs) + run g (drop (lead + run f (drop lead xs)) xs) ≤ length xs
two_runs f g lead xs l = omega (
  arith,
  run_below f (drop lead xs),
  run_below g (drop (lead + run f (drop lead xs)) xs),
  length-drop lead xs,
  length-drop (lead + run f (drop lead xs)) xs,
  l,
)

choice :
    (a1 a2 a3 a4 r n : ℕ) (number : Bool)
    → a1 ≤ n
    → a2 ≤ n
    → a3 ≤ n
    → (number ≡ true → 0 < a3)
    → a4 ≤ n
    → (0 < r) × (r ≤ n)
    → (0 < (
        if ltb 0 a1
        then a1
        else if ltb 0 a2
        then a2
        else if number
        then a3
        else if ltb 0 a4
        then a4
        else r))
      × ((if ltb 0 a1
            then a1
            else if ltb 0 a2
            then a2
            else if number
            then a3
            else if ltb 0 a4
            then a4
            else r)
          ≤ n)
choice a1 a2 a3 a4 r n number b1 b2 b3 b4 b5 b6 = ground arith

contraction_or_below :
    (c : ℕ) (cs : List ℕ) → (if c == 0x27 then contraction (c ∷ cs) else 0) ≤ length (c ∷ cs)
contraction_or_below c cs = ground (arith, contraction_below (c ∷ cs))

module _ (u : Classes) where
  letter_run_below : (c : ℕ) (cs : List ℕ) → letter_run u c cs ≤ length (c ∷ cs)
  unfolding letter_run
  letter_run_below c cs =
      ground (arith, run_below (is_letter u) (c ∷ cs), run_below (is_letter u) cs)

  symbol_run_below : (c : ℕ) (cs : List ℕ) → symbol_run u c cs ≤ length (c ∷ cs)
  unfolding symbol_run
  symbol_run_below c cs = elim (Bool-cases (c == 0x20)) [
    | inl e ↦ rw e (ground (arith, two_runs (is_symbol u) is_newline 1 (c ∷ cs)))
    | inr e ↦ rw e (ground (arith, two_runs (is_symbol u) is_newline 0 (c ∷ cs)))
  ]

  -- With a cap on digits above zero, a piece has a code point, and no more than there are.
  pub match_piece_bounds :
      (cap c : ℕ) (cs : List ℕ)
      → 0 < cap
      → (0 < match_piece u cap c cs) × (match_piece u cap c cs ≤ length (c ∷ cs))
  unfolding match_piece
  match_piece_bounds cap c cs l =
      choice (if c == 0x27 then contraction (c ∷ cs) else 0) (letter_run u c cs)
        (run_capped cap (is_number u) (c ∷ cs)) (symbol_run u c cs)
        (space_run (run (is_whitespace u) (c ∷ cs)) (c ∷ cs)) (length (c ∷ cs)) (is_number u c)
        (contraction_or_below c cs) (letter_run_below c cs)
        (run_capped_below cap (is_number u) (c ∷ cs)) (run_capped_pos cap (is_number u) c cs l)
        (symbol_run_below c cs)
        (space_run_below (run (is_whitespace u) (c ∷ cs)) (c ∷ cs)
          (run_below (is_whitespace u) (c ∷ cs)) (omega arith))
