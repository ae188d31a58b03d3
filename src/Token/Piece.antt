-- ===== src/Token/Piece.antt =====
-- src/tokenizer/bpe.cpp, `match_piece`: the alternatives of the split expression, in order. It reads
-- nothing before its index, so the code points from there on stand for the vector and the index.
use libmlxforge.Common.{
  ℕ, zero, suc, ◌+◌, ◌-◌, Bool, false, not, ◌&&◌, ◌||◌, List, [], ◌∷◌, none, some, length, drop,
  get_elem?, ltb, leb, ◌==◌, if◌then◌else◌,
}
use libmlxforge.Token.Unicode.{Classes, is_letter, is_number, is_whitespace}

unfoldable pub is_newline : ℕ → Bool
is_newline c = c == 0x0D || c == 0x0A

unfoldable pub ascii_lower : ℕ → ℕ
ascii_lower c = if leb 0x41 c && leb c 0x5A then c + 32 else c

-- The lambda `at`.
unfoldable pub at : List ℕ → ℕ → ℕ → Bool
unfolding ascii_lower
at cs k want = elim (get_elem? cs k) [ none ↦ false | some c ↦ ascii_lower c == want ]

-- The length of the longest run from the head on.
unfoldable pub run : (ℕ → Bool) → List ℕ → ℕ
run test [] = 0
run test (c ∷ cs) = let n = run test cs in if test c then suc n else 0

-- As `run`, of `cap` at most.
unfoldable pub run_capped : ℕ → (ℕ → Bool) → List ℕ → ℕ
run_capped zero test cs = 0
run_capped (suc cap) test [] = 0
run_capped (suc cap) test (c ∷ cs) = let n = run_capped cap test cs in if test c then suc n else 0

-- Alternative 1, behind an apostrophe: the length, or 0 where it fails.
unfoldable pub contraction : List ℕ → ℕ
unfolding at
contraction cs =
    if at cs 1 b's'
    then 2
    else if at cs 1 b't'
    then 2
    else if at cs 1 b'r' && at cs 2 b'e'
    then 3
    else if at cs 1 b'v' && at cs 2 b'e'
    then 3
    else if at cs 1 b'm'
    then 2
    else if at cs 1 b'l' && at cs 2 b'l'
    then 3
    else if at cs 1 b'd'
    then 2
    else 0

-- One past the last newline among the first `n`, or 0.
unfoldable pub past_newline : ℕ → List ℕ → ℕ
unfolding is_newline
past_newline zero cs = 0
past_newline (suc n) [] = 0
past_newline (suc n) (c ∷ cs) =
    let k = past_newline n cs in if ltb 0 k then suc k else if is_newline c then 1 else 0

-- Alternatives 5, 6 and 7, for a run of `ws` whitespaces.
unfoldable pub space_run : ℕ → List ℕ → ℕ
unfolding past_newline
space_run ws cs =
    let nl = past_newline ws cs in
    if ltb 0 ws
    then (if ltb 0 nl then nl else if ws == length cs then ws else if leb 2 ws then ws - 1 else ws)
    else 1

module _ (u : Classes) where
  -- Alternative 2, with the optional lead taken.
  unfoldable pub letter_run : ℕ → List ℕ → ℕ
  unfolding run is_newline is_letter is_number
  letter_run c cs =
      let lead : ℕ =
        if not (is_newline c) && not (is_letter u c) && not (is_number u c) then 1 else 0 in
      let n = run (is_letter u) (drop lead (c ∷ cs)) in if ltb 0 n then lead + n else 0

  unfoldable pub is_symbol : ℕ → Bool
  unfolding is_letter is_number is_whitespace
  is_symbol c = not (is_whitespace u c) && not (is_letter u c) && not (is_number u c)

  -- Alternative 4.
  unfoldable pub symbol_run : ℕ → List ℕ → ℕ
  unfolding run is_newline is_symbol
  symbol_run c cs =
      let lead : ℕ = if c == 0x20 then 1 else 0 in
      let n = run is_symbol (drop lead (c ∷ cs)) in
      let e = run is_newline (drop (lead + n) (c ∷ cs)) in if ltb 0 n then lead + n + e else 0

  -- The alternatives in order, each with its length or 0.
  unfoldable pub match_piece : ℕ → ℕ → List ℕ → ℕ
  unfolding contraction letter_run run_capped symbol_run space_run run is_number is_whitespace
  match_piece digit_run_max c cs =
      let a1 : ℕ = if c == 0x27 then contraction (c ∷ cs) else 0 in
      let a2 = letter_run c cs in
      let a3 = run_capped digit_run_max (is_number u) (c ∷ cs) in
      let a4 = symbol_run c cs in
      let rest = space_run (run (is_whitespace u) (c ∷ cs)) (c ∷ cs) in
      if ltb 0 a1
      then a1
      else if ltb 0 a2
      then a2
      else if is_number u c
      then a3
      else if ltb 0 a4
      then a4
      else rest
