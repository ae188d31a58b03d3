-- ===== src/Token/Encode.antt =====
-- src/tokenizer/bpe.cpp, `encode_plain`: the pieces are the text, and decode to it.
use libmlxforge.Common.{
  ℕ, zero, suc, ◌+◌, ◌-◌, ◌≤◌, ◌<◌, List, [], ◌∷◌, ◌++◌, Bytes, length, take, drop, get_elem?, ◌≡◌,
  refl, sym, ◌∙◌, ap, subst, arith, Bool-cases, Option-cases, inl, inr, append_assoc,
  take-append-drop, length-drop,
}
use libmlxforge.Token.Alphabet.{AllBytes}
use libmlxforge.Token.Bounds.{match_piece_bounds}
use libmlxforge.Token.Bpe.{
  BpeTokenizer, map_bytes, bpe_piece, decode, token_bytes, mem, pieces, piece_ids, encode_plain,
  head_or,
}
use libmlxforge.Token.Loop.{IsClosed, AllPlain}
use libmlxforge.Token.Merge.{flat}
use libmlxforge.Token.Piece.{match_piece}
use libmlxforge.Token.Symbols.{decode-bpe_piece}
use libmlxforge.Token.Unicode.{Classes}
use libmlxforge.Token.Utf8.{decode_utf8, decode_from, code_point}

-- Offsets that rise from `lo` and end at `n`.
abbrev Ends : ℕ → List ℕ → ℕ → Type 0
Ends lo [] n = lo ≡ n
Ends lo (x ∷ l) n = (lo ≤ x) × Ends x l n

lower_start : (a b n : ℕ) (l : List ℕ) → a ≤ b → 0 < length l → Ends b l n → Ends a l n
lower_start a b n [] k p e = absurd (omega (arith, p))
lower_start a b n (x ∷ l) k p e = (omega (arith, k, e.0), e.1)

decode_from_offsets :
    (skip i : ℕ) (s : Bytes)
    → Ends i (decode_from skip i s).1 (i + length s)
      × (length (decode_from skip i s).1 ≡ suc (length (decode_from skip i s).0))
unfolding decode_from
decode_from_offsets skip i [] = ((omega arith, omega arith), refl)
decode_from_offsets (suc skip) i (c ∷ s) =
    let (e, l) = decode_from_offsets skip (suc i) s in
    let off = (decode_from skip (suc i) s).1 in
    (
      subst (Ends i off) (omega arith)
          (lower_start i (suc i) (suc i + length s) off (omega arith) (omega (arith, l)) e),
      l,
    )
decode_from_offsets zero i (c ∷ s) =
    let skip = (code_point c s).1 - 1 in
    let (e, l) = decode_from_offsets skip (suc i) s in
    let off = (decode_from skip (suc i) s).1 in
    (
      (
        omega arith,
        subst (Ends i off) (omega arith)
            (lower_start i (suc i) (suc i + length s) off (omega arith) (omega (arith, l)) e),
      ),
      ap suc l,
    )

Ends-drop :
    (k lo n : ℕ) (off : List ℕ)
    → Ends lo off n
    → k < length off
    → (y : ℕ) × (off2 : List ℕ) × (drop k off ≡ y ∷ off2) × (lo ≤ y) × Ends y off2 n
Ends-drop k lo n [] e l = absurd (omega (arith, l))
Ends-drop zero lo n (x ∷ off) e l = (x, off, refl, e.0, e.1)
Ends-drop (suc k) lo n (x ∷ off) e l =
    let (y, off2, d, m, f) = Ends-drop k x n off e.1 (omega (arith, l)) in
    (y, off2, d, omega (arith, m, e.0), f)

pub drop-drop : (a b c : ℕ) (s : Bytes) → c ≡ a + b → drop b (drop a s) ≡ drop c s
drop-drop zero b c s e = ap (λ x. drop x s) (omega (arith, e))
drop-drop (suc a) b zero s e = absurd (omega (arith, e))
drop-drop (suc a) zero (suc c) [] e = refl
drop-drop (suc a) (suc b) (suc c) [] e = refl
drop-drop (suc a) b (suc c) (x ∷ s) e = drop-drop a b c s (omega (arith, e))

slice_lem : (x y : ℕ) (s : Bytes) → x ≤ y → take (y - x) (drop x s) ++ drop y s ≡ drop x s
slice_lem x y s l =
    ap (λ t. take (y - x) (drop x s) ++ t) (sym (drop-drop x (y - x) y s (omega (arith, l))))
    ∙ take-append-drop (y - x) (drop x s)

pub drop_all : (n : ℕ) (s : Bytes) → length s ≡ n → drop n s ≡ []
drop_all zero [] e = refl
drop_all zero (x ∷ s) e = absurd (omega (arith, e))
drop_all (suc n) [] e = refl
drop_all (suc n) (x ∷ s) e = drop_all n s (omega (arith, e))

AllBytes-append_left : (a b : Bytes) → AllBytes (a ++ b) → AllBytes a × AllBytes b
AllBytes-append_left [] b h = (tt, h)
AllBytes-append_left (x ∷ a) b h = let (p, q) = AllBytes-append_left a b h.1 in ((h.0, p), q)

AllPlain-append_left :
    (t : BpeTokenizer) (a b : List ℕ) → AllPlain t (a ++ b) → AllPlain t a × AllPlain t b
AllPlain-append_left t [] b h = (tt, h)
AllPlain-append_left t (x ∷ a) b h = let (p, q) = AllPlain-append_left t a b h.1 in ((h.0, p), q)

decode_cons :
    (t : BpeTokenizer) (id : ℕ)
    → (h : Bytes) × ((ids : List ℕ) → decode t (id ∷ ids) ≡ h ++ decode t ids)
unfolding decode
decode_cons t id = elim (Option-cases (get_elem? t.id_to_token id)) [
  | inl n ↦ ([], λ ids. rw (decode, n) refl)
  | inr (tok, n) ↦ elim (Bool-cases (mem id t.special_ids)) [
    | inl m ↦ ([], λ ids. rw (decode, n, m) refl)
    | inr m ↦ (token_bytes (decode_utf8 tok).0, λ ids. rw (decode, n, m) refl)
  ]
]

pub decode-append : (t : BpeTokenizer) (a b : List ℕ) → decode t (a ++ b) ≡ decode t a ++ decode t b
unfolding decode
decode-append t [] b = refl
decode-append t (x ∷ a) b =
    let (h, e) = decode_cons t x in
    e (a ++ b)
    ∙ ap (λ z. h ++ z) (decode-append t a b)
    ∙ sym (append_assoc h (decode t a) (decode t b))
    ∙ ap (λ z. z ++ decode t b) (sym (e a))

module _ (u : Classes) where
  flat-pieces :
      (t : BpeTokenizer) (s : Bytes) (rounds : ℕ) (cp : List ℕ) (x : ℕ) (off : List ℕ)
      → 0 < t.digit_run_max
      → length cp ≤ rounds
      → length off ≡ length cp
      → Ends x off (length s)
      → flat (pieces u t s rounds cp (x ∷ off)) ≡ drop x s
  unfolding pieces
  flat-pieces t s zero [] x [] p r l e = sym (drop_all x s (sym e))
  flat-pieces t s (suc rounds) [] x [] p r l e = sym (drop_all x s (sym e))
  flat-pieces t s rounds [] x (y ∷ off) p r l e = absurd (omega (arith, l))
  flat-pieces t s zero (c ∷ cp) x off p r l e = absurd (omega (arith, r))
  flat-pieces t s (suc rounds) (c ∷ cp) x off p r l e =
      let len = match_piece u t.digit_run_max c cp in
      let (pos, below) = match_piece_bounds u t.digit_run_max c cp p in
      let (y, off2, d, m, f) =
        Ends-drop len x (length s) (x ∷ off) (omega arith, e) (omega (arith, below, l)) in
      let longer : suc (length off2) ≡ suc (length off) - len =
        ap length (sym d) ∙ length-drop len (x ∷ off) in
      let shorter : length (drop len (c ∷ cp)) ≡ suc (length cp) - len = length-drop len (c ∷ cp) in
      let ih =
        flat-pieces t s rounds (drop len (c ∷ cp)) y off2 p (omega (arith, shorter, pos, r))
          (omega (arith, longer, shorter, l, below)) f in
      ap
        (λ o. take (head_or 0 o - x) (drop x s) ++ flat (pieces u t s rounds (drop len (c ∷ cp)) o))
        d
      ∙ ap (λ z. take (y - x) (drop x s) ++ z) ih
      ∙ slice_lem x y s m

  -- The pieces of a text are the text.
  pub pieces_lem :
      (t : BpeTokenizer) (s : Bytes)
      → 0 < t.digit_run_max
      → flat (pieces u t s (length (decode_utf8 s).0) (decode_utf8 s).0 (decode_utf8 s).1) ≡ s
  unfolding decode_utf8 decode_from pieces
  pieces_lem t [] p = refl
  pieces_lem t (c ∷ s) p =
      let (e, l) = decode_from_offsets 0 0 (c ∷ s) in
      let d = decode_from 0 0 (c ∷ s) in
      flat-pieces t (c ∷ s) (length d.0) d.0 0 (decode_from ((code_point c s).1 - 1) 1 s).1 p
        (omega arith) (omega (arith, l))
        (subst (Ends 0 (decode_from ((code_point c s).1 - 1) 1 s).1) (omega arith) e.1)

  decode-piece_ids :
      (t : BpeTokenizer) (l : List Bytes)
      → IsClosed t
      → AllBytes (flat l)
      → AllPlain t (piece_ids u t l)
      → decode t (piece_ids u t l) ≡ flat l
  unfolding piece_ids decode
  decode-piece_ids t [] c a p = refl
  decode-piece_ids t (s ∷ l) c a p =
      let (x, y) = AllBytes-append_left s (flat l) a in
      let (v, w) = AllPlain-append_left t (bpe_piece t (map_bytes s)) (piece_ids u t l) p in
      decode-append t (bpe_piece t (map_bytes s)) (piece_ids u t l)
      ∙ ap (λ z. z ++ decode t (piece_ids u t l)) (decode-bpe_piece t s c x v)
      ∙ ap (λ z. s ++ z) (decode-piece_ids t l c y w)

  -- For a vocabulary that has every byte and every merge and gives each id to one token, and a cap on
  -- digits above zero: the ids of a text decode to the text, where none of them is one that `decode`
  -- skips.
  pub decode-encode_plain :
      (t : BpeTokenizer) (s : Bytes)
      → IsClosed t
      → 0 < t.digit_run_max
      → AllBytes s
      → AllPlain t (encode_plain u t s)
      → decode t (encode_plain u t s) ≡ s
  unfolding encode_plain
  decode-encode_plain t s c p a pl =
      let l = pieces u t s (length (decode_utf8 s).0) (decode_utf8 s).0 (decode_utf8 s).1 in
      let e = pieces_lem t s p in decode-piece_ids t l c (subst AllBytes (sym e) a) pl ∙ e
