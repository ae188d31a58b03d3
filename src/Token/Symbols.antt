-- ===== src/Token/Symbols.antt =====
-- src/tokenizer/bpe.cpp, `bpe_piece`: a piece's symbols, and what its ids decode to.
use libmlxforge.Common.{
  ℕ, zero, suc, ◌≤◌, ◌<◌, [], ◌∷◌, ◌++◌, none, some, Bytes, length, take, drop, ◌≡◌, refl, sym, ◌∙◌,
  ap, subst, arith, Option-cases, inl, inr, append-nil, take-append-drop, length-drop,
}
use libmlxforge.Token.Alphabet.{AllBytes, to_uni-cases, token_bytes-map_bytes}
use libmlxforge.Token.Bpe.{
  BpeTokenizer, lookup, symbol_length, split_symbols, merge_loop, ids_of, map_bytes, bpe_piece,
  decode, token_bytes,
}
use libmlxforge.Token.Loop.{
  IsClosed, AllSymbols, AllPlain, AllSymbols-merge_loop, merge_loop_lem, decode-ids_of,
  decode_shown,
}
use libmlxforge.Token.Merge.{flat}
use libmlxforge.Token.Utf8.{to_uni, decode_utf8}

symbol_length_pos : (c : ℕ) → 0 < symbol_length c
unfolding symbol_length
symbol_length_pos c = ground arith

flat-split_symbols : (n : ℕ) (p : Bytes) → length p ≤ n → flat (split_symbols n p) ≡ p
unfolding split_symbols
flat-split_symbols zero [] l = refl
flat-split_symbols zero (c ∷ p) l = absurd (omega (arith, l))
flat-split_symbols (suc n) [] l = refl
flat-split_symbols (suc n) (c ∷ p) l =
    let k = symbol_length c in
    ap (λ t. take k (c ∷ p) ++ t)
      (flat-split_symbols n (drop k (c ∷ p))
        (omega (arith, length-drop k (c ∷ p), symbol_length_pos c, l)))
    ∙ take-append-drop k (c ∷ p)

-- A byte's symbol, and what is behind it.
split_one :
    (n c : ℕ) (p : Bytes) → c < 128 → split_symbols (suc n) (c ∷ p) ≡ (c ∷ []) ∷ split_symbols n p
unfolding split_symbols symbol_length
split_one n c p l = ap (λ k. take k (c ∷ p) ∷ split_symbols n (drop k (c ∷ p))) (one c l)
  where
    one : (x : ℕ) → x < 128 → symbol_length x ≡ 1
    one x k = ground arith

split_two :
    (n c d : ℕ) (p : Bytes)
    → 192 ≤ c
    → c < 224
    → split_symbols (suc n) (c ∷ d ∷ p) ≡ (c ∷ d ∷ []) ∷ split_symbols n p
unfolding split_symbols symbol_length
split_two n c d p k l =
    ap (λ x. take x (c ∷ d ∷ p) ∷ split_symbols n (drop x (c ∷ d ∷ p))) (two c k l)
  where
    two : (x : ℕ) → 192 ≤ x → x < 224 → symbol_length x ≡ 2
    two x i j = ground arith

split_byte :
    (n b : ℕ) (p : Bytes)
    → b < 256
    → split_symbols (suc n) (to_uni b ++ p) ≡ to_uni b ∷ split_symbols n p
split_byte n b p l = elim (to_uni-cases b l) [
  | inl (c, e, k) ↦ rw e (split_one n c p k)
  | inr (c, d, e, i, j) ↦ rw e (split_two n c d p i j)
]

AllSymbols-split_symbols :
    (t : BpeTokenizer) (n : ℕ) (s : Bytes)
    → IsClosed t
    → AllBytes s
    → AllSymbols t (split_symbols n (map_bytes s))
unfolding split_symbols map_bytes
AllSymbols-split_symbols t zero s c a = tt
AllSymbols-split_symbols t (suc n) [] c a = tt
AllSymbols-split_symbols t (suc n) (b ∷ s) c a =
    subst (AllSymbols t) (sym (split_byte n b (map_bytes s) a.0)) (
      (b ∷ [], (a.0, tt), sym (append-nil (to_uni b))),
      c.bytes b a.0,
      AllSymbols-split_symbols t n s c a.1,
    )

bpe_piece_hit :
    (t : BpeTokenizer) (p : Bytes) (id : ℕ)
    → lookup p t.token_to_id ≡ some id
    → bpe_piece t p ≡ id ∷ []
unfolding bpe_piece
bpe_piece_hit t p id e = rw (bpe_piece, e) refl

bpe_piece_miss :
    (t : BpeTokenizer) (p : Bytes)
    → lookup p t.token_to_id ≡ none
    → bpe_piece t p
      ≡ ids_of t.token_to_id (
          merge_loop t.merge_ranks
            (length (split_symbols (length p) p))
            (split_symbols (length p) p))
unfolding bpe_piece
bpe_piece_miss t p e = rw (bpe_piece, e) refl

-- The ids of a piece decode to the bytes of the piece.
pub decode-bpe_piece :
    (t : BpeTokenizer) (s : Bytes)
    → IsClosed t
    → AllBytes s
    → AllPlain t (bpe_piece t (map_bytes s))
    → decode t (bpe_piece t (map_bytes s)) ≡ s
unfolding decode
decode-bpe_piece t s c a pl = elim (Option-cases (lookup (map_bytes s) t.token_to_id)) [
  | inr (id, e) ↦
      let hit = bpe_piece_hit t (map_bytes s) id e in
      let plain : AllPlain t (id ∷ []) = subst (AllPlain t) hit pl in
      ap (decode t) hit
      ∙ decode_shown t (map_bytes s) s id [] (c.inverse (map_bytes s) id e) plain.0 refl a
      ∙ append-nil s
  | inl e ↦
      let piece = map_bytes s in
      let symbols = split_symbols (length piece) piece in
      let miss = bpe_piece_miss t piece e in
      let merged = merge_loop t.merge_ranks (length symbols) symbols in
      let (q, qb, f, d) =
        decode-ids_of t merged c
          (AllSymbols-merge_loop t (length symbols) symbols c
            (AllSymbols-split_symbols t (length piece) s c a))
          (subst (AllPlain t) miss pl) in
      let text : map_bytes s ≡ map_bytes q =
        sym (flat-split_symbols (length piece) piece (omega arith))
        ∙ sym (merge_loop_lem t.merge_ranks (length symbols) symbols (omega arith)).0
        ∙ f in
      ap (decode t) miss
      ∙ d
      ∙ sym (token_bytes-map_bytes q qb)
      ∙ ap (λ x. token_bytes (decode_utf8 x).0) (sym text)
      ∙ token_bytes-map_bytes s a
]
