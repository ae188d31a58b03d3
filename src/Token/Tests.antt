-- ===== src/Token/Tests.antt =====
-- Tests of src/tokenizer/bpe.cpp and unicode_tables.h on a small tokenizer: the 256 bytes, one merge
-- and one literal.
use libmlxforge.Common.{
  ℕ, zero, suc, ◌+◌, ◌≤◌, ◌<◌, true, false, List, [], ◌∷◌, ◌++◌, none, some, Bytes, length,
  get_elem?, ◌==◌, ◌≡◌, ◌≢◌, refl, sym, ◌∙◌, ap, subst, arith, Bool-cases, Option-cases, inl, inr,
  ◌⊎◌, ==_iff, ◌↔◌,
}
use libmlxforge.Token.Alphabet.{AllBytes}
use libmlxforge.Token.Bounds.{match_piece_bounds}
use libmlxforge.Token.Bpe.{
  BpeTokenizer, Pair, bytes_eq, mem, lookup, encode, encode_plain, decode, best_from, merge_loop,
  ids_of, bpe_piece, piece_ids, head_or, pieces, map_bytes, split_symbols,
}
use libmlxforge.Token.Encode.{decode-encode_plain}
use libmlxforge.Token.FromGguf.{number_tokens}
use libmlxforge.Token.Loop.{IsClosed, AllPlain, best_pair_lem, merge_loop_lem}
use libmlxforge.Token.Merge.{flat, IsAdjacent, IsRanked, key, bytes_eq_sound, bytes_eq_same}
use libmlxforge.Token.Piece.{match_piece}
use libmlxforge.Token.Ranges.{IsCovered, IsSorted, in_ranges_iff}
use libmlxforge.Token.Segments.{KeepsApart, Splits, encode_lem, decode-encode}
use libmlxforge.Token.Cut.{IsScannable}
use libmlxforge.Token.Numbers.{lookup-number_tokens}
use libmlxforge.Token.Unicode.{Range, Classes, in_ranges}
use libmlxforge.Token.Utf8.{decode_utf8, to_uni}

abbrev letters : List Range
letters = record { lo = 65; hi = 90 } ∷ record { lo = 97; hi = 122 } ∷ []

abbrev ascii : Classes
ascii = record {
  letters = letters;
  numbers = record { lo = 48; hi = 57 } ∷ [];
  whitespace = record { lo = 9; hi = 13 } ∷ record { lo = 32; hi = 32 } ∷ [];
}

abbrev bytes_from : ℕ → ℕ → List Bytes
bytes_from k zero = []
bytes_from k (suc n) = to_uni k ∷ bytes_from (suc k) n

abbrev tokens : ℕ → List Bytes
tokens n = (b'h' ∷ b'i' ∷ []) ∷ (b'<' ∷ b'>' ∷ []) ∷ bytes_from 0 n

-- "hi" has id 0, "<>" is a literal with id 1, byte b has id b + 2.
abbrev small : ℕ → BpeTokenizer
small n = record {
  digit_run_max = 3;
  token_to_id = ((b'h' ∷ b'i' ∷ []), 0) ∷ number_tokens 2 (bytes_from 0 n);
  id_to_token = tokens n;
  merge_ranks = ((b'h' ∷ b' ' ∷ b'i' ∷ []), 0) ∷ [];
  special_ids = 1 ∷ [];
  special_tokens = ((b'<' ∷ b'>' ∷ []), 1) ∷ [];
  special_first_bytes = b'<' ∷ [];
}

abbrev text : Bytes
text = b'h' ∷ b'i' ∷ b'<' ∷ b'>' ∷ b'h' ∷ []

encode_small : encode ascii (small 110) text ≡ some (0 ∷ 1 ∷ (b'h' + 2) ∷ [])
unfolding encode number_tokens to_uni
encode_small = refl

byte_id :
    (m k n b : ℕ) → k ≤ b → b < k + n → lookup (to_uni b) (number_tokens m (bytes_from k n)) ≢ none
unfolding number_tokens lookup
byte_id m k zero b l o = absurd (omega (arith, l, o))
byte_id m k (suc n) b l o = elim (Bool-cases (bytes_eq (to_uni k) (to_uni b))) [
  | inl e ↦ rw (lookup, e) (λ q. cc)
  | inr e ↦ elim (Bool-cases (k == b)) [
    | inl f ↦
        absurd
          (ground (arith, e, bytes_eq_same (to_uni k) (to_uni b) (ap to_uni ((==_iff k b).0 f))))
    | inr f ↦ rw (lookup, e) (byte_id (suc m) (suc k) n b (ground (arith, f, l)) (omega (arith, o)))
  ]
]

abbrev hi : Bytes
hi = b'h' ∷ b'i' ∷ []

some_id : (a b : ℕ) → some a ≡ some b → a ≡ b
some_id a b e = cc

hit : (n : ℕ) (s : Bytes) → bytes_eq hi s ≡ true → lookup s (small n).token_to_id ≡ some 0
unfolding lookup
hit n s h = rw (lookup, h) refl

miss :
    (n : ℕ) (s : Bytes)
    → bytes_eq hi s ≡ false
    → lookup s (small n).token_to_id ≡ lookup s (number_tokens 2 (bytes_from 0 n))
unfolding lookup
miss n s h = rw (lookup, h) refl

get_behind : (n k : ℕ) → get_elem? (tokens n) (suc (suc k)) ≡ get_elem? (bytes_from 0 n) k
get_behind n k = refl

small_lookup :
    (n : ℕ) (s : Bytes) (id : ℕ)
    → lookup s (small n).token_to_id ≡ some id
    → (get_elem? (tokens n) id ≡ some s) × (mem id (1 ∷ []) ≡ false)
unfolding lookup
small_lookup n s id e = elim (Bool-cases (bytes_eq hi s)) [
  | inl h ↦
      let zero_id : 0 ≡ id = some_id 0 id (sym (hit n s h) ∙ e) in
      (
        ap (get_elem? (tokens n)) (sym zero_id) ∙ ap some (bytes_eq_sound hi s h),
        ground (arith, zero_id),
      )
  | inr h ↦
      let (k, d, g) = lookup-number_tokens 2 (bytes_from 0 n) s id (sym (miss n s h) ∙ e) in
      let place : id ≡ 2 + k = d in
      (
        subst (λ z. get_elem? (tokens n) z ≡ some s) {x = suc (suc k)} {y = id}
            (omega (arith, place)) (get_behind n k ∙ g),
        ground (arith, d),
      )
]

byte_small : (n b : ℕ) → b < n → lookup (to_uni b) (small n).token_to_id ≢ none
unfolding lookup
byte_small n b l = elim (Bool-cases (bytes_eq hi (to_uni b))) [
  | inl h ↦ rw (lookup, h) (λ q. cc)
  | inr h ↦ rw (lookup, h) (byte_id 2 0 n b (omega arith) (omega (arith, l)))
]

key_hi : (a b : Bytes) → b'h' ∷ b' ' ∷ b'i' ∷ [] ≡ key a b → hi ≡ a ++ b
key_hi [] b e = cc
key_hi (x ∷ []) b e = cc
key_hi (x ∷ y ∷ []) b e = cc
key_hi (x ∷ y ∷ z ∷ []) b e = cc
key_hi (x ∷ y ∷ z ∷ w ∷ a) b e = cc

merge_small :
    (n : ℕ) (a b : Bytes) (r : ℕ)
    → lookup (key a b) (small n).merge_ranks ≡ some r
    → lookup (a ++ b) (small n).token_to_id ≢ none
unfolding lookup
merge_small n a b r e = elim (Bool-cases (bytes_eq (b'h' ∷ b' ' ∷ b'i' ∷ []) (key a b))) [
  | inl h ↦
      rw
        (
          lookup,
          bytes_eq_same hi (a ++ b)
              (key_hi a b (bytes_eq_sound (b'h' ∷ b' ' ∷ b'i' ∷ []) (key a b) h)),
        )
        (λ q. cc)
  | inr h ↦ absurd (ground (arith, h, e))
]

small_IsClosed : IsClosed (small 256)
small_IsClosed = record {
  bytes = λ b l. byte_small 256 b l;
  merges = merge_small 256;
  inverse = λ s id e. (small_lookup 256 s id e).0;
}

-- Every id of plain text was looked up, and so is none of a literal.
module _ (n : ℕ) where
  ids_of_plain : (l : List Bytes) → AllPlain (small n) (ids_of (small n).token_to_id l)
  unfolding ids_of
  ids_of_plain [] = tt
  ids_of_plain (s ∷ l) = elim (Option-cases (lookup s (small n).token_to_id)) [
    | inl e ↦ rw (ids_of, e) (ids_of_plain l)
    | inr (id, e) ↦ rw (ids_of, e) ((small_lookup n s id e).1, ids_of_plain l)
  ]

  bpe_piece_plain : (s : Bytes) → AllPlain (small n) (bpe_piece (small n) s)
  unfolding bpe_piece
  bpe_piece_plain s = elim (Option-cases (lookup s (small n).token_to_id)) [
    | inl e ↦
        let symbols = split_symbols (length s) s in
        rw (bpe_piece, e) (ids_of_plain (merge_loop (small n).merge_ranks (length symbols) symbols))
    | inr (id, e) ↦ rw (bpe_piece, e) ((small_lookup n s id e).1, tt)
  ]

  append_plain :
      (a b : List ℕ) → AllPlain (small n) a → AllPlain (small n) b → AllPlain (small n) (a ++ b)
  append_plain [] b p q = q
  append_plain (x ∷ a) b p q = (p.0, append_plain a b p.1 q)

  piece_ids_plain : (u : Classes) (l : List Bytes) → AllPlain (small n) (piece_ids u (small n) l)
  unfolding piece_ids
  piece_ids_plain u [] = tt
  piece_ids_plain u (s ∷ l) =
      append_plain (bpe_piece (small n) (map_bytes s)) (piece_ids u (small n) l)
        (bpe_piece_plain (map_bytes s)) (piece_ids_plain u l)

  encode_plain_plain : (u : Classes) (s : Bytes) → AllPlain (small n) (encode_plain u (small n) s)
  unfolding encode_plain
  encode_plain_plain u s =
      piece_ids_plain u
        (pieces u (small n) s (length (decode_utf8 s).0) (decode_utf8 s).0 (decode_utf8 s).1)

  small_KeepsApart : (u : Classes) → KeepsApart u (small n)
  small_KeepsApart u = record {
    plain = λ s a. encode_plain_plain u s;
    literal = λ lit id i. elim i [ inl (p, q) ↦ ground (arith, q) | inr j ↦ absurd j ];
  }

small-IsScannable : (n : ℕ) → IsScannable (small n)
small-IsScannable n = record {
  nonempty = λ id i. elim i [ inl (p, q) ↦ absurd (omega (arith, ap length p)) | inr j ↦ absurd j ];
  first = λ c lit id i. elim i [
    | inl (p, q) ↦ let same : c ≡ b'<' = ap (head_or 0) p in ground (arith, same)
    | inr j ↦ absurd j
  ];
}

text-AllBytes : AllBytes text
text-AllBytes = (omega arith, (omega arith, (omega arith, (omega arith, (omega arith, tt)))))

decode-encode_example :
    (ids : List ℕ) × (shown : Bytes) × (encode ascii (small 256) text ≡ some ids)
    × Splits ascii (small 256) text ids shown
    × (decode (small 256) ids ≡ shown)
decode-encode_example =
    decode-encode ascii (small 256) text small_IsClosed (omega arith) (small_KeepsApart 256 ascii)
      (small-IsScannable 256) text-AllBytes

decode-encode_plain_example : decode (small 256) (encode_plain ascii (small 256) text) ≡ text
decode-encode_plain_example =
    decode-encode_plain ascii (small 256) text small_IsClosed (omega arith) text-AllBytes
      (encode_plain_plain 256 ascii text)

encode_lem_example :
    (ids : List ℕ) × (shown : Bytes) × (encode ascii (small 256) text ≡ some ids)
    × Splits ascii (small 256) text ids shown
encode_lem_example = encode_lem ascii (small 256) text (small-IsScannable 256)

abbrev h_i_h : List Bytes
h_i_h = (b'h' ∷ []) ∷ (b'i' ∷ []) ∷ (b'h' ∷ []) ∷ []

merge_loop_lem_example :
    (flat (merge_loop (small 0).merge_ranks 3 h_i_h) ≡ flat h_i_h)
    × ((a b : Bytes)
        → IsAdjacent a b (merge_loop (small 0).merge_ranks 3 h_i_h)
        → lookup (key a b) (small 0).merge_ranks ≡ none)
merge_loop_lem_example = merge_loop_lem (small 0).merge_ranks 3 h_i_h (omega arith)

best_pair_lem_example :
    ((best_from (small 0).merge_ranks none h_i_h ≡ none)
      × ((a b : Bytes) → IsAdjacent a b h_i_h → lookup (key a b) (small 0).merge_ranks ≡ none))
    ⊎ ((p : Pair) × (best_from (small 0).merge_ranks none h_i_h ≡ some p)
        × IsAdjacent p.left p.right h_i_h
        × IsRanked (small 0).merge_ranks p
        × ((a b : Bytes) (r : ℕ)
            → IsAdjacent a b h_i_h
            → lookup (key a b) (small 0).merge_ranks ≡ some r
            → p.rank ≤ r))
best_pair_lem_example = best_pair_lem (small 0).merge_ranks h_i_h

match_piece_bounds_example :
    (0 < match_piece ascii 3 b'h' (b'i' ∷ [])) × (match_piece ascii 3 b'h' (b'i' ∷ []) ≤ 2)
match_piece_bounds_example = match_piece_bounds ascii 3 b'h' (b'i' ∷ []) (omega arith)

get_letters :
    (i : ℕ) (r : Range)
    → get_elem? letters i ≡ some r
    → ((i ≡ 0) × (r.lo ≡ 65) × (r.hi ≡ 90)) ⊎ ((i ≡ 1) × (r.lo ≡ 97) × (r.hi ≡ 122))
get_letters zero r e = inl (refl, cc, cc)
get_letters (suc zero) r e = inr (refl, cc, cc)
get_letters (suc (suc i)) r e = absurd (cc)

letters_IsSorted : IsSorted letters
letters_IsSorted = record {
  nonempty = λ i r e. elim (get_letters i r e) [
    | inl (a, b, c) ↦ omega (arith, b, c)
    | inr (a, b, c) ↦ omega (arith, b, c)
  ];
  rising = λ i j r s l e f. elim (get_letters i r e) [
    | inl (a, b, c) ↦ elim (get_letters j s f) [
      | inl (x, y, z) ↦ absurd (omega (arith, a, x, l))
      | inr (x, y, z) ↦ omega (arith, c, y)
    ]
    | inr (a, b, c) ↦ elim (get_letters j s f) [
      | inl (x, y, z) ↦ absurd (omega (arith, a, x, l))
      | inr (x, y, z) ↦ absurd (omega (arith, a, x, l))
    ]
  ];
}

in_ranges_iff_example : (in_ranges b'h' letters ≡ true) ↔ IsCovered b'h' letters
in_ranges_iff_example = in_ranges_iff b'h' letters letters_IsSorted
