-- ===== src/Token/Bpe.antt =====
-- src/tokenizer/bpe.h and bpe.cpp: `BpeTokenizer`. A string is its bytes; a hash map is a list of
-- pairs, of which the first with a key counts. Merge keys are "L R", with a space between. The error
-- log of a symbol that has no id is left out. Where a token's literal is empty, the scan of `encode`
-- can stand still for ever: it is on fuel, and `none` when that is used up.
use mathlib.Core.List.{reverse}
use libmlxforge.Common.{
  ℕ, zero, suc, ◌-◌, Bool, true, false, ◌&&◌, ◌||◌, List, [], ◌∷◌, ◌++◌, Option, none, some, Bytes,
  length, take, drop, get_elem?, ltb, leb, ◌==◌, if◌then◌else◌,
}
use libmlxforge.Token.Piece.{match_piece}
use libmlxforge.Token.Unicode.{Classes}
use libmlxforge.Token.Utf8.{decode_utf8, to_uni, from_uni, from_uni_dense}

abbrev pub bytes_eq : Bytes → Bytes → Bool
bytes_eq [] [] = true
bytes_eq [] (y ∷ ys) = false
bytes_eq (x ∷ xs) [] = false
bytes_eq (x ∷ xs) (y ∷ ys) = x == y && bytes_eq xs ys

unfoldable pub lookup : Bytes → List (Bytes × ℕ) → Option ℕ
lookup s [] = none
lookup s ((t, n) ∷ m) = if bytes_eq t s then some n else lookup s m

abbrev pub mem : ℕ → List ℕ → Bool
mem n [] = false
mem n (k ∷ l) = k == n || mem n l

pub record BpeTokenizer : Type 0 where
  pub digit_run_max : ℕ
  pub token_to_id : List (Bytes × ℕ)
  pub id_to_token : List Bytes
  pub merge_ranks : List (Bytes × ℕ)
  pub special_ids : List ℕ
  pub special_tokens : List (Bytes × ℕ)
  pub special_first_bytes : List ℕ

-- The symbols of a piece, by their lead bytes.
unfoldable pub symbol_length : ℕ → ℕ
symbol_length c = if leb 0xF0 c then 4 else if leb 0xE0 c then 3 else if leb 0xC0 c then 2 else 1

unfoldable pub split_symbols : ℕ → Bytes → List Bytes
unfolding symbol_length
split_symbols zero piece = []
split_symbols (suc rounds) [] = []
split_symbols (suc rounds) (c ∷ piece) =
    take (symbol_length c) (c ∷ piece) ∷ split_symbols rounds (drop (symbol_length c) (c ∷ piece))

-- A pair to merge: its rank and its two symbols.
pub record Pair : Type 0 where
  pub rank : ℕ
  pub left : Bytes
  pub right : Bytes

-- The scan for the lowest rank, the first of those with the same.
unfoldable pub best_from : List (Bytes × ℕ) → Option Pair → List Bytes → Option Pair
unfolding lookup
best_from ranks best [] = best
best_from ranks best (a ∷ []) = best
best_from ranks best (a ∷ b ∷ l) =
    best_from ranks
      (elim (lookup (a ++ (b' ' ∷ b)) ranks) [
        | none ↦ best
        | some r ↦ elim best [
          | none ↦ some (record { rank = r; left = a; right = b })
          | some p ↦
              if ltb r p.rank then some (record { rank = r; left = a; right = b }) else some p
        ]
      ])
      (b ∷ l)

-- All occurrences of the pair, from the left.
unfoldable pub merge_pair : Bytes → Bytes → List Bytes → List Bytes
merge_pair a b [] = []
merge_pair a b (x ∷ []) = x ∷ []
merge_pair a b (x ∷ y ∷ l) =
    let merged = (a ++ b) ∷ merge_pair a b l in
    let kept = x ∷ merge_pair a b (y ∷ l) in if bytes_eq x a && bytes_eq y b then merged else kept

-- The merge loop. A round makes the list shorter.
unfoldable pub merge_loop : List (Bytes × ℕ) → ℕ → List Bytes → List Bytes
unfolding best_from merge_pair
merge_loop ranks zero symbols = symbols
merge_loop ranks (suc rounds) symbols = elim (best_from ranks none symbols) [
  | none ↦ symbols
  | some p ↦ merge_loop ranks rounds (merge_pair p.left p.right symbols)
]

unfoldable pub ids_of : List (Bytes × ℕ) → List Bytes → List ℕ
unfolding lookup
ids_of vocab [] = []
ids_of vocab (sym ∷ l) =
    let rest = ids_of vocab l in elim (lookup sym vocab) [ none ↦ rest | some id ↦ id ∷ rest ]

unfoldable pub bpe_piece : BpeTokenizer → Bytes → List ℕ
unfolding lookup split_symbols merge_loop ids_of
bpe_piece t piece = elim (lookup piece t.token_to_id) [
  | some id ↦ id ∷ []
  | none ↦
      let symbols = split_symbols (length piece) piece in
      ids_of t.token_to_id (merge_loop t.merge_ranks (length symbols) symbols)
]

abbrev pub head_or : ℕ → List ℕ → ℕ
head_or d [] = d
head_or d (x ∷ l) = x

unfoldable pub map_bytes : Bytes → Bytes
unfolding to_uni
map_bytes [] = []
map_bytes (b ∷ l) = to_uni b ++ map_bytes l

abbrev pub starts_with : Bytes → Bytes → Bool
starts_with [] text = true
starts_with (x ∷ lit) [] = false
starts_with (x ∷ lit) (c ∷ text) = x == c && starts_with lit text

unfoldable pub special_at : List (Bytes × ℕ) → Bytes → Option (Bytes × ℕ)
special_at [] text = none
special_at ((lit, id) ∷ l) text = if starts_with lit text then some (lit, id) else special_at l text

unfoldable pub match_special : BpeTokenizer → Bytes → Option (Bytes × ℕ)
unfolding special_at
match_special t [] = none
match_special t (c ∷ text) =
    if mem c t.special_first_bytes then special_at t.special_tokens (c ∷ text) else none

module _ (u : Classes) where
  -- The loop of `encode_plain`: the code points and the offsets from index `p` on.
  unfoldable pub pieces : BpeTokenizer → Bytes → ℕ → List ℕ → List ℕ → List Bytes
  unfolding match_piece
  pieces t segment zero cp off = []
  pieces t segment (suc rounds) [] off = []
  pieces t segment (suc rounds) (c ∷ cp) off =
      let len = match_piece u t.digit_run_max c cp in
      let start = head_or 0 off in
      let stop = head_or 0 (drop len off) in
      take (stop - start) (drop start segment)
      ∷ pieces t segment rounds (drop len (c ∷ cp)) (drop len off)

  unfoldable pub piece_ids : BpeTokenizer → List Bytes → List ℕ
  unfolding bpe_piece map_bytes
  piece_ids t [] = []
  piece_ids t (piece ∷ l) = bpe_piece t (map_bytes piece) ++ piece_ids t l

  unfoldable pub encode_plain : BpeTokenizer → Bytes → List ℕ
  unfolding pieces decode_utf8 piece_ids
  encode_plain t segment =
      let d = decode_utf8 segment in piece_ids t (pieces t segment (length d.0) d.0 d.1)

  -- The scan, with the plain bytes since the last literal, the last byte first.
  unfoldable pub encode_from : BpeTokenizer → ℕ → Bytes → Bytes → Option (List ℕ)
  unfolding match_special encode_plain
  encode_from t zero plain text = none
  encode_from t (suc fuel) plain [] = some (encode_plain t (reverse plain))
  encode_from t (suc fuel) plain (c ∷ text) = elim (match_special t (c ∷ text)) [
    | none ↦ encode_from t fuel (c ∷ plain) text
    | some (lit, id) ↦ elim (encode_from t fuel [] (drop (length lit) (c ∷ text))) [
      | none ↦ none
      | some ids ↦ some (encode_plain t (reverse plain) ++ (id ∷ ids))
    ]
  ]

  unfoldable pub encode : BpeTokenizer → Bytes → Option (List ℕ)
  unfolding encode_from
  encode t text = encode_from t (suc (length text)) [] text

-- The bytes that a token's code points stand for.
unfoldable pub token_bytes : List ℕ → Bytes
unfolding from_uni from_uni_dense
token_bytes [] = []
token_bytes (c ∷ cp) =
    let rest = token_bytes cp in
    elim (from_uni_dense c) [
      | some b ↦ b ∷ rest
      | none ↦ elim (from_uni c) [ none ↦ rest | some b ↦ b ∷ rest ]
    ]

unfoldable pub decode : BpeTokenizer → List ℕ → Bytes
unfolding token_bytes decode_utf8
decode t [] = []
decode t (id ∷ ids) =
    let rest = decode t ids in
    elim (get_elem? t.id_to_token id) [
      | none ↦ rest
      | some tok ↦ if mem id t.special_ids then rest else token_bytes (decode_utf8 tok).0 ++ rest
    ]
