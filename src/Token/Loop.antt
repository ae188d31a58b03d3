-- ===== src/Token/Loop.antt =====
-- src/tokenizer/bpe.cpp, `bpe_piece`: the merge loop ends, and its ids decode to the piece.
use libmlxforge.Common.{
  ℕ, zero, suc, ◌≤◌, ◌<◌, false, ◌&&◌, List, [], ◌∷◌, ◌++◌, none, some, Bytes, length, get_elem?,
  ◌≡◌, ◌≢◌, refl, sym, ◌∙◌, ap, subst, arith, Bool-cases, Option-cases, inl, inr, ◌⊎◌, append_assoc,
}
use libmlxforge.Token.Alphabet.{AllBytes, token_bytes-map_bytes}
use libmlxforge.Token.Bpe.{
  BpeTokenizer, bytes_eq, lookup, Pair, best_from, merge_pair, merge_loop, ids_of, map_bytes,
  decode, token_bytes, mem,
}
use libmlxforge.Token.Merge.{
  flat, flat-merge_pair, bytes_eq_sound, shorter_merge_pair, IsAdjacent, IsRanked, AtLeast,
  best_from_lem, key,
}
use libmlxforge.Token.Utf8.{to_uni, decode_utf8}

-- The scan of all symbols finds the first of the lowest ranked pairs, if any pair is ranked.
pub best_pair_lem :
    (ranks : List (Bytes × ℕ)) (l : List Bytes)
    → ((best_from ranks none l ≡ none)
        × ((a b : Bytes) → IsAdjacent a b l → lookup (key a b) ranks ≡ none))
      ⊎ ((p : Pair) × (best_from ranks none l ≡ some p)
          × IsAdjacent p.left p.right l
          × IsRanked ranks p
          × ((a b : Bytes) (r : ℕ)
              → IsAdjacent a b l
              → lookup (key a b) ranks ≡ some r
              → p.rank ≤ r))
best_pair_lem ranks l =
    let (c, d, e) = best_from_lem ranks none l in
    elim c [
      | inl n ↦ inl (
        n,
        λ a b h. elim (Option-cases (lookup (key a b) ranks)) [
          | inl z ↦ z
          | inr (r, z) ↦ absurd (subst (AtLeast r) n (d a b r h z))
        ],
      )
      | inr (p, f, g, k) ↦ inr (p, f, g, k, λ a b r h z. subst (AtLeast r) f (d a b r h z))
    ]

merge_loop_stop :
    (ranks : List (Bytes × ℕ)) (n : ℕ) (l : List Bytes)
    → best_from ranks none l ≡ none
    → merge_loop ranks (suc n) l ≡ l
unfolding merge_loop
merge_loop_stop ranks n l e = rw (merge_loop, e) refl

merge_loop_round :
    (ranks : List (Bytes × ℕ)) (n : ℕ) (l : List Bytes) (p : Pair)
    → best_from ranks none l ≡ some p
    → merge_loop ranks (suc n) l ≡ merge_loop ranks n (merge_pair p.left p.right l)
unfolding merge_loop
merge_loop_round ranks n l p e = rw (merge_loop, e) refl

-- With as many rounds as there are symbols the merge loop comes to its end, where no ranked pair is
-- left. It keeps the text.
pub merge_loop_lem :
    (ranks : List (Bytes × ℕ)) (n : ℕ) (l : List Bytes)
    → length l ≤ n
    → (flat (merge_loop ranks n l) ≡ flat l)
      × ((a b : Bytes) → IsAdjacent a b (merge_loop ranks n l) → lookup (key a b) ranks ≡ none)
unfolding merge_loop
merge_loop_lem ranks zero [] k = (refl, λ a b h. absurd h)
merge_loop_lem ranks zero (x ∷ l) k = absurd (omega (arith, k))
merge_loop_lem ranks (suc n) l k = elim (best_pair_lem ranks l) [
  | inl (e, none_left) ↦ rw (merge_loop_stop ranks n l e) (refl, none_left)
  | inr (p, e, a, r, m) ↦
      let (f, g) =
        merge_loop_lem ranks n (merge_pair p.left p.right l)
          (omega (arith, shorter_merge_pair p.left p.right l a, k)) in
      rw (merge_loop_round ranks n l p e) (f ∙ flat-merge_pair p.left p.right l, g)
]

-- What every vocabulary has: the bytes, and with each ranked pair its merge.
pub record IsClosed (t : BpeTokenizer) : Type 0 where
  pub bytes : (b : ℕ) → b < 256 → lookup (to_uni b) t.token_to_id ≢ none
  pub merges :
      (a b : Bytes) (r : ℕ)
      → lookup (key a b) t.merge_ranks ≡ some r
      → lookup (a ++ b) t.token_to_id ≢ none
  pub inverse :
      (s : Bytes) (id : ℕ) → lookup s t.token_to_id ≡ some id → get_elem? t.id_to_token id ≡ some s

-- Each symbol is written in the alphabet and has an id.
abbrev pub AllSymbols : BpeTokenizer → List Bytes → Type 0
AllSymbols t [] = Unit
AllSymbols t (s ∷ l) =
    ((q : Bytes) × AllBytes q × (s ≡ map_bytes q))
    × (lookup s t.token_to_id ≢ none)
    × AllSymbols t l

map_bytes-append : (p q : Bytes) → map_bytes (p ++ q) ≡ map_bytes p ++ map_bytes q
unfolding map_bytes
map_bytes-append [] q = refl
map_bytes-append (b ∷ p) q =
    ap (λ t. to_uni b ++ t) (map_bytes-append p q)
    ∙ sym (append_assoc (to_uni b) (map_bytes p) (map_bytes q))

AllBytes-append : (p q : Bytes) → AllBytes p → AllBytes q → AllBytes (p ++ q)
AllBytes-append [] q a b = b
AllBytes-append (x ∷ p) q a b = (a.0, AllBytes-append p q a.1 b)

AllSymbols-merge_pair :
    (t : BpeTokenizer) (a b : Bytes) (l : List Bytes)
    → lookup (a ++ b) t.token_to_id ≢ none
    → AllSymbols t l
    → AllSymbols t (merge_pair a b l)
unfolding merge_pair
AllSymbols-merge_pair t a b [] h s = s
AllSymbols-merge_pair t a b (x ∷ []) h s = s
AllSymbols-merge_pair t a b (x ∷ y ∷ l) h (xs, xi, (ys, yi, s)) =
    elim (Bool-cases (bytes_eq x a && bytes_eq y b)) [
      | inr e ↦ rw e (xs, xi, AllSymbols-merge_pair t a b (y ∷ l) h (ys, yi, s))
      | inl e ↦
          let (p, pb, pe) = xs in
          let (q, qb, qe) = ys in
          let here : x ≡ a = bytes_eq_sound x a (ground (arith, e)) in
          let there : y ≡ b = bytes_eq_sound y b (ground (arith, e)) in
          rw e (
            (
              p ++ q,
              AllBytes-append p q pb qb,
              ap (λ z. z ++ b) (sym here ∙ pe)
                  ∙ ap (λ z. map_bytes p ++ z) (sym there ∙ qe)
                  ∙ sym (map_bytes-append p q),
            ),
            h,
            AllSymbols-merge_pair t a b l h s,
          )
    ]

pub AllSymbols-merge_loop :
    (t : BpeTokenizer) (n : ℕ) (l : List Bytes)
    → IsClosed t
    → AllSymbols t l
    → AllSymbols t (merge_loop t.merge_ranks n l)
unfolding merge_loop
AllSymbols-merge_loop t zero l c s = s
AllSymbols-merge_loop t (suc n) l c s = elim (best_pair_lem t.merge_ranks l) [
  | inl (e, none_left) ↦ rw (merge_loop_stop t.merge_ranks n l e) s
  | inr (p, e, a, r, m) ↦ rw (merge_loop_round t.merge_ranks n l p e) (
      AllSymbols-merge_loop t n (merge_pair p.left p.right l) c
        (AllSymbols-merge_pair t p.left p.right l (c.merges p.left p.right p.rank r) s))
]

-- None of the ids is skipped by `decode`.
abbrev pub AllPlain : BpeTokenizer → List ℕ → Type 0
AllPlain t [] = Unit
AllPlain t (id ∷ ids) = (mem id t.special_ids ≡ false) × AllPlain t ids

pub decode_shown :
    (t : BpeTokenizer) (s q : Bytes) (id : ℕ) (ids : List ℕ)
    → get_elem? t.id_to_token id ≡ some s
    → mem id t.special_ids ≡ false
    → s ≡ map_bytes q
    → AllBytes q
    → decode t (id ∷ ids) ≡ q ++ decode t ids
unfolding decode
decode_shown t s q id ids e m w b =
    rw (decode, e, m)
      (ap (λ x. token_bytes (decode_utf8 x).0 ++ decode t ids) w
        ∙ ap (λ x. x ++ decode t ids) (token_bytes-map_bytes q b))

ids_of_step :
    (vocab : List (Bytes × ℕ)) (s : Bytes) (l : List Bytes) (id : ℕ)
    → lookup s vocab ≡ some id
    → ids_of vocab (s ∷ l) ≡ id ∷ ids_of vocab l
unfolding ids_of
ids_of_step vocab s l id e = rw (ids_of, e) refl

pub decode-ids_of :
    (t : BpeTokenizer) (l : List Bytes)
    → IsClosed t
    → AllSymbols t l
    → AllPlain t (ids_of t.token_to_id l)
    → (q : Bytes) × AllBytes q × (flat l ≡ map_bytes q) × (decode t (ids_of t.token_to_id l) ≡ q)
unfolding map_bytes decode ids_of
decode-ids_of t [] c s a = ([], tt, refl, refl)
decode-ids_of t (x ∷ l) c ((p, pb, pe), xi, s) a = elim (Option-cases (lookup x t.token_to_id)) [
  | inl n ↦ absurd (xi n)
  | inr (id, n) ↦
      let step = ids_of_step t.token_to_id x l id n in
      let plain : AllPlain t (id ∷ ids_of t.token_to_id l) = subst (AllPlain t) step a in
      let (q, qb, qe, d) = decode-ids_of t l c s plain.1 in
      (
        p ++ q,
        AllBytes-append p q pb qb,
        ap (λ z. z ++ flat l) pe ∙ ap (λ z. map_bytes p ++ z) qe ∙ sym (map_bytes-append p q),
        ap (decode t) step
            ∙ decode_shown t x p id (ids_of t.token_to_id l) (c.inverse x id n) plain.0 pe pb
            ∙ ap (λ z. p ++ z) d,
      )
]
