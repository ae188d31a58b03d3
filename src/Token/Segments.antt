-- ===== src/Token/Segments.antt =====
-- src/tokenizer/bpe.cpp, `encode`: the scan for literals ends, and `decode` gives the text between.
use mathlib.Core.List.{reverse, reverse-cons}
use libmlxforge.Common.{
  ℕ, zero, suc, ◌<◌, true, List, [], ◌∷◌, ◌++◌, none, some, Bytes, length, drop, ◌≡◌, refl, sym,
  ◌∙◌, ap, subst, arith, Option-cases, inl, inr, append_assoc, append-nil, length-drop,
}
use libmlxforge.Token.Alphabet.{AllBytes}
use libmlxforge.Token.Bpe.{
  BpeTokenizer, decode, mem, encode_plain, encode_from, encode, match_special,
}
use libmlxforge.Token.Encode.{decode-encode_plain, decode-append}
use libmlxforge.Token.Loop.{IsClosed, AllPlain}
use libmlxforge.Token.Unicode.{Classes}
use libmlxforge.Token.Cut.{
  IsIn, NoneIn, IsFirst, IsScannable, IsFirst-IsIn, match_special_lem, match_special-none,
  nonempty_length, NoneIn-snoc,
}

-- A text, cut at the literals of the tokenizer, each where the first begins and of those that begin
-- there the first of the list: the text, its ids, and the text without the literals.
pub data Splits (u : Classes) (t : BpeTokenizer) : Bytes → List ℕ → Bytes → Type 0 where
  last :
      (plain : Bytes)
      → NoneIn t.special_tokens plain []
      → Splits u t plain (encode_plain u t plain) plain
  next :
      (plain lit : Bytes) (id : ℕ) {rest : Bytes} {ids : List ℕ} {shown : Bytes}
      → NoneIn t.special_tokens plain (lit ++ rest)
      → IsFirst (lit ++ rest) lit id t.special_tokens
      → Splits u t rest ids shown
      → Splits u t (plain ++ (lit ++ rest)) (encode_plain u t plain ++ (id ∷ ids)) (plain ++ shown)

decode_skipped :
    (t : BpeTokenizer) (id : ℕ) (ids : List ℕ)
    → mem id t.special_ids ≡ true
    → decode t (id ∷ ids) ≡ decode t ids
unfolding decode
decode_skipped t id ids e = ground (arith, e)

AllBytes-append_both : (a b : Bytes) → AllBytes (a ++ b) → AllBytes a × AllBytes b
AllBytes-append_both [] b h = (tt, h)
AllBytes-append_both (x ∷ a) b h = let (p, q) = AllBytes-append_both a b h.1 in ((h.0, p), q)

module _ (u : Classes) where
  encode_from_skips :
      (t : BpeTokenizer) (fuel c : ℕ) (plain text : Bytes)
      → match_special t (c ∷ text) ≡ none
      → encode_from u t (suc fuel) plain (c ∷ text) ≡ encode_from u t fuel (c ∷ plain) text
  unfolding encode_from
  encode_from_skips t fuel c plain text e = rw (encode_from, e) refl

  encode_from_hits :
      (t : BpeTokenizer) (fuel c : ℕ) (plain text lit : Bytes) (id : ℕ) (ids : List ℕ)
      → match_special t (c ∷ text) ≡ some (lit, id)
      → encode_from u t fuel [] (drop (length lit) (c ∷ text)) ≡ some ids
      → encode_from u t (suc fuel) plain (c ∷ text)
        ≡ some (encode_plain u t (reverse plain) ++ (id ∷ ids))
  unfolding encode_from
  encode_from_hits t fuel c plain text lit id ids e f = rw (encode_from, e, f) refl

  encode_from_lem :
      (t : BpeTokenizer) (fuel : ℕ) (plain text : Bytes)
      → IsScannable t
      → length text < fuel
      → NoneIn t.special_tokens (reverse plain) text
      → (ids : List ℕ) × (shown : Bytes) × (encode_from u t fuel plain text ≡ some ids)
        × Splits u t (reverse plain ++ text) ids shown
  unfolding encode_from
  encode_from_lem t zero plain text n l a = absurd (omega (arith, l))
  encode_from_lem t (suc fuel) plain [] n l a = (
    encode_plain u t (reverse plain),
    reverse plain,
    refl,
    subst (λ z. Splits u t z (encode_plain u t (reverse plain)) (reverse plain))
        (sym (append-nil (reverse plain))) (Splits.last (reverse plain) a),
  )
  encode_from_lem t (suc fuel) plain (c ∷ text) n l a =
      elim (Option-cases (match_special t (c ∷ text))) [
        | inl e ↦
            let b =
              subst (λ z. NoneIn t.special_tokens z text) (sym (reverse-cons c plain))
                (NoneIn-snoc t.special_tokens (reverse plain) c text a
                  (match_special-none t c text n e)) in
            let (ids, shown, f, s) =
              encode_from_lem t fuel (c ∷ plain) text n (omega (arith, l)) b in
            (
              ids,
              shown,
              encode_from_skips t fuel c plain text e ∙ f,
              subst (λ z. Splits u t z ids shown)
                  (ap (λ z. z ++ text) (reverse-cons c plain)
                    ∙ append_assoc (reverse plain) (c ∷ []) text)
                  s,
            )
        | inr ((lit, id), e) ↦
            let (i, w) = match_special_lem t c text lit id e in
            let rest = drop (length lit) (c ∷ text) in
            let pos =
              nonempty_length lit id t n (IsFirst-IsIn (c ∷ text) lit id t.special_tokens i) in
            let (ids, shown, f, s) =
              encode_from_lem t fuel [] rest n
                (omega (arith, l, pos, length-drop (length lit) (c ∷ text))) tt in
            (
              encode_plain u t (reverse plain) ++ (id ∷ ids),
              reverse plain ++ shown,
              encode_from_hits t fuel c plain text lit id ids e f,
              subst
                  (λ z.
                    Splits u t (reverse plain ++ z) (encode_plain u t (reverse plain) ++ (id ∷ ids))
                      (reverse plain ++ shown))
                  w
                  (Splits.next (reverse plain) lit id
                    (subst (NoneIn t.special_tokens (reverse plain)) (sym w) a)
                    (subst (λ z. IsFirst z lit id t.special_tokens) (sym w) i) s),
            )
      ]

  -- Where no literal is empty and the first byte of each is known, the scan ends, and its ids are
  -- those of the text cut at the literals: at each place where one begins that is not within one
  -- before, and there at the first of the list that does.
  pub encode_lem :
      (t : BpeTokenizer) (text : Bytes)
      → IsScannable t
      → (ids : List ℕ) × (shown : Bytes) × (encode u t text ≡ some ids) × Splits u t text ids shown
  unfolding encode
  encode_lem t text n = encode_from_lem t (suc (length text)) [] text n (omega arith) tt

  -- What the vocabulary keeps apart: plain text gets no id that `decode` skips, a literal does.
  pub record KeepsApart (t : BpeTokenizer) : Type 0 where
    pub plain : (s : Bytes) → AllBytes s → AllPlain t (encode_plain u t s)
    pub literal :
        (lit : Bytes) (id : ℕ) → IsIn lit id t.special_tokens → mem id t.special_ids ≡ true

  decode-Splits :
      (t : BpeTokenizer) {text : Bytes} {ids : List ℕ} {shown : Bytes}
      → IsClosed t
      → 0 < t.digit_run_max
      → KeepsApart t
      → Splits u t text ids shown
      → AllBytes text
      → decode t ids ≡ shown
  decode-Splits t c p k (Splits.last plain n) a =
      decode-encode_plain u t plain c p a (k.plain plain a)
  decode-Splits t c p k (Splits.next plain lit id {rest} {ids} {shown} n f s) a =
      let (x, y) = AllBytes-append_both plain (lit ++ rest) a in
      let (v, w) = AllBytes-append_both lit rest y in
      decode-append t (encode_plain u t plain) (id ∷ ids)
      ∙ ap (λ z. z ++ decode t (id ∷ ids)) (decode-encode_plain u t plain c p x (k.plain plain x))
      ∙ ap (λ z. plain ++ z)
          (decode_skipped t id ids
              (k.literal lit id (IsFirst-IsIn (lit ++ rest) lit id t.special_tokens f))
            ∙ decode-Splits t c p k s w)

  -- For a vocabulary that has every byte and every merge, gives each id to one token, keeps the ids of
  -- literals and of plain text apart and can be scanned: `encode` ends with the ids of the text cut
  -- at its literals, and `decode` of them is the text without these.
  pub decode-encode :
      (t : BpeTokenizer) (text : Bytes)
      → IsClosed t
      → 0 < t.digit_run_max
      → KeepsApart t
      → IsScannable t
      → AllBytes text
      → (ids : List ℕ) × (shown : Bytes) × (encode u t text ≡ some ids)
        × Splits u t text ids shown
        × (decode t ids ≡ shown)
  decode-encode t text c p k n a =
      let (ids, shown, e, s) = encode_lem t text n in (ids, shown, e, s, decode-Splits t c p k s a)
