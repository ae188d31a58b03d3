-- ===== src/Text/Spm.antt =====
-- src/tokenizer/spm.h and spm.cpp: `SpmBpeTokenizer::decode`. A string is its bytes, a hash map a
-- list of pairs. Ids that are negative are not modelled.
use libmlxforge.Common.{
  ℕ, List, [], ◌∷◌, ◌++◌, Option, none, some, Bytes, get_elem?, ◌==◌, if◌then◌else◌, ◌≡◌, refl, sym,
  ◌∙◌, ap, append_assoc, append-nil, Bool-cases, Option-cases, inl, inr,
}
use libmlxforge.Token.Bpe.{mem}

pub record SpmBpeTokenizer : Type 0 where
  pub id_to_token : List Bytes
  pub special_ids : List ℕ
  pub byte_token_value : List (ℕ × ℕ)

abbrev pub value_of : ℕ → List (ℕ × ℕ) → Option ℕ
value_of id [] = none
value_of id ((k, v) ∷ m) = if k == id then some v else value_of id m

-- A metaspace is the bytes E2 96 81.
unfoldable pub spaces : Bytes → Bytes
spaces [] = []
spaces (a ∷ []) = a ∷ []
spaces (a ∷ b ∷ []) = a ∷ b ∷ []
spaces (a ∷ b ∷ c ∷ s) =
    let space = b' ' ∷ spaces s in
    let kept = a ∷ spaces (b ∷ c ∷ s) in
    if a == 0xE2 then if b == 0x96 then if c == 0x81 then space else kept else kept else kept

-- The loop of `decode`, with the byte tokens since the last text token.
unfoldable pub decode_ids : SpmBpeTokenizer → Bytes → List ℕ → Bytes
unfolding spaces
decode_ids t pending [] = pending
decode_ids t pending (id ∷ ids) =
    let skipped = decode_ids t pending ids in
    elim (get_elem? t.id_to_token id) [
      | none ↦ skipped
      | some tok ↦
          let next : Bytes = elim (value_of id t.byte_token_value) [
            | some byte ↦ decode_ids t (pending ++ (byte ∷ [])) ids
            | none ↦ pending ++ spaces tok ++ decode_ids t [] ids
          ] in
          if mem id t.special_ids then skipped else next
    ]

unfoldable pub spm_decode : SpmBpeTokenizer → List ℕ → Bytes
unfolding decode_ids
spm_decode t ids = decode_ids t [] ids

decode_ids-pending :
    (t : SpmBpeTokenizer) (p : Bytes) (ids : List ℕ) → decode_ids t p ids ≡ p ++ decode_ids t [] ids
unfolding decode_ids
decode_ids-pending t p [] = sym (append-nil p)
decode_ids-pending t p (id ∷ ids) = elim (Option-cases (get_elem? t.id_to_token id)) [
  | inl n ↦ rw (decode_ids, n) (decode_ids-pending t p ids)
  | inr (tok, n) ↦ elim (Bool-cases (mem id t.special_ids)) [
    | inl m ↦ rw (decode_ids, n, m) (decode_ids-pending t p ids)
    | inr m ↦ elim (Option-cases (value_of id t.byte_token_value)) [
      | inl v ↦ rw (decode_ids, n, m, v) (append_assoc p (spaces tok) (decode_ids t [] ids))
      | inr (byte, v) ↦
          rw (decode_ids, n, m, v)
            (decode_ids-pending t (p ++ (byte ∷ [])) ids
              ∙ append_assoc p (byte ∷ []) (decode_ids t [] ids)
              ∙ ap (λ z. p ++ z) (sym (decode_ids-pending t (byte ∷ []) ids)))
    ]
  ]
]

-- What an id adds to the text.
spm_decode_cons :
    (t : SpmBpeTokenizer) (id : ℕ)
    → (h : Bytes) × ((ids : List ℕ) → spm_decode t (id ∷ ids) ≡ h ++ spm_decode t ids)
unfolding spm_decode
spm_decode_cons t id = elim (Option-cases (get_elem? t.id_to_token id)) [
  | inl n ↦ ([], λ ids. rw (decode_ids, n) refl)
  | inr (tok, n) ↦ elim (Bool-cases (mem id t.special_ids)) [
    | inl m ↦ ([], λ ids. rw (decode_ids, n, m) refl)
    | inr m ↦ elim (Option-cases (value_of id t.byte_token_value)) [
      | inl v ↦ (spaces tok, λ ids. rw (decode_ids, n, m, v) refl)
      | inr (byte, v) ↦
          (byte ∷ [], λ ids. rw (decode_ids, n, m, v) (decode_ids-pending t (byte ∷ []) ids))
    ]
  ]
]

-- The text of ids behind each other is the texts behind each other.
pub spm_decode-append :
    (t : SpmBpeTokenizer) (a b : List ℕ) → spm_decode t (a ++ b) ≡ spm_decode t a ++ spm_decode t b
unfolding spm_decode
spm_decode-append t [] b = refl
spm_decode-append t (id ∷ a) b =
    let (h, e) = spm_decode_cons t id in
    e (a ++ b)
    ∙ ap (λ z. h ++ z) (spm_decode-append t a b)
    ∙ sym (append_assoc h (spm_decode t a) (spm_decode t b))
    ∙ ap (λ z. z ++ spm_decode t b) (sym (e a))
