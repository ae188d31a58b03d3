-- ===== src/Server/Errors.antt =====
-- src/server/base64.h: when `base64_decode` throws, and that whitespace does not count.
use libmlxforge.Common.{
  ℕ, ◌+◌, ◌-◌, ◌*◌, ◌/◌, ◌%◌, ◌^◌, ◌<◌, ◌≢◌, ◌||◌, Bool, true, false, [], ◌∷◌, none, some, Bytes,
  leb, ◌==◌, if◌then◌else◌, ◌≡◌, refl, sym, ◌∙◌, ap, arith, Bool-cases, Option-cases, inl, inr, ◌↔◌,
}
use libmlxforge.Server.RoundTrip.{digit, digit_lem}
use libmlxforge.Server.Base64.{sextet, is_space, decode_loop, base64_decode}

-- A byte of the alphabet of RFC 4648, and a test for a tab, a line feed, a carriage return or a space.
abbrev pub IsDigit : ℕ → Type 0
IsDigit c = (v : ℕ) × (v < 64) × (c ≡ digit v)

abbrev pub blank : ℕ → Bool
blank c = c == 9 || c == 10 || c == 13 || c == 32

-- A byte before the first padding is neither in the alphabet nor whitespace.
pub data HasForeign : Bytes → Type 0 where
  here : {c : ℕ} {s : Bytes} → ¬ IsDigit c → c ≢ b'=' → blank c ≡ false → HasForeign (c ∷ s)
  later : {c : ℕ} {s : Bytes} → c ≢ b'=' → HasForeign s → HasForeign (c ∷ s)

abbrev pub without_blanks : Bytes → Bytes
without_blanks [] = []
without_blanks (c ∷ s) = let rest = without_blanks s in if blank c then rest else c ∷ rest

some_differs : (a : ℕ) → some a ≡ none → ⊥
some_differs a e = cc

sextet-digit : (c : ℕ) → IsDigit c → (v : ℕ) × (sextet c ≡ some v)
sextet-digit c (v, l, e) = (v, ap sextet e ∙ (digit_lem v l).value)

IsDigit-sextet : (c v : ℕ) → sextet c ≡ some v → IsDigit c
unfolding sextet
IsDigit-sextet c v e = (v, ground (arith, e), ground (arith, e))

no-IsDigit : (c : ℕ) → sextet c ≡ none → ¬ IsDigit c
no-IsDigit c e d = let (v, f) = sextet-digit c d in some_differs v (sym f ∙ e)

no_sextet : (c : ℕ) → ¬ IsDigit c → sextet c ≡ none
no_sextet c n = elim (Option-cases (sextet c)) [
  | inl e ↦ e
  | inr (v, e) ↦ absurd (n (IsDigit-sextet c v e))
]

is_space-blank : (c : ℕ) → is_space c ≡ blank c
is_space-blank c = ground arith

no_padding : (c : ℕ) → (c == b'=') ≡ false → c ≢ b'='
no_padding c e = ground (arith, e)

-- What a round does: it ends, throws, skips, or goes on with some buffer and count.
data Round (buf bits c : ℕ) : Type 0 where
  ends :
      (c == b'=') ≡ true → ((s : Bytes) → decode_loop buf bits (c ∷ s) ≡ some []) → Round buf bits c
  throws :
      sextet c ≡ none
      → (c == b'=') ≡ false
      → is_space c ≡ false
      → ((s : Bytes) → decode_loop buf bits (c ∷ s) ≡ none)
      → Round buf bits c
  skips :
      (c == b'=') ≡ false
      → is_space c ≡ true
      → ((s : Bytes) → decode_loop buf bits (c ∷ s) ≡ decode_loop buf bits s)
      → Round buf bits c
  keeps :
      (next more v : ℕ)
      → sextet c ≡ some v
      → (c == b'=') ≡ false
      → is_space c ≡ false
      → ((s : Bytes) → decode_loop buf bits (c ∷ s) ≡ decode_loop next more s)
      → Round buf bits c
  emits :
      (next more v byte : ℕ)
      → sextet c ≡ some v
      → (c == b'=') ≡ false
      → is_space c ≡ false
      → ((s : Bytes)
          → decode_loop buf bits (c ∷ s)
            ≡ elim (decode_loop next more s) [ none ↦ none | some out ↦ some (byte ∷ out) ])
      → Round buf bits c

round : (buf bits c : ℕ) → Round buf bits c
unfolding decode_loop
round buf bits c = elim (Bool-cases (c == b'=')) [
  | inl e ↦ Round.ends e (λ s. rw (decode_loop, e) refl)
  | inr e ↦ elim (Bool-cases (is_space c)) [
    | inl w ↦ Round.skips e w (λ s. rw (decode_loop, e, w) refl)
    | inr w ↦ elim (Option-cases (sextet c)) [
      | inl v ↦ Round.throws v e w (λ s. rw (decode_loop, e, w, v) refl)
      | inr (v, f) ↦
          let next = (buf * 64 + v) % 2 ^ 32 in
          elim (Bool-cases (leb 8 (bits + 6))) [
            | inl k ↦
                Round.emits next (bits + 6 - 8) v (next / 2 ^ (bits + 6 - 8) % 256) f e w
                  (λ s. rw (decode_loop, e, w, f, k) refl)
            | inr k ↦ Round.keeps next (bits + 6) v f e w (λ s. rw (decode_loop, e, w, f, k) refl)
          ]
    ]
  ]
]

some_not_none : (out : Bytes) → some out ≡ none → ⊥
some_not_none out e = cc

loop-throws : (s : Bytes) (buf bits : ℕ) → decode_loop buf bits s ≡ none → HasForeign s
unfolding decode_loop
loop-throws [] buf bits e = absurd (some_not_none [] e)
loop-throws (c ∷ s) buf bits e = elim (round buf bits c) [
  | Round.ends p f ↦ absurd (some_not_none [] (sym (f s) ∙ e))
  | Round.throws v p w f ↦
      HasForeign.here (no-IsDigit c v) (no_padding c p) (sym (is_space-blank c) ∙ w)
  | Round.skips p w f ↦ HasForeign.later (no_padding c p) (loop-throws s buf bits (sym (f s) ∙ e))
  | Round.keeps next more v q p w f ↦
      HasForeign.later (no_padding c p) (loop-throws s next more (sym (f s) ∙ e))
  | Round.emits next more v byte q p w f ↦ elim (Option-cases (decode_loop next more s)) [
    | inl n ↦ HasForeign.later (no_padding c p) (loop-throws s next more n)
    | inr (out, n) ↦ absurd (
        some_not_none (byte ∷ out)
          (sym (f s ∙ ap (λ o. elim o [ none ↦ none | some x ↦ some (byte ∷ x) ]) n) ∙ e))
  ]
]

loop-foreign : (s : Bytes) (buf bits : ℕ) → HasForeign s → decode_loop buf bits s ≡ none
loop-foreign [] buf bits h = elim h [ ]
loop-foreign (c ∷ s) buf bits (HasForeign.here v p w) =
    let w2 : is_space c ≡ false = is_space-blank c ∙ w in
    let v2 = no_sextet c v in
    elim (round buf bits c) [
      | Round.ends q f ↦ absurd (ground (arith, p, q))
      | Round.throws x q y f ↦ f s
      | Round.skips q y f ↦ absurd (ground (arith, w2, y))
      | Round.keeps next more x z q y f ↦ absurd (some_differs x (sym z ∙ v2))
      | Round.emits next more x byte z q y f ↦ absurd (some_differs x (sym z ∙ v2))
    ]
loop-foreign (c ∷ s) buf bits (HasForeign.later p h) = elim (round buf bits c) [
  | Round.ends q f ↦ absurd (ground (arith, p, q))
  | Round.throws x q y f ↦ f s
  | Round.skips q y f ↦ f s ∙ loop-foreign s buf bits h
  | Round.keeps next more x z q y f ↦ f s ∙ loop-foreign s next more h
  | Round.emits next more x byte z q y f ↦
      f s
      ∙ ap (λ o. elim o [ none ↦ none | some out ↦ some (byte ∷ out) ]) (loop-foreign s next more h)
]

loop-without_blanks :
    (s : Bytes) (buf bits : ℕ) → decode_loop buf bits (without_blanks s) ≡ decode_loop buf bits s
loop-without_blanks [] buf bits = refl
loop-without_blanks (c ∷ s) buf bits = elim (round buf bits c) [
  | Round.ends q f ↦ elim (Bool-cases (is_space c)) [
    | inl w ↦ absurd (ground (arith, q, w))
    | inr w ↦ ap (decode_loop buf bits) (stays c s w) ∙ f (without_blanks s) ∙ sym (f s)
  ]
  | Round.throws x q y f ↦
      ap (decode_loop buf bits) (stays c s y) ∙ f (without_blanks s) ∙ sym (f s)
  | Round.skips q y f ↦
      ap (decode_loop buf bits) (goes c s y) ∙ loop-without_blanks s buf bits ∙ sym (f s)
  | Round.keeps next more x z q y f ↦
      ap (decode_loop buf bits) (stays c s y)
      ∙ f (without_blanks s)
      ∙ loop-without_blanks s next more
      ∙ sym (f s)
  | Round.emits next more x byte z q y f ↦
      ap (decode_loop buf bits) (stays c s y)
      ∙ f (without_blanks s)
      ∙ ap (λ o. elim o [ none ↦ none | some out ↦ some (byte ∷ out) ])
          (loop-without_blanks s next more)
      ∙ sym (f s)
]
  where
    stays : (c : ℕ) (s : Bytes) → is_space c ≡ false → without_blanks (c ∷ s) ≡ c ∷ without_blanks s
    stays c s e =
        ap (λ b. if b then without_blanks s else c ∷ without_blanks s) (sym (is_space-blank c) ∙ e)

    goes : (c : ℕ) (s : Bytes) → is_space c ≡ true → without_blanks (c ∷ s) ≡ without_blanks s
    goes c s e =
        ap (λ b. if b then without_blanks s else c ∷ without_blanks s) (sym (is_space-blank c) ∙ e)

-- `base64_decode` throws exactly where a byte before the first padding is neither in the alphabet of
-- RFC 4648 nor a tab, a line feed, a carriage return or a space, and these four change nothing.
pub base64_decode_lem :
    (s : Bytes)
    → ((base64_decode s ≡ none) ↔ HasForeign s)
      × (base64_decode (without_blanks s) ≡ base64_decode s)
unfolding base64_decode
base64_decode_lem s = ((loop-throws s 0 0, loop-foreign s 0 0), loop-without_blanks s 0 0)
