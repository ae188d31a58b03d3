-- ===== src/Text/Whole.antt =====
-- src/tokenizer/tokenizer.cpp, `utf8_complete_len` on a text of whole characters that is cut off
-- anywhere.
use libmlxforge.Common.{
  ℕ, zero, suc, ◌+◌, ◌≤◌, ◌<◌, true, false, List, [], ◌∷◌, ◌++◌, Bytes, length, take, drop, leb,
  if◌then◌else◌, ◌≡◌, refl, sym, ◌∙◌, ap, subst, arith, Bool-cases, inl, inr, ◌⊎◌, length-append,
  append_assoc, take-append,
}
use libmlxforge.Text.Complete.{
  take-append_left, utf8_complete_len_bounds, last_start_stop, last_start_back,
}
use libmlxforge.Text.Stream.{
  byte_at, is_continuation, last_start, needed, complete_from, utf8_complete_len,
}
use libmlxforge.Token.Bpe.{head_or}
use libmlxforge.Token.Merge.{flat}

abbrev pub AllTrail : Bytes → Type 0
AllTrail [] = Unit
AllTrail (x ∷ s) = ((0x80 ≤ x) × (x < 0xC0)) × AllTrail s

-- The lead byte for so many bytes behind it.
abbrev pub IsLead : ℕ → ℕ → Type 0
IsLead zero c = c < 0x80
IsLead (suc zero) c = (0xC0 ≤ c) × (c < 0xE0)
IsLead (suc (suc zero)) c = (0xE0 ≤ c) × (c < 0xF0)
IsLead (suc (suc (suc zero))) c = (0xF0 ≤ c) × (c < 0xF8)
IsLead (suc (suc (suc (suc n)))) c = ⊥

-- One character of UTF-8: a lead byte, and the trailing bytes that it announces.
abbrev pub IsChar : Bytes → Type 0
IsChar [] = ⊥
IsChar (c ∷ s) = IsLead (length s) c × AllTrail s

abbrev pub AllChars : List Bytes → Type 0
AllChars [] = Unit
AllChars (s ∷ l) = IsChar s × AllChars l

lead_lem : (n c : ℕ) → IsLead n c → (needed c ≡ suc n) × (is_continuation c ≡ false)
unfolding needed
lead_lem zero c h = (ground (arith, h), ground (arith, h))
lead_lem (suc zero) c h = (ground (arith, h), ground (arith, h))
lead_lem (suc (suc zero)) c h = (ground (arith, h), ground (arith, h))
lead_lem (suc (suc (suc zero))) c h = (ground (arith, h), ground (arith, h))
lead_lem (suc (suc (suc (suc n)))) c h = absurd h

AllTrail-append_left : (a b : Bytes) → AllTrail (a ++ b) → AllTrail a
AllTrail-append_left [] b h = tt
AllTrail-append_left (x ∷ a) b h = (h.0, AllTrail-append_left a b h.1)

trail_at : (s : Bytes) (i : ℕ) → AllTrail s → i < length s → is_continuation (byte_at s i) ≡ true
unfolding byte_at
trail_at [] i h l = absurd (omega (arith, l))
trail_at (x ∷ s) zero h l = ground (arith, h.0)
trail_at (x ∷ s) (suc i) h l = trail_at s i h.1 (omega (arith, l))

byte_at-skip : (a b : Bytes) (i k : ℕ) → k ≡ length a + i → byte_at (a ++ b) k ≡ byte_at b i
unfolding byte_at
byte_at-skip [] b i k e = ap (byte_at b) (omega (arith, e))
byte_at-skip (x ∷ a) b i zero e = absurd (omega (arith, e))
byte_at-skip (x ∷ a) b i (suc k) e = byte_at-skip a b i k (omega (arith, e))

-- Behind a lead byte and trailing bytes the scan goes back to the lead byte.
last_start-lead :
    (a s : Bytes) (c j k : ℕ)
    → is_continuation c ≡ false
    → AllTrail s
    → j ≤ length s
    → k ≡ length a + j
    → last_start (a ++ (c ∷ s)) k ≡ length a
unfolding last_start byte_at
last_start-lead a s c zero zero n h l e = omega (arith, e)
last_start-lead a s c zero (suc k) n h l e =
    last_start_stop (a ++ (c ∷ s)) k (ap is_continuation (byte_at-skip a (c ∷ s) 0 (suc k) e) ∙ n)
    ∙ omega (arith, e)
last_start-lead a s c (suc j) zero n h l e = absurd (omega (arith, e))
last_start-lead a s c (suc j) (suc k) n h l e =
    last_start_back (a ++ (c ∷ s)) k (
      ap is_continuation (byte_at-skip a (c ∷ s) (suc j) (suc k) e)
      ∙ trail_at s j h (omega (arith, l)))
    ∙ last_start-lead a s c j k n h (omega (arith, l)) (omega (arith, e))

complete_nonempty :
    (s : Bytes) (n start : ℕ)
    → length s ≡ suc n
    → last_start s n ≡ start
    → utf8_complete_len s ≡ complete_from s start
unfolding utf8_complete_len
complete_nonempty [] n start l e = absurd (omega (arith, l))
complete_nonempty (c ∷ s) n start l e =
    ap (complete_from (c ∷ s))
      (ap (last_start (c ∷ s)) {x = length s} {y = n} (omega (arith, l)) ∙ e)

complete_from_lead :
    (s : Bytes) (start c m n : ℕ)
    → byte_at s start ≡ c
    → needed c ≡ suc n
    → length s ≡ start + suc m
    → complete_from s start ≡ (if leb n m then start + suc m else start)
unfolding complete_from
complete_from_lead s start c m n e f g = ground (arith, ap needed e, f, g)

-- Behind `a`, a lead byte with its first trailing bytes counts when it has all of them.
complete_lead :
    (a s : Bytes) (c n : ℕ)
    → IsLead n c
    → AllTrail s
    → utf8_complete_len (a ++ (c ∷ s))
      ≡ (if leb n (length s) then length a + suc (length s) else length a)
unfolding byte_at
complete_lead a s c n h t =
    let (w, k) = lead_lem n c h in
    let full = length-append a (c ∷ s) in
    let at = byte_at-skip a (c ∷ s) 0 (length a) (omega arith) in
    complete_nonempty (a ++ (c ∷ s)) (length a + length s) (length a) (omega (arith, full))
      (last_start-lead a s c (length s) (length a + length s) k t (omega arith) refl)
    ∙ complete_from_lead (a ++ (c ∷ s)) (length a) c (length s) n at w full

-- A prefix of two texts: it ends in the first, or behind it.
cut_lem :
    (x t p r : Bytes)
    → x ++ t ≡ p ++ r
    → ((u : Bytes) × (p ≡ x ++ u)) ⊎ ((u : Bytes) × (x ≡ p ++ u) × (u ++ t ≡ r) × (0 < length u))
cut_lem [] t p r e = inl (p, refl)
cut_lem (c ∷ x) t [] r e = inr (c ∷ x, refl, e, omega arith)
cut_lem (c ∷ x) t (d ∷ p) r e = elim (cut_lem x t p r (ap (drop 1) e)) [
  | inl (u, f) ↦ inl (u, ap (◌∷◌ d) f ∙ ap (λ z. z ∷ (x ++ u)) (sym (ap (head_or 0) e)))
  | inr (u, f, g, h) ↦ inr (u, ap (◌∷◌ c) f ∙ ap (λ z. z ∷ (p ++ u)) (ap (head_or 0) e), g, h)
]

-- The first `k` characters are all that is whole within `n` bytes.
abbrev pub IsMost : ℕ → List Bytes → ℕ → Type 0
IsMost k l n = (n < length (flat (take (suc k) l))) ⊎ (length l ≤ k)

IsMost-one :
    (c : ℕ) (p : Bytes) (l : List Bytes) (n : ℕ)
    → AllChars l
    → n ≡ suc (length p)
    → IsMost 1 ((c ∷ p) ∷ l) n
IsMost-one c p [] n h e = inr (omega arith)
IsMost-one c p ([] ∷ l) n h e = absurd h.0
IsMost-one c p ((d ∷ q) ∷ l) n h e = inl (omega (arith, length-append p ((d ∷ q) ++ []), e))

IsMost-suc :
    (k : ℕ) (s : Bytes) (l : List Bytes) (m n : ℕ)
    → n ≡ length s + m
    → IsMost k l m
    → IsMost (suc k) (s ∷ l) n
IsMost-suc k s l m n e (inl h) = inl (omega (arith, length-append s (flat (take (suc k) l)), e, h))
IsMost-suc k s l m n e (inr h) = inr (omega (arith, h))

inside :
    (c : ℕ) (p : Bytes) (l : List Bytes) (a w u : Bytes)
    → AllChars ((c ∷ p) ∷ l)
    → p ≡ w ++ u
    → (k : ℕ) × (utf8_complete_len (a ++ (c ∷ w)) ≡ length a + length (flat (take k ((c ∷ p) ∷ l))))
      × IsMost k ((c ∷ p) ∷ l) (suc (length w))
inside c p l a w u h f =
    let q =
      complete_lead a w c (length p) h.0.0 (AllTrail-append_left w u (subst AllTrail f h.0.1)) in
    let n = ap length f ∙ length-append w u in
    elim (Bool-cases (leb (length p) (length w))) [
      | inl b ↦
          let same : length w ≡ length p = ground (arith, n, b) in
          (
            1,
            q
                ∙ ap (λ z. if z then length a + suc (length w) else length a) b
                ∙ omega (arith, length-append (c ∷ p) [], same),
            IsMost-one c p l (suc (length w)) h.1 (ap suc same),
          )
      | inr b ↦ (
        0,
        q ∙ ap (λ z. if z then length a + suc (length w) else length a) b ∙ omega arith,
        inl (ground (arith, length-append p [], b)),
      )
    ]

walk :
    (l : List Bytes) (a w t : Bytes)
    → AllChars l
    → w ++ t ≡ flat l
    → 0 < length w
    → (k : ℕ) × (utf8_complete_len (a ++ w) ≡ length a + length (flat (take k l)))
      × IsMost k l (length w)
walk [] a [] t h e n = absurd (omega (arith, n))
walk [] a (x ∷ w) t h e n = absurd (omega (arith, ap length e))
walk ([] ∷ l) a w t h e n = absurd h.0
walk ((c ∷ p) ∷ l) a [] t h e n = absurd (omega (arith, n))
walk ((c ∷ p) ∷ l) a (x ∷ w) t h e n =
    let head : x ≡ c = ap (head_or 0) e in
    elim (cut_lem w t p (flat l) (ap (drop 1) e)) [
      | inl (u, f) ↦
          let (k, q, b) = inside c p l a w u h f in
          (k, ap (λ z. utf8_complete_len (a ++ (z ∷ w))) head ∙ q, b)
      | inr (u, f, g, m) ↦
          let (k, q, b) = walk l (a ++ (c ∷ p)) u t h.1 g m in
          let moved : a ++ (x ∷ w) ≡ (a ++ (c ∷ p)) ++ u =
            ap (λ z. a ++ (z ∷ w)) head
            ∙ ap (λ z. a ++ (c ∷ z)) f
            ∙ sym (append_assoc a (c ∷ p) u) in
          (
            suc k,
            ap utf8_complete_len moved
                ∙ q
                ∙ omega (arith, length-append a (c ∷ p), length-append (c ∷ p) (flat (take k l))),
            IsMost-suc k (c ∷ p) l (length u) (suc (length w))
                (omega (arith, ap length f, length-append p u)) b,
          )
    ]

flat-take-drop : (k : ℕ) (l : List Bytes) → flat (take k l) ++ flat (drop k l) ≡ flat l
flat-take-drop zero l = refl
flat-take-drop (suc k) [] = refl
flat-take-drop (suc k) (s ∷ l) =
    append_assoc s (flat (take k l)) (flat (drop k l)) ∙ ap (λ z. s ++ z) (flat-take-drop k l)

-- A text of whole characters that is cut off anywhere: the complete prefix is some of its first
-- characters, and no character more is whole before the cut.
pub whole_lem :
    (chars : List Bytes) (s t : Bytes)
    → AllChars chars
    → s ++ t ≡ flat chars
    → (k : ℕ) × (take (utf8_complete_len s) s ≡ flat (take k chars)) × IsMost k chars (length s)
unfolding utf8_complete_len
whole_lem [] [] t h e = (0, refl, inr (omega arith))
whole_lem ([] ∷ chars) [] t h e = absurd h.0
whole_lem ((d ∷ p) ∷ chars) [] t h e = (0, refl, inl (omega arith))
whole_lem chars (c ∷ s) t h e =
    let (k, q, b) = walk chars [] (c ∷ s) t h e (omega arith) in
    let n = utf8_complete_len (c ∷ s) in
    let joined = e ∙ sym (flat-take-drop k chars) in
    let l = (utf8_complete_len_bounds (c ∷ s)).0 in
    (
      k,
      sym (take-append_left n (c ∷ s) t l)
          ∙ ap (take n) joined
          ∙ take-append n (flat (take k chars)) (flat (drop k chars)) (omega (arith, q)),
      b,
    )
