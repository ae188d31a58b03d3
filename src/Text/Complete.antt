-- ===== src/Text/Complete.antt =====
-- src/tokenizer/tokenizer.cpp, `utf8_complete_len`: its bounds, and that it does not go back when
-- text is added.
use libmlxforge.Common.{
  ℕ, zero, suc, ◌+◌, ◌≤◌, ◌<◌, true, false, [], ◌∷◌, ◌++◌, Bytes, length, ◌≡◌, refl, sym, ◌∙◌, ap,
  subst, arith, Bool-cases, inl, inr, ◌⊎◌, length-append, take,
}
use libmlxforge.Text.Stream.{
  byte_at, is_continuation, last_start, needed, complete_from, utf8_complete_len,
}

pub take-append_left : (n : ℕ) (s t : Bytes) → n ≤ length s → take n (s ++ t) ≡ take n s
take-append_left zero s t l = refl
take-append_left (suc n) [] t l = absurd (omega (arith, l))
take-append_left (suc n) (c ∷ s) t l = ap (◌∷◌ c) (take-append_left n s t (omega (arith, l)))

pub byte_at-append : (a b : Bytes) (i : ℕ) → i < length a → byte_at (a ++ b) i ≡ byte_at a i
unfolding byte_at
byte_at-append [] b i l = absurd (omega (arith, l))
byte_at-append (c ∷ a) b zero l = refl
byte_at-append (c ∷ a) b (suc i) l = byte_at-append a b i (omega (arith, l))

pub last_start_stop :
    (s : Bytes) (n : ℕ) → is_continuation (byte_at s (suc n)) ≡ false → last_start s (suc n) ≡ suc n
unfolding last_start
last_start_stop s n e = rw (last_start, e) refl

pub last_start_back :
    (s : Bytes) (n : ℕ)
    → is_continuation (byte_at s (suc n)) ≡ true
    → last_start s (suc n) ≡ last_start s n
unfolding last_start
last_start_back s n e = rw (last_start, e) refl

last_start_at_most : (s : Bytes) (n : ℕ) → last_start s n ≤ n
unfolding last_start
last_start_at_most s zero = omega arith
last_start_at_most s (suc n) = ground (arith, last_start_at_most s n)

last_start-append : (a b : Bytes) (n : ℕ) → n < length a → last_start (a ++ b) n ≡ last_start a n
unfolding last_start
last_start-append a b zero l = refl
last_start-append a b (suc n) l =
    ground (arith, byte_at-append a b (suc n) l, last_start-append a b n (omega (arith, l)))

-- A later scan stops behind index `n`, or where the scan from there stops.
last_start_later :
    (s : Bytes) (n k m : ℕ) → m ≡ k + n → (n < last_start s m) ⊎ (last_start s m ≡ last_start s n)
last_start_later s n zero m e = inr (ap (last_start s) (omega (arith, e)))
last_start_later s n (suc k) zero e = absurd (omega (arith, e))
last_start_later s n (suc k) (suc m) e = elim (Bool-cases (is_continuation (byte_at s (suc m)))) [
  | inl c ↦ elim (last_start_later s n k m (omega (arith, e))) [
    | inl l ↦ inl (subst (λ z. n < z) (sym (last_start_back s m c)) l)
    | inr q ↦ inr (last_start_back s m c ∙ q)
  ]
  | inr c ↦ inl (subst (λ z. n < z) (sym (last_start_stop s m c)) (omega (arith, e)))
]

needed_at_most : (c : ℕ) → needed c ≤ 4
unfolding needed
needed_at_most c = ground arith

complete_from_bounds :
    (s : Bytes) (start : ℕ)
    → start < length s
    → (start ≤ complete_from s start)
      × (complete_from s start ≤ length s)
      × (length s ≤ complete_from s start + 3)
unfolding complete_from
complete_from_bounds s start l = ground (arith, needed_at_most (byte_at s start), l)

-- The length is one of a prefix, and at most three bytes are behind it.
pub utf8_complete_len_bounds :
    (s : Bytes) → (utf8_complete_len s ≤ length s) × (length s ≤ utf8_complete_len s + 3)
unfolding utf8_complete_len
utf8_complete_len_bounds [] = (omega arith, omega arith)
utf8_complete_len_bounds (c ∷ s) =
    let l = last_start_at_most (c ∷ s) (length s) in
    let (p, q, r) =
      complete_from_bounds (c ∷ s) (last_start (c ∷ s) (length s)) (omega (arith, l)) in
    (q, r)

complete_from_later :
    (s t : Bytes) (start : ℕ)
    → start < length s
    → complete_from s start ≤ complete_from (s ++ t) start
unfolding complete_from
complete_from_later s t start l = ground (arith, byte_at-append s t start l, length-append s t, l)

-- More text never takes a complete prefix back.
pub utf8_complete_len_mono : (s t : Bytes) → utf8_complete_len s ≤ utf8_complete_len (s ++ t)
unfolding utf8_complete_len
utf8_complete_len_mono [] t = omega arith
utf8_complete_len_mono (c ∷ s) t =
    let full = (c ∷ s) ++ t in
    let n = length s in
    let start = last_start (c ∷ s) n in
    let l = last_start_at_most (c ∷ s) n in
    let p = complete_from_bounds (c ∷ s) start (omega (arith, l)) in
    let last = length (s ++ t) in
    let m : last ≡ length t + n = omega (arith, length-append s t) in
    let same = last_start-append (c ∷ s) t n (omega arith) in
    let lt = last_start_at_most full last in
    elim (last_start_later full n (length t) last m) [
      | inl far ↦
          let q = complete_from_bounds full (last_start full last) (omega (arith, lt)) in
          omega (arith, far, q.0, p.1)
      | inr e ↦
          let q = complete_from_later (c ∷ s) t start (omega (arith, l)) in
          subst (λ z. complete_from (c ∷ s) start ≤ complete_from full z) (sym (e ∙ same)) q
    ]
