-- ===== src/Text/Streaming.antt =====
-- src/tokenizer/tokenizer.cpp, `StreamingDetokenizer`: what a caller that adds ids has got.
use libmlxforge.Common.{
  ℕ, zero, suc, ◌+◌, ◌-◌, ◌≤◌, false, List, [], ◌∷◌, ◌++◌, some, Bytes, length, take, drop, ltb,
  leb, ◌≡◌, refl, sym, ◌∙◌, ap, subst, arith, Bool-cases, inl, inr, append_assoc, append-nil,
  length-append, length-drop,
}
use libmlxforge.Text.Complete.{take-append_left, utf8_complete_len_bounds, utf8_complete_len_mono}
use libmlxforge.Text.Stream.{
  utf8_complete_len, EncoderBackend, keep, tokenizer_decode, StreamingDetokenizer, new_detokenizer,
  substr, add, add_all, finish,
}
use libmlxforge.Token.Bpe.{mem}
use libmlxforge.Token.Encode.{drop-drop}

keep-append : (special a b : List ℕ) → keep special (a ++ b) ≡ keep special a ++ keep special b
keep-append special [] b = refl
keep-append special (id ∷ a) b = elim (Bool-cases (mem id special)) [
  | inl m ↦ rw m (keep-append special a b)
  | inr m ↦ rw m (ap (◌∷◌ id) (keep-append special a b))
]

-- The bytes of `s` from `lo` to `hi`.
abbrev slice : ℕ → ℕ → Bytes → Bytes
slice lo hi s = take (hi - lo) (drop lo s)

drop-append_left : (n : ℕ) (s t : Bytes) → n ≤ length s → drop n (s ++ t) ≡ drop n s ++ t
drop-append_left zero s t l = refl
drop-append_left (suc n) [] t l = absurd (omega (arith, l))
drop-append_left (suc n) (c ∷ s) t l = drop-append_left n s t (omega (arith, l))

take_split : (a b c : ℕ) (s : Bytes) → c ≡ a + b → take c s ≡ take a s ++ take b (drop a s)
take_split zero b c s e = ap (λ z. take z s) (omega (arith, e))
take_split (suc a) b zero s e = absurd (omega (arith, e))
take_split (suc a) zero (suc c) [] e = refl
take_split (suc a) (suc b) (suc c) [] e = refl
take_split (suc a) b (suc c) (x ∷ s) e = ap (◌∷◌ x) (take_split a b c s (omega (arith, e)))

slice_empty : (lo hi : ℕ) (s : Bytes) → hi ≤ lo → slice lo hi s ≡ []
slice_empty lo hi s l = ap (λ n. take n (drop lo s)) {x = hi - lo} {y = 0} (omega (arith, l))

slice_join :
    (a b c : ℕ) (s t : Bytes)
    → a ≤ b
    → b ≤ c
    → b ≤ length s
    → slice a b s ++ slice b c (s ++ t) ≡ slice a c (s ++ t)
slice_join a b c s t ab bc bs =
    let p : take (b - a) (drop a (s ++ t)) ≡ take (b - a) (drop a s) =
      ap (take (b - a)) (drop-append_left a s t (omega (arith, ab, bs)))
      ∙ take-append_left (b - a) (drop a s) t (omega (arith, length-drop a s, bs)) in
    let q = drop-drop a (b - a) b (s ++ t) (omega (arith, ab)) in
    ap (λ z. z ++ slice b c (s ++ t)) (sym p)
    ∙ ap (λ z. take (b - a) (drop a (s ++ t)) ++ take (c - b) z) (sym q)
    ∙ sym (take_split (b - a) (c - b) (c - a) (drop a (s ++ t)) (omega (arith, ab, bc)))

take_long : (n : ℕ) (s : Bytes) → length s ≤ n → take n s ≡ s
take_long zero [] l = refl
take_long zero (c ∷ s) l = absurd (omega (arith, l))
take_long (suc n) [] l = refl
take_long (suc n) (c ∷ s) l = ap (◌∷◌ c) (take_long n s (omega (arith, l)))

drop_past : (n : ℕ) (s : Bytes) → take (length s) (drop n s) ≡ drop n s
drop_past n s = take_long (length s) (drop n s) (omega (arith, length-drop n s))

doubled_empty : (s : Bytes) → s ≡ s ++ s → s ≡ []
doubled_empty [] e = refl
doubled_empty (c ∷ s) e = absurd (omega (arith, ap length e, length-append (c ∷ s) (c ∷ s)))

module _ (b : EncoderBackend)
    (law : (x y : List ℕ) → b.decode (x ++ y) ≡ b.decode x ++ b.decode y) where
  -- The text of the ids so far, and how much of it is returned.
  abbrev full : List ℕ → Bytes
  full ids = tokenizer_decode b ids

  abbrev done : List ℕ → ℕ
  done ids = utf8_complete_len (full ids)

  abbrev state : List ℕ → StreamingDetokenizer
  state ids = record { ids = ids; emitted = done ids }

  full-append : (p l : List ℕ) → full (p ++ l) ≡ full p ++ full l
  unfolding tokenizer_decode
  full-append p l =
      ap b.decode (keep-append b.special_ids p l)
      ∙ law (keep b.special_ids p) (keep b.special_ids l)

  done_mono : (p l : List ℕ) → done p ≤ done (p ++ l)
  done_mono p l =
      subst (λ z. done p ≤ utf8_complete_len z) (sym (full-append p l))
        (utf8_complete_len_mono (full p) (full l))

  add_step :
      (p q : List ℕ) (id : ℕ)
      → q ≡ p ++ (id ∷ [])
      → add b (state p) id ≡ some (slice (done p) (done q) (full q), state q)
  unfolding add substr
  add_step p q id e =
      subst (λ z. add b (state p) id ≡ some (slice (done p) (done z) (full z), state z)) (sym e)
        (elim (Bool-cases (leb (done (p ++ (id ∷ []))) (done p))) [
          | inl c ↦
              let r = p ++ (id ∷ []) in
              let m : done p ≡ done r = ground (arith, done_mono p (id ∷ []), c) in
              rw (add, c)
                (ap (λ z. some (z, record { ids = r; emitted = done p }))
                    (sym (slice_empty (done p) (done r) (full r) (omega (arith, m))))
                  ∙ ap
                      (λ k.
                        some (slice (done p) (done r) (full r), record { ids = r; emitted = k }))
                      m)
          | inr c ↦
              let r = p ++ (id ∷ []) in
              let n : ltb (length (full r)) (done p) ≡ false =
                ground (arith, done_mono p (id ∷ []), utf8_complete_len_bounds (full r)) in
              rw (add, c, n) refl
        ])

  add_all_step :
      (p q ids : List ℕ) (id : ℕ) (out more : Bytes) (d : StreamingDetokenizer)
      → add b (state p) id ≡ some (out, state q)
      → add_all b (state q) ids ≡ some (more, d)
      → add_all b (state p) (id ∷ ids) ≡ some (out ++ more, d)
  unfolding add_all
  add_all_step p q ids id out more d e f = rw (add_all, e, f) refl

  add_all_from :
      (p ids q : List ℕ)
      → q ≡ p ++ ids
      → add_all b (state p) ids ≡ some (slice (done p) (done q) (full q), state q)
  unfolding add_all
  add_all_from p [] q e =
      let same : q ≡ p = e ∙ append-nil p in
      subst (λ z. add_all b (state p) [] ≡ some (slice (done p) (done z) (full z), state z))
        (sym same)
        (ap (λ z. some (z, state p)) (sym (slice_empty (done p) (done p) (full p) (omega arith))))
  add_all_from p (id ∷ ids) q e =
      let r = p ++ (id ∷ []) in
      let s : q ≡ r ++ ids = e ∙ sym (append_assoc p (id ∷ []) ids) in
      let f = ap full s ∙ full-append r ids in
      let m : done r ≤ done q = subst (λ z. done r ≤ done z) (sym s) (done_mono r ids) in
      add_all_step p r ids id (slice (done p) (done r) (full r)) (slice (done r) (done q) (full q))
        (state q) (add_step p r id refl) (add_all_from r ids q s)
      ∙ ap (λ z. some (z, state q))
          (ap (λ z. slice (done p) (done r) (full r) ++ slice (done r) (done q) z) f
            ∙ slice_join (done p) (done r) (done q) (full r) (full ids) (done_mono p (id ∷ [])) m
                (utf8_complete_len_bounds (full r)).0
            ∙ ap (slice (done p) (done q)) (sym f))

  finish_lem :
      (ids : List ℕ)
      → finish b (state ids)
        ≡ some (drop (done ids) (full ids), record { ids = ids; emitted = length (full ids) })
  unfolding finish substr
  finish_lem ids =
      let n : ltb (length (full ids)) (done ids) ≡ false =
        ground (arith, utf8_complete_len_bounds (full ids)) in
      rw (finish, n)
        (ap (λ z. some (z, record { ids = ids; emitted = length (full ids) }))
          (drop_past (done ids) (full ids)))

  fresh_lem : state [] ≡ new_detokenizer
  unfolding utf8_complete_len tokenizer_decode
  fresh_lem =
      ap (λ s. record { ids = []; emitted = utf8_complete_len s })
        (doubled_empty (full []) (law [] []))

  from_fresh :
      (ids : List ℕ) → add_all b new_detokenizer ids ≡ some (take (done ids) (full ids), state ids)
  from_fresh ids =
      subst (λ d. add_all b d ids ≡ some (slice d.emitted (done ids) (full ids), state ids))
        fresh_lem (add_all_from [] ids ids refl)
      ∙ ap (λ k. some (take k (full ids), state ids)) {x = done ids - 0} {y = done ids}
          (omega arith)

  -- Where the backend's text of ids behind each other is the texts behind each other: no add throws,
  -- the texts that they return are, put together, the longest complete prefix of the text of all
  -- ids, at most three bytes are held back, and finish does not throw and returns those.
  pub add_all_lem :
      (ids : List ℕ)
      → (add_all b new_detokenizer ids
          ≡ some (
            take (utf8_complete_len (tokenizer_decode b ids)) (tokenizer_decode b ids),
            record { ids = ids; emitted = utf8_complete_len (tokenizer_decode b ids) },
          ))
        × (length (tokenizer_decode b ids) ≤ utf8_complete_len (tokenizer_decode b ids) + 3)
        × (finish b (record { ids = ids; emitted = utf8_complete_len (tokenizer_decode b ids) })
            ≡ some (
              drop (utf8_complete_len (tokenizer_decode b ids)) (tokenizer_decode b ids),
              record { ids = ids; emitted = length (tokenizer_decode b ids) },
            ))
  add_all_lem ids = (from_fresh ids, (utf8_complete_len_bounds (full ids)).1, finish_lem ids)
