-- ===== src/Gguf/Skip.antt =====
-- src/core/gguf.cpp: `skip_metadata_value` goes past a value of any depth.
use libmlxforge.Common.{
  ℕ, zero, suc, ◌+◌, ◌*◌, ◌^◌, ◌<◌, true, false, ◌&&◌, ◌++◌, Bytes, length, ltb, leb, ◌≡◌, refl,
  sym, ◌∙◌, ap, subst, arith, Bool-cases, inl, inr, append_assoc, length-append,
}
use libmlxforge.Gguf.Container.{
  Value, scalar, text, array, Values, nil, cons, count, type_of, write_value, write_values, IsValue,
  AllOf,
}
use libmlxforge.Gguf.Reader.{
  Reading, ok, bind, Stream, read_scalar, seek, size_of, times, skip_array_elements,
  skip_metadata_value,
}
use libmlxforge.Pool.Blocks.{word_bytes}
use libmlxforge.Gguf.Words.{length-word_bytes, read_scalar_lem, seek_lem}

-- The switch has the sizes of the table.
fixed_lem :
    (depth type : ℕ) (f : Stream)
    → 0 < size_of type
    → skip_metadata_value (suc depth) type f ≡ seek (size_of type) f
unfolding skip_metadata_value
fixed_lem depth zero f l = refl
fixed_lem depth (suc zero) f l = refl
fixed_lem depth (suc (suc zero)) f l = refl
fixed_lem depth (suc (suc (suc zero))) f l = refl
fixed_lem depth (suc (suc (suc (suc zero)))) f l = refl
fixed_lem depth (suc (suc (suc (suc (suc zero))))) f l = refl
fixed_lem depth (suc (suc (suc (suc (suc (suc zero)))))) f l = refl
fixed_lem depth (suc (suc (suc (suc (suc (suc (suc zero))))))) f l = refl
fixed_lem depth (suc (suc (suc (suc (suc (suc (suc (suc zero)))))))) f l = absurd (omega (arith, l))
fixed_lem depth (suc (suc (suc (suc (suc (suc (suc (suc (suc zero))))))))) f l =
    absurd (omega (arith, l))
fixed_lem depth (suc (suc (suc (suc (suc (suc (suc (suc (suc (suc zero)))))))))) f l = refl
fixed_lem depth (suc (suc (suc (suc (suc (suc (suc (suc (suc (suc (suc zero))))))))))) f l = refl
fixed_lem depth (suc (suc (suc (suc (suc (suc (suc (suc (suc (suc (suc (suc zero)))))))))))) f l =
    refl
fixed_lem depth (suc (suc (suc (suc (suc (suc (suc (suc (suc (suc (suc (suc (suc n))))))))))))) f
      l =
    absurd (omega (arith, l))

fixed_below : (type : ℕ) → 0 < size_of type → leb type 12 ≡ true
fixed_below zero l = refl
fixed_below (suc zero) l = refl
fixed_below (suc (suc zero)) l = refl
fixed_below (suc (suc (suc zero))) l = refl
fixed_below (suc (suc (suc (suc zero)))) l = refl
fixed_below (suc (suc (suc (suc (suc zero))))) l = refl
fixed_below (suc (suc (suc (suc (suc (suc zero)))))) l = refl
fixed_below (suc (suc (suc (suc (suc (suc (suc zero))))))) l = refl
fixed_below (suc (suc (suc (suc (suc (suc (suc (suc zero)))))))) l = refl
fixed_below (suc (suc (suc (suc (suc (suc (suc (suc (suc zero))))))))) l = refl
fixed_below (suc (suc (suc (suc (suc (suc (suc (suc (suc (suc zero)))))))))) l = refl
fixed_below (suc (suc (suc (suc (suc (suc (suc (suc (suc (suc (suc zero))))))))))) l = refl
fixed_below (suc (suc (suc (suc (suc (suc (suc (suc (suc (suc (suc (suc zero)))))))))))) l = refl
fixed_below (suc (suc (suc (suc (suc (suc (suc (suc (suc (suc (suc (suc (suc n))))))))))))) l =
    absurd (omega (arith, l))

sum_lem : (c w a b n : ℕ) → a ≡ w → b ≡ c * w → n ≡ a + b → n ≡ suc c * w
sum_lem c w a b n e f g = grind arith

scalars_length :
    (et : ℕ) (vs : Values)
    → AllOf et vs
    → 0 < size_of et
    → length (write_values vs) ≡ count vs * size_of et
unfolding write_values IsValue write_value
scalars_length et nil h l = omega arith
scalars_length et (cons (text s) vs) h l =
    absurd (omega (arith, subst (λ t. 0 < size_of t) (sym h.0) l))
scalars_length et (cons (array t ws) vs) h l =
    absurd (omega (arith, subst (λ t. 0 < size_of t) (sym h.0) l))
scalars_length et (cons (scalar t bs) vs) h l =
    let e : length bs ≡ size_of et = sym h.1.1 ∙ ap size_of h.0 in
    let n = scalars_length et vs h.2 l in
    sum_lem (count vs) (size_of et) (length bs) (length (write_values vs))
      (length (bs ++ write_values vs)) e n (length-append bs (write_values vs))

elements_lem :
    (skip : ℕ → Stream → Reading Stream) (et q : ℕ) (vs : Values) (f : Stream) (r : Bytes)
    → AllOf et vs
    → length (write_values vs) < 2 ^ 63
    → f.rest ≡ write_values vs ++ r
    → q ≡ f.pos + length (write_values vs)
    → times (count vs) (skip et) f ≡ ok (record { pos = q; rest = r })
    → skip_array_elements skip et (count vs) f ≡ ok (record { pos = q; rest = r })
unfolding skip_array_elements
elements_lem skip et q vs f r h l e a t = elim (Bool-cases (ltb 0 (size_of et))) [
  | inl b ↦
      let w = scalars_length et vs h (ground (arith, b)) in
      rw (skip_array_elements, b, fixed_below et (ground (arith, b)))
        (seek_lem (count vs * size_of et) q f (write_values vs) r w (omega (arith, w, l)) e
          (omega (arith, w, a)))
  | inr b ↦
      let n : (leb et 12 && ltb 0 (size_of et)) ≡ false = ground (arith, b) in
      rw (skip_array_elements, n) t
]

-- What is done with a length that was read, and with an array's header.
text_step :
    (depth n : ℕ) (f g t : Stream)
    → read_scalar 8 f ≡ ok (n, g)
    → seek n g ≡ ok t
    → skip_metadata_value (suc depth) 8 f ≡ ok t
unfolding skip_metadata_value
text_step depth n f g t e h = rw (skip_metadata_value, e) h

array_step :
    (depth et n : ℕ) (f g h t : Stream)
    → read_scalar 4 f ≡ ok (et, g)
    → read_scalar 8 g ≡ ok (n, h)
    → skip_array_elements (skip_metadata_value depth) et n h ≡ ok t
    → skip_metadata_value (suc depth) 9 f ≡ ok t
unfolding skip_metadata_value
array_step depth et n f g h t a b c = rw (skip_metadata_value, a, b) c

pub times_step :
    (n : ℕ) (step : Stream → Reading Stream) (f g t : Stream)
    → step f ≡ ok g
    → times n step g ≡ ok t
    → times (suc n) step f ≡ ok t
times_step n step f g t e h = ap (λ o. bind o (times n step)) e ∙ h

mutual
  unfolding write_value IsValue

  -- The stream is behind the value.
  pub skip_metadata_value_lem :
      (v : Value) (depth q : ℕ) (f : Stream) (r : Bytes)
      → IsValue v
      → length (write_value v) < depth
      → f.rest ≡ write_value v ++ r
      → q ≡ f.pos + length (write_value v)
      → skip_metadata_value depth (type_of v) f ≡ ok (record { pos = q; rest = r })
  skip_metadata_value_lem v zero q f r h l e a = absurd (omega (arith, l))
  skip_metadata_value_lem (scalar type bs) (suc depth) q f r h l e a =
      fixed_lem depth type f (omega (arith, h.0, h.1))
      ∙ seek_lem (size_of type) q f bs r (sym h.1) (omega (arith, h.1, h.2)) e
          (omega (arith, h.1, a))
  skip_metadata_value_lem (text s) (suc depth) q f r h l e a =
      let w = word_bytes 8 (length s) in
      let n = length-append w s in
      let m = length-word_bytes 8 (length s) in
      text_step depth (length s) f (record { pos = f.pos + 8; rest = s ++ r })
        (record { pos = q; rest = r })
        (read_scalar_lem 8 (length s) (f.pos + 8) f (s ++ r) (omega (arith, h))
          (e ∙ append_assoc w s r) refl)
        (seek_lem (length s) q (record { pos = f.pos + 8; rest = s ++ r }) s r refl h refl
          (omega (arith, a, n, m)))
  skip_metadata_value_lem (array et vs) (suc depth) q f r h l e a =
      let w = word_bytes 4 et in
      let c = word_bytes 8 (count vs) in
      let n = length-append w (c ++ write_values vs) in
      let m = length-append c (write_values vs) in
      let x = length-word_bytes 4 et in
      let y = length-word_bytes 8 (count vs) in
      let g : Stream = record { pos = f.pos + 4; rest = c ++ (write_values vs ++ r) } in
      let k : Stream = record { pos = f.pos + 4 + 8; rest = write_values vs ++ r } in
      let b : q ≡ f.pos + 4 + 8 + length (write_values vs) = omega (arith, a, n, m, x, y) in
      array_step depth et (count vs) f g k (record { pos = q; rest = r })
        (read_scalar_lem 4 et (f.pos + 4) f (c ++ (write_values vs ++ r)) h.0
          (e
            ∙ append_assoc w (c ++ write_values vs) r
            ∙ ap (λ z. w ++ z) (append_assoc c (write_values vs) r))
          refl)
        (read_scalar_lem 8 (count vs) (f.pos + 4 + 8) g (write_values vs ++ r) h.1 refl refl)
        (elements_lem (skip_metadata_value depth) et q vs k r h.3 h.2 refl b
          (skip_values_lem vs et depth q k r h.3 (omega (arith, l, n, m, x, y)) refl b))

  skip_values_lem :
      (vs : Values) (et depth q : ℕ) (f : Stream) (r : Bytes)
      → AllOf et vs
      → length (write_values vs) < depth
      → f.rest ≡ write_values vs ++ r
      → q ≡ f.pos + length (write_values vs)
      → times (count vs) (skip_metadata_value depth et) f ≡ ok (record { pos = q; rest = r })
  skip_values_lem nil et depth q f r h l e a =
      ap (λ p. ok (record { pos = p; rest = f.rest })) {x = f.pos} {y = q} (omega (arith, a))
      ∙ ap (λ s. ok (record { pos = q; rest = s })) e
  skip_values_lem (cons v vs) et depth q f r h l e a =
      let n = length-append (write_value v) (write_values vs) in
      let p = f.pos + length (write_value v) in
      let g : Stream = record { pos = p; rest = write_values vs ++ r } in
      times_step (count vs) (skip_metadata_value depth et) f g (record { pos = q; rest = r })
        (subst (λ t. skip_metadata_value depth t f ≡ ok g) h.0
          (skip_metadata_value_lem v depth p f (write_values vs ++ r) h.1 (omega (arith, l, n))
            (e ∙ append_assoc (write_value v) (write_values vs) r) refl))
        (skip_values_lem vs et depth q g r h.2 (omega (arith, l, n)) refl (omega (arith, a, n)))
