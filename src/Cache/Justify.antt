-- ===== src/Cache/Justify.antt =====
-- src/cache/batch_kv_cache.cpp: `pad_layer` of `merge`, and `merge` on an array of each cache.
use libmlxforge.Common.{
  ℕ, ◌+◌, ◌-◌, ◌≤◌, ◌<◌, min, ◌&&◌, List, [], ◌∷◌, ◌++◌, map, length, replicate, take, ltb, ◌==◌,
  if◌then◌else◌, ◌≡◌, refl, sym, ◌∙◌, ap, subst, arith, Bool-cases, inl, inr, length-append,
  length-take, length-replicate, append-nil,
}
use libmlxforge.Cache.Arrays.{ArrayLib, ArrayLaws, IsRect, AllLength}
use libmlxforge.Cache.Batch.{pad_array}
use libmlxforge.Cache.Contents.{content, contents, take_all}
use libmlxforge.Cache.Moves.{All, contents-map, content-justified}
use libmlxforge.Cache.Surgery.{map_on, AllLength-map, length-map}

map-map :
    {X Y Z : Type 0} (f : Y → Z) (g : X → Y) (l : List X) → map f (map g l) ≡ map (λ x. f (g x)) l
map-map f g [] = refl
map-map f g (x ∷ l) = ap (◌∷◌ (f (g x))) (map-map f g l)

All-unit : (l : List ℕ) → All (λ x. Unit) l
All-unit [] = tt
All-unit (x ∷ l) = (tt, All-unit l)

module _ {A S : Type 0} (lib : ArrayLib A S) (laws : ArrayLaws lib) (max_idx max_size idx b n : ℕ)
    (a : A) (r : IsRect lib b n a) (pos : 0 < b) (fits : idx ≤ n) (later : idx ≤ max_idx)
    (larger : n ≤ max_size) (room : max_idx ≤ max_size) where
  abbrev trimmed : A
  trimmed =
      if ltb max_size (n + (max_idx - idx))
      then lib.slice_seq a 0 (max_size - (max_idx - idx))
      else a

  rows-trimmed : lib.rows trimmed ≡ map (take (min n (max_size - (max_idx - idx)))) (lib.rows a)
  rows-trimmed = elim (Bool-cases (ltb max_size (n + (max_idx - idx)))) [
    | inl t ↦
        let m = max_size - (max_idx - idx) in
        let same : min n m ≡ m = ground (arith, t) in
        rw t (
          laws.slice_seq a b n 0 m r (omega arith) (ground (arith, t))
          ∙ ap (λ k. map (take k) (lib.rows a)) {x = m - 0} {y = min n m} (omega (arith, same)))
    | inr t ↦
        let same : min n (max_size - (max_idx - idx)) ≡ n = ground (arith, t) in
        rw t (
          sym (
            map_on n (take (min n (max_size - (max_idx - idx)))) (λ x. x) (lib.rows a)
              (λ x e. take_all (min n (max_size - (max_idx - idx))) x (omega (arith, same, e)))
              r.widths
            ∙ map_id (lib.rows a)))
  ]
    where
      map_id : (l : List (List S)) → map (λ x. x) l ≡ l
      map_id [] = refl
      map_id (x ∷ l) = ap (◌∷◌ x) (map_id l)

  abbrev justified : List S → List S
  justified x =
      replicate (max_idx - idx) (lib.zero_slot trimmed)
      ++ (take (min n (max_size - (max_idx - idx))) x
          ++ replicate (max_size - n - (max_idx - idx)) (lib.zero_slot trimmed))

  rows-pad_array : lib.rows (pad_array lib max_idx max_size idx a) ≡ map justified (lib.rows a)
  unfolding pad_array
  rows-pad_array =
      let q = laws.seq a b n r pos in
      let m = min n (max_size - (max_idx - idx)) in
      elim (Bool-cases (max_idx - idx == 0 && max_size - n - (max_idx - idx) == 0)) [
        | inl t ↦
            let l0 : max_idx - idx ≡ 0 = ground (arith, t) in
            let r0 : max_size - n - (max_idx - idx) ≡ 0 = ground (arith, t) in
            rw (pad_array, q, t)
              (rows-trimmed
                ∙ map_on n (take m) justified (lib.rows a) (λ x e. sym (plain x l0 r0)) r.widths)
        | inr t ↦
            rw (pad_array, q, t)
              (laws.pad trimmed (max_idx - idx) (max_size - n - (max_idx - idx))
                ∙ ap
                    (map (λ x.
                      replicate (max_idx - idx) (lib.zero_slot trimmed)
                      ++ (x ++ replicate (max_size - n - (max_idx - idx)) (lib.zero_slot trimmed))))
                    rows-trimmed
                ∙ map-map
                    (λ x.
                      replicate (max_idx - idx) (lib.zero_slot trimmed)
                      ++ (x ++ replicate (max_size - n - (max_idx - idx)) (lib.zero_slot trimmed)))
                    (take m) (lib.rows a))
      ]
    where
      plain :
          (x : List S)
          → max_idx - idx ≡ 0
          → max_size - n - (max_idx - idx) ≡ 0
          → justified x ≡ take (min n (max_size - (max_idx - idx))) x
      plain x l0 r0 =
          ap
            (λ k.
              replicate k (lib.zero_slot trimmed)
              ++ (take (min n (max_size - (max_idx - idx))) x
                  ++ replicate (max_size - n - (max_idx - idx)) (lib.zero_slot trimmed)))
            l0
          ∙ ap
              (λ k.
                take (min n (max_size - (max_idx - idx))) x ++ replicate k (lib.zero_slot trimmed))
              r0
          ∙ append-nil (take (min n (max_size - (max_idx - idx))) x)

  -- Right-justified at the later write position, each row holds what it held.
  pub pad_array_lem :
      (lps : List ℕ)
      → IsRect lib b max_size (pad_array lib max_idx max_size idx a)
        × (contents
              (map (λ v. v + (max_idx - idx)) lps)
              max_idx
              (lib.rows (pad_array lib max_idx max_size idx a))
            ≡ contents lps idx (lib.rows a))
  pad_array_lem lps =
      let e = rows-pad_array in
      let m = min n (max_size - (max_idx - idx)) in
      (
        record {
          count = ap length e ∙ length-map justified (lib.rows a) ∙ r.count;
          widths =
              subst (AllLength max_size) (sym e)
                (AllLength-map n max_size justified (lib.rows a) wide r.widths);
        },
        ap (contents (map (λ v. v + (max_idx - idx)) lps) max_idx) e
            ∙ contents-map (λ v. v + (max_idx - idx)) justified idx max_idx n lps (lib.rows a)
                (λ x. Unit) (λ lp x p w. moved lp x w) (All-unit lps) r.widths,
      )
    where
      wide : (x : List S) → length x ≡ n → length (justified x) ≡ max_size
      wide x w =
          let m = min n (max_size - (max_idx - idx)) in
          let z = lib.zero_slot trimmed in
          let tail = replicate (max_size - n - (max_idx - idx)) z in
          omega (
            arith,
            fits,
            later,
            larger,
            room,
            w,
            length-append (replicate (max_idx - idx) z) (take m x ++ tail),
            length-append (take m x) tail,
            length-replicate (max_idx - idx) z,
            length-replicate (max_size - n - (max_idx - idx)) z,
            length-take m x,
          )

      moved :
          (lp : ℕ) (x : List S)
          → length x ≡ n
          → content (lp + (max_idx - idx)) max_idx (justified x) ≡ content lp idx x
      moved lp x w =
          ap (λ k. content (lp + (max_idx - idx)) k (justified x)) {x = max_idx}
            {y = idx + (max_idx - idx)} (omega (arith, later))
          ∙ content-justified (max_idx - idx) lp idx (min n (max_size - (max_idx - idx))) x
              (replicate (max_size - n - (max_idx - idx)) (lib.zero_slot trimmed))
              (lib.zero_slot trimmed) (omega (arith, fits, later, room)) (omega (arith, w))
