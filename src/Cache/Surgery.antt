-- ===== src/Cache/Surgery.antt =====
-- src/cache/batch_kv_cache.cpp: `filter`, `merge` and `pad_dummies` on one array of keys or values.
use libmlxforge.Common.{
  ℕ, zero, suc, ◌+◌, ◌-◌, ◌≤◌, ◌<◌, List, [], ◌∷◌, ◌++◌, some, map, length, replicate, take, drop,
  get_elem?, ltb, ◌≡◌, refl, sym, ◌∙◌, ap, subst, arith, Bool-cases, inl, inr, length-append,
  length-drop, length-replicate, get_elem?_below,
}
use libmlxforge.Cache.Arrays.{ArrayLib, ArrayLaws, IsRect, AllLength, AllBelow, picks}
use libmlxforge.Cache.Batch.{least, filter_array, pad_rows}
use libmlxforge.Cache.Contents.{
  contents, content-shifted, contents-append, contents-dummies, take_all,
}
use libmlxforge.Cache.Moves.{least_lem, contents-map, contents-picks, picks-some}

pub length-picks :
    {X : Type 0} (l : List X) (is : List ℕ)
    → AllBelow (length l) is
    → length (picks l is) ≡ length is
length-picks l [] h = refl
length-picks l (i ∷ is) h =
    let (x, e) = get_elem?_below l i h.0 in
    ap length (picks-some l i x is e) ∙ ap suc (length-picks l is h.1)

AllLength-get_elem? :
    {X : Type 0} (n : ℕ) (l : List (List X)) (i : ℕ) (x : List X)
    → AllLength n l
    → get_elem? l i ≡ some x
    → length x ≡ n
AllLength-get_elem? n [] i x h e = absurd (cc)
AllLength-get_elem? n (y ∷ l) zero x h e = let same : y ≡ x = cc in ap length (sym same) ∙ h.0
AllLength-get_elem? n (y ∷ l) (suc i) x h e = AllLength-get_elem? n l i x h.1 e

AllLength-picks :
    {X : Type 0} (n : ℕ) (l : List (List X)) (is : List ℕ)
    → AllLength n l
    → AllBelow (length l) is
    → AllLength n (picks l is)
AllLength-picks n l [] a h = tt
AllLength-picks n l (i ∷ is) a h =
    let (x, e) = get_elem?_below l i h.0 in
    subst (AllLength n) (sym (picks-some l i x is e))
      (AllLength-get_elem? n l i x a e, AllLength-picks n l is a h.1)

pub length-map : {X Y : Type 0} (f : X → Y) (l : List X) → length (map f l) ≡ length l
length-map f [] = refl
length-map f (x ∷ l) = ap suc (length-map f l)

pub AllLength-map :
    {X : Type 0} (m n : ℕ) (f : List X → List X) (l : List (List X))
    → ((r : List X) → length r ≡ m → length (f r) ≡ n)
    → AllLength m l
    → AllLength n (map f l)
AllLength-map m n f [] h a = tt
AllLength-map m n f (r ∷ l) h a = (h r a.0, AllLength-map m n f l h a.1)

pub AllLength-append :
    {X : Type 0} (n : ℕ) (a b : List (List X))
    → AllLength n a
    → AllLength n b
    → AllLength n (a ++ b)
AllLength-append n [] b h k = k
AllLength-append n (x ∷ a) b h k = (h.0, AllLength-append n a b h.1 k)

pub AllLength-replicate :
    {X : Type 0} (n k : ℕ) (r : List X) → length r ≡ n → AllLength n (replicate k r)
AllLength-replicate n zero r e = tt
AllLength-replicate n (suc k) r e = (e, AllLength-replicate n k r e)

pub map_on :
    {X : Type 0} (n : ℕ) (f g : List X → List X) (l : List (List X))
    → ((x : List X) → length x ≡ n → f x ≡ g x)
    → AllLength n l
    → map f l ≡ map g l
map_on n f g [] h w = refl
map_on n f g (x ∷ l) h w = ap (λ y. y ∷ map f l) (h x w.0) ∙ ap (◌∷◌ (g x)) (map_on n f g l h w.1)

pub map_same : {X : Type 0} (f : X → X) (l : List X) → ((x : X) → f x ≡ x) → map f l ≡ l
map_same f [] h = refl
map_same f (x ∷ l) h = ap (λ y. y ∷ map f l) (h x) ∙ ap (◌∷◌ x) (map_same f l h)

module _ {A S : Type 0} (lib : ArrayLib A S) (laws : ArrayLaws lib) where
  pub pad_rows_lem :
      (extra b n : ℕ) (a : A) (lps : List ℕ) (idx : ℕ)
      → IsRect lib b n a
      → 0 < b
      → length lps ≡ b
      → IsRect lib (b + extra) n (pad_rows lib extra a)
        × (contents (lps ++ replicate extra idx) idx (lib.rows (pad_rows lib extra a))
            ≡ contents lps idx (lib.rows a) ++ replicate extra [])
  unfolding pad_rows
  pad_rows_lem extra b n a lps idx r pos e =
      let zero_row = replicate n (lib.zero_slot a) in
      let z = laws.zero_rows a extra b n r pos in
      let zr : IsRect lib extra n (lib.zero_rows extra a) = record {
        count = ap length z ∙ length-replicate extra zero_row;
        widths =
            subst (AllLength n) (sym z)
              (AllLength-replicate n extra zero_row (length-replicate n (lib.zero_slot a)));
      } in
      let same =
        laws.concat_rows a (lib.zero_rows extra a) b extra n r zr ∙ ap (λ x. lib.rows a ++ x) z in
      (
        record {
          count =
              ap length same
              ∙ omega (
                arith,
                length-append (lib.rows a) (replicate extra zero_row),
                length-replicate extra zero_row,
                r.count,
              );
          widths = subst (AllLength n) (sym same) (
              AllLength-append n (lib.rows a) (replicate extra zero_row) r.widths
                (AllLength-replicate n extra zero_row (length-replicate n (lib.zero_slot a))));
        },
        ap (contents (lps ++ replicate extra idx) idx) same
            ∙ contents-append lps (replicate extra idx) idx (lib.rows a) (replicate extra zero_row)
                (e ∙ sym r.count)
            ∙ ap (λ x. contents lps idx (lib.rows a) ++ x) (contents-dummies extra idx n zero_row),
      )

  -- A row of an array that was picked, and shifted where there is something to shift.
  pub filter_array_lem :
      (keep : List ℕ) (b n : ℕ) (a : A) (lps : List ℕ) (idx : ℕ)
      → IsRect lib b n a
      → length lps ≡ b
      → AllBelow b keep
      → 0 < length keep
      → least (picks lps keep) ≤ n
      → IsRect lib
          (length keep)
          (n - least (picks lps keep))
          (filter_array lib keep (least (picks lps keep)) a)
        × (contents
              (map (λ v. v - least (picks lps keep)) (picks lps keep))
              (idx - least (picks lps keep))
              (lib.rows (filter_array lib keep (least (picks lps keep)) a))
            ≡ picks (contents lps idx (lib.rows a)) keep)
  unfolding filter_array
  filter_array_lem keep b n a lps idx r e k pos l =
      let s = least (picks lps keep) in
      let rows = picks (lib.rows a) keep in
      let kb = subst (λ m. AllBelow m keep) (sym r.count) k in
      let taken = laws.take_rows a keep kb in
      let tr : IsRect lib (length keep) n (lib.take_rows a keep) = record {
        count = ap length taken ∙ length-picks (lib.rows a) keep kb;
        widths = subst (AllLength n) (sym taken) (AllLength-picks n (lib.rows a) keep r.widths kb);
      } in
      let wide : AllLength n rows = AllLength-picks n (lib.rows a) keep r.widths kb in
      let target = contents-picks lps idx (lib.rows a) keep (e ∙ sym r.count) kb in
      let moved : contents (map (λ v. v - s) (picks lps keep)) (idx - s) (map (drop s) rows)
          ≡ contents (picks lps keep) idx rows =
        contents-map (λ v. v - s) (drop s) idx (idx - s) n (picks lps keep) rows (λ v. s ≤ v)
          (λ lp x p q. content-shifted s lp idx x p) (least_lem (picks lps keep)) wide in
      elim (Bool-cases (ltb 0 s)) [
        | inl t ↦
            let q = laws.seq (lib.take_rows a keep) (length keep) n tr pos in
            let cut : lib.rows (lib.slice_seq (lib.take_rows a keep) s n) ≡ map (drop s) rows =
              laws.slice_seq (lib.take_rows a keep) (length keep) n s n tr l (omega arith)
              ∙ ap (map (λ x. take (n - s) (drop s x))) taken
              ∙ map_on n (λ x. take (n - s) (drop s x)) (drop s) rows
                  (λ x y. take_all (n - s) (drop s x) (omega (arith, length-drop s x, y))) wide in
            rw (filter_array, t, q)
              (
                record {
                  count =
                      ap length cut ∙ length-map (drop s) rows ∙ length-picks (lib.rows a) keep kb;
                  widths = subst (AllLength (n - s)) (sym cut) (
                      AllLength-map n (n - s) (drop s) rows
                        (λ x y. omega (arith, length-drop s x, y)) wide);
                },
                ap (contents (map (λ v. v - s) (picks lps keep)) (idx - s)) cut ∙ moved ∙ target,
              )
        | inr t ↦
            let none_left : s ≡ 0 = ground (arith, t) in
            let whole : lib.rows (lib.take_rows a keep) ≡ map (drop s) rows =
              taken
              ∙ sym (ap (λ d. map (drop d) rows) none_left ∙ map_same (drop 0) rows (λ x. refl)) in
            rw (filter_array, t)
              (
                record {
                  count = tr.count;
                  widths =
                      subst (λ w. AllLength w (lib.rows (lib.take_rows a keep)))
                        (omega (arith, none_left)) tr.widths;
                },
                ap (contents (map (λ v. v - s) (picks lps keep)) (idx - s)) whole ∙ moved ∙ target,
              )
      ]
