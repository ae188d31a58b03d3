-- ===== src/Cache/Write.antt =====
-- src/cache/kv_quant.cpp: `update_kv_components`, the writer of all caches.
use libmlxforge.Common.{
  ℕ, zero, suc, ◌+◌, ◌-◌, ◌≤◌, List, [], ◌∷◌, ◌++◌, map, length, replicate, take, drop, ◌≡◌, refl,
  sym, ◌∙◌, ap, subst, arith, length-append, length-take, length-drop, length-replicate,
}
use libmlxforge.Cache.Arrays.{ArrayLib, ArrayLaws, IsRect, AllLength, zip_rows}
use libmlxforge.Cache.Contents.{content, contents}
use libmlxforge.Cache.Moves.{appended, contents-written}
use libmlxforge.Cache.Surgery.{AllLength-map, AllLength-replicate, length-map}

zip_rows_lem :
    {X : Type 0} (f : List X → List X → List X) (m k n : ℕ) (a b : List (List X))
    → ((x y : List X) → length x ≡ m → length y ≡ k → length (f x y) ≡ n)
    → AllLength m a
    → AllLength k b
    → length a ≡ length b
    → AllLength n (zip_rows f a b) × (length (zip_rows f a b) ≡ length a)
zip_rows_lem f m k n [] b h p q e = (tt, refl)
zip_rows_lem f m k n (x ∷ a) [] h p q e = absurd (omega (arith, e))
zip_rows_lem f m k n (x ∷ a) (y ∷ b) h p q e =
    let (r, l) = zip_rows_lem f m k n a b h p.1 q.1 (omega (arith, e)) in
    ((h x y p.0 q.0, r), ap suc l)

-- Only the slots before the write position count.
pub contents-same :
    {X : Type 0} (lps : List ℕ) (p : ℕ) (a b : List (List X)) (f : List X → List X)
    → (map f a ≡ map f b)
    → ((x : List X) → take p (f x) ≡ take p x)
    → contents lps p a ≡ contents lps p b
contents-same lps p a b f e h = sym (through lps a) ∙ ap (contents lps p) e ∙ through lps b
  where
    through : (ls : List ℕ) (c : List (List _)) → contents ls p (map f c) ≡ contents ls p c
    through [] c = refl
    through (lp ∷ ls) [] = refl
    through (lp ∷ ls) (x ∷ c) =
        ap (λ y. drop lp y ∷ contents ls p (map f c)) (h x)
        ∙ ap (◌∷◌ (content lp p x)) (through ls c)

pub take-take : {X : Type 0} (p : ℕ) (x : List X) → take p (take p x) ≡ take p x
take-take zero x = refl
take-take (suc p) [] = refl
take-take (suc p) (x ∷ l) = ap (◌∷◌ x) (take-take p l)

take-append_left : {X : Type 0} (p : ℕ) (x y : List X) → p ≤ length x → take p (x ++ y) ≡ take p x
take-append_left zero x y l = refl
take-append_left (suc p) [] y l = absurd (omega (arith, l))
take-append_left (suc p) (x ∷ xs) y l = ap (◌∷◌ x) (take-append_left p xs y (omega (arith, l)))

map-take-zip :
    {X : Type 0} (p n : ℕ) (a b : List (List X))
    → p ≤ n
    → AllLength n a
    → length a ≡ length b
    → map (take p) (zip_rows (λ r s. r ++ s) a b) ≡ map (take p) a
map-take-zip p n [] b l h e = refl
map-take-zip p n (x ∷ a) [] l h e = absurd (omega (arith, e))
map-take-zip p n (x ∷ a) (y ∷ b) l h e =
    ap (λ z. z ∷ map (take p) (zip_rows (λ r s. r ++ s) a b))
      (take-append_left p x y (omega (arith, l, h.0)))
    ∙ ap (◌∷◌ (take p x)) (map-take-zip p n a b l h.1 (omega (arith, e)))

map-take-cut :
    {X : Type 0} (p : ℕ) (a : List (List X))
    → map (take p) (map (λ r. take (p - 0) (drop 0 r)) a) ≡ map (take p) a
map-take-cut p [] = refl
map-take-cut p (x ∷ a) =
    ap (λ k. take p (take k x) ∷ map (take p) (map (λ r. take (p - 0) (drop 0 r)) a)) {x = p - 0}
      {y = p} (omega arith)
    ∙ ap (λ z. z ∷ map (take p) (map (λ r. take (p - 0) (drop 0 r)) a)) (take-take p x)
    ∙ ap (◌∷◌ (take p x)) (map-take-cut p a)

module _ {A S : Type 0} (lib : ArrayLib A S) (laws : ArrayLaws lib) where
  abbrev pub fresh : ℕ → A → A
  fresh add x = lib.zeros (lib.batch_size x) add x

  pub fresh_lem : (b k add : ℕ) (x : A) → IsRect lib b k x → IsRect lib b add (fresh add x)
  fresh_lem b k add x r =
      let e : lib.rows (fresh add x) ≡ replicate b (replicate add (lib.zero_slot x)) =
        laws.zeros (lib.batch_size x) add x
        ∙ ap (λ n. replicate n (replicate add (lib.zero_slot x))) (laws.batch_size x ∙ r.count) in
      record {
        count = ap length e ∙ length-replicate b (replicate add (lib.zero_slot x));
        widths = subst (AllLength add) (sym e) (
            AllLength-replicate add b (replicate add (lib.zero_slot x))
              (length-replicate add (lib.zero_slot x)));
      }

  -- Slots behind an array that reaches to the write position.
  pub longer_lem :
      (b k add p m : ℕ) (a x : A)
      → IsRect lib b m a
      → IsRect lib b k x
      → p ≤ m
      → IsRect lib b (m + add) (lib.concat_seq a (fresh add x))
        × (map (take p) (lib.rows (lib.concat_seq a (fresh add x))) ≡ map (take p) (lib.rows a))
  longer_lem b k add p m a x r q l =
      let f = fresh_lem b k add x q in
      let e = laws.concat_seq a (fresh add x) b m add r f in
      let (w, c) =
        zip_rows_lem (λ u v. u ++ v) m add (m + add) (lib.rows a) (lib.rows (fresh add x))
          (λ u v g h. omega (arith, length-append u v, g, h)) r.widths f.widths
          (r.count ∙ sym f.count) in
      (
        record {
          count = ap length e ∙ c ∙ r.count;
          widths = subst (AllLength (m + add)) (sym e) w;
        },
        ap (map (take p)) e
            ∙ map-take-zip p m (lib.rows a) (lib.rows (fresh add x)) l r.widths
                (r.count ∙ sym f.count),
      )

  pub cut_lem :
      (b n p : ℕ) (a : A)
      → IsRect lib b n a
      → p ≤ n
      → IsRect lib b p (lib.slice_seq a 0 p)
        × (map (take p) (lib.rows (lib.slice_seq a 0 p)) ≡ map (take p) (lib.rows a))
  cut_lem b n p a r l =
      let e = laws.slice_seq a b n 0 p r (omega arith) l in
      (
        record {
          count = ap length e ∙ length-map (λ x. take (p - 0) (drop 0 x)) (lib.rows a) ∙ r.count;
          widths = subst (AllLength p) (sym e) (
              AllLength-map n p (λ x. take (p - 0) (drop 0 x)) (lib.rows a)
                (λ x h. omega (arith, length-take (p - 0) x, h, l)) r.widths);
        },
        ap (map (take p)) e ∙ map-take-cut p (lib.rows a),
      )

  -- One array after a write of `x`: as wide as `n`, with the contents and the new slots.
  pub written_lem :
      (b k n p : ℕ) (a x : A) (lps : List ℕ)
      → IsRect lib b n a
      → IsRect lib b k x
      → p + k ≤ n
      → IsRect lib b n (lib.slice_update a x p)
        × (contents lps (p + k) (lib.rows (lib.slice_update a x p))
            ≡ appended lps p (contents lps p (lib.rows a)) (lib.rows x))
  written_lem b k n p a x lps r q l =
      let f : List S → List S → List S = λ u v. take p u ++ (v ++ drop (p + k) u) in
      let e = laws.slice_update a x b n k p r q l in
      let (w, c) =
        zip_rows_lem f n k n (lib.rows a) (lib.rows x)
          (λ u v g h. omega (
            arith,
            length-append (take p u) (v ++ drop (p + k) u),
            length-append v (drop (p + k) u),
            length-take p u,
            length-drop (p + k) u,
            g,
            h,
            l,
          ))
          r.widths q.widths (r.count ∙ sym q.count) in
      (
        record { count = ap length e ∙ c ∙ r.count; widths = subst (AllLength n) (sym e) w },
        ap (contents lps (p + k)) e
            ∙ contents-written lps p k n (lib.rows a) (lib.rows x) l r.widths q.widths,
      )
