-- ===== src/Cache/Moves.antt =====
-- src/cache/batch_kv_cache.cpp: the contents of rows that are moved, picked and written.
use libmlxforge.Common.{
  ℕ, zero, suc, ◌+◌, ◌-◌, ◌≤◌, ◌<◌, min, List, [], ◌∷◌, ◌++◌, none, some, map, length, replicate,
  take, drop, get_elem?, ◌≡◌, refl, sym, ◌∙◌, ap, arith, length-append, length-take, append_assoc,
  take-append,
}
use libmlxforge.Cache.Arrays.{AllLength, AllBelow, zip_rows, picks}
use libmlxforge.Cache.Batch.{least}
use libmlxforge.Cache.Contents.{content, contents, drop-append_both, take_trimmed, content-padded}

abbrev pub All : {A : Type 0} → (A → Type 0) → List A → Type 0
All P [] = Unit
All P (x ∷ l) = P x × All P l

pub All-map :
    {A : Type 0} (P Q : A → Type 0) (l : List A) → ((x : A) → P x → Q x) → All P l → All Q l
All-map P Q [] f h = tt
All-map P Q (x ∷ l) f h = (f x h.0, All-map P Q l f h.1)

least_from : (x : ℕ) (l : List ℕ) → (least (x ∷ l) ≤ x) × All (λ y. least (x ∷ l) ≤ y) l
least_from x [] = (omega arith, tt)
least_from x (y ∷ l) =
    let (a, b) = least_from y l in
    let m = least (y ∷ l) in
    (
      omega arith,
      (omega (arith, a), All-map (λ z. m ≤ z) (λ z. min x m ≤ z) l (λ z h. omega (arith, h)) b),
    )

pub least_lem : (l : List ℕ) → All (λ y. least l ≤ y) l
least_lem [] = tt
least_lem (x ∷ l) = least_from x l

pub picks-some :
    {X : Type 0} (l : List X) (i : ℕ) (x : X) (is : List ℕ)
    → get_elem? l i ≡ some x
    → picks l (i ∷ is) ≡ x ∷ picks l is
picks-some l i x is e = ap (λ o. elim o [ none ↦ picks l is | some y ↦ y ∷ picks l is ]) e

module _ {X : Type 0} where
  pub contents-map :
      (f : ℕ → ℕ) (g : List X → List X) (i j n : ℕ) (lps : List ℕ) (rows : List (List X))
      (P : ℕ → Type 0)
      → ((lp : ℕ) (r : List X) → P lp → length r ≡ n → content (f lp) j (g r) ≡ content lp i r)
      → All P lps
      → AllLength n rows
      → contents (map f lps) j (map g rows) ≡ contents lps i rows
  contents-map f g i j n [] rows P h p q = refl
  contents-map f g i j n (lp ∷ lps) [] P h p q = refl
  contents-map f g i j n (lp ∷ lps) (r ∷ rows) P h p q =
      ap (λ x. x ∷ contents (map f lps) j (map g rows)) (h lp r p.0 q.0)
      ∙ ap (◌∷◌ (content lp i r)) (contents-map f g i j n lps rows P h p.1 q.1)

  get_elem?-contents :
      (lps : List ℕ) (idx : ℕ) (rows : List (List X)) (i : ℕ)
      → length lps ≡ length rows
      → i < length rows
      → (lp : ℕ) × (r : List X) × (get_elem? lps i ≡ some lp)
        × (get_elem? rows i ≡ some r)
        × (get_elem? (contents lps idx rows) i ≡ some (content lp idx r))
  get_elem?-contents [] idx [] i e l = absurd (omega (arith, l))
  get_elem?-contents [] idx (r ∷ rows) i e l = absurd (omega (arith, e))
  get_elem?-contents (lp ∷ lps) idx [] i e l = absurd (omega (arith, e))
  get_elem?-contents (lp ∷ lps) idx (r ∷ rows) zero e l = (lp, r, refl, refl, refl)
  get_elem?-contents (lp ∷ lps) idx (r ∷ rows) (suc i) e l =
      get_elem?-contents lps idx rows i (omega (arith, e)) (omega (arith, l))

  pub contents-picks :
      (lps : List ℕ) (idx : ℕ) (rows : List (List X)) (is : List ℕ)
      → length lps ≡ length rows
      → AllBelow (length rows) is
      → contents (picks lps is) idx (picks rows is) ≡ picks (contents lps idx rows) is
  contents-picks lps idx rows [] e h = refl
  contents-picks lps idx rows (i ∷ is) e h =
      let (lp, r, a, b, c) = get_elem?-contents lps idx rows i e h.0 in
      ap (λ l. contents l idx (picks rows (i ∷ is))) (picks-some lps i lp is a)
      ∙ ap (contents (lp ∷ picks lps is) idx) (picks-some rows i r is b)
      ∙ ap (◌∷◌ (content lp idx r)) (contents-picks lps idx rows is e h.1)
      ∙ sym (picks-some (contents lps idx rows) i (content lp idx r) is c)

  -- New slots behind each content; what of them still is padding is left out.
  abbrev pub appended : List ℕ → ℕ → List (List X) → List (List X) → List (List X)
  appended [] p cs xs = []
  appended (lp ∷ lps) p [] xs = []
  appended (lp ∷ lps) p (c ∷ cs) [] = []
  appended (lp ∷ lps) p (c ∷ cs) (x ∷ xs) = (c ++ drop (lp - p) x) ∷ appended lps p cs xs

  content-written :
      (lp p k : ℕ) (r x tail : List X)
      → p ≤ length r
      → length x ≡ k
      → content lp (p + k) (take p r ++ (x ++ tail)) ≡ content lp p r ++ drop (lp - p) x
  content-written lp p k r x tail l e =
      let len : length (take p r) ≡ p = omega (arith, length-take p r, l) in
      ap (drop lp) (
        ap (take (p + k)) (sym (append_assoc (take p r) x tail))
        ∙ take-append (p + k) (take p r ++ x) tail
            (omega (arith, length-append (take p r) x, len, e)))
      ∙ drop-append_both lp (take p r) x
      ∙ ap (λ n. drop lp (take p r) ++ drop (lp - n) x) len

  pub contents-written :
      (lps : List ℕ) (p k n : ℕ) (rows xs : List (List X))
      → p + k ≤ n
      → AllLength n rows
      → AllLength k xs
      → contents lps (p + k) (zip_rows (λ r s. take p r ++ (s ++ drop (p + k) r)) rows xs)
        ≡ appended lps p (contents lps p rows) xs
  contents-written [] p k n rows xs l a b = refl
  contents-written (lp ∷ lps) p k n [] xs l a b = refl
  contents-written (lp ∷ lps) p k n (r ∷ rows) [] l a b = refl
  contents-written (lp ∷ lps) p k n (r ∷ rows) (x ∷ xs) l a b =
      ap
        (λ c.
          c ∷ contents lps (p + k) (zip_rows (λ r s. take p r ++ (s ++ drop (p + k) r)) rows xs))
        (content-written lp p k r x (drop (p + k) r) (omega (arith, l, a.0)) b.0)
      ∙ ap (◌∷◌ (content lp p r ++ drop (lp - p) x)) (contents-written lps p k n rows xs l a.1 b.1)

  -- Right-justified: padding before, a tail that is cut or padded.
  pub content-justified :
      (left lp idx m : ℕ) (r z : List X) (x : X)
      → idx ≤ m
      → m ≤ length r
      → content (lp + left) (idx + left) (replicate left x ++ (take m r ++ z)) ≡ content lp idx r
  content-justified left lp idx m r z x l k =
      ap (λ a. content a (idx + left) (replicate left x ++ (take m r ++ z))) {x = lp + left}
        {y = left + lp} (omega arith)
      ∙ ap (λ a. content (left + lp) a (replicate left x ++ (take m r ++ z))) {x = idx + left}
          {y = left + idx} (omega arith)
      ∙ content-padded left lp idx x (take m r ++ z)
      ∙ ap (drop lp) (take_trimmed idx m r z l k)
