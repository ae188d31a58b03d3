-- ===== src/Cache/Tests.antt =====
-- Tests of src/cache/batch_kv_cache.cpp and src/cache/kv_quant.cpp, on arrays that are lists of rows of
-- numbers.
use libmlxforge.Common.{
  ℕ, ◌+◌, ◌-◌, ◌<◌, List, [], ◌∷◌, ◌++◌, none, some, map, length, replicate, take, drop, ◌≡◌, refl,
  ◌∙◌, ap, arith, inl,
}
use libmlxforge.Cache.Arrays.{ArrayLib, ArrayLaws, IsRect, AllLength, zip_rows, picks}
use libmlxforge.Cache.Batch.{BatchKvCache, k_step, pad_dummies, merge, update_kv_components}
use libmlxforge.Cache.Merge.{zips, merge_lem}
use libmlxforge.Cache.Whole.{IsWell, held}
use libmlxforge.Cache.Writer.{before, Wrote, update_kv_components_lem}

abbrev Rows : Type 0
Rows = List (List ℕ)

abbrev first_length : Rows → ℕ
first_length [] = 0
first_length (r ∷ l) = length r

abbrev lists : ArrayLib Rows ℕ
lists = record {
  rows = λ a. a;
  batch_size = length;
  seq = first_length;
  zeros = λ b n a. replicate b (replicate n 0);
  zero_slot = λ a. 0;
  zero_rows = λ b a. replicate b (replicate (first_length a) 0);
  slice_seq = λ a from to. map (λ r. take (to - from) (drop from r)) a;
  slice_update = λ a x p. zip_rows (λ r s. take p r ++ (s ++ drop (p + length s) r)) a x;
  concat_rows = λ a x. a ++ x;
  concat_seq = λ a x. zip_rows (λ r s. r ++ s) a x;
  pad = λ a left right. map (λ r. replicate left 0 ++ (r ++ replicate right 0)) a;
  take_rows = picks;
}

first_length_lem : (a : Rows) (b n : ℕ) → IsRect lists b n a → 0 < b → first_length a ≡ n
first_length_lem [] b n r p = absurd (omega (arith, r.count, p))
first_length_lem (x ∷ a) b n r p = r.widths.0

update_lem :
    (a x : Rows) (k p : ℕ)
    → AllLength k x
    → zip_rows (λ r s. take p r ++ (s ++ drop (p + length s) r)) a x
      ≡ zip_rows (λ r s. take p r ++ (s ++ drop (p + k) r)) a x
update_lem [] x k p h = refl
update_lem (r ∷ a) [] k p h = refl
update_lem (r ∷ a) (s ∷ x) k p h =
    ap
      (λ n.
        (take p r ++ (s ++ drop (p + n) r))
        ∷ zip_rows (λ r s. take p r ++ (s ++ drop (p + length s) r)) a x)
      h.0
    ∙ ap (◌∷◌ (take p r ++ (s ++ drop (p + k) r))) (update_lem a x k p h.1)

lists_laws : ArrayLaws lists
lists_laws = record {
  batch_size = λ a. refl;
  seq = first_length_lem;
  zeros = λ b n a. refl;
  zero_rows = λ a d b n r p. ap (λ k. replicate d (replicate k 0)) (first_length_lem a b n r p);
  slice_seq = λ a b n from to r l k. refl;
  slice_update = λ a x b n k p r q l. update_lem a x k p q.widths;
  concat_rows = λ a x b d n r q. refl;
  concat_seq = λ a x b n k r q. refl;
  pad = λ a left right. refl;
  take_rows = λ a is h. refl;
}

abbrev cache : ℕ → ℕ → List ℕ → Rows → Rows → BatchKvCache Rows
cache b i lps k v = record {
  batch = b;
  idx = i;
  layers = record { keys = k ∷ []; values = v ∷ []; conv_state = none; recur_state = none } ∷ [];
  qcfg = record { bits = 0; group_size = 64 };
  offset = replicate b 7;
  left_padding = lps;
}

-- Two rows, the first with a pad of 1, and one row that is longer.
abbrev two : BatchKvCache Rows
two =
    cache 2 3 (1 ∷ 0 ∷ []) ((0 ∷ 1 ∷ 2 ∷ 0 ∷ []) ∷ (3 ∷ 4 ∷ 5 ∷ 0 ∷ []) ∷ [])
      ((0 ∷ 6 ∷ 7 ∷ 0 ∷ []) ∷ (8 ∷ 9 ∷ 9 ∷ 0 ∷ []) ∷ [])

abbrev one : BatchKvCache Rows
one = cache 1 4 (0 ∷ []) ((1 ∷ 1 ∷ 1 ∷ 1 ∷ []) ∷ []) ((2 ∷ 2 ∷ 2 ∷ 2 ∷ []) ∷ [])

two-IsWell : IsWell lists 4 two
two-IsWell = record {
  paddings = refl;
  offsets = refl;
  rects = (
    record { count = refl; widths = (refl, (refl, tt)) },
    (record { count = refl; widths = (refl, (refl, tt)) }, tt),
  );
  first = tt;
  fits = omega arith;
  behind = (omega arith, (omega arith, tt));
}

one-IsWell : IsWell lists 4 one
one-IsWell = record {
  paddings = refl;
  offsets = refl;
  rects = (
    record { count = refl; widths = (refl, tt) },
    (record { count = refl; widths = (refl, tt) }, tt),
  );
  first = tt;
  fits = omega arith;
  behind = (omega arith, tt);
}

held-two :
    held lists two
    ≡ ((1 ∷ 2 ∷ []) ∷ (3 ∷ 4 ∷ 5 ∷ []) ∷ []) ∷ ((6 ∷ 7 ∷ []) ∷ (8 ∷ 9 ∷ 9 ∷ []) ∷ []) ∷ []
held-two = refl

padded : held lists (pad_dummies lists 2 two) ≡ map (λ h. h ++ ([] ∷ [] ∷ [])) (held lists two)
unfolding pad_dummies
padded = refl

merge_lem_example :
    (r : BatchKvCache Rows) × (merge lists two one ≡ some r)
    × IsWell lists 4 r
    × (held lists r ≡ zips (λ g h. g ++ h) (held lists two) (held lists one))
    × (r.offset ≡ two.offset ++ one.offset)
merge_lem_example =
    merge_lem lists lists_laws 4 4 two one refl (omega arith) (omega arith) (refl, refl, tt)
      two-IsWell one-IsWell

abbrev new_slots : Rows
new_slots = (1 ∷ 2 ∷ []) ∷ (3 ∷ 4 ∷ []) ∷ []

update_kv_components_lem_example :
    Wrote lists lists_laws 2 2 0
      (1 ∷ 0 ∷ [])
      (before lists lists_laws (1 ∷ 0 ∷ []) 0 2 [] (new_slots ∷ []))
      new_slots
      []
      (update_kv_components lists [] (new_slots ∷ []) 0 k_step)
update_kv_components_lem_example =
    update_kv_components_lem lists lists_laws 2 2 0 0 [] new_slots [] (1 ∷ 0 ∷ []) (omega arith)
      refl (record { count = refl; widths = (refl, (refl, tt)) }, tt) tt (inl (refl, refl))
