-- ===== src/Worker/Chunks.antt =====
-- src/runtime/worker.cpp: chunked prefill comes to its end and feeds each column once.
use libmlxforge.Common.{
  ℕ, zero, suc, ◌+◌, ◌-◌, ◌≤◌, ◌<◌, min, List, [], ◌∷◌, ◌++◌, Option, none, some, length, take,
  drop, ltb, ◌≡◌, refl, sym, ◌∙◌, ap, arith, Bool-cases, inl, inr, take-append-drop,
}
use libmlxforge.Token.Encode.{drop-drop, drop_all}
use libmlxforge.Worker.Admit.{PendingPrefill, slice, advance_chunked_prefill}

-- Chunks, each from a column on with so many columns, that follow each other from `p` to `n`; none
-- is empty or longer than `chunk`.
abbrev pub Covers : ℕ → ℕ → ℕ → List (ℕ × ℕ) → Type 0
Covers chunk p n [] = p ≡ n
Covers chunk p n ((q, k) ∷ l) = (q ≡ p) × (0 < k) × (k ≤ chunk) × Covers chunk (p + k) n l

-- Of a row, the columns `q` to `q + k`; of all rows.
abbrev pub part : ℕ → ℕ → List ℕ → List ℕ
part q k row = take k (drop q row)

abbrev pub columns : ℕ → ℕ → List (List ℕ) → List (List ℕ)
columns q k [] = []
columns q k (row ∷ tokens) = part q k row ∷ columns q k tokens

-- The tokens of a row that the chunks feed.
abbrev pub joined : List ℕ → List (ℕ × ℕ) → List ℕ
joined row [] = []
joined row ((q, k) ∷ l) = part q k row ++ joined row l

joined_lem :
    (chunk p n : ℕ) (row : List ℕ) (l : List (ℕ × ℕ))
    → length row ≡ n
    → Covers chunk p n l
    → joined row l ≡ drop p row
joined_lem chunk p n row [] e c = sym (drop_all p row (e ∙ sym c))
joined_lem chunk p n row ((q, k) ∷ l) e (s, t, u, c) =
    ap (λ x. take k (drop x row) ++ joined row l) s
    ∙ ap (λ x. take k (drop p row) ++ x)
        (joined_lem chunk (p + k) n row l e c ∙ sym (drop-drop p k (p + k) row refl))
    ∙ take-append-drop k (drop p row)

module _ {K G : Type 0} (forward : List (List ℕ) → K → K × G) where
  -- The forward passes over the chunks, from a cache and the logits before.
  abbrev pub feeds : List (List ℕ) → List (ℕ × ℕ) → K → G → K × G
  feeds tokens [] k g = (k, g)
  feeds tokens ((q, n) ∷ l) k g =
      let out = forward (columns q n tokens) k in feeds tokens l out.0 out.1

module _ {L K G : Type 0} (prefill_chunk : ℕ) (forward : List (List ℕ) → K → K × G) where
  -- Calls of `advance_chunked_prefill` until there are logits.
  unfoldable pub run_unit : ℕ → PendingPrefill L K → Option (K × G)
  unfolding advance_chunked_prefill
  run_unit zero p = none
  run_unit (suc fuel) p =
      let r = advance_chunked_prefill prefill_chunk forward p in
      let rest = run_unit fuel r.0 in elim r.1 [ none ↦ rest | some g ↦ some (r.0.cache, g) ]

  run_unit_lem :
      (fuel : ℕ) (p : PendingPrefill L K) (g0 : G)
      → 0 < prefill_chunk
      → p.pos < p.n_total
      → p.n_total - p.pos ≤ fuel
      → (l : List (ℕ × ℕ)) × Covers prefill_chunk p.pos p.n_total l
        × (run_unit fuel p ≡ some (feeds forward p.tokens l p.cache g0))
  unfolding run_unit advance_chunked_prefill
  run_unit_lem zero p g0 c l f = absurd (omega (arith, l, f))
  run_unit_lem (suc fuel) p g0 c l f =
      let n = min prefill_chunk (p.n_total - p.pos) in
      let out = forward (slice p.pos n p.tokens) p.cache in
      elim (Bool-cases (ltb (p.pos + n) p.n_total)) [
        | inr e ↦ (
          (p.pos, n) ∷ [],
          (refl, omega (arith, c, l), omega arith, ground (arith, e)),
          rw (run_unit, e) refl,
        )
        | inl e ↦
            let (rest, cov, run) =
              run_unit_lem fuel (record p { cache = out.0; pos = p.pos + n }) out.1 c
                (ground (arith, e)) (omega (arith, c, l, f)) in
            ((p.pos, n) ∷ rest, (refl, omega (arith, c, l), omega arith, cov), rw (run_unit, e) run)
      ]

  -- With a chunk size above zero a prefill gives its logits after no more calls than it has columns.
  -- Until then the forward pass gets the columns of chunks that follow each other, none empty or
  -- longer than the chunk size; of a row of all columns, the parts put together are the columns from
  -- where it stood.
  pub prefill_lem :
      (p : PendingPrefill L K) (g0 : G)
      → 0 < prefill_chunk
      → p.pos < p.n_total
      → (l : List (ℕ × ℕ)) × Covers prefill_chunk p.pos p.n_total l
        × (run_unit (p.n_total - p.pos) p ≡ some (feeds forward p.tokens l p.cache g0))
        × ((row : List ℕ) → length row ≡ p.n_total → joined row l ≡ drop p.pos row)
  prefill_lem p g0 c l =
      let (chunks, cov, run) = run_unit_lem (p.n_total - p.pos) p g0 c l (omega arith) in
      (chunks, cov, run, λ row e. joined_lem prefill_chunk p.pos p.n_total row chunks e cov)
