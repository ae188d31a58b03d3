-- ===== src/Worker/Admit.antt =====
-- src/runtime/worker.cpp: `split_prefix`, `enqueue_admissions` and `advance_chunked_prefill`. A matrix
-- of tokens is its rows. A match changes the prefix cache `P` and gives blocks `M` and how many tokens they hold;
-- a cache `K`, how it is made and the forward pass are parameters. `register_rows` is in Worker/Rows.
use libmlxforge.Common.{
  ℕ, ◌+◌, ◌-◌, max, min, List, [], ◌∷◌, ◌++◌, Option, none, some, map, length, replicate, take,
  drop, ltb, if◌then◌else◌,
}
use libmlxforge.Worker.Rows.{Request}

pub record PendingPrefill (L K : Type 0) : Type 0 where
  pub reqs : List (Request L)
  pub tokens : List (List ℕ)
  pub cache : K
  pub n_total : ℕ
  pub pos : ℕ
  pub reused_tokens : ℕ

-- The length of the longest prompt.
unfoldable pub p_max : {L : Type 0} → List (Request L) → ℕ
p_max [] = 0
p_max (r ∷ l) = max (length r.prompt_ids) (p_max l)

unfoldable pub pad_row : {L : Type 0} → ℕ → Request L → List ℕ
pad_row n r = replicate (n - length r.prompt_ids) 0 ++ r.prompt_ids

-- The prefix cache after the matches, the warm requests with their matches, and the cold requests;
-- without a prefix cache all are cold.
unfoldable pub split_prefix :
    {L M P : Type 0}
    → Option (P → List ℕ → P × M × ℕ)
    → P
    → List (Request L)
    → P × List (Request L × M × ℕ) × List (Request L)
split_prefix lookup pool [] = (pool, [], [])
split_prefix none pool (r ∷ l) = let rest = split_prefix none pool l in (rest.0, rest.1, r ∷ rest.2)
split_prefix (some match_) pool (r ∷ l) =
    let m = match_ pool r.prompt_ids in
    let rest = split_prefix (some match_) m.0 l in
    if ltb 0 m.2 then (rest.0, (r, m.1, m.2) ∷ rest.1, rest.2) else (rest.0, rest.1, r ∷ rest.2)

module _ {L M K : Type 0} (from_prefix : M → ℕ → K) (empty_cache : List ℕ → K) where
  unfoldable pub warm_unit : Request L × M × ℕ → PendingPrefill L K
  warm_unit w = record {
    reqs = w.0 ∷ [];
    tokens = drop w.2 w.0.prompt_ids ∷ [];
    cache = from_prefix w.1 w.2;
    n_total = length w.0.prompt_ids - w.2;
    pos = 0;
    reused_tokens = w.2;
  }

  unfoldable pub cold_unit : List (Request L) → List (PendingPrefill L K)
  unfolding p_max pad_row
  cold_unit [] = []
  cold_unit (r ∷ l) =
      let n = p_max (r ∷ l) in
      record {
        reqs = r ∷ l;
        tokens = map (pad_row n) (r ∷ l);
        cache = empty_cache (map (λ q. n - length q.prompt_ids) (r ∷ l));
        n_total = n;
        pos = 0;
        reused_tokens = 0;
      }
      ∷ []

  -- The prefix cache and the queue of units afterwards.
  unfoldable pub enqueue_admissions :
      {P : Type 0}
      → Option (P → List ℕ → P × M × ℕ)
      → P
      → List (Request L)
      → List (PendingPrefill L K)
      → P × List (PendingPrefill L K)
  unfolding split_prefix warm_unit cold_unit
  enqueue_admissions lookup pool incoming pending =
      let split = split_prefix lookup pool incoming in
      (split.0, pending ++ (map warm_unit split.1 ++ cold_unit split.2))

-- The columns from `pos` on, `n` of them.
abbrev pub slice : ℕ → ℕ → List (List ℕ) → List (List ℕ)
slice pos n tokens = map (λ row. take n (drop pos row)) tokens

module _ {L K G : Type 0} (prefill_chunk : ℕ) (forward : List (List ℕ) → K → K × G) where
  -- The front unit after a chunk, with the logits of the last one.
  unfoldable pub advance_chunked_prefill : PendingPrefill L K → PendingPrefill L K × Option G
  advance_chunked_prefill p =
      let n = min prefill_chunk (p.n_total - p.pos) in
      let out = forward (slice p.pos n p.tokens) p.cache in
      (
        record p { cache = out.0; pos = p.pos + n },
        if ltb (p.pos + n) p.n_total then none else some out.1,
      )
