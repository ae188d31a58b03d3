-- ===== src/Worker/Evict.antt =====
-- src/runtime/worker.cpp, `evict_finished`. What a vector holds after it was moved from, and after it
-- was moved onto itself, is the library's: two functions. A request that was moved from is not read
-- again, nor is a flag. A request's two queues are closed together, as one flag; `harvest_finished`,
-- which is called before, is not part of it. Times and the log are left out; the cache is a type with its `filter`.
use libmlxforge.Common.{
  ℕ, zero, suc, ◌+◌, true, List, [], ◌∷◌, Option, none, some, length, take, get_elem?, ◌==◌,
  if◌then◌else◌,
}
use libmlxforge.Worker.Rows.{Request, Row}

pub record Batch (L C : Type 0) : Type 0 where
  pub rows : List (Row L)
  pub cache : Option C
  pub requests_completed : ℕ
  pub prompt_tokens_total : ℕ
  pub completion_tokens_total : ℕ

unfoldable pub set_at : {A : Type 0} → ℕ → A → List A → List A
set_at n y [] = []
set_at zero y (x ∷ l) = y ∷ l
set_at (suc n) y (x ∷ l) = x ∷ set_at n y l

unfoldable pub filter_cache : {C : Type 0} → (List ℕ → C → C) → List ℕ → Option C → Option C
filter_cache filter [] cache = none
filter_cache filter (src ∷ keep) none = none
filter_cache filter (src ∷ keep) (some c) = some (filter (src ∷ keep) c)

module _ {L : Type 0} where
  -- The rows to keep, from row `b` on.
  unfoldable pub keep_from : ℕ → List (Row L) → List ℕ
  keep_from b [] = []
  keep_from b (row ∷ rows) =
      let rest = keep_from (suc b) rows in if row.finished then rest else b ∷ rest

  -- The requests whose queues are closed.
  unfoldable pub close_finished : List (Row L) → List (Request L)
  close_finished [] = []
  close_finished (row ∷ rows) =
      let rest = close_finished rows in
      if row.finished then record row.req { closed = true } ∷ rest else rest

  -- The counters, as the loop goes over the rows.
  unfoldable pub count_finished : {C : Type 0} → List (Row L) → Batch L C → Batch L C
  count_finished [] b = b
  count_finished (row ∷ rows) b =
      let counted = record b {
        requests_completed = suc b.requests_completed;
        prompt_tokens_total = b.prompt_tokens_total + length row.req.prompt_ids;
        completion_tokens_total = b.completion_tokens_total + row.produced;
      } in
      count_finished rows (if row.finished then counted else b)

  module _ (self_moved moved_from : List ℕ → List ℕ) where
    -- One round of the gather, from row `src` to row `dst`.
    unfoldable pub gather_row : ℕ → ℕ → List (Row L) → List (Row L)
    unfolding set_at
    gather_row dst src rows = elim (get_elem? rows src) [
      | none ↦ rows
      | some row ↦
          if dst == src
          then set_at dst (record row { history = self_moved row.history }) rows
          else set_at dst row (set_at src (record row { history = moved_from row.history }) rows)
    ]

    -- The gather, and the resize behind it.
    unfoldable pub gather : List ℕ → ℕ → List (Row L) → List (Row L)
    unfolding gather_row
    gather [] dst rows = take dst rows
    gather (src ∷ keep) dst rows = gather keep (suc dst) (gather_row dst src rows)

    module _ {C : Type 0} (filter : List ℕ → C → C) where
      -- The batch afterwards, and the requests whose queues were closed.
      unfoldable pub evict_finished : Batch L C → Batch L C × List (Request L)
      unfolding keep_from close_finished count_finished gather filter_cache
      evict_finished b =
          let keep = keep_from 0 b.rows in
          let counted = count_finished b.rows b in
          let compacted = record counted {
            rows = gather keep 0 b.rows;
            cache = filter_cache filter keep b.cache;
          } in
          (if length keep == length b.rows then counted else compacted, close_finished b.rows)
