-- ===== src/Worker/Compact.antt =====
-- src/runtime/worker.cpp, `evict_finished`: what the gather in place leaves.
use libmlxforge.Common.{
  ℕ, suc, ◌+◌, true, List, [], ◌∷◌, some, length, get_elem?, if◌then◌else◌, ◌≡◌,
}
use libmlxforge.Worker.Rows.{Request, Row}
use libmlxforge.Worker.Evict.{Batch}

-- The indices pick these rows.
abbrev pub Picks : {L : Type 0} → List (Row L) → List ℕ → List (Row L) → Type 0
Picks rows [] [] = Unit
Picks rows [] (x ∷ l) = ⊥
Picks rows (k ∷ keep) [] = ⊥
Picks rows (k ∷ keep) (x ∷ l) = (get_elem? rows k ≡ some x) × Picks rows keep l

-- The rows that are finished.
abbrev pub finished_rows : {L : Type 0} → List (Row L) → List (Row L)
finished_rows [] = []
finished_rows (row ∷ rows) =
    let rest = finished_rows rows in if row.finished then row ∷ rest else rest

-- A request as it was, but that its queues are closed.
abbrev pub closed_request : {L : Type 0} → Row L → Request L
closed_request row = record row.req { closed = true }

abbrev pub prompts : {L : Type 0} → List (Row L) → ℕ
prompts [] = 0
prompts (row ∷ rows) = length row.req.prompt_ids + prompts rows

abbrev pub outputs : {L : Type 0} → List (Row L) → ℕ
outputs [] = 0
outputs (row ∷ rows) = row.produced + outputs rows

-- The counters grow by what these rows count; nothing else changes.
abbrev pub counted : {L C : Type 0} → List (Row L) → Batch L C → Batch L C
counted rows b = record b {
  requests_completed = b.requests_completed + length rows;
  prompt_tokens_total = b.prompt_tokens_total + prompts rows;
  completion_tokens_total = b.completion_tokens_total + outputs rows;
}

-- The counters behind one finished row.
abbrev counted_one : {L C : Type 0} → Row L → Batch L C → Batch L C
counted_one row b = record b {
  requests_completed = suc b.requests_completed;
  prompt_tokens_total = b.prompt_tokens_total + length row.req.prompt_ids;
  completion_tokens_total = b.completion_tokens_total + row.produced;
}
