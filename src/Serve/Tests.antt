-- ===== src/Serve/Tests.antt =====
-- The queues and the gate at concrete values.
use libmlxforge.Common.{
  ℕ, ◌+◌, ◌*◌, ◌≤◌, true, false, [], ◌∷◌, ◌++◌, Option, none, some, ◌≡◌, ◌≢◌, refl, inl, inr, ◌⊎◌,
  arith,
}
use libmlxforge.Serve.Scheduler.{Scheduler, new_scheduler, submit, next_waiting, stop}
use libmlxforge.Serve.Waiting.{Step, Run, IsBounded, Run-fifo, Run-IsBounded, Run-stop}
use libmlxforge.Serve.Spsc.{SpscQueue, new_queue, push, pop, close}
use libmlxforge.Serve.Stream.{Move, Moves, IsWithin, Moves-fifo, Moves-progress}
use libmlxforge.Serve.Budget.{ModelConfig, KvBudget, can_admit}
use libmlxforge.Serve.Bucket.{IsBucket, next_bucket, next_bucket_lem}
use libmlxforge.Serve.Layers.{can_admit_mono}

-- A queue of one: the second request is turned away, the first goes to the worker.
abbrev after : Scheduler ℕ
after = record { waiting = []; max_waiting = 1; stop_ = false }

calls : Run (new_scheduler 1) (5 ∷ []) (5 ∷ []) after
unfolding submit next_waiting
calls =
    Run.then_ (Step.submits 5)
      (Run.then_ (Step.submits 6) (Run.then_ (Step.next (some 5) refl) Run.done))

Run-fifo_example : (new_scheduler 1).waiting ++ (5 ∷ []) ≡ (5 ∷ []) ++ after.waiting
Run-fifo_example = Run-fifo calls

Run-IsBounded_example :
    IsBounded after
    × (after.max_waiting ≡ (new_scheduler {A = ℕ} 1).max_waiting)
    × ((new_scheduler {A = ℕ} 1).stop_ ≡ true → after.stop_ ≡ true)
Run-IsBounded_example = Run-IsBounded calls (inr (omega arith))

abbrev last_one : Scheduler ℕ
last_one = record { waiting = 7 ∷ []; max_waiting = 0; stop_ = true }

stopped_calls : Run (stop (new_scheduler 0)) (7 ∷ []) [] last_one
unfolding submit stop
stopped_calls = Run.then_ (Step.submits 7) Run.done

Run-stop_example :
    (r : Option ℕ) × (u : Scheduler ℕ) × (next_waiting last_one ≡ some (r, u))
    × (r ≡ none → last_one.waiting ≡ [])
Run-stop_example = Run-stop (new_scheduler 0) stopped_calls (inl refl)

abbrev drained : SpscQueue ℕ
drained = record { capacity = 1; q = []; closed = true }

moves : Moves (new_queue 1) (3 ∷ []) (3 ∷ []) drained
unfolding push pop close
moves = Moves.then_ (Move.pushes 3 refl) (
    Moves.then_ Move.closes (
      Moves.then_ (Move.pushes 4 refl)
        (Moves.then_ (Move.pops (some 3) refl) (Moves.then_ (Move.pops none refl) Moves.done))))

Moves-fifo_example : (new_queue 1).q ++ (3 ∷ []) ≡ (3 ∷ []) ++ drained.q
Moves-fifo_example = Moves-fifo moves

Moves-progress_example :
    IsWithin drained
    × ((item : ℕ) → (push drained item ≢ none) ⊎ (pop drained ≢ none))
    × (drained.closed ≡ true → ((item : ℕ) → push drained item ≢ none) × (pop drained ≢ none))
Moves-progress_example = Moves-progress moves (omega arith) (omega arith)

-- A hybrid model of 8 layers, each fourth with a KV cache.
abbrev hybrid : ModelConfig
hybrid = record {
  n_layers = 8;
  n_kv_heads = 2;
  head_dim = 64;
  full_attention_interval = 4;
  linear_num_key_heads = 2;
  linear_key_head_dim = 16;
  linear_num_value_heads = 4;
  linear_value_head_dim = 16;
  linear_conv_kernel_dim = 4;
}

abbrev gate : KvBudget
gate = record { bytes_per_token = 32768; linear_state_bytes = 0; budget_bytes = 1000000000 }

can_admit_mono_example :
    (can_admit gate 100 50 3 ≡ true) × (3 * (0 + (100 + 50) * 32768) ≤ 1000000000)
unfolding can_admit
can_admit_mono_example =
    can_admit_mono gate 1000 64 8 100 50 3 (omega arith) (omega arith) refl (omega arith)
      (omega arith)

next_bucket_lem_example :
    IsBucket (next_bucket 9)
    × (9 ≤ next_bucket 9)
    × ((b : ℕ) → IsBucket b → 9 ≤ b → next_bucket 9 ≤ b)
next_bucket_lem_example = next_bucket_lem 9
