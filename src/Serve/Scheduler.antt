-- ===== src/Serve/Scheduler.antt =====
-- src/scheduler/scheduler.h and scheduler.cpp: the bounded waiting queue. Each call runs under the
-- mutex and is one step; `next_waiting` is `none` while it would go on waiting. The enqueue time
-- stamp and the log are left out. `max_waiting` is 0 where the source has a bound of 0 or below.
use libmlxforge.Common.{
  ℕ, zero, suc, Bool, true, false, ◌&&◌, List, [], ◌∷◌, ◌++◌, Option, none, some, length, ltb, leb,
  if◌then◌else◌,
}

pub record Scheduler {ℓ} (A : Type ℓ) : Type ℓ where
  pub waiting : List A
  pub max_waiting : ℕ
  pub stop_ : Bool

module _ {ℓ} {A : Type ℓ} where
  abbrev pub new_scheduler : ℕ → Scheduler A
  new_scheduler max = record { waiting = []; max_waiting = max; stop_ = false }

  -- Whether the request was taken; `false` is the caller's 429.
  unfoldable pub submit : Scheduler A → A → Scheduler A × Bool
  submit s req =
      if ltb 0 s.max_waiting && leb s.max_waiting (length s.waiting)
      then (s, false)
      else (record s { waiting = s.waiting ++ (req ∷ []) }, true)

  abbrev pub next_of : Scheduler A → List A → Option (Option A × Scheduler A)
  next_of s [] = if s.stop_ then some (none, s) else none
  next_of s (req ∷ rest) = some (some req, record s { waiting = rest })

  unfoldable pub next_waiting : Scheduler A → Option (Option A × Scheduler A)
  next_waiting s = next_of s s.waiting

  -- The loop of `take_waiting`: what it took and what is left.
  abbrev pub take_loop : ℕ → List A → List A × List A
  take_loop zero l = ([], l)
  take_loop (suc room) [] = ([], [])
  take_loop (suc room) (req ∷ rest) = let r = take_loop room rest in (req ∷ r.0, r.1)

  unfoldable pub take_waiting : Scheduler A → ℕ → List A × Scheduler A
  take_waiting s max = let r = take_loop max s.waiting in (r.0, record s { waiting = r.1 })

  unfoldable pub stop : Scheduler A → Scheduler A
  stop s = record s { stop_ = true }
