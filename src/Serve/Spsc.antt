-- ===== src/Serve/Spsc.antt =====
-- src/scheduler/request.h, `SpscQueue`: the bounded queue from the worker to a request's thread.
-- Each call runs under the mutex and is one step; it is `none` while the call would go on waiting.
-- A condition variable wakes a caller at the latest when its call can go on.
use libmlxforge.Common.{
  ℕ, Bool, true, false, ◌||◌, List, [], ◌∷◌, ◌++◌, Option, none, some, length, ltb, if◌then◌else◌,
}

pub record SpscQueue {ℓ} (A : Type ℓ) : Type ℓ where
  pub capacity : ℕ
  pub q : List A
  pub closed : Bool

module _ {ℓ} {A : Type ℓ} where
  abbrev pub new_queue : ℕ → SpscQueue A
  new_queue capacity = record { capacity = capacity; q = []; closed = false }

  -- An item that is pushed after `close` is dropped.
  unfoldable pub push : SpscQueue A → A → Option (SpscQueue A)
  push s item =
      if ltb (length s.q) s.capacity || s.closed
      then if s.closed then some s else some (record s { q = s.q ++ (item ∷ []) })
      else none

  unfoldable pub close : SpscQueue A → SpscQueue A
  close s = record s { closed = true }

  abbrev pub pop_of : SpscQueue A → List A → Option (Option A × SpscQueue A)
  pop_of s [] = if s.closed then some (none, s) else none
  pop_of s (x ∷ rest) = some (some x, record s { q = rest })

  -- `none` in the answer is the return of false: closed and drained.
  unfoldable pub pop : SpscQueue A → Option (Option A × SpscQueue A)
  pop s = pop_of s s.q
