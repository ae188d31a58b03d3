-- ===== src/Serve/Waiting.antt =====
-- Every order of calls of src/scheduler/scheduler.cpp: nothing is lost, doubled or reordered.
use libmlxforge.Common.{
  ℕ, zero, suc, ◌≤◌, Bool, true, List, [], ◌∷◌, ◌++◌, Option, none, some, length, if◌then◌else◌,
  ◌≡◌, refl, sym, ◌∙◌, ap, arith, ◌⊎◌, length-append,
}
use mathlib.Core.List.{append_assoc, append-nil}
use libmlxforge.Serve.Scheduler.{
  Scheduler, submit, next_waiting, next_of, take_loop, take_waiting, stop,
}

abbrev pub one_if {ℓ} : {A : Type ℓ} → Bool → A → List A
one_if b a = if b then a ∷ [] else []

abbrev pub to_list {ℓ} : {A : Type ℓ} → Option A → List A
to_list none = []
to_list (some a) = a ∷ []

-- One call, by any thread: the requests that it takes in and those that it gives out.
pub data Step {A : Type 0} : Scheduler A → List A → List A → Scheduler A → Type 0 where
  submits : {s : Scheduler A} (req : A) → Step s (one_if (submit s req).1 req) [] (submit s req).0
  next :
      {s t : Scheduler A} (o : Option A) (e : next_waiting s ≡ some (o, t))
      → Step s [] (to_list o) t
  takes : {s : Scheduler A} (max : ℕ) → Step s [] (take_waiting s max).0 (take_waiting s max).1
  stops : {s : Scheduler A} → Step s [] [] (stop s)

-- A sequence of calls.
pub data Run {A : Type 0} : Scheduler A → List A → List A → Scheduler A → Type 0 where
  done : {s : Scheduler A} → Run s [] [] s
  then_ :
      {s t u : Scheduler A} {i o is os : List A} (st : Step s i o t) (r : Run t is os u)
      → Run s (i ++ is) (o ++ os) u

module _ {A : Type 0} where
  next-fifo :
      (s t : Scheduler A) (l : List A) (o : Option A)
      → s.waiting ≡ l
      → next_of s l ≡ some (o, t)
      → (l ++ [] ≡ to_list o ++ t.waiting)
        × (length t.waiting ≤ length l)
        × (t.max_waiting ≡ s.max_waiting)
        × (t.stop_ ≡ s.stop_)
  next-fifo s t [] o w e = ground arith
  next-fifo s t (r ∷ l) o w e = ground (arith, append-nil l)

  length-take_loop : (n : ℕ) (l : List A) → length (take_loop n l).1 ≤ length l
  length-take_loop zero l = omega arith
  length-take_loop (suc n) [] = omega arith
  length-take_loop (suc n) (r ∷ l) = omega (arith, length-take_loop n l)

  take_loop-append : (n : ℕ) (l : List A) → (take_loop n l).0 ++ (take_loop n l).1 ≡ l
  take_loop-append zero l = refl
  take_loop-append (suc n) [] = refl
  take_loop-append (suc n) (r ∷ l) = ap (◌∷◌ r) (take_loop-append n l)

  Step-fifo : {s t : Scheduler A} {i o : List A} → Step s i o t → s.waiting ++ i ≡ o ++ t.waiting
  unfolding submit next_waiting take_waiting stop
  Step-fifo (submits {s} req) = ground (arith, append-nil s.waiting)
  Step-fifo (next {s} {t} o' e) = (next-fifo s t s.waiting o' refl e).0
  Step-fifo (takes {s} max) = append-nil s.waiting ∙ sym (take_loop-append max s.waiting)
  Step-fifo (stops {s}) = append-nil s.waiting

  -- From any state and by any calls: what was waiting and what was taken in, in this order, is what
  -- was given out and what still waits.
  pub Run-fifo : {s t : Scheduler A} {i o : List A} → Run s i o t → s.waiting ++ i ≡ o ++ t.waiting
  Run-fifo (done {s}) = append-nil s.waiting
  Run-fifo (then_ {s} {t = m} {u = t} {i} {o} {is} {os} st r) =
      sym (append_assoc s.waiting i is)
      ∙ ap (λ x. x ++ is) (Step-fifo st)
      ∙ append_assoc o m.waiting is
      ∙ ap (λ x. o ++ x) (Run-fifo r)
      ∙ sym (append_assoc o os t.waiting)

  -- The state is within its bound.
  abbrev pub IsBounded : Scheduler A → Type 0
  IsBounded s = (s.max_waiting ≡ 0) ⊎ (length s.waiting ≤ s.max_waiting)

  Step-IsBounded :
      {s t : Scheduler A} {i o : List A}
      → Step s i o t
      → IsBounded s
      → IsBounded t × (t.max_waiting ≡ s.max_waiting) × (s.stop_ ≡ true → t.stop_ ≡ true)
  unfolding submit next_waiting take_waiting stop
  Step-IsBounded (submits {s} req) b = ground (arith, length-append s.waiting (req ∷ []))
  Step-IsBounded (next {s} {t} o' e) b =
      let (_, l, m, z) = next-fifo s t s.waiting o' refl e in ground arith
  Step-IsBounded (takes {s} max) b = ground (arith, length-take_loop max s.waiting)
  Step-IsBounded (stops {s}) b = (b, refl, λ e. refl)

  -- By any calls the queue stays within its bound, which stays the same; a stop is not taken back.
  pub Run-IsBounded :
      {s t : Scheduler A} {i o : List A}
      → Run s i o t
      → IsBounded s
      → IsBounded t × (t.max_waiting ≡ s.max_waiting) × (s.stop_ ≡ true → t.stop_ ≡ true)
  Run-IsBounded done b = (b, refl, λ e. e)
  Run-IsBounded (then_ st r) b =
      let (c, m, z) = Step-IsBounded st b in
      let (d, n, y) = Run-IsBounded r c in (d, n ∙ m, λ e. y (z e))

  next-stopped :
      (t : Scheduler A) (l : List A)
      → t.waiting ≡ l
      → t.stop_ ≡ true
      → (o : Option A) × (u : Scheduler A) × (next_of t l ≡ some (o, u)) × (o ≡ none → l ≡ [])
  next-stopped t [] w e = (none, t, rw e refl, λ z. refl)
  next-stopped t (r ∷ l) w e = (some r, record t { waiting = l }, refl, λ z. cc)

  -- After a stop, whatever was called since, the worker's wait ends; and it ends without a request
  -- only when none is left.
  pub Run-stop :
      (s : Scheduler A) {t : Scheduler A} {i o : List A}
      → Run (stop s) i o t
      → IsBounded s
      → (r : Option A) × (u : Scheduler A) × (next_waiting t ≡ some (r, u))
        × (r ≡ none → t.waiting ≡ [])
  unfolding next_waiting stop
  Run-stop s {t} r b = let (c, m, z) = Run-IsBounded r b in next-stopped t t.waiting refl (z refl)
