-- ===== src/Serve/Stream.antt =====
-- Every order of calls of `SpscQueue` of src/scheduler/request.h.
use mathlib.Core.List.{append_assoc, append-nil}
use libmlxforge.Common.{
  ◌≤◌, ◌<◌, true, not, List, [], ◌∷◌, ◌++◌, Option, none, some, length, ltb, ◌||◌, ◌≡◌, ◌≢◌, refl,
  sym, ◌∙◌, ap, arith, Bool-cases, inl, inr, ◌⊎◌, length-append,
}
use libmlxforge.Serve.Spsc.{SpscQueue, push, close, pop, pop_of}
use libmlxforge.Serve.Waiting.{one_if, to_list}

-- One call that returns: the items that it puts in and those that it takes out.
pub data Move {A : Type 0} : SpscQueue A → List A → List A → SpscQueue A → Type 0 where
  pushes :
      {s t : SpscQueue A} (item : A)
      → push s item ≡ some t
      → Move s (one_if (not s.closed) item) [] t
  pops : {s t : SpscQueue A} (o : Option A) → pop s ≡ some (o, t) → Move s [] (to_list o) t
  closes : {s : SpscQueue A} → Move s [] [] (close s)

pub data Moves {A : Type 0} : SpscQueue A → List A → List A → SpscQueue A → Type 0 where
  done : {s : SpscQueue A} → Moves s [] [] s
  then_ :
      {s t u : SpscQueue A} {i o is os : List A}
      → Move s i o t
      → Moves t is os u
      → Moves s (i ++ is) (o ++ os) u

module _ {A : Type 0} where
  pop_lem :
      (s t : SpscQueue A) (l : List A) (o : Option A)
      → s.q ≡ l
      → pop_of s l ≡ some (o, t)
      → (l ++ [] ≡ to_list o ++ t.q)
        × (length t.q ≤ length l)
        × (t.capacity ≡ s.capacity)
        × (t.closed ≡ s.closed)
  pop_lem s t [] o w e = ground arith
  pop_lem s t (x ∷ l) o w e = ground (arith, append-nil l)

  push_lem :
      (s t : SpscQueue A) (x : A)
      → push s x ≡ some t
      → (s.q ++ one_if (not s.closed) x ≡ t.q)
        × (length t.q ≤ s.capacity ⊎ (t.q ≡ s.q))
        × (t.capacity ≡ s.capacity)
        × (t.closed ≡ s.closed)
  unfolding push
  push_lem s t x e = ground (arith, append-nil s.q, length-append s.q (x ∷ []))

  Move-fifo : {s t : SpscQueue A} {i o : List A} → Move s i o t → s.q ++ i ≡ o ++ t.q
  unfolding pop close
  Move-fifo (pushes {s} {t} x e) = (push_lem s t x e).0
  Move-fifo (pops {s} {t} o e) = (pop_lem s t s.q o refl e).0
  Move-fifo (closes {s}) = append-nil s.q

  -- By any calls: what was queued and what was put in before the close, in this order, is what was
  -- taken out and what is still queued.
  pub Moves-fifo : {s t : SpscQueue A} {i o : List A} → Moves s i o t → s.q ++ i ≡ o ++ t.q
  Moves-fifo (done {s}) = append-nil s.q
  Moves-fifo (then_ {s} {t = m} {u = t} {i} {o} {is} {os} st r) =
      sym (append_assoc s.q i is)
      ∙ ap (λ x. x ++ is) (Move-fifo st)
      ∙ append_assoc o m.q is
      ∙ ap (λ x. o ++ x) (Moves-fifo r)
      ∙ sym (append_assoc o os t.q)

  -- The queue holds no more than its capacity.
  abbrev pub IsWithin : SpscQueue A → Type 0
  IsWithin s = length s.q ≤ s.capacity

  Move-IsWithin :
      {s t : SpscQueue A} {i o : List A}
      → Move s i o t
      → IsWithin s
      → IsWithin t × (t.capacity ≡ s.capacity)
  unfolding pop close
  Move-IsWithin (pushes {s} {t} x e) b = let (f, l, c, d) = push_lem s t x e in ground arith
  Move-IsWithin (pops {s} {t} o e) b = let (f, l, c, d) = pop_lem s t s.q o refl e in ground arith
  Move-IsWithin closes b = (b, refl)

  Moves-IsWithin :
      {s t : SpscQueue A} {i o : List A}
      → Moves s i o t
      → IsWithin s
      → IsWithin t × (t.capacity ≡ s.capacity)
  Moves-IsWithin done b = (b, refl)
  Moves-IsWithin (then_ st r) b =
      let (c, m) = Move-IsWithin st b in let (d, n) = Moves-IsWithin r c in (d, n ∙ m)

  pop_ready :
      (s : SpscQueue A) (l : List A)
      → s.q ≡ l
      → (s.closed ≡ true) ⊎ (0 < length l)
      → pop_of s l ≢ none
  pop_ready s [] w h e = ground (arith, h, e)
  pop_ready s (x ∷ l) w h e = ground (arith, e)

  -- The queue never holds more than its capacity, and the two sides never wait for each other: where
  -- a push waits, a pop does not. Once it is closed neither waits.
  pub Moves-progress :
      {s t : SpscQueue A} {i o : List A}
      → Moves s i o t
      → 0 < s.capacity
      → IsWithin s
      → IsWithin t
        × ((item : A) → (push t item ≢ none) ⊎ (pop t ≢ none))
        × (t.closed ≡ true → ((item : A) → push t item ≢ none) × (pop t ≢ none))
  unfolding push pop
  Moves-progress {t} r pos b =
      let (w, c) = Moves-IsWithin r b in
      (
        w,
        λ x. elim (Bool-cases (ltb (length t.q) t.capacity || t.closed)) [
          | inl y ↦ inl (λ e. ground (arith, e, y))
          | inr n ↦ inr (pop_ready t t.q refl (inr (ground arith)))
        ],
        λ z. (λ x e. ground (arith, e, z), pop_ready t t.q refl (inl z)),
      )
