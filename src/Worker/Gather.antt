-- ===== src/Worker/Gather.antt =====
-- src/runtime/worker.cpp, `evict_finished`: the gather in place.
use libmlxforge.Common.{
  ℕ, zero, suc, ◌+◌, ◌≤◌, true, false, List, [], ◌∷◌, ◌++◌, some, length, get_elem?, ◌==◌,
  if◌then◌else◌, ◌≡◌, refl, sym, ◌∙◌, ap, arith, Bool-cases, inl, inr, append_assoc, append-nil,
  length-append, take-append,
}
use libmlxforge.Worker.Rows.{Row}
use libmlxforge.Worker.Evict.{set_at, keep_from, gather_row, gather}

-- The rows that are not finished.
abbrev pub unfinished : {L : Type 0} → List (Row L) → List (Row L)
unfinished [] = []
unfinished (row ∷ rows) = if row.finished then unfinished rows else row ∷ unfinished rows

-- The same, with the histories before the first finished row moved onto themselves.
abbrev pub survivors : {L : Type 0} → (List ℕ → List ℕ) → List (Row L) → List (Row L)
survivors self_moved [] = []
survivors self_moved (row ∷ rows) =
    let first = record row { history = self_moved row.history } in
    let rest = survivors self_moved rows in if row.finished then unfinished rows else first ∷ rest

pub unfinished-finished :
    {L : Type 0} (row : Row L) (rest : List (Row L))
    → row.finished ≡ true
    → unfinished (row ∷ rest) ≡ unfinished rest
unfinished-finished row rest c = ap (λ b. if b then unfinished rest else row ∷ unfinished rest) c

pub unfinished-going :
    {L : Type 0} (row : Row L) (rest : List (Row L))
    → row.finished ≡ false
    → unfinished (row ∷ rest) ≡ row ∷ unfinished rest
unfinished-going row rest c = ap (λ b. if b then unfinished rest else row ∷ unfinished rest) c

survivors-finished :
    {L : Type 0} (m : List ℕ → List ℕ) (row : Row L) (rest : List (Row L))
    → row.finished ≡ true
    → survivors m (row ∷ rest) ≡ unfinished rest
survivors-finished m row rest c =
    ap
      (λ b.
        if b then unfinished rest else record row { history = m row.history } ∷ survivors m rest)
      c

survivors-going :
    {L : Type 0} (m : List ℕ → List ℕ) (row : Row L) (rest : List (Row L))
    → row.finished ≡ false
    → survivors m (row ∷ rest) ≡ record row { history = m row.history } ∷ survivors m rest
survivors-going m row rest c =
    ap
      (λ b.
        if b then unfinished rest else record row { history = m row.history } ∷ survivors m rest)
      c

set_at_lem :
    {A : Type 0} (a : List A) (x y : A) (b : List A) (n : ℕ)
    → n ≡ length a
    → set_at n y (a ++ (x ∷ b)) ≡ a ++ (y ∷ b)
unfolding set_at
set_at_lem [] x y b zero e = refl
set_at_lem [] x y b (suc n) e = absurd (omega (arith, e))
set_at_lem (z ∷ a) x y b zero e = absurd (omega (arith, e))
set_at_lem (z ∷ a) x y b (suc n) e = ap (◌∷◌ z) (set_at_lem a x y b n (omega (arith, e)))

pub get_elem?_here :
    {A : Type 0} (a : List A) (x : A) (b : List A) (n : ℕ)
    → n ≡ length a
    → get_elem? (a ++ (x ∷ b)) n ≡ some x
get_elem?_here [] x b zero e = refl
get_elem?_here [] x b (suc n) e = absurd (omega (arith, e))
get_elem?_here (z ∷ a) x b zero e = absurd (omega (arith, e))
get_elem?_here (z ∷ a) x b (suc n) e = get_elem?_here a x b n (omega (arith, e))

module _ {L : Type 0} (self_moved moved_from : List ℕ → List ℕ) where
  here_lem :
      (a : List (Row L)) (row : Row L) (rest : List (Row L)) (n : ℕ)
      → n ≡ length a
      → gather_row self_moved moved_from n n (a ++ (row ∷ rest))
        ≡ a ++ (record row { history = self_moved row.history } ∷ rest)
  unfolding gather_row
  here_lem a row rest n e =
      let same : (n == n) ≡ true = ground arith in
      rw (gather_row, get_elem?_here a row rest n e, same)
        (set_at_lem a row (record row { history = self_moved row.history }) rest n e)

  there_lem :
      (a : List (Row L)) (j : Row L) (junk : List (Row L)) (row : Row L) (rest : List (Row L))
      (dst src : ℕ)
      → dst ≡ length a
      → src ≡ length a + suc (length junk)
      → gather_row self_moved moved_from dst src (a ++ (j ∷ (junk ++ (row ∷ rest))))
        ≡ a ++ (row ∷ (junk ++ (record row { history = moved_from row.history } ∷ rest)))
  unfolding gather_row
  there_lem a j junk row rest dst src e f =
      let apart : (dst == src) ≡ false = ground (arith, e, f) in
      let moved = record row { history = moved_from row.history } in
      let split : a ++ (j ∷ (junk ++ (row ∷ rest))) ≡ (a ++ (j ∷ junk)) ++ (row ∷ rest) =
        sym (append_assoc a (j ∷ junk) (row ∷ rest)) in
      let far : src ≡ length (a ++ (j ∷ junk)) = omega (arith, f, length-append a (j ∷ junk)) in
      let got : get_elem? (a ++ (j ∷ (junk ++ (row ∷ rest)))) src ≡ some row =
        ap (λ l. get_elem? l src) split ∙ get_elem?_here (a ++ (j ∷ junk)) row rest src far in
      let one : set_at src moved (a ++ (j ∷ (junk ++ (row ∷ rest))))
          ≡ a ++ (j ∷ (junk ++ (moved ∷ rest))) =
        ap (set_at src moved) split
        ∙ set_at_lem (a ++ (j ∷ junk)) row moved rest src far
        ∙ append_assoc a (j ∷ junk) (moved ∷ rest) in
      rw (gather_row, got, apart)
        (ap (set_at dst row) one ∙ set_at_lem a j row (junk ++ (moved ∷ rest)) dst e)

  abbrev Gathered : List (Row L) → Type 0
  Gathered rest =
      (a : List (Row L)) (j : Row L) (junk : List (Row L)) (dst src : ℕ)
      → dst ≡ length a
      → src ≡ length a + suc (length junk)
      → gather self_moved moved_from (keep_from src rest) dst (a ++ (j ∷ (junk ++ rest)))
        ≡ a ++ unfinished rest

  keep-finished :
      (src : ℕ) (row : Row L) (rest : List (Row L))
      → row.finished ≡ true
      → keep_from src (row ∷ rest) ≡ keep_from (suc src) rest
  unfolding keep_from
  keep-finished src row rest e = rw (keep_from, e) refl

  keep-going :
      (src : ℕ) (row : Row L) (rest : List (Row L))
      → row.finished ≡ false
      → keep_from src (row ∷ rest) ≡ src ∷ keep_from (suc src) rest
  unfolding keep_from
  keep-going src row rest e = rw (keep_from, e) refl

  gather_next :
      (rest a : List (Row L)) (row moved : Row L) (junk : List (Row L)) (dst src : ℕ)
      → Gathered rest
      → dst ≡ length a
      → src ≡ length a + suc (length junk)
      → gather self_moved moved_from
          (keep_from (suc src) rest)
          (suc dst)
          (a ++ (row ∷ (junk ++ (moved ∷ rest))))
        ≡ a ++ (row ∷ unfinished rest)
  gather_next rest a row moved [] dst src ih e f =
      ap (gather self_moved moved_from (keep_from (suc src) rest) (suc dst))
        (sym (append_assoc a (row ∷ []) (moved ∷ rest)))
      ∙ ih (a ++ (row ∷ [])) moved [] (suc dst) (suc src)
          (omega (arith, e, length-append a (row ∷ [])))
          (omega (arith, f, length-append a (row ∷ [])))
      ∙ append_assoc a (row ∷ []) (unfinished rest)
  gather_next rest a row moved (x ∷ junk) dst src ih e f =
      ap
        (λ l.
          gather self_moved moved_from (keep_from (suc src) rest) (suc dst) (a ++ (row ∷ (x ∷ l))))
        (sym (append_assoc junk (moved ∷ []) rest))
      ∙ ap (gather self_moved moved_from (keep_from (suc src) rest) (suc dst))
          (sym (append_assoc a (row ∷ []) (x ∷ ((junk ++ (moved ∷ [])) ++ rest))))
      ∙ ih (a ++ (row ∷ [])) x (junk ++ (moved ∷ [])) (suc dst) (suc src)
          (omega (arith, e, length-append a (row ∷ [])))
          (omega (arith, f, length-append a (row ∷ []), length-append junk (moved ∷ [])))
      ∙ append_assoc a (row ∷ []) (unfinished rest)

  gather_gap : (rest : List (Row L)) → Gathered rest
  unfolding keep_from gather
  gather_gap [] a j junk dst src e f =
      take-append dst a (j ∷ (junk ++ [])) (sym e) ∙ sym (append-nil a)
  gather_gap (row ∷ rest) a j junk dst src e f = elim (Bool-cases row.finished) [
    | inl c ↦
        ap (λ k. gather self_moved moved_from k dst (a ++ (j ∷ (junk ++ (row ∷ rest)))))
          (keep-finished src row rest c)
        ∙ ap (λ l. gather self_moved moved_from (keep_from (suc src) rest) dst (a ++ (j ∷ l)))
            (sym (append_assoc junk (row ∷ []) rest))
        ∙ gather_gap rest a j (junk ++ (row ∷ [])) dst (suc src) e
            (omega (arith, f, length-append junk (row ∷ [])))
        ∙ ap (λ l. a ++ l) (sym (unfinished-finished row rest c))
    | inr c ↦
        let moved = record row { history = moved_from row.history } in
        ap (λ k. gather self_moved moved_from k dst (a ++ (j ∷ (junk ++ (row ∷ rest)))))
          (keep-going src row rest c)
        ∙ ap (gather self_moved moved_from (keep_from (suc src) rest) (suc dst))
            (there_lem a j junk row rest dst src e f)
        ∙ gather_next rest a row moved junk dst src (gather_gap rest) e f
        ∙ ap (λ l. a ++ l) (sym (unfinished-going row rest c))
  ]

  pub gather_lem :
      (rest a : List (Row L)) (n : ℕ)
      → n ≡ length a
      → gather self_moved moved_from (keep_from n rest) n (a ++ rest)
        ≡ a ++ survivors self_moved rest
  unfolding keep_from gather
  gather_lem [] a n e = take-append n a [] (sym e) ∙ sym (append-nil a)
  gather_lem (row ∷ rest) a n e = elim (Bool-cases row.finished) [
    | inl c ↦
        ap (λ k. gather self_moved moved_from k n (a ++ (row ∷ rest))) (keep-finished n row rest c)
        ∙ gather_gap rest a row [] n (suc n) e (omega (arith, e))
        ∙ ap (λ l. a ++ l) (sym (survivors-finished self_moved row rest c))
    | inr c ↦
        let first = record row { history = self_moved row.history } in
        ap (λ k. gather self_moved moved_from k n (a ++ (row ∷ rest))) (keep-going n row rest c)
        ∙ ap (gather self_moved moved_from (keep_from (suc n) rest) (suc n))
            (here_lem a row rest n e ∙ sym (append_assoc a (first ∷ []) rest))
        ∙ gather_lem rest (a ++ (first ∷ [])) (suc n)
            (omega (arith, e, length-append a (first ∷ [])))
        ∙ append_assoc a (first ∷ []) (survivors self_moved rest)
        ∙ ap (λ l. a ++ l) (sym (survivors-going self_moved row rest c))
  ]

  pub length-keep_from :
      (n : ℕ) (rows : List (Row L)) → length (keep_from n rows) ≡ length (unfinished rows)
  unfolding keep_from
  length-keep_from n [] = refl
  length-keep_from n (row ∷ rows) = ground (arith, length-keep_from (suc n) rows)

pub length-unfinished : {L : Type 0} (rows : List (Row L)) → length (unfinished rows) ≤ length rows
length-unfinished [] = omega arith
length-unfinished (row ∷ rows) = ground (arith, length-unfinished rows)

pub all_unfinished :
    {L : Type 0} (rows : List (Row L))
    → length (unfinished rows) ≡ length rows
    → unfinished rows ≡ rows
all_unfinished [] e = refl
all_unfinished (row ∷ rows) e = elim (Bool-cases row.finished) [
  | inl c ↦
      absurd (
        omega (arith, sym (ap length (unfinished-finished row rows c)) ∙ e, length-unfinished rows))
  | inr c ↦
      let shorter : suc (length (unfinished rows)) ≡ suc (length rows) =
        sym (ap length (unfinished-going row rows c)) ∙ e in
      unfinished-going row rows c ∙ ap (◌∷◌ row) (all_unfinished rows (omega (arith, shorter)))
]
