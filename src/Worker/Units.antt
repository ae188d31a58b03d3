-- ===== src/Worker/Units.antt =====
-- src/runtime/worker.cpp, `enqueue_admissions`: the prefill units that it makes.
use libmlxforge.Common.{
  ℕ, zero, suc, ◌-◌, ◌≤◌, ◌<◌, List, [], ◌∷◌, ◌++◌, Option, none, some, map, length, replicate,
  drop, ltb, ◌≡◌, refl, ◌∙◌, ap, sym, append_assoc, append-nil, ◌==◌, if◌then◌else◌, ◌⊎◌, true,
  false, arith, Bool-cases, inl, inr, length-append, length-replicate, drop-append, length-drop,
}
use libmlxforge.Worker.Rows.{Request}
use libmlxforge.Worker.Admit.{
  PendingPrefill, p_max, pad_row, split_prefix, warm_unit, cold_unit, enqueue_admissions,
}

-- Each row has the unit's columns and ends with the prompt of its request, but for what is reused.
abbrev pub Rows : {L : Type 0} → ℕ → ℕ → List (Request L) → List (List ℕ) → Type 0
Rows n reused [] [] = Unit
Rows n reused [] (row ∷ rows) = ⊥
Rows n reused (r ∷ reqs) [] = ⊥
Rows n reused (r ∷ reqs) (row ∷ rows) =
    (length row ≡ n)
    × (drop (n - (length r.prompt_ids - reused)) row ≡ drop reused r.prompt_ids)
    × Rows n reused reqs rows

pub record IsUnit {L K : Type 0} (u : PendingPrefill L K) : Type 0 where
  pub work : u.pos < u.n_total
  pub rows : Rows u.n_total u.reused_tokens u.reqs u.tokens

abbrev pub AllPrompts : {L : Type 0} → List (Request L) → Type 0
AllPrompts [] = Unit
AllPrompts (r ∷ l) = (0 < length r.prompt_ids) × AllPrompts l

-- All requests of the units, in their order.
abbrev pub reqs_of : {L K : Type 0} → List (PendingPrefill L K) → List (Request L)
reqs_of [] = []
reqs_of (u ∷ l) = u.reqs ++ reqs_of l

-- The requests that match, and those that do not, one match after the other.
abbrev pub hits :
    {L M P : Type 0} → Option (P → List ℕ → P × M × ℕ) → P → List (Request L) → List (Request L)
hits lookup pool [] = []
hits {L} {M} {P} none pool (r ∷ l) = hits {M = M} none pool l
hits (some match_) pool (r ∷ l) =
    let m = match_ pool r.prompt_ids in
    let rest = hits (some match_) m.0 l in if m.2 == 0 then rest else r ∷ rest

abbrev pub misses :
    {L M P : Type 0} → Option (P → List ℕ → P × M × ℕ) → P → List (Request L) → List (Request L)
misses lookup pool [] = []
misses {L} {M} {P} none pool (r ∷ l) = r ∷ misses {M = M} none pool l
misses (some match_) pool (r ∷ l) =
    let m = match_ pool r.prompt_ids in
    let rest = misses (some match_) m.0 l in if m.2 == 0 then r ∷ rest else rest

Rows-pad_row :
    {L : Type 0} (n : ℕ) (l : List (Request L)) → p_max l ≤ n → Rows n 0 l (map (pad_row n) l)
unfolding p_max pad_row
Rows-pad_row n [] h = tt
Rows-pad_row n (r ∷ l) h =
    let pad = n - length r.prompt_ids in
    (
      omega
          (arith, h, length-append (replicate pad 0) r.prompt_ids, length-replicate {A = ℕ} pad 0),
      ap (λ k. drop k (replicate pad 0 ++ r.prompt_ids)) {x = n - (length r.prompt_ids - 0)}
            {y = pad} (omega arith)
          ∙ drop-append pad (replicate pad 0) r.prompt_ids (length-replicate {A = ℕ} pad 0),
      Rows-pad_row n l (omega (arith, h)),
    )

reqs_of-append :
    {L K : Type 0} (a b : List (PendingPrefill L K)) → reqs_of (a ++ b) ≡ reqs_of a ++ reqs_of b
reqs_of-append [] b = refl
reqs_of-append (u ∷ a) b =
    ap (λ l. u.reqs ++ l) (reqs_of-append a b) ∙ sym (append_assoc u.reqs (reqs_of a) (reqs_of b))

-- A match leaves a token of the prompt to compute.
abbrev pub Leaves : {M P : Type 0} → Option (P → List ℕ → P × M × ℕ) → Type 0
Leaves none = Unit
Leaves {M} {P} (some match_) =
    (pool : P) (ids : List ℕ) → 0 < length ids → (match_ pool ids).2 < length ids

drop_none : (k : ℕ) (row : List ℕ) → k ≡ 0 → drop k row ≡ row
drop_none zero row e = refl
drop_none (suc k) row e = absurd (omega (arith, e))

cold_rows :
    {L K : Type 0} (empty_cache : List ℕ → K) (r : Request L) (l : List (Request L))
    → AllPrompts (r ∷ l)
    → IsUnit {K = K} (record {
      reqs = r ∷ l;
      tokens = map (pad_row (p_max (r ∷ l))) (r ∷ l);
      cache = empty_cache (map (λ q. p_max (r ∷ l) - length q.prompt_ids) (r ∷ l));
      n_total = p_max (r ∷ l);
      pos = 0;
      reused_tokens = 0;
    })
unfolding p_max
cold_rows empty_cache r l h = record {
  work = omega (arith, h.0);
  rows = Rows-pad_row (p_max (r ∷ l)) (r ∷ l) (omega arith);
}

module _ {L M K P : Type 0} (from_prefix : M → ℕ → K) (empty_cache : List ℕ → K) where
  -- The cache is empty but for the padding, or it holds what a match of the request gave.
  abbrev pub IsSeeded : Option (P → List ℕ → P × M × ℕ) → PendingPrefill L K → Type 0
  IsSeeded none u =
      (u.reused_tokens ≡ 0)
      × (u.cache ≡ empty_cache (map (λ q. u.n_total - length q.prompt_ids) u.reqs))
  IsSeeded (some match_) u =
      ((u.reused_tokens ≡ 0)
        × (u.cache ≡ empty_cache (map (λ q. u.n_total - length q.prompt_ids) u.reqs)))
      ⊎ ((pool : P) × (r : Request L) × (u.reqs ≡ r ∷ [])
          × (u.reused_tokens ≡ (match_ pool r.prompt_ids).2)
          × (u.cache ≡ from_prefix (match_ pool r.prompt_ids).1 (match_ pool r.prompt_ids).2))

  -- Units that nothing was fed to yet.
  abbrev pub AllFresh : Option (P → List ℕ → P × M × ℕ) → List (PendingPrefill L K) → Type 0
  AllFresh lookup [] = Unit
  AllFresh lookup (u ∷ l) = ((u.pos ≡ 0) × IsUnit u × IsSeeded lookup u) × AllFresh lookup l

  AllFresh-append :
      (lookup : Option (P → List ℕ → P × M × ℕ)) (a b : List (PendingPrefill L K))
      → AllFresh lookup a
      → AllFresh lookup b
      → AllFresh lookup (a ++ b)
  AllFresh-append lookup [] b p q = q
  AllFresh-append lookup (u ∷ a) b p q = (p.0, AllFresh-append lookup a b p.1 q)

  cold_unit_lem :
      (lookup : Option (P → List ℕ → P × M × ℕ)) (l : List (Request L))
      → AllPrompts l
      → AllFresh lookup (cold_unit from_prefix empty_cache l)
        × (reqs_of (cold_unit from_prefix empty_cache l) ≡ l)
  unfolding cold_unit p_max
  cold_unit_lem lookup [] h = (tt, refl)
  cold_unit_lem none (r ∷ l) h =
      (((refl, cold_rows empty_cache r l h, (refl, refl)), tt), append-nil (r ∷ l))
  cold_unit_lem (some match_) (r ∷ l) h =
      (((refl, cold_rows empty_cache r l h, inl (refl, refl)), tt), append-nil (r ∷ l))

  warm_unit_lem :
      (match_ : P → List ℕ → P × M × ℕ) (pool : P) (r : Request L)
      → (match_ pool r.prompt_ids).2 < length r.prompt_ids
      → AllFresh (some match_) (
          warm_unit from_prefix empty_cache
            (r, (match_ pool r.prompt_ids).1, (match_ pool r.prompt_ids).2)
          ∷ [])
  unfolding warm_unit
  warm_unit_lem match_ pool r l =
      let n = (match_ pool r.prompt_ids).2 in
      (
        (
          refl,
          record {
            work = omega (arith, l);
            rows = (
              length-drop n r.prompt_ids,
              drop_none (length r.prompt_ids - n - (length r.prompt_ids - n)) (drop n r.prompt_ids)
                  (omega arith),
              tt,
            );
          },
          inr (pool, r, refl, refl, refl),
        ),
        tt,
      )

  -- What the split makes of a list of requests.
  abbrev Split : Option (P → List ℕ → P × M × ℕ) → P → List (Request L) → Type 0
  Split lookup pool l =
      AllFresh lookup (map (warm_unit from_prefix empty_cache) (split_prefix lookup pool l).1)
      × AllPrompts (split_prefix lookup pool l).2
      × (reqs_of (map (warm_unit from_prefix empty_cache) (split_prefix lookup pool l).1)
          ≡ hits lookup pool l)
      × ((split_prefix lookup pool l).2 ≡ misses lookup pool l)

  split_prefix_lem :
      (lookup : Option (P → List ℕ → P × M × ℕ)) (pool : P) (l : List (Request L))
      → Leaves lookup
      → AllPrompts l
      → Split lookup pool l
  unfolding split_prefix warm_unit
  split_prefix_lem lookup pool [] v h = (tt, tt, refl, refl)
  split_prefix_lem none pool (r ∷ l) v h =
      let (a, b, c, d) = split_prefix_lem none pool l v h.1 in (a, (h.0, b), c, ap (◌∷◌ r) d)
  split_prefix_lem (some match_) pool (r ∷ l) v h =
      let m = match_ pool r.prompt_ids in
      let (a, b, c, d) = split_prefix_lem (some match_) m.0 l v h.1 in
      elim (Bool-cases (ltb 0 m.2)) [
        | inl e ↦
            let z : (m.2 == 0) ≡ false = ground (arith, e) in
            let u = warm_unit_lem match_ pool r (v pool r.prompt_ids h.0) in
            rw (split_prefix, e, z) ((u.0, a), b, ap (◌∷◌ r) c, d)
        | inr e ↦
            let z : (m.2 == 0) ≡ true = ground (arith, e) in
            rw (split_prefix, e, z) (a, (h.0, b), c, ap (◌∷◌ r) d)
      ]

  -- Where no prompt is empty and a match leaves a token to compute: new units come behind those that
  -- wait. Their requests are, each once and unchanged, those that match and then those that do not,
  -- with the matches made one after the other. Nothing is fed to a unit yet; it has columns to feed
  -- and gives each request a row of all of them that ends with its prompt, less what is reused; and
  -- its cache is empty but for the padding, or what the match of its one request seeds.
  pub enqueue_admissions_lem :
      (lookup : Option (P → List ℕ → P × M × ℕ)) (pool : P) (l : List (Request L))
      (pending : List (PendingPrefill L K))
      → Leaves lookup
      → AllPrompts l
      → (units : List (PendingPrefill L K)) × ((enqueue_admissions from_prefix empty_cache lookup
            pool l pending).1
          ≡ pending ++ units)
        × AllFresh lookup units
        × (reqs_of units ≡ hits lookup pool l ++ misses lookup pool l)
  unfolding enqueue_admissions
  enqueue_admissions_lem lookup pool l pending v h =
      let split = split_prefix lookup pool l in
      let warm = map (warm_unit from_prefix empty_cache) split.1 in
      let cold = cold_unit from_prefix empty_cache split.2 in
      let (a, b, c, d) = split_prefix_lem lookup pool l v h in
      let (e, f) = cold_unit_lem lookup split.2 b in
      (
        warm ++ cold,
        refl,
        AllFresh-append lookup warm cold a e,
        reqs_of-append warm cold
            ∙ ap (λ z. z ++ reqs_of cold) c
            ∙ ap (λ z. hits lookup pool l ++ z) (f ∙ d),
      )
