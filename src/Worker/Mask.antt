-- ===== src/Worker/Mask.antt =====
-- src/runtime/worker.cpp, `grammar_mask`: the test of first bytes loses no token.
use libmlxforge.Common.{
  ℕ, zero, suc, ◌+◌, ◌≤◌, ◌<◌, Bool, true, false, List, [], ◌∷◌, none, some, Bytes, replicate,
  get_elem?, ltb, if◌then◌else◌, ◌≡◌, refl, sym, ◌∙◌, ap, arith, Bool-cases, inl, inr, ◌⊎◌,
}
use libmlxforge.Grammar.Feed.{feed, accepts, complete}
use libmlxforge.Grammar.State.{Grammar, Outcome, accept, reject, fault}
use libmlxforge.Token.Alphabet.{AllBytes}
use libmlxforge.Worker.Rows.{
  Request, is_eos, bytes_of, first_ok, is_first_ok, allow, allow_from, any_true, grammar_mask,
}

-- What the mask is to let through: an end token when the value is complete, before that the tokens
-- whose bytes the grammar takes, but the empty ones.
abbrev pub permits : {L : Type 0} → List Bytes → Request L → Grammar → ℕ → Bool
permits token_bytes req g id =
    if is_eos req id
    then complete g
    else if complete g
    then false
    else elim (bytes_of token_bytes id) [ [] ↦ false | b ∷ bs ↦ accepts g (b ∷ bs) ]

accepts-first_step :
    (g : Grammar) (b : ℕ) (bs : Bytes) (o : Outcome)
    → feed g b ≡ o
    → accepts g (b ∷ bs) ≡ true
    → accepts g (b ∷ []) ≡ true
unfolding accepts
accepts-first_step g b bs (accept h) q e = rw (q, accepts) refl
accepts-first_step g b bs (reject h) q e =
    absurd (cc (let z : false ≡ true = rw (q, accepts) at e in z))
accepts-first_step g b bs fault q e = absurd (cc (let z : false ≡ true = rw (q, accepts) at e in z))

accepts_first :
    (g : Grammar) (b : ℕ) (bs : Bytes) → accepts g (b ∷ bs) ≡ true → accepts g (b ∷ []) ≡ true
accepts_first g b bs e = accepts-first_step g b bs (feed g b) refl e

get_elem?-first_ok :
    (g : Grammar) (n b k : ℕ)
    → k < n
    → get_elem? (first_ok g n b) k ≡ some (accepts g ((b + k) ∷ []))
unfolding first_ok
get_elem?-first_ok g zero b k l = absurd (omega (arith, l))
get_elem?-first_ok g (suc n) b zero l = ap (λ z. some (accepts g (z ∷ []))) (omega arith)
get_elem?-first_ok g (suc n) b (suc k) l =
    get_elem?-first_ok g n (suc b) k (omega (arith, l))
    ∙ ap (λ z. some (accepts g (z ∷ []))) (omega arith)

module _ {L : Type 0} (token_bytes : List Bytes) (req : Request L) (g : Grammar) where
  get_elem?-allow_from :
      (table : List Bool) (n id k : ℕ)
      → k < n
      → get_elem? (allow_from token_bytes req g table n id) k
        ≡ some (allow token_bytes req g table (id + k))
  unfolding allow_from
  get_elem?-allow_from table zero id k l = absurd (omega (arith, l))
  get_elem?-allow_from table (suc n) id zero l =
      ap (λ z. some (allow token_bytes req g table z)) (omega arith)
  get_elem?-allow_from table (suc n) id (suc k) l =
      get_elem?-allow_from table n (suc id) k (omega (arith, l))
      ∙ ap (λ z. some (allow token_bytes req g table z)) (omega arith)

  first_value :
      (table : List Bool) (b : ℕ) (v : Bool) → get_elem? table b ≡ some v → is_first_ok table b ≡ v
  first_value table b v e = ap (λ o. elim o [ none ↦ false | some ok ↦ ok ]) e

  first_then :
      (b : ℕ) (bs : Bytes)
      → (if accepts g (b ∷ []) then accepts g (b ∷ bs) else false) ≡ accepts g (b ∷ bs)
  first_then b bs = elim (Bool-cases (accepts g (b ∷ []))) [
    | inl h ↦ rw h refl
    | inr h ↦ elim (Bool-cases (accepts g (b ∷ bs))) [
      | inl k ↦ absurd (ground (arith, h, accepts_first g b bs k))
      | inr k ↦ rw (h, k) refl
    ]
  ]

  first_exact :
      (table : List Bool) (b : ℕ) (bs : Bytes)
      → table ≡ first_ok g 256 0
      → b < 256
      → (if is_first_ok table b then accepts g (b ∷ bs) else false) ≡ accepts g (b ∷ bs)
  first_exact table b bs t l =
      let zero_left : 0 + b ≡ b = omega arith in
      let e : get_elem? table b ≡ some (accepts g (b ∷ [])) =
        ap (λ z. get_elem? z b) t
        ∙ get_elem?-first_ok g 256 0 b l
        ∙ ap (λ z. some (accepts g (z ∷ []))) zero_left in
      ap (λ z. if z then accepts g (b ∷ bs) else false) (first_value table b (accepts g (b ∷ [])) e)
      ∙ first_then b bs

  allow-bytes :
      (table : List Bool) (id : ℕ) (bs : Bytes)
      → table ≡ first_ok g 256 0
      → bytes_of token_bytes id ≡ bs
      → is_eos req id ≡ false
      → complete g ≡ false
      → AllBytes bs
      → allow token_bytes req g table id ≡ permits token_bytes req g id
  unfolding allow
  allow-bytes table id [] t q e c a = rw (allow, e, c, q) refl
  allow-bytes table id (b ∷ bs) t q e c a = rw (allow, e, c, q) (first_exact table b bs t a.0)

  allow_lem :
      (table : List Bool) (id : ℕ)
      → (complete g ≡ false → table ≡ first_ok g 256 0)
      → AllBytes (bytes_of token_bytes id)
      → allow token_bytes req g table id ≡ permits token_bytes req g id
  unfolding allow
  allow_lem table id t a = elim (Bool-cases (is_eos req id)) [
    | inl e ↦ rw (allow, e) refl
    | inr e ↦ elim (Bool-cases (complete g)) [
      | inl c ↦ rw (allow, e, c) refl
      | inr c ↦ allow-bytes table id (bytes_of token_bytes id) (t c) refl e c a
    ]
  ]

any_true_lem :
    (l : List Bool)
    → ((any_true l ≡ true) × (k : ℕ) × (get_elem? l k ≡ some true))
      ⊎ ((any_true l ≡ false) × ((k : ℕ) (b : Bool) → get_elem? l k ≡ some b → b ≡ false))
any_true_lem [] = inr (refl, λ k b e. cc)
any_true_lem (true ∷ l) = inl (refl, 0, refl)
any_true_lem (false ∷ l) = elim (any_true_lem l) [
  | inl (e, k, g) ↦ inl (e, suc k, g)
  | inr (e, f) ↦ inr (e, below f)
]
  where
    below :
        ((k : ℕ) (b : Bool) → get_elem? l k ≡ some b → b ≡ false)
        → (k : ℕ) (b : Bool) → get_elem? (false ∷ l) k ≡ some b
        → b ≡ false
    below f zero b e = cc
    below f (suc k) b e = f k b e

get_elem?-past_allow_from :
    {L : Type 0} (tb : List Bytes) (req : Request L) (g : Grammar) (table : List Bool) (n id k : ℕ)
    → n ≤ k
    → get_elem? (allow_from tb req g table n id) k ≡ none
unfolding allow_from
get_elem?-past_allow_from tb req g table zero id k l = refl
get_elem?-past_allow_from tb req g table (suc n) id zero l = absurd (omega (arith, l))
get_elem?-past_allow_from tb req g table (suc n) id (suc k) l =
    get_elem?-past_allow_from tb req g table n (suc id) k (omega (arith, l))

-- The mask lets through exactly the tokens that it is to let through. Where that is none of the
-- vocabulary it lets all of them through.
pub grammar_mask_lem :
    {L : Type 0} (token_bytes : List Bytes) (req : Request L) (g : Grammar) (vocab : ℕ)
    → ((id : ℕ) → AllBytes (bytes_of token_bytes id))
    → (((id : ℕ) × (id < vocab) × (permits token_bytes req g id ≡ true))
        × ((id : ℕ)
            → id < vocab
            → get_elem? (grammar_mask token_bytes req g vocab) id
              ≡ some (permits token_bytes req g id)))
      ⊎ (((id : ℕ) → id < vocab → permits token_bytes req g id ≡ false)
          × (grammar_mask token_bytes req g vocab ≡ replicate vocab true))
unfolding grammar_mask
grammar_mask_lem token_bytes req g vocab a =
    let table = if complete g then [] else first_ok g 256 0 in
    let mask = allow_from token_bytes req g table vocab 0 in
    let entry : (id : ℕ) → id < vocab → get_elem? mask id ≡ some (permits token_bytes req g id) =
      λ id l.
        get_elem?-allow_from token_bytes req g table vocab 0 id l
        ∙ ap (λ z. some (allow token_bytes req g table z)) {x = 0 + id} {y = id} (omega arith)
        ∙ ap some (
            allow_lem token_bytes req g table id
              (λ c. ap (λ z. if z then [] else first_ok g 256 0) c) (a id)) in
    elim (any_true_lem mask) [
      | inl (e, k, f) ↦ elim (Bool-cases (ltb k vocab)) [
        | inl t ↦ inl (
          (
            k,
            ground (arith, t),
            some_bool (permits token_bytes req g k) true (sym (entry k (ground (arith, t))) ∙ f),
          ),
          rw (grammar_mask, e) entry,
        )
        | inr t ↦ absurd (
            ground (
              arith,
              f,
              get_elem?-past_allow_from token_bytes req g table vocab 0 k (ground (arith, t)),
            ))
      ]
      | inr (e, f) ↦
          inr
            ((λ id l. f id (permits token_bytes req g id) (entry id l)), rw (grammar_mask, e) refl)
    ]
  where
    some_bool : (b c : Bool) → some b ≡ some c → b ≡ c
    some_bool b c e = cc
