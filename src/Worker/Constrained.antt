-- ===== src/Worker/Constrained.antt =====
-- src/runtime/worker.cpp with src/sample/json_grammar.cpp: what a row with a grammar writes.
use libmlxforge.Common.{
  ℕ, suc, Bool, true, false, List, [], ◌∷◌, ◌++◌, Option, none, some, Bytes, get_elem?, leb, ◌≡◌,
  refl, sym, ◌∙◌, ap, subst, arith, Bool-cases, Option-cases, inl, inr, ◌⊎◌, append_assoc,
  append-nil,
}
use libmlxforge.Grammar.Feed.{feed, accepts, advance, complete}
use libmlxforge.Grammar.State.{Grammar, Outcome, accept, reject, fault}
use libmlxforge.Worker.Mask.{permits}
use libmlxforge.Worker.Rows.{
  FinishReason, Request, is_eos, bytes_of, consume, advance_grammar, is_among,
}

-- The text that tokens stand for.
abbrev pub spell : List Bytes → List ℕ → Bytes
spell token_bytes [] = []
spell token_bytes (id ∷ ids) = bytes_of token_bytes id ++ spell token_bytes ids

spell-append :
    (tb : List Bytes) (a : List ℕ) (id : ℕ)
    → spell tb (a ++ (id ∷ [])) ≡ spell tb a ++ bytes_of tb id
spell-append tb [] id = append-nil (bytes_of tb id)
spell-append tb (x ∷ a) id =
    ap (λ z. bytes_of tb x ++ z) (spell-append tb a id)
    ∙ sym (append_assoc (bytes_of tb x) (spell tb a) (bytes_of tb id))

run_step :
    (g : Grammar) (b : ℕ) (xs ys : Bytes) (o : Outcome)
    → feed g b ≡ o
    → accepts g (b ∷ xs) ≡ true
    → ((h : Grammar)
        → accepts h xs ≡ true
        → accepts (advance h xs) ys ≡ true
        → (accepts h (xs ++ ys) ≡ true) × (advance h (xs ++ ys) ≡ advance (advance h xs) ys))
    → accepts (advance g (b ∷ xs)) ys ≡ true
    → (accepts g (b ∷ (xs ++ ys)) ≡ true)
      × (advance g (b ∷ (xs ++ ys)) ≡ advance (advance g (b ∷ xs)) ys)
unfolding accepts advance
run_step g b xs ys (accept h) q e ih f =
    rw (q, accepts, advance) (ih h (rw (q, accepts) at e) (rw (q, advance) at f))
run_step g b xs ys (reject h) q e ih f =
    absurd (cc (let z : false ≡ true = rw (q, accepts) at e in z))
run_step g b xs ys fault q e ih f = absurd (cc (let z : false ≡ true = rw (q, accepts) at e in z))

-- Two runs in a row.
run_append :
    (xs ys : Bytes) (g : Grammar)
    → accepts g xs ≡ true
    → accepts (advance g xs) ys ≡ true
    → (accepts g (xs ++ ys) ≡ true) × (advance g (xs ++ ys) ≡ advance (advance g xs) ys)
run_append [] ys g e f = unfold advance in (f, refl)
run_append (x ∷ xs) ys g e f = run_step g x xs ys (feed g x) refl e (run_append xs ys) f

-- What holds of a request with the grammar that `start` was.
pub record Follows (L : Type 0) (tb : List Bytes) (start : Grammar) (req : Request L)
    (finished : Bool) : Type 0 where
  pub taken : accepts start (spell tb req.tokens) ≡ true
  pub state : finished ≡ false → req.grammar ≡ some (advance start (spell tb req.tokens))
  pub going : finished ≡ false → req.finish_reason ≡ none
  pub ended :
      req.finish_reason ≡ some FinishReason.stop
      → complete (advance start (spell tb req.tokens)) ≡ true

module _ {L : Type 0} (tb : List Bytes) where
  advance_grammar_step :
      (req : Request L) (id : ℕ) (g : Grammar) (bs : Bytes)
      → req.grammar ≡ some g
      → get_elem? tb id ≡ some bs
      → advance_grammar tb req id ≡ record req { grammar = some (advance g bs) }
  unfolding advance_grammar
  advance_grammar_step req id g bs e f = rw (advance_grammar, e, f) refl

  pub advance_grammar_frame :
      (req : Request L) (id : ℕ)
      → ((advance_grammar tb req id).tokens ≡ req.tokens)
        × ((advance_grammar tb req id).eos_ids ≡ req.eos_ids)
        × ((advance_grammar tb req id).finish_reason ≡ req.finish_reason)
  unfolding advance_grammar
  advance_grammar_frame req id = elim (Option-cases req.grammar) [
    | inl e ↦ rw (advance_grammar, e) (refl, refl, refl)
    | inr (g, e) ↦ elim (Option-cases (get_elem? tb id)) [
      | inl f ↦ rw (advance_grammar, e, f) (refl, refl, refl)
      | inr (bs, f) ↦ rw (advance_grammar, e, f) (refl, refl, refl)
    ]
  ]

  consume_eos :
      (req : Request L) (n id : ℕ) (lp : Option L)
      → is_eos req id ≡ true
      → ◌≡◌ {A = Request L × ℕ × Bool}
          (consume req n id lp)
          (record req { finish_reason = some FinishReason.stop }, n, true)
  unfolding consume
  consume_eos req n id lp e = rw (consume, e) refl

  consume_token :
      (req : Request L) (n id : ℕ) (lp : Option L)
      → is_eos req id ≡ false
      → ((consume req n id lp).0.tokens ≡ req.tokens ++ (id ∷ []))
        × ((consume req n id lp).0.grammar ≡ req.grammar)
        × (((consume req n id lp).2 ≡ true)
              × ((consume req n id lp).0.finish_reason ≡ some FinishReason.length_)
            ⊎ ((consume req n id lp).2 ≡ false)
              × ((consume req n id lp).0.finish_reason ≡ req.finish_reason))
  unfolding consume
  consume_token req n id lp e = elim (Bool-cases (leb req.max_tokens (suc n))) [
    | inl f ↦ rw (consume, e, f) (refl, refl, inl (refl, refl))
    | inr f ↦ rw (consume, e, f) (refl, refl, inr (refl, refl))
  ]

-- A permitted token that is not an end token has bytes, and the grammar takes them.
permits_token :
    {L : Type 0} (tb : List Bytes) (req : Request L) (g : Grammar) (id : ℕ)
    → is_eos req id ≡ false
    → permits tb req g id ≡ true
    → (get_elem? tb id ≡ some (bytes_of tb id)) × (accepts g (bytes_of tb id) ≡ true)
permits_token tb req g id e p = elim (Bool-cases (complete g)) [
  | inl c ↦ absurd (cc (let z : false ≡ true = rw (e, c) at p in z))
  | inr c ↦ elim (Option-cases (get_elem? tb id)) [
    | inl n ↦ absurd (cc (let z : false ≡ true = rw (e, c, n) at p in z))
    | inr ([], n) ↦ absurd (cc (let z : false ≡ true = rw (e, c, n) at p in z))
    | inr (b ∷ bs, n) ↦
        let q : bytes_of tb id ≡ b ∷ bs = ap (λ o. elim o [ none ↦ [] | some x ↦ x ]) n in
        (n ∙ ap some (sym q), subst (λ z. accepts g z ≡ true) (sym q) (rw (e, c, n) at p))
  ]
]

permits_eos :
    {L : Type 0} (tb : List Bytes) (req : Request L) (g : Grammar) (id : ℕ)
    → is_eos req id ≡ true
    → permits tb req g id ≡ true
    → complete g ≡ true
permits_eos tb req g id e p = rw e at p

length_not_stop : some FinishReason.length_ ≡ some FinishReason.stop → ⊥
length_not_stop e = cc

none_not_stop : ◌≡◌ {A = Option FinishReason} none (some FinishReason.stop) → ⊥
none_not_stop e = cc

pub cancel_not_stop : some FinishReason.cancel ≡ some FinishReason.stop → ⊥
cancel_not_stop e = cc

module _ {L : Type 0} (tb : List Bytes) (start : Grammar) where
  emit_eos :
      (req : Request L) (n id : ℕ) (lp : Option L)
      → Follows L tb start req false
      → is_eos req id ≡ true
      → permits tb req (advance start (spell tb req.tokens)) id ≡ true
      → Follows L tb start
          (consume (advance_grammar tb req id) n id lp).0
          (consume (advance_grammar tb req id) n id lp).2
  emit_eos req n id lp v e p =
      let (t, i, f) = advance_grammar_frame tb req id in
      let same : spell tb req.tokens ≡ spell tb (advance_grammar tb req id).tokens =
        ap (spell tb) (sym t) in
      rw (consume_eos tb (advance_grammar tb req id) n id lp (ap (is_among id) i ∙ e)) (record {
        taken = subst (λ z. accepts start z ≡ true) same v.taken;
        state = λ q. cc;
        going = λ q. cc;
        ended = λ q.
            subst (λ z. complete (advance start z) ≡ true) same
              (permits_eos tb req (advance start (spell tb req.tokens)) id e p);
      })

  emit_token :
      (req : Request L) (n id : ℕ) (lp : Option L)
      → Follows L tb start req false
      → is_eos req id ≡ false
      → permits tb req (advance start (spell tb req.tokens)) id ≡ true
      → Follows L tb start
          (consume (advance_grammar tb req id) n id lp).0
          (consume (advance_grammar tb req id) n id lp).2
  emit_token req n id lp v e p =
      let g = advance start (spell tb req.tokens) in
      let bs = bytes_of tb id in
      let (t, i, f) = advance_grammar_frame tb req id in
      let (has, ok) = permits_token tb req g id e p in
      let (tok, gram, fin) =
        consume_token tb (advance_grammar tb req id) n id lp (ap (is_among id) i ∙ e) in
      let after = consume (advance_grammar tb req id) n id lp in
      let (run, same) = run_append (spell tb req.tokens) bs start v.taken ok in
      let text : spell tb req.tokens ++ bs ≡ spell tb after.0.tokens =
        sym (ap (spell tb) (tok ∙ ap (λ z. z ++ (id ∷ [])) t) ∙ spell-append tb req.tokens id) in
      let was : (advance_grammar tb req id).grammar ≡ some (advance g bs) =
        ap (λ r. r.grammar) (advance_grammar_step tb req id g bs (v.state refl) has) in
      record {
        taken = subst (λ z. accepts start z ≡ true) text run;
        state = λ q. gram ∙ was ∙ ap some (sym same) ∙ ap (λ z. some (advance start z)) text;
        going = λ q. elim fin [
          | inl (a, b) ↦ absurd (ground (arith, a, q))
          | inr (a, b) ↦ b ∙ f ∙ v.going refl
        ];
        ended = λ q. elim fin [
          | inl (a, b) ↦ absurd (length_not_stop (sym b ∙ q))
          | inr (a, b) ↦ absurd (none_not_stop (sym (b ∙ f ∙ v.going refl) ∙ q))
        ];
      }

  pub emit :
      (req : Request L) (n id : ℕ) (lp : Option L)
      → Follows L tb start req false
      → permits tb req (advance start (spell tb req.tokens)) id ≡ true
      → Follows L tb start
          (consume (advance_grammar tb req id) n id lp).0
          (consume (advance_grammar tb req id) n id lp).2
  emit req n id lp v p = elim (Bool-cases (is_eos req id)) [
    | inl e ↦ emit_eos req n id lp v e p
    | inr e ↦ emit_token req n id lp v e p
  ]
