-- ===== src/Worker/Runs.antt =====
-- src/runtime/worker.cpp with src/sample/json_grammar.cpp: any number of steps of a row with a grammar.
use libmlxforge.Common.{
  ℕ, ◌<◌, Bool, true, false, List, [], ◌∷◌, ◌++◌, Option, none, some, Bytes, get_elem?, ◌≡◌, refl,
  sym, ◌∙◌, ap, subst, arith, Bool-cases, inl, inr,
}
use libmlxforge.Grammar.Decides.{any_value-decides}
use libmlxforge.Grammar.Feed.{accepts, advance, set_compact}
use libmlxforge.Grammar.Prefix.{accepts-IsPrefix}
use libmlxforge.Grammar.State.{Grammar, any_value}
use libmlxforge.Grammar.Text.{JsonText}
use libmlxforge.Token.Alphabet.{AllBytes}
use libmlxforge.Worker.Mask.{permits, grammar_mask_lem}
use libmlxforge.Worker.Rows.{
  FinishReason, Request, Row, bytes_of, grammar_mask, decode_row, first_row, new_row,
}
use libmlxforge.Worker.Constrained.{spell, Follows, emit, advance_grammar_frame, cancel_not_stop}

-- The sampler picked a token that the mask lets through, where there is one to let through.
abbrev pub IsSampled : {L : Type 0} → List Bytes → ℕ → Row L → ℕ → Type 0
IsSampled tb vocab row id =
    (g : Grammar)
    → row.req.grammar ≡ some g
    → (id < vocab)
      × (get_elem? (grammar_mask tb row.req g vocab) id ≡ some true)
      × ((k : ℕ) × (k < vocab) × (permits tb row.req g k ≡ true))

-- Any number of decode steps of a row, each with its sample and its flag `cancelled`.
pub data Steps {L : Type 0} (tb : List Bytes) (vocab : ℕ) : Row L → Row L → Type 0 where
  done : {row : Row L} → Steps tb vocab row row
  next :
      {row end : Row L} (cancelled : Bool) (id : ℕ) (lp : Option L)
      → (row.finished ≡ false → IsSampled tb vocab row id)
      → Steps tb vocab (decode_row tb cancelled id lp row) end
      → Steps tb vocab row end

module _ {L : Type 0} (tb : List Bytes) (vocab : ℕ) (start : Grammar)
    (all_bytes : (id : ℕ) → AllBytes (bytes_of tb id)) where
  sampled_permits :
      (row : Row L) (id : ℕ) (g : Grammar)
      → row.req.grammar ≡ some g
      → IsSampled tb vocab row id
      → permits tb row.req g id ≡ true
  sampled_permits row id g e s =
      let (l, m, (k, kl, kp)) = s g e in
      elim (grammar_mask_lem tb row.req g vocab all_bytes) [
        | inl (x, f) ↦ some_bool (permits tb row.req g id) true (sym (f id l) ∙ m)
        | inr (f, q) ↦ absurd (ground (arith, f k kl, kp))
      ]
    where
      some_bool : (b c : Bool) → some b ≡ some c → b ≡ c
      some_bool b c e = cc

  decode_row-Follows :
      (row : Row L) (cancelled : Bool) (id : ℕ) (lp : Option L)
      → (row.finished ≡ false → IsSampled tb vocab row id)
      → Follows L tb start row.req row.finished
      → Follows L tb start
          (decode_row tb cancelled id lp row).req
          (decode_row tb cancelled id lp row).finished
  unfolding decode_row
  decode_row-Follows row cancelled id lp s v = elim (Bool-cases row.finished) [
    | inl e ↦ rw (decode_row, e) (subst (Follows L tb start row.req) e v)
    | inr e ↦ elim (Bool-cases cancelled) [
      | inl c ↦
          rw (decode_row, e, c)
            (record {
              taken = v.taken;
              state = λ q. cc;
              going = λ q. cc;
              ended = λ q. absurd (cancel_not_stop q);
            })
      | inr c ↦
          rw (decode_row, e, c)
            (emit tb start row.req row.produced id lp (subst (Follows L tb start row.req) e v)
              (sampled_permits row id (advance start (spell tb row.req.tokens)) (v.state e) (s e)))
    ]
  ]

  Steps-Follows :
      {row end : Row L}
      → Steps tb vocab row end
      → Follows L tb start row.req row.finished
      → Follows L tb start end.req end.finished
  Steps-Follows done v = v
  Steps-Follows (Steps.next {row} {end} cancelled id lp s st) v =
      Steps-Follows st (decode_row-Follows row cancelled id lp s v)

  first_row-Follows :
      (row : Row L) (cancelled : Bool) (id : ℕ) (lp : Option L)
      → IsSampled tb vocab row id
      → Follows L tb start row.req false
      → Follows L tb start
          (first_row tb cancelled id lp row).req
          (first_row tb cancelled id lp row).finished
  unfolding first_row
  first_row-Follows row cancelled id lp s v =
      let (t, i, f) = advance_grammar_frame tb row.req id in
      elim (Bool-cases cancelled) [
        | inl c ↦
            rw (first_row, c)
              (record {
                taken = subst (λ z. accepts start z ≡ true) (ap (spell tb) (sym t)) v.taken;
                state = λ q. cc;
                going = λ q. cc;
                ended = λ q. absurd (cancel_not_stop q);
              })
        | inr c ↦
            rw (first_row, c)
              (emit tb start row.req row.produced id lp v
                (sampled_permits row id (advance start (spell tb row.req.tokens)) (v.state refl) s))
      ]

none_not_stop : ◌≡◌ {A = Option FinishReason} none (some FinishReason.stop) → ⊥
none_not_stop e = cc

new_row-Follows :
    {L : Type 0} (tb : List Bytes) (compile : Bytes → Grammar) (req : Request L) (c : ℕ)
    (cs : Bytes)
    → req.json_schema ≡ c ∷ cs
    → req.tokens ≡ []
    → req.finish_reason ≡ none
    → Follows L tb (set_compact true (compile (c ∷ cs))) (new_row true compile req).req false
unfolding new_row accepts advance
new_row-Follows tb compile req c cs e t f =
    rw (new_row, e)
      (record {
        taken = rw t refl;
        state = λ q. rw t refl;
        going = λ q. f;
        ended = λ q. absurd (none_not_stop (sym f ∙ q));
      })

-- A request that may answer with any JSON: at every time the text of its tokens begins a JSON text
-- without whitespace between its tokens, and where it ends with "stop" it is one. That is so for a
-- sampler that picks no masked token, as long as the grammar permits some token.
pub constrained_lem :
    {L : Type 0} (tb : List Bytes) (vocab : ℕ) (compile : Bytes → Grammar) (req : Request L) (c : ℕ)
    (cs : Bytes) (cancelled : Bool) (id : ℕ) (lp : Option L) (end : Row L)
    → ((k : ℕ) → AllBytes (bytes_of tb k))
    → req.json_schema ≡ c ∷ cs
    → compile (c ∷ cs) ≡ any_value
    → req.tokens ≡ []
    → req.finish_reason ≡ none
    → IsSampled tb vocab (new_row true compile req) id
    → Steps tb vocab (first_row tb cancelled id lp (new_row true compile req)) end
    → ∥ ((ys : Bytes) × JsonText false (spell tb end.req.tokens ++ ys)) ∥₁
      × (end.req.finish_reason ≡ some FinishReason.stop → JsonText false (spell tb end.req.tokens))
constrained_lem {L} tb vocab compile req c cs cancelled id lp end a e q t f s st =
    let start = set_compact true any_value in
    let new : Follows L tb start (new_row true compile req).req false =
      subst (λ g. Follows L tb (set_compact true g) (new_row true compile req).req false) q
        (new_row-Follows tb compile req c cs e t f) in
    let v =
      Steps-Follows tb vocab start a st
        (first_row-Follows tb vocab start a (new_row true compile req) cancelled id lp s new) in
    (
      (accepts-IsPrefix true (spell tb end.req.tokens)).0 v.taken,
      λ z.
          (any_value-decides true (spell tb end.req.tokens)).0 (ground (arith, v.taken, v.ended z)),
    )
