-- ===== src/Worker/Tests.antt =====
-- Tests of src/runtime/worker.cpp on a vocabulary of four tokens.
use libmlxforge.Common.{
  ◌-◌, drop, ℕ, zero, suc, ◌<◌, Bool, true, false, List, [], ◌∷◌, ◌++◌, none, some, Bytes, length,
  replicate, get_elem?, ◌≡◌, refl, sym, ◌∙◌, subst, arith, ◌⊎◌,
}
use libmlxforge.Grammar.State.{Grammar, any_value}
use libmlxforge.Grammar.Feed.{accepts, advance, complete, set_compact}
use libmlxforge.Grammar.Text.{JsonText}
use libmlxforge.Token.Alphabet.{AllBytes}
use libmlxforge.Worker.Admit.{PendingPrefill, enqueue_admissions}
use libmlxforge.Worker.Chunks.{Covers, joined, feeds, run_unit, prefill_lem}
use libmlxforge.Worker.Units.{Leaves, AllFresh, reqs_of, enqueue_admissions_lem}
use libmlxforge.Worker.Constrained.{spell}
use libmlxforge.Worker.Evict.{Batch, evict_finished}
use libmlxforge.Worker.Mask.{permits, grammar_mask_lem}
use libmlxforge.Worker.Rows.{
  FinishReason, Request, Row, bytes_of, grammar_mask, decode_row, first_row, new_row, consume,
  advance_grammar,
}
use libmlxforge.Worker.Runs.{IsSampled, Steps, constrained_lem}

-- Tokens 0, 1 and 2 are "1", "[" and "]"; token 3 ends.
abbrev tokens : List Bytes
tokens = (b'1' ∷ []) ∷ (b'[' ∷ []) ∷ (b']' ∷ []) ∷ [] ∷ []

abbrev asks : Request ℕ
asks = record {
  prompt_ids = 7 ∷ [];
  max_tokens = 9;
  eos_ids = 3 ∷ [];
  json_schema = b'j' ∷ b's' ∷ b'o' ∷ b'n' ∷ [];
  grammar = none;
  tokens = [];
  logprobs = [];
  closed = false;
  finish_reason = none;
}

abbrev any : Bytes → Grammar
any s = any_value

tokens-AllBytes : (k : ℕ) → AllBytes (bytes_of tokens k)
tokens-AllBytes zero = (omega arith, tt)
tokens-AllBytes (suc zero) = (omega arith, tt)
tokens-AllBytes (suc (suc zero)) = (omega arith, tt)
tokens-AllBytes (suc (suc (suc zero))) = tt
tokens-AllBytes (suc (suc (suc (suc k)))) = tt

abbrev one : Row ℕ
one = first_row tokens false 0 none (new_row true any asks)

some_grammar : (g h : Grammar) → some g ≡ some h → g ≡ h
some_grammar g h e = cc

first_mask :
    grammar_mask tokens asks (set_compact true any_value) 4 ≡ true ∷ true ∷ false ∷ false ∷ []
unfolding grammar_mask accepts complete
first_mask = refl

grammar_mask_lem_example :
    (((id : ℕ) × (id < 4) × (permits tokens asks any_value id ≡ true))
      × ((id : ℕ)
          → id < 4
          → get_elem? (grammar_mask tokens asks any_value 4) id
            ≡ some (permits tokens asks any_value id)))
    ⊎ (((id : ℕ) → id < 4 → permits tokens asks any_value id ≡ false)
        × (grammar_mask tokens asks any_value 4 ≡ replicate 4 true))
grammar_mask_lem_example = grammar_mask_lem tokens asks any_value 4 tokens-AllBytes

-- A token that the mask lets through at a known state.
sampled :
    (row : Row ℕ) (g : Grammar) (id : ℕ)
    → row.req.grammar ≡ some g
    → id < 4
    → get_elem? (grammar_mask tokens row.req g 4) id ≡ some true
    → permits tokens row.req g id ≡ true
    → IsSampled tokens 4 row id
sampled row g id e l m p h f =
    let same : g ≡ h = some_grammar g h (sym e ∙ f) in
    (
      l,
      subst (λ x. get_elem? (grammar_mask tokens row.req x 4) id ≡ some true) same m,
      (id, l, subst (λ x. permits tokens row.req x id ≡ true) same p),
    )

starts_IsSampled : IsSampled tokens 4 (new_row true any asks) 0
unfolding new_row grammar_mask accepts complete
starts_IsSampled =
    sampled (new_row true any asks) (set_compact true any_value) 0 refl (omega arith) refl refl

ends_IsSampled : IsSampled tokens 4 one 3
unfolding first_row new_row consume advance_grammar grammar_mask accepts advance complete
ends_IsSampled =
    sampled one (advance (set_compact true any_value) (b'1' ∷ [])) 3 refl (omega arith) refl refl

abbrev two : Row ℕ
two = decode_row tokens false 3 none one

two_lem :
    (two.req.tokens ≡ 0 ∷ [])
    × (two.req.finish_reason ≡ some FinishReason.stop)
    × (two.finished ≡ true)
unfolding first_row new_row consume advance_grammar decode_row accepts advance complete
two_lem = (refl, refl, refl)

constrained_lem_example :
    ∥ ((ys : Bytes) × JsonText false (spell tokens two.req.tokens ++ ys)) ∥₁
    × (two.req.finish_reason ≡ some FinishReason.stop
        → JsonText false (spell tokens two.req.tokens))
constrained_lem_example =
    constrained_lem tokens 4 any asks b'j' (b's' ∷ b'o' ∷ b'n' ∷ []) false 0 none two
      tokens-AllBytes refl refl refl refl starts_IsSampled
      (Steps.next false 3 none (λ e. ends_IsSampled) Steps.done)

abbrev row_of : ℕ → Bool → Row ℕ
row_of n finished = record {
  req = asks;
  produced = n;
  feed_ = n;
  finished = finished;
  history = n ∷ [];
}

abbrev four : Batch ℕ (List ℕ)
four = record {
  rows = row_of 1 false ∷ row_of 2 true ∷ row_of 3 false ∷ row_of 4 true ∷ [];
  cache = some [];
  requests_completed = 5;
  prompt_tokens_total = 0;
  completion_tokens_total = 0;
}

abbrev emptied : List ℕ → List ℕ
emptied h = []

abbrev kept : List ℕ → List ℕ → List ℕ
kept keep c = keep

evicted :
    (evict_finished emptied emptied kept four).0.rows
    ≡ record (row_of 1 false) { history = [] } ∷ row_of 3 false ∷ []
unfolding evict_finished
evicted = refl

abbrev unit : PendingPrefill ℕ ℕ
unit = record {
  reqs = asks ∷ [];
  tokens = (7 ∷ 8 ∷ 9 ∷ []) ∷ [];
  cache = 0;
  n_total = 3;
  pos = 0;
  reused_tokens = 0;
}

abbrev counts : List (List ℕ) → ℕ → ℕ × ℕ
counts chunk k = (suc k, 5)

prefill_lem_example :
    (l : List (ℕ × ℕ)) × Covers 2 0 3 l
    × (run_unit 2 counts 3 unit ≡ some (feeds counts unit.tokens l 0 0))
    × ((row : List ℕ) → length row ≡ 3 → joined row l ≡ drop 0 row)
prefill_lem_example = prefill_lem 2 counts unit 0 (omega arith) (omega arith)

-- A prefix cache that counts its matches.
abbrev but_last : ℕ → List ℕ → ℕ × ℕ × ℕ
but_last pool ids = (suc pool, pool, length ids - 1)

but_last-Leaves : Leaves (some but_last)
but_last-Leaves pool ids l = omega (arith, l)

abbrev incoming : List (Request ℕ)
incoming = asks ∷ record asks { prompt_ids = 7 ∷ 8 ∷ [] } ∷ []

abbrev seeded : ℕ → ℕ → ℕ
seeded m n = n

abbrev fresh : List ℕ → ℕ
fresh pads = 0

enqueue_admissions_lem_example :
    (units : List (PendingPrefill ℕ ℕ)) × ((enqueue_admissions seeded fresh
        (some but_last)
        0
        incoming
        (unit ∷ [])).1
      ≡ (unit ∷ []) ++ units)
    × AllFresh seeded fresh (some but_last) units
    × (reqs_of units ≡ record asks { prompt_ids = 7 ∷ 8 ∷ [] } ∷ asks ∷ [])
enqueue_admissions_lem_example =
    enqueue_admissions_lem seeded fresh (some but_last) 0 incoming (unit ∷ []) but_last-Leaves
      (omega arith, (omega arith, tt))
