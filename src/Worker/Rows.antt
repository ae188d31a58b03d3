-- ===== src/Worker/Rows.antt =====
-- src/runtime/worker.cpp: a request's way through the decode batch, and the `Request` of
-- src/scheduler/request.h. The row-aligned vectors of the worker are one list of rows, without the
-- random keys, which are MLX's. A queue is what was pushed to it and whether it is closed; a push that
-- waits for room is left out, as are times. A log-prob record is a type `L`.
use libmlxforge.Common.{
  ℕ, zero, suc, ◌-◌, Bool, true, false, ◌||◌, List, [], ◌∷◌, ◌++◌, Option, none, some, map, Bytes,
  length, replicate, get_elem?, leb, ◌==◌, if◌then◌else◌,
}
use libmlxforge.Grammar.Feed.{accepts, advance, complete, set_compact}
use libmlxforge.Grammar.State.{Grammar}
use libmlxforge.Serve.Bucket.{next_bucket}

pub data FinishReason : Type 0 where
  stop : FinishReason
  length_ : FinishReason
  cancel : FinishReason

pub record Request (L : Type 0) : Type 0 where
  pub prompt_ids : List ℕ
  pub max_tokens : ℕ
  pub eos_ids : List ℕ
  pub json_schema : Bytes
  pub grammar : Option Grammar
  pub tokens : List ℕ
  pub logprobs : List L
  pub closed : Bool
  pub finish_reason : Option FinishReason

pub record Row (L : Type 0) : Type 0 where
  pub req : Request L
  pub produced : ℕ
  pub feed_ : ℕ
  pub finished : Bool
  pub history : List ℕ

abbrev pub is_among : ℕ → List ℕ → Bool
is_among id [] = false
is_among id (x ∷ l) = x == id || is_among id l

abbrev pub is_eos : {L : Type 0} → Request L → ℕ → Bool
is_eos req id = is_among id req.eos_ids

abbrev pub logprob_list : {L : Type 0} → Option L → List L
logprob_list none = []
logprob_list (some lp) = lp ∷ []

-- The request and the count afterwards, and whether it is finished.
unfoldable pub consume : {L : Type 0} → Request L → ℕ → ℕ → Option L → Request L × ℕ × Bool
consume req produced id lp =
    let pushed = record req {
      tokens = req.tokens ++ (id ∷ []);
      logprobs = req.logprobs ++ logprob_list lp;
    } in
    if is_eos req id
    then (record req { finish_reason = some FinishReason.stop }, produced, true)
    else if leb req.max_tokens (suc produced)
    then (record pushed { finish_reason = some FinishReason.length_ }, suc produced, true)
    else (pushed, suc produced, false)

-- The bytes of a token: `token_bytes_` has one entry for each id.
abbrev pub bytes_of : List Bytes → ℕ → Bytes
bytes_of token_bytes id = elim (get_elem? token_bytes id) [ none ↦ [] | some bs ↦ bs ]

unfoldable pub advance_grammar : {L : Type 0} → List Bytes → Request L → ℕ → Request L
unfolding advance
advance_grammar token_bytes req id = elim req.grammar [
  | none ↦ req
  | some g ↦ elim (get_elem? token_bytes id) [
    | none ↦ req
    | some bs ↦ record req { grammar = some (advance g bs) }
  ]
]

-- The first bytes that the grammar takes, from byte `b` on.
unfoldable pub first_ok : Grammar → ℕ → ℕ → List Bool
unfolding accepts
first_ok g zero b = []
first_ok g (suc n) b = accepts g (b ∷ []) ∷ first_ok g n (suc b)

-- A read at an index that the table does not have does not occur: the index is a byte.
abbrev pub is_first_ok : List Bool → ℕ → Bool
is_first_ok table b = elim (get_elem? table b) [ none ↦ false | some ok ↦ ok ]

unfoldable pub allow : {L : Type 0} → List Bytes → Request L → Grammar → List Bool → ℕ → Bool
unfolding accepts complete
allow token_bytes req g table id =
    if is_eos req id
    then complete g
    else if complete g
    then false
    else elim (bytes_of token_bytes id) [
      | [] ↦ false
      | b ∷ bs ↦ if is_first_ok table b then accepts g (b ∷ bs) else false
    ]

-- The loop over the ids, from `id` on.
unfoldable pub allow_from :
    {L : Type 0} → List Bytes → Request L → Grammar → List Bool → ℕ → ℕ → List Bool
unfolding allow
allow_from token_bytes req g table zero id = []
allow_from token_bytes req g table (suc n) id =
    allow token_bytes req g table id ∷ allow_from token_bytes req g table n (suc id)

abbrev pub any_true : List Bool → Bool
any_true [] = false
any_true (b ∷ l) = b || any_true l

-- The mask, true where it adds 0 and false where it adds minus infinity.
unfoldable pub grammar_mask : {L : Type 0} → List Bytes → Request L → Grammar → ℕ → List Bool
unfolding first_ok allow_from complete
grammar_mask token_bytes req g vocab =
    let table = if complete g then [] else first_ok g 256 0 in
    let mask = allow_from token_bytes req g table vocab 0 in
    if any_true mask then mask else replicate vocab true

-- What the sampler gives for a row and what its flag `cancelled` is when it is read.
pub record Sampled (L : Type 0) : Type 0 where
  pub id : ℕ
  pub lp : Option L
  pub cancelled : Bool

module _ {L : Type 0} where
  -- The body of the loop of `decode_step`, with the flag `cancelled` as it is read.
  unfoldable pub decode_row : List Bytes → Bool → ℕ → Option L → Row L → Row L
  unfolding consume advance_grammar
  decode_row token_bytes cancelled id lp row =
      let c = consume (advance_grammar token_bytes row.req id) row.produced id lp in
      if row.finished
      then row
      else if cancelled
      then record row {
        req = record row.req { finish_reason = some FinishReason.cancel };
        finished = true;
      }
      else record {
        req = c.0;
        produced = c.1;
        feed_ = id;
        finished = c.2;
        history = row.history ++ (id ∷ []);
      }

  -- The first loop of `register_rows`, for one request: `compile` is `from_schema_string`. A worker
  -- without tokenizer compiles no grammar.
  unfoldable pub new_row : Bool → (Bytes → Grammar) → Request L → Row L
  new_row has_tok compile req =
      let with_grammar : Request L = elim req.json_schema [
        | [] ↦ req
        | c ∷ cs ↦ record req { grammar = some (set_compact true (compile (c ∷ cs))) }
      ] in
      record {
        req = if has_tok then with_grammar else req;
        produced = 0;
        feed_ = 0;
        finished = false;
        history = req.prompt_ids;
      }

  -- Its last loop: the first token of a row.
  unfoldable pub first_row : List Bytes → Bool → ℕ → Option L → Row L → Row L
  unfolding consume advance_grammar
  first_row token_bytes cancelled id lp row =
      let advanced = advance_grammar token_bytes row.req id in
      let c = consume advanced row.produced id lp in
      let history = row.history ++ (id ∷ []) in
      if cancelled
      then record {
        req = record advanced { finish_reason = some FinishReason.cancel };
        produced = row.produced;
        feed_ = id;
        finished = true;
        history = history;
      }
      else record { req = c.0; produced = c.1; feed_ = id; finished = c.2; history = history }

  -- The mask of a row, where its request has a grammar.
  unfoldable pub row_mask : List Bytes → ℕ → Row L → Option (List Bool)
  unfolding grammar_mask
  row_mask token_bytes vocab row = elim row.req.grammar [
    | none ↦ none
    | some g ↦ some (grammar_mask token_bytes row.req g vocab)
  ]

  -- One pass over the rows; a row that got no sample is as it was.
  unfoldable pub decode_rows :
      (List Bytes → Bool → ℕ → Option L → Row L → Row L)
      → List Bytes
      → List (Sampled L)
      → List (Row L)
      → List (Row L)
  decode_rows body token_bytes [] rows = rows
  decode_rows body token_bytes (s ∷ ss) [] = []
  decode_rows body token_bytes (s ∷ ss) (row ∷ rows) =
      body token_bytes s.cancelled s.id s.lp row ∷ decode_rows body token_bytes ss rows

  -- The inputs of the forward pass: the rows', and 0 for the dummy rows.
  unfoldable pub fed : List (Row L) → List ℕ
  unfolding next_bucket
  fed rows = map (λ row. row.feed_) rows ++ replicate (next_bucket (length rows) - length rows) 0

  -- `forward` is the forward pass and the sampler.
  unfoldable pub decode_step :
      (List ℕ → List (Option (List Bool)) → List (Sampled L))
      → List Bytes
      → ℕ
      → List (Row L)
      → List (Row L)
  unfolding fed row_mask decode_rows decode_row
  decode_step forward token_bytes vocab rows =
      decode_rows decode_row token_bytes
        (forward (fed rows) (map (row_mask token_bytes vocab) rows)) rows

  unfoldable pub register_rows :
      (List (Option (List Bool)) → List (Sampled L))
      → List Bytes
      → ℕ
      → Bool
      → (Bytes → Grammar)
      → List (Request L)
      → List (Row L)
      → List (Row L)
  unfolding new_row row_mask decode_rows first_row
  register_rows sample token_bytes vocab has_tok compile incoming rows =
      let fresh = map (new_row has_tok compile) incoming in
      rows
      ++ decode_rows first_row token_bytes (sample (map (row_mask token_bytes vocab) fresh)) fresh
