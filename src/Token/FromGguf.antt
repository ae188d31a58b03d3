-- ===== src/Token/FromGguf.antt =====
-- src/tokenizer/bpe.cpp, `from_gguf`: the tables of the tokenizer from those of a model file. A throw
-- is the left side. Literals of one length, whose order `std::sort` leaves open, stay as they come.
use libmlxforge.Common.{
  ℕ, suc, Bool, true, false, not, ◌||◌, List, [], ◌∷◌, none, some, Bytes, length, get_elem?, leb,
  ◌==◌, if◌then◌else◌, ◌⊎◌, inl, inr,
}
use libmlxforge.Token.Bpe.{BpeTokenizer, bytes_eq}

pub data GgufError : Type 0 where
  unsupported_pre : GgufError
  no_tokens : GgufError

abbrev pub llama_bpe : Bytes
llama_bpe = b'l' ∷ b'l' ∷ b'a' ∷ b'm' ∷ b'a' ∷ b'-' ∷ b'b' ∷ b'p' ∷ b'e' ∷ []

abbrev pub llama3 : Bytes
llama3 = b'l' ∷ b'l' ∷ b'a' ∷ b'm' ∷ b'a' ∷ b'3' ∷ []

abbrev pub gpt2 : Bytes
gpt2 = b'g' ∷ b'p' ∷ b't' ∷ b'2' ∷ []

abbrev pub qwen2 : Bytes
qwen2 = b'q' ∷ b'w' ∷ b'e' ∷ b'n' ∷ b'2' ∷ []

-- The type of id `n`: of a short list, 1.
unfoldable pub token_type : List ℕ → ℕ → ℕ
token_type types n = elim (get_elem? types n) [ none ↦ 1 | some k ↦ k ]

abbrev pub is_special_type : ℕ → Bool
is_special_type k = k == 3 || k == 4

-- The loop over the tokens, from id `n` on.
unfoldable pub number_tokens : ℕ → List Bytes → List (Bytes × ℕ)
number_tokens n [] = []
number_tokens n (tok ∷ l) = (tok, n) ∷ number_tokens (suc n) l

unfoldable pub specials_from : List ℕ → ℕ → List Bytes → List (Bytes × ℕ)
unfolding token_type
specials_from types n [] = []
specials_from types n (tok ∷ l) =
    let rest = specials_from types (suc n) l in
    if is_special_type (token_type types n) then (tok, n) ∷ rest else rest

unfoldable pub ids_in : List (Bytes × ℕ) → List ℕ
ids_in [] = []
ids_in ((tok, n) ∷ m) = n ∷ ids_in m

unfoldable pub first_bytes : List (Bytes × ℕ) → List ℕ
first_bytes [] = []
first_bytes (([], n) ∷ m) = first_bytes m
first_bytes ((c ∷ tok, n) ∷ m) = c ∷ first_bytes m

-- Longest literal first.
unfoldable pub insert_longest : Bytes × ℕ → List (Bytes × ℕ) → List (Bytes × ℕ)
insert_longest e [] = e ∷ []
insert_longest e (x ∷ m) =
    let later = x ∷ insert_longest e m in if leb (length x.0) (length e.0) then e ∷ x ∷ m else later

unfoldable pub sort_longest : List (Bytes × ℕ) → List (Bytes × ℕ)
unfolding insert_longest
sort_longest [] = []
sort_longest (e ∷ m) = insert_longest e (sort_longest m)

-- The pretokenizers that are supported.
abbrev pub is_known : Bytes → Bool
is_known pre =
    bytes_eq pre llama_bpe || bytes_eq pre llama3 || bytes_eq pre gpt2 || bytes_eq pre qwen2

abbrev is_empty : List Bytes → Bool
is_empty [] = true
is_empty (x ∷ l) = false

unfoldable pub from_gguf : List Bytes → List Bytes → List ℕ → Bytes → GgufError ⊎ BpeTokenizer
unfolding number_tokens specials_from ids_in first_bytes sort_longest
from_gguf tokens merges types pre =
    let specials = specials_from types 0 tokens in
    if not (is_known pre)
    then inl GgufError.unsupported_pre
    else if is_empty tokens
    then inl GgufError.no_tokens
    else inr (record {
      digit_run_max = if bytes_eq pre llama_bpe || bytes_eq pre llama3 then 3 else 1;
      token_to_id = number_tokens 0 tokens;
      id_to_token = tokens;
      merge_ranks = number_tokens 0 merges;
      special_ids = ids_in specials;
      special_tokens = sort_longest specials;
      special_first_bytes = first_bytes specials;
    })
