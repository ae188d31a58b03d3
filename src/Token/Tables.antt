-- ===== src/Token/Tables.antt =====
-- src/tokenizer/bpe.cpp, `from_gguf`: the tables agree with each other.
use libmlxforge.Common.{
  ℕ, true, ◌||◌, List, ◌∷◌, some, Bytes, get_elem?, if◌then◌else◌, ◌≡◌, ◌⊎◌, ◌↔◌,
}
use libmlxforge.Token.Bpe.{BpeTokenizer, bytes_eq, mem}
use libmlxforge.Token.FromGguf.{llama_bpe, llama3, gpt2, qwen2, token_type, is_special_type}
use libmlxforge.Token.Cut.{IsIn}
use libmlxforge.Token.Sorted.{IsLongestFirst}
use libmlxforge.Token.Numbers.{Numbers}

-- What the tables of a tokenizer have to do with the model file's.
pub record Agrees (t : BpeTokenizer) (tokens merges : List Bytes) (types : List ℕ) (pre : Bytes)
    : Type 0 where
  pub names : t.id_to_token ≡ tokens
  pub ids : Numbers t.token_to_id tokens
  pub ranks : Numbers t.merge_ranks merges
  pub literals :
      (lit : Bytes) (id : ℕ)
      → IsIn lit id t.special_tokens
        ↔ ((get_elem? tokens id ≡ some lit) × (is_special_type (token_type types id) ≡ true))
  pub special :
      (id : ℕ) → (mem id t.special_ids ≡ true) ↔ ((lit : Bytes) × IsIn lit id t.special_tokens)
  pub first :
      (c : ℕ) (lit : Bytes) (id : ℕ)
      → IsIn (c ∷ lit) id t.special_tokens
      → mem c t.special_first_bytes ≡ true
  pub longest : IsLongestFirst t.special_tokens
  pub cap :
      (((pre ≡ llama_bpe) ⊎ (pre ≡ llama3)) × (t.digit_run_max ≡ 3))
      ⊎ (((pre ≡ gpt2) ⊎ (pre ≡ qwen2)) × (t.digit_run_max ≡ 1))

abbrev cap_of : Bytes → ℕ
cap_of pre = if bytes_eq pre llama_bpe || bytes_eq pre llama3 then 3 else 1
