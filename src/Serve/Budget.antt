-- ===== src/Serve/Budget.antt =====
-- src/cache/kv_budget.h and kv_budget.cpp: the memory gate. The sizes are `size_t`, with the
-- wrap-around at 64 bits; the configuration's numbers are not negative, and a sum of two `int`s
-- does not overflow. Of `ModelConfig` (src/core/config.h) the fields that are read are modelled.
-- `full_attention_interval` is 0 where the source has 0 or below, and so is `bits`.
use libmlxforge.Common.{
  ℕ, zero, suc, ◌+◌, ◌-◌, ◌*◌, ◌/◌, ◌%◌, ◌^◌, Bool, true, false, not, ◌==◌, leb, ltb, if◌then◌else◌,
}

pub record ModelConfig : Type 0 where
  pub n_layers : ℕ
  pub n_kv_heads : ℕ
  pub head_dim : ℕ
  pub full_attention_interval : ℕ
  pub linear_num_key_heads : ℕ
  pub linear_key_head_dim : ℕ
  pub linear_num_value_heads : ℕ
  pub linear_value_head_dim : ℕ
  pub linear_conv_kernel_dim : ℕ

pub record KvQuantConfig : Type 0 where
  pub bits : ℕ
  pub group_size : ℕ

unfoldable pub is_linear_layer : ModelConfig → ℕ → Bool
is_linear_layer cfg i =
    if cfg.full_attention_interval == 0
    then false
    else not ((i + 1) % cfg.full_attention_interval == 0)

-- The layers below `n` whose test is `want`.
unfoldable pub count_layers : ModelConfig → Bool → ℕ → ℕ
unfolding is_linear_layer
count_layers cfg want zero = 0
count_layers cfg want (suc n) =
    let rest = count_layers cfg want n in
    if is_linear_layer cfg n
    then (if want then suc rest else rest)
    else if want
    then rest
    else suc rest

unfoldable pub kv_layer_count : ModelConfig → ℕ
unfolding count_layers
kv_layer_count cfg =
    if cfg.full_attention_interval == 0 then cfg.n_layers else count_layers cfg false cfg.n_layers

abbrev pub size_mod : ℕ
size_mod = 2 ^ 64

unfoldable pub compute_linear_state_bytes : ModelConfig → ℕ
unfolding count_layers
compute_linear_state_bytes cfg =
    let linear_layers = count_layers cfg true cfg.n_layers in
    let key_dim = cfg.linear_num_key_heads * cfg.linear_key_head_dim in
    let value_dim = cfg.linear_num_value_heads * cfg.linear_value_head_dim in
    let conv_dim = 2 * key_dim + value_dim in
    let conv_bytes = (cfg.linear_conv_kernel_dim - 1) * conv_dim * 2 in
    let recur_bytes = value_dim * cfg.linear_key_head_dim * 4 in
    if cfg.full_attention_interval == 0
    then 0
    else linear_layers * (conv_bytes + recur_bytes) % size_mod

unfoldable pub per_head_row_bytes : ModelConfig → KvQuantConfig → ℕ
per_head_row_bytes cfg q =
    if ltb 0 q.bits
    then (cfg.head_dim * q.bits % size_mod / 8 + cfg.head_dim / q.group_size * 2 * 2) % size_mod
    else cfg.head_dim * 2 % size_mod

pub record KvBudget : Type 0 where
  pub bytes_per_token : ℕ
  pub linear_state_bytes : ℕ
  pub budget_bytes : ℕ

unfoldable pub new_budget : ModelConfig → ℕ → KvQuantConfig → KvBudget
unfolding kv_layer_count compute_linear_state_bytes per_head_row_bytes
new_budget cfg budget_bytes kv_quant = record {
  bytes_per_token =
      2 * kv_layer_count cfg * cfg.n_kv_heads * per_head_row_bytes cfg kv_quant % size_mod;
  linear_state_bytes = compute_linear_state_bytes cfg;
  budget_bytes = budget_bytes;
}

unfoldable pub project_bytes : KvBudget → ℕ → ℕ → ℕ → ℕ
project_bytes b max_len max_new batch =
    batch * (b.linear_state_bytes + (max_len + max_new) * b.bytes_per_token) % size_mod

unfoldable pub can_admit : KvBudget → ℕ → ℕ → ℕ → Bool
unfolding project_bytes
can_admit b max_len max_new batch =
    if b.budget_bytes == 0 then true else leb (project_bytes b max_len max_new batch) b.budget_bytes
