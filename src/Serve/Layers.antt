-- ===== src/Serve/Layers.antt =====
-- What src/cache/kv_budget.cpp counts and admits.
use native.Mathlib.Nat.{
  mod-eq_of_lt, le-div_iff_mul-le, div-lt_iff_lt-mul, div-add-mod', mod-lt, mul-le-mul,
  mul-le-mul_right,
}
use libmlxforge.Common.{
  ℕ, zero, suc, ◌+◌, ◌*◌, ◌/◌, ◌%◌, ◌<◌, ◌≤◌, true, false, ◌==◌, ◌≡◌, ◌≢◌, refl, sym, ◌∙◌, ap,
  arith, Bool-cases, inl, inr, ◌⊎◌, ==_iff,
}
use libmlxforge.Serve.Budget.{
  ModelConfig, KvBudget, is_linear_layer, count_layers, kv_layer_count, size_mod, project_bytes,
  can_admit,
}

div_unique : (n k q r : ℕ) → r < k → n ≡ q * k + r → (n / k ≡ q) × (n % k ≡ r)
div_unique n k q r l e =
    let pos : 0 < k = omega (arith, l) in
    let low : q ≤ n / k = (le-div_iff_mul-le pos).1 (omega (arith, e)) in
    let high : n / k < suc q = (div-lt_iff_lt-mul pos).1 (grind (arith, e, l)) in
    let quotient : n / k ≡ q = omega (arith, low, high) in
    let split : n / k * k + n % k ≡ n = div-add-mod' n k in
    let split' : q * k + n % k ≡ n = ap (λ x. x * k + n % k) (sym quotient) ∙ split in
    (quotient, omega (arith, split', e))

-- A step of the quotient: it grows exactly where the next number is a multiple.
suc-div :
    (n k : ℕ)
    → k ≢ 0
    → (suc n % k ≡ 0 × (suc n / k ≡ suc (n / k))) ⊎ (suc n % k ≢ 0 × (suc n / k ≡ n / k))
suc-div n k nz =
    let pos : 0 < k = omega (arith, nz) in
    let split : n / k * k + n % k ≡ n = div-add-mod' n k in
    let below : n % k < k = mod-lt n pos in
    elim (Bool-cases (suc (n % k) == k)) [
      | inl w ↦
          let here : suc (n % k) ≡ k = (==_iff (suc (n % k)) k).0 w in
          let (q, r) = div_unique (suc n) k (suc (n / k)) 0 pos (grind (arith, here, split)) in
          inl (r, q)
      | inr w ↦
          let off : suc (n % k) ≢ k = (λ e. ground (arith, w, e)) in
          let (q, r) =
            div_unique (suc n) k (n / k) (suc (n % k)) (omega (arith, off, below))
              (omega (arith, split)) in
          inr ((λ e. omega (arith, e, r)), q)
    ]

count_layers-div :
    (cfg : ModelConfig) (n : ℕ)
    → cfg.full_attention_interval ≢ 0
    → count_layers cfg false n ≡ n / cfg.full_attention_interval
unfolding count_layers is_linear_layer
count_layers-div cfg zero nz = grind arith
count_layers-div cfg (suc n) nz = elim (suc-div n cfg.full_attention_interval nz) [
  | inl (z, q) ↦ ground (arith, count_layers-div cfg n nz)
  | inr (z, q) ↦ ground (arith, count_layers-div cfg n nz)
]

count_layers_both :
    (cfg : ModelConfig) (n : ℕ) → count_layers cfg false n + count_layers cfg true n ≡ n
unfolding count_layers
count_layers_both cfg zero = refl
count_layers_both cfg (suc n) = ground (arith, count_layers_both cfg n)

-- Of a hybrid model every interval-th layer keeps a KV cache, and every other one a linear state.
pub kv_layer_count-div :
    (cfg : ModelConfig)
    → cfg.full_attention_interval ≢ 0
    → (kv_layer_count cfg ≡ cfg.n_layers / cfg.full_attention_interval)
      × (kv_layer_count cfg + count_layers cfg true cfg.n_layers ≡ cfg.n_layers)
unfolding kv_layer_count
kv_layer_count-div cfg nz =
    ground (arith, count_layers-div cfg cfg.n_layers nz, count_layers_both cfg cfg.n_layers)

-- What fits stays within the budget, and so does any smaller batch of shorter sequences: the gate
-- is monotone while the projection does not wrap.
pub can_admit_mono :
    (b : KvBudget) (max_len max_new batch len new smaller : ℕ)
    → b.budget_bytes ≢ 0
    → batch * (b.linear_state_bytes + (max_len + max_new) * b.bytes_per_token) < size_mod
    → can_admit b max_len max_new batch ≡ true
    → len + new ≤ max_len + max_new
    → smaller ≤ batch
    → (can_admit b len new smaller ≡ true)
      × (smaller * (b.linear_state_bytes + (len + new) * b.bytes_per_token) ≤ b.budget_bytes)
unfolding can_admit project_bytes
can_admit_mono b max_len max_new batch len new smaller nz fits ok l s =
    let less : smaller * (b.linear_state_bytes + (len + new) * b.bytes_per_token)
        ≤ batch * (b.linear_state_bytes + (max_len + max_new) * b.bytes_per_token) =
      mul-le-mul s (omega (arith, mul-le-mul_right b.bytes_per_token l)) in
    let here = mod-eq_of_lt fits in
    let there : smaller * (b.linear_state_bytes + (len + new) * b.bytes_per_token) % size_mod
        ≡ smaller * (b.linear_state_bytes + (len + new) * b.bytes_per_token) =
      mod-eq_of_lt (omega (arith, less, fits)) in
    ground (arith, here, there, less)
