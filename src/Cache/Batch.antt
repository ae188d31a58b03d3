-- ===== src/Cache/Batch.antt =====
-- src/cache/batch_kv_cache.cpp and src/cache/kv_quant.cpp. The vectors over the layers are one list of
-- layers; `offset` holds int32 words, which wrap. A thrown error is `none`. What is read behind the
-- end of a vector of components is left out, as is quantization, which is MLX's.
use libmlxforge.Common.{
  ℕ, zero, suc, ◌+◌, ◌-◌, ◌*◌, ◌/◌, ◌%◌, ◌^◌, max, min, Bool, true, not, ◌&&◌, List, [], ◌∷◌, ◌++◌,
  Option, none, some, map, length, replicate, take, ltb, ◌==◌, if◌then◌else◌,
}
use libmlxforge.Cache.Arrays.{ArrayLib, picks}
use libmlxforge.Serve.Budget.{KvQuantConfig}

pub record Layer (A : Type 0) : Type 0 where
  pub keys : List A
  pub values : List A
  pub conv_state : Option A
  pub recur_state : Option A

pub record BatchKvCache (A : Type 0) : Type 0 where
  pub batch : ℕ
  pub idx : ℕ
  pub layers : List (Layer A)
  pub qcfg : KvQuantConfig
  pub offset : List ℕ
  pub left_padding : List ℕ

abbrev pub k_step : ℕ
k_step = 256

abbrev pub same_config : KvQuantConfig → KvQuantConfig → Bool
same_config a b = a.bits == b.bits && a.group_size == b.group_size

abbrev pub map_option : {A B : Type 0} → (A → B) → Option A → Option B
map_option f none = none
map_option f (some a) = some (f a)

-- The least element; of none, 0.
abbrev pub least : List ℕ → ℕ
least [] = 0
least (x ∷ []) = x
least (x ∷ y ∷ l) = min x (least (y ∷ l))

-- A cache before the first write.
unfoldable pub new_cache : {A : Type 0} → ℕ → List ℕ → KvQuantConfig → BatchKvCache A
new_cache n_layers left_padding qcfg = record {
  batch = length left_padding;
  idx = 0;
  layers =
      replicate n_layers (record { keys = []; values = []; conv_state = none; recur_state = none });
  qcfg = qcfg;
  offset = map (λ v. (2 ^ 32 - v) % 2 ^ 32) left_padding;
  left_padding = left_padding;
}

unfoldable pub advance : {A : Type 0} → ℕ → BatchKvCache A → BatchKvCache A
advance n c = record c { idx = c.idx + n; offset = map (λ o. (o + n) % 2 ^ 32) c.offset }

module _ {A S : Type 0} (lib : ArrayLib A S) where
  abbrev pub first_seq : List A → ℕ
  first_seq [] = 0
  first_seq (a ∷ l) = lib.seq a

  unfoldable pub s_cap : BatchKvCache A → ℕ
  s_cap c = elim c.layers [ [] ↦ 0 | l ∷ ls ↦ first_seq l.keys ]

  -- The slots that a write of `n` adds.
  abbrev pub growth : ℕ → ℕ → ℕ
  growth step n = (step + n - 1) / step * step

  unfoldable pub grow : ℕ → ℕ → ℕ → List A → List A → List A
  grow prev add step store [] = []
  grow prev add step [] (x ∷ xs) = lib.zeros (lib.batch_size x) add x ∷ grow prev add step [] xs
  grow prev add step (a ∷ store) (x ∷ xs) =
      let cur = if prev % step == 0 then a else lib.slice_seq a 0 prev in
      lib.concat_seq cur (lib.zeros (lib.batch_size x) add x) ∷ grow prev add step store xs

  abbrev pub write : ℕ → List A → List A → List A
  write prev [] xs = []
  write prev (a ∷ store) [] = a ∷ store
  write prev (a ∷ store) (x ∷ xs) = lib.slice_update a x prev ∷ write prev store xs

  -- The store afterwards, and the slices of what is populated.
  unfoldable pub update_kv_components : List A → List A → ℕ → ℕ → List A × List A
  unfolding grow
  update_kv_components store xs prev step =
      let n = first_seq xs in
      let end = prev + n in
      let must_grow : Bool = elim store [ [] ↦ true | a ∷ l ↦ ltb (lib.seq a) end ] in
      let room = if must_grow then grow prev (growth step n) step store xs else store in
      let written = write prev room xs in
      (written, map (λ a. lib.slice_seq a 0 end) (take (length xs) written))

  unfoldable pub pad_rows : ℕ → A → A
  pad_rows extra a = lib.concat_rows a (lib.zero_rows extra a)

  unfoldable pub pad_dummies : ℕ → BatchKvCache A → BatchKvCache A
  unfolding pad_rows
  pad_dummies zero c = c
  pad_dummies (suc more) c =
      let extra = suc more in
      let pad_layer : Layer A → Layer A = λ l. record {
        keys = map (pad_rows extra) l.keys;
        values = map (pad_rows extra) l.values;
        conv_state = map_option (pad_rows extra) l.conv_state;
        recur_state = map_option (pad_rows extra) l.recur_state;
      } in
      record c {
        layers = map pad_layer c.layers;
        offset = c.offset ++ replicate extra 0;
        left_padding = c.left_padding ++ replicate extra c.idx;
        batch = c.batch + extra;
      }

  -- What happens to an array of keys or values: the rows to keep, and the shift.
  unfoldable pub filter_array : List ℕ → ℕ → A → A
  filter_array keep shift a =
      let kept = lib.take_rows a keep in
      if ltb 0 shift then lib.slice_seq kept shift (lib.seq kept) else kept

  unfoldable pub filter : List ℕ → BatchKvCache A → BatchKvCache A
  unfolding filter_array
  filter keep c =
      let lps = picks c.left_padding keep in
      let shift = least lps in
      let filter_layer : Layer A → Layer A = λ l. record {
        keys = map (filter_array keep shift) l.keys;
        values = map (filter_array keep shift) l.values;
        conv_state = map_option (λ a. lib.take_rows a keep) l.conv_state;
        recur_state = map_option (λ a. lib.take_rows a keep) l.recur_state;
      } in
      record c {
        layers = map filter_layer c.layers;
        offset = picks c.offset keep;
        left_padding = if ltb 0 shift then map (λ v. v - shift) lps else lps;
        idx = if ltb 0 shift then c.idx - shift else c.idx;
        batch = length keep;
      }

  -- `pad_layer` of `merge`, for one array: a negative `right` trims the tail.
  -- A stop below 0 of the slice, which no cache gives whose position is in its room, is 0 here.
  unfoldable pub pad_array : ℕ → ℕ → ℕ → A → A
  pad_array max_idx max_size idx a =
      let len = lib.seq a in
      let left = max_idx - idx in
      let trimmed = if ltb max_size (len + left) then lib.slice_seq a 0 (max_size - left) else a in
      let right = max_size - len - left in
      if left == 0 && right == 0 then trimmed else lib.pad trimmed left right

  unfoldable pub merge_arrays : (A → A) → (A → A) → List A → List A → List A
  merge_arrays f g [] bs = []
  merge_arrays f g (a ∷ l) [] = []
  merge_arrays f g (a ∷ l) (b ∷ bs) = lib.concat_rows (f a) (g b) ∷ merge_arrays f g l bs

  abbrev pub merge_state : Option A → Option A → Option A
  merge_state none o = none
  merge_state (some a) none = some a
  merge_state (some a) (some b) = some (lib.concat_rows a b)

  unfoldable pub merge_layers : (A → A) → (A → A) → List (Layer A) → List (Layer A) → List (Layer A)
  unfolding merge_arrays
  merge_layers f g [] os = []
  merge_layers f g (l ∷ ls) [] = []
  merge_layers f g (l ∷ ls) (o ∷ os) =
      record {
        keys = merge_arrays f g l.keys o.keys;
        values = merge_arrays f g l.values o.values;
        conv_state = merge_state l.conv_state o.conv_state;
        recur_state = merge_state l.recur_state o.recur_state;
      }
      ∷ merge_layers f g ls os

  unfoldable pub merge : BatchKvCache A → BatchKvCache A → Option (BatchKvCache A)
  unfolding s_cap pad_array merge_layers
  merge c o =
      let max_idx = max c.idx o.idx in
      let max_size = max (s_cap c) (s_cap o) in
      if not (same_config c.qcfg o.qcfg)
      then none
      else if o.batch == 0
      then some c
      else if c.batch == 0
      then some (record o { qcfg = c.qcfg })
      else some (record c {
        layers =
            merge_layers (pad_array max_idx max_size c.idx) (pad_array max_idx max_size o.idx)
              c.layers o.layers;
        left_padding =
            map (λ v. v + (max_idx - c.idx)) c.left_padding
            ++ map (λ v. v + (max_idx - o.idx)) o.left_padding;
        offset = c.offset ++ o.offset;
        idx = max_idx;
        batch = c.batch + o.batch;
      })
