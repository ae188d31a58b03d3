-- ===== src/Store/RoundTrip.antt =====
-- src/cache/block_store.cpp: what `serialize_block` writes, `deserialize_block` reads back.
use libmlxforge.Common.{
  ℕ, ◌<◌, ◌≤◌, false, ◌||◌, ◌++◌, Option, none, some, Bytes, length, ltb, ◌==◌, if◌then◌else◌, ◌≡◌,
  ◌≢◌, refl, sym, ap, arith,
}
use libmlxforge.Pool.Blocks.{KvBlock, word_bytes, u64_mod}
use libmlxforge.Store.Format.{
  Array, first_size, serialize_block, header_bytes, read_if, read_header, deserialize_block, sized,
  magic_number, version_number, any,
}
use libmlxforge.Store.Words.{read_if-word_bytes_not, read_if-word_bytes}
use libmlxforge.Store.Components.{AllLayers, read_layers-components, same_lem}

header_append :
    (block : KvBlock Array) (salt : ℕ) (r : Bytes)
    → header_bytes block salt ++ r
      ≡ word_bytes 8 magic_number
        ++ (word_bytes 4 version_number
            ++ (word_bytes 8 salt
                ++ (word_bytes 4 (length block.k)
                    ++ (word_bytes 4 (first_size block.k)
                        ++ (word_bytes 4 (first_size block.v) ++ r)))))
unfolding header_bytes word_bytes
header_append block salt r = refl

-- A block that the store takes: its numbers of layers and components in range, its arrays whole.
pub record IsStorable (block : KvBlock Array) : Type 0 where
  pub layers : AllLayers (first_size block.k) (first_size block.v) block.k block.v
  pub some_layer : 0 < length block.k
  pub few_layers : length block.k ≤ 4096
  pub few_k : first_size block.k ≤ 3
  pub few_v : first_size block.v ≤ 3
  pub sized_right : block ≡ sized block.k block.v

in_range :
    {B : Type 0} (n k v : ℕ) (o : Option B)
    → 0 < n
    → n ≤ 4096
    → k ≤ 3
    → v ≤ 3
    → (if n == 0 || ltb 4096 n || ltb 3 k || ltb 3 v then none else o) ≡ o
in_range n k v o p q a b = ground arith

read_header-header_bytes :
    (block : KvBlock Array) (salt : ℕ) (r : Bytes)
    → IsStorable block
    → salt < u64_mod
    → read_header salt (header_bytes block salt ++ r)
      ≡ some (length block.k, first_size block.k, first_size block.v, r)
unfolding read_header
read_header-header_bytes block salt r s l =
    rw
      (
        header_append block salt r,
        read_header,
        read_if-word_bytes (λ m. m == magic_number) 8 magic_number _ (omega arith) refl,
        read_if-word_bytes (λ m. m == version_number) 4 version_number _ (omega arith) refl,
        read_if-word_bytes (λ m. m == salt) 8 salt _ l (same_lem salt),
        read_if-word_bytes any 4 (length block.k) _ (omega (arith, s.few_layers)) refl,
        read_if-word_bytes any 4 (first_size block.k) _ (omega (arith, s.few_k)) refl,
        read_if-word_bytes any 4 (first_size block.v) r (omega (arith, s.few_v)) refl,
      )
      (in_range (length block.k) (first_size block.k) (first_size block.v) _ s.some_layer
        s.few_layers s.few_k s.few_v)

differs : (a b : ℕ) → a ≢ b → (b == a) ≡ false
differs a b n = ground (arith, n)

read_header_other :
    (block : KvBlock Array) (salt other : ℕ) (r : Bytes)
    → salt < u64_mod
    → other ≢ salt
    → read_header other (header_bytes block salt ++ r) ≡ none
unfolding read_header read_if
read_header_other block salt other r l n =
    rw
      (
        header_append block salt r,
        read_header,
        read_if-word_bytes (λ m. m == magic_number) 8 magic_number _ (omega arith) refl,
        read_if-word_bytes (λ m. m == version_number) 4 version_number _ (omega arith) refl,
        read_if-word_bytes_not (λ m. m == other) 8 salt _ l (differs other salt n),
      )
      refl

-- A storable block is written, and what is written is read back as the block itself under the same
-- salt, and refused under any other.
pub deserialize_block-serialize_block :
    (block : KvBlock Array) (salt : ℕ)
    → IsStorable block
    → salt < u64_mod
    → (file : Bytes) × (serialize_block block salt ≡ some file)
      × (deserialize_block file salt ≡ some block)
      × ((other : ℕ) → other ≢ salt → deserialize_block file other ≡ none)
unfolding serialize_block deserialize_block
deserialize_block-serialize_block block salt s l =
    let (cs, b, c, e, f) =
      read_layers-components (first_size block.k) (first_size block.v) block.k block.v s.layers in
    (
      header_bytes block salt ++ b,
      rw (serialize_block, c, e) refl,
      rw (deserialize_block, read_header-header_bytes block salt b s l, f)
          (ap some (sym s.sized_right)),
      λ o n. rw (deserialize_block, read_header_other block salt o b l n) refl,
    )
