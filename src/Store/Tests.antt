-- ===== src/Store/Tests.antt =====
-- A stored block of one layer.
use libmlxforge.Common.{
  ℕ, [], ◌∷◌, ◌++◌, some, none, Bytes, ◌≡◌, ◌≢◌, ◌⊎◌, true, false, refl, arith,
}
use libmlxforge.Pool.Blocks.{KvBlock, word_bytes, find}
use libmlxforge.Store.Counted.{IsConsistent, spill-IsConsistent}
use libmlxforge.Store.Written.{IsWritten, finish_write-IsConsistent}
use libmlxforge.Store.Index.{BlockStore, spill, finish_write}
use libmlxforge.Store.Format.{Array, Dtype, serialize_block, deserialize_block, dtype_code, sized}
use libmlxforge.Store.Components.{IsStored}
use libmlxforge.Store.RoundTrip.{IsStorable, deserialize_block-serialize_block}

abbrev half : Array
half = record {
  dtype = Dtype.float16;
  shape0 = 1;
  shape1 = 1;
  shape2 = 2;
  shape3 = 1;
  elements = 9 ∷ 8 ∷ 7 ∷ 6 ∷ [];
}

abbrev words : Array
words = record {
  dtype = Dtype.uint32;
  shape0 = 1;
  shape1 = 1;
  shape2 = 1;
  shape3 = 1;
  elements = 1 ∷ 2 ∷ 3 ∷ 4 ∷ [];
}

half-IsStored : IsStored half 0
unfolding dtype_code
half-IsStored = record {
  coded = refl;
  positive0 = refl;
  positive1 = refl;
  positive2 = refl;
  positive3 = refl;
  full = refl;
  small = omega arith;
}

words-IsStored : IsStored words 1
unfolding dtype_code
words-IsStored = record {
  coded = refl;
  positive0 = refl;
  positive1 = refl;
  positive2 = refl;
  positive3 = refl;
  full = refl;
  small = omega arith;
}

abbrev block : KvBlock Array
block = sized ((half ∷ []) ∷ []) ((words ∷ []) ∷ [])

block-IsStorable : IsStorable block
unfolding sized
block-IsStorable = record {
  layers = (refl, refl, (0, half-IsStored, tt), (1, words-IsStored, tt), tt);
  some_layer = omega arith;
  few_layers = omega arith;
  few_k = omega arith;
  few_v = omega arith;
  sized_right = refl;
}

deserialize_block-serialize_block_example :
    (file : Bytes) × (serialize_block block 77 ≡ some file)
    × (deserialize_block file 77 ≡ some block)
    × ((other : ℕ) → other ≢ 77 → deserialize_block file other ≡ none)
deserialize_block-serialize_block_example =
    deserialize_block-serialize_block block 77 block-IsStorable (omega arith)

-- The file begins with the letters of its kind.
magic_letters : word_bytes 8 3549494337624099917 ≡ 77 ∷ 76 ∷ 88 ∷ 70 ∷ 75 ∷ 86 ∷ 66 ∷ 49 ∷ []
unfolding word_bytes
magic_letters = refl

-- A store with one block on disk and one in flight.
abbrev store : BlockStore
store = record {
  budget = 5;
  index = (1, record { size = 3; stamp = 1 }) ∷ [];
  bytes = 3;
  stamp = 1;
  queue = (2, 9 ∷ 9 ∷ 9 ∷ 9 ∷ []) ∷ [];
  files = (1, 7 ∷ 7 ∷ 7 ∷ []) ∷ [];
}

store-IsConsistent : IsConsistent store
unfolding find
store-IsConsistent = record {
  account = record { counted = refl; distinct = (refl, tt) };
  waiting = (refl, tt);
  apart = λ h n. ground (arith, n);
  recent = (omega arith, tt);
}

spill-IsConsistent_example :
    IsConsistent (spill store 4 (1 ∷ []))
    × ((((find 4 store.index ≢ none) ⊎ (find 4 store.queue ≢ none))
          × (spill store 4 (1 ∷ []) ≡ store))
        ⊎ ((find 4 store.index ≡ none)
            × (find 4 store.queue ≡ none)
            × (spill store 4 (1 ∷ [])
                ≡ record store { queue = store.queue ++ ((4, 1 ∷ []) ∷ []) })))
spill-IsConsistent_example = spill-IsConsistent store 4 (1 ∷ []) store-IsConsistent

-- The block of four bytes and the one of three do not both fit.
finish_write-IsConsistent_example :
    IsConsistent (finish_write store 2 (9 ∷ 9 ∷ 9 ∷ 9 ∷ []) true)
    × ((finish_write store 2 (9 ∷ 9 ∷ 9 ∷ 9 ∷ []) true).queue ≡ [])
    × (((true ≡ false)
          × (finish_write store 2 (9 ∷ 9 ∷ 9 ∷ 9 ∷ []) true ≡ record store { queue = [] }))
        ⊎ ((true ≡ true)
            × IsWritten store 2
                (9 ∷ 9 ∷ 9 ∷ 9 ∷ [])
                (finish_write store 2 (9 ∷ 9 ∷ 9 ∷ 9 ∷ []) true)))
finish_write-IsConsistent_example =
    finish_write-IsConsistent store 2 (9 ∷ 9 ∷ 9 ∷ 9 ∷ []) [] true store-IsConsistent refl
