-- ===== src/Store/Index.antt =====
-- src/cache/block_store.h and block_store.cpp: the index, the write queue and the eviction. The
-- directory is `files`, a map from a block's hash to its file's bytes; whether a write succeeds is
-- given. What runs under the mutex is one step; `get` answers what it found there, and where it
-- goes on to read the file, that it does. The map's order of iteration is the list's.
-- The directory's name, the salt, the stop flag and the worker's counter of spills are left out.
use libmlxforge.Common.{
  ℕ, zero, suc, ◌+◌, ◌-◌, Bool, ◌&&◌, ◌||◌, List, [], ◌∷◌, ◌++◌, none, some, Bytes, length, ltb,
  ◌==◌, if◌then◌else◌,
}
use libmlxforge.Pool.Blocks.{find, erase, is_some}

pub record StoreEntry : Type 0 where
  pub size : ℕ
  pub stamp : ℕ

pub record BlockStore : Type 0 where
  pub budget : ℕ
  pub index : List (ℕ × StoreEntry)
  pub bytes : ℕ
  pub stamp : ℕ
  pub queue : List (ℕ × Bytes)
  pub files : List (ℕ × Bytes)

unfoldable pub put : BlockStore → ℕ → Bytes → BlockStore
unfolding find
put s hash b =
    if is_some (find hash s.index) then s else record s { queue = s.queue ++ ((hash, b) ∷ []) }

unfoldable pub contains : BlockStore → ℕ → Bool
unfolding find
contains s hash = is_some (find hash s.index) || is_some (find hash s.queue)

-- The worker's hook on an eviction from the pool.
unfoldable pub spill : BlockStore → ℕ → Bytes → BlockStore
unfolding contains put
spill s hash b = if contains s hash then s else put s hash b

-- What the locked part of `get` finds.
pub data Found : Type 0 where
  missing : Found
  in_flight : Bytes → Found
  on_disk : Found

unfoldable pub get : BlockStore → ℕ → BlockStore × Found
unfolding find erase
get s hash = elim (find hash s.index) [
  | none ↦ elim (find hash s.queue) [ none ↦ (s, missing) | some b ↦ (s, in_flight b) ]
  | some e ↦ (
    record s {
      stamp = suc s.stamp;
      index = (hash, record e { stamp = suc s.stamp }) ∷ erase hash s.index;
    },
    on_disk,
  )
]

-- The scan for the smallest stamp.
unfoldable pub pick : ℕ × StoreEntry → List (ℕ × StoreEntry) → ℕ × StoreEntry
pick v [] = v
pick v (e ∷ l) = pick (if ltb e.1.stamp v.1.stamp then e else v) l

unfoldable pub drop_victim : List (ℕ × StoreEntry) → BlockStore → BlockStore
unfolding pick erase
drop_victim [] s = s
drop_victim (e ∷ l) s =
    let v = pick e l in
    record s { bytes = s.bytes - v.1.size; index = erase v.0 s.index; files = erase v.0 s.files }

-- The loop of `evict_to_budget_locked`; a round drops an entry, so as many rounds as entries do.
unfoldable pub evict_loop : ℕ → BlockStore → BlockStore
unfolding drop_victim
evict_loop zero s = s
evict_loop (suc rounds) s =
    let rest = evict_loop rounds (drop_victim s.index s) in
    if ltb s.budget s.bytes && ltb 1 (length s.index) then rest else s

unfoldable pub evict_to_budget_locked : BlockStore → BlockStore
unfolding evict_loop
evict_to_budget_locked s = if s.budget == 0 then s else evict_loop (length s.index) s

abbrev pub tail {ℓ} : {A : Type ℓ} → List A → List A
tail [] = []
tail (x ∷ l) = l

-- The end of a round of `writer_loop`, for the front of the queue: `ok` tells whether the file was
-- written and renamed.
unfoldable pub finish_write : BlockStore → ℕ → Bytes → Bool → BlockStore
unfolding evict_to_budget_locked erase
finish_write s hash b ok =
    let written : BlockStore = record s {
      index = (hash, record { size = length b; stamp = suc s.stamp }) ∷ erase hash s.index;
      stamp = suc s.stamp;
      bytes = s.bytes + length b;
      files = (hash, b) ∷ erase hash s.files;
    } in
    let t = if ok then evict_to_budget_locked written else s in record t { queue = tail t.queue }
