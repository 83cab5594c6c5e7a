-- ===== src/Cache.antt =====
-- server/cache-item.tmpl.cpp: the cache of cursors or palettes that a client is told to keep. An item
-- stands in a chain of the hash table and in the ring of items by use; its address tells it apart.
use spice.Prelude.{
  ℕ, zero, suc, ◌+◌, ◌-◌, ◌^◌, ◌%◌, leb, Bool, true, false, not, Option, none, some, List, [], ◌∷◌,
  ◌++◌, ltb, ◌==◌, if◌then◌else◌, length, bit_and, ◌>>=◌,
}
pub mod Chains
pub mod Lru
pub mod Recency
pub mod Room
pub mod Refinement
pub mod Budget
mod Tests

-- `RedCacheItem`
pub record CacheItem : Type 0 where
  pub address : ℕ
  pub size : ℕ
  pub id : ℕ

-- The fields of the channel client: the hash table, the ring from its tail, that is with the least
-- recently used item first, and the room, a `long` kept as its 64 bits. The memory allocator gives a new `next_address` each time,
-- and `invalidated` lists the ids that the client is told to drop, each behind its pipe.
pub record Cache : Type 0 where
  pub table : ℕ → List CacheItem
  pub lru : List CacheItem
  pub available : ℕ
  pub next_address : ℕ
  pub invalidated : List ℕ

abbrev pub u64 : ℕ → ℕ
u64 n = n % 2 ^ 64

-- Whether a `long` is below zero.
abbrev pub is_negative : ℕ → Bool
is_negative a = leb (2 ^ 63) a

abbrev pub cache_hash_size : ℕ
cache_hash_size = 2 ^ 8

-- `CURSOR_CACHE_HASH_KEY` and `PALETTE_CACHE_HASH_KEY`
unfoldable pub hash_key : ℕ → ℕ
hash_key id = bit_and id (cache_hash_size - 1)

-- The walk along a chain.
unfoldable pub seek : ℕ → List CacheItem → Option CacheItem
seek id [] = none
seek id (x ∷ xs) = let rest = seek id xs in if x.id == id then some x else rest

-- `ring_remove`
unfoldable pub without : ℕ → List CacheItem → List CacheItem
without a [] = []
without a (x ∷ xs) = let rest = without a xs in if x.address == a then rest else x ∷ rest

-- `find`: an item that is found becomes the one used last.
unfoldable pub used : Option CacheItem → Cache → Cache
used none c = c
used (some x) c = record c { lru = without x.address c.lru ++ (x ∷ []) }

unfoldable pub find : ℕ → Cache → Option CacheItem × Cache
find id c = let o = seek id (c.table (hash_key id)) in (o, used o c)

abbrev pub cons_some : CacheItem → Option (List CacheItem) → Option (List CacheItem)
cons_some x none = none
cons_some x (some xs) = some (x ∷ xs)

-- The loop of `remove`: the item is taken out of its chain, and the assertion fails if it is not there.
unfoldable pub unlink : ℕ → List CacheItem → Option (List CacheItem)
unlink a [] = none
unlink a (x ∷ xs) = let rest = unlink a xs in if x.address == a then some xs else cons_some x rest

abbrev pub set_chain : ℕ → List CacheItem → (ℕ → List CacheItem) → ℕ → List CacheItem
set_chain k xs t j = if j == k then xs else t j

-- `remove`
unfoldable pub remove : CacheItem → Cache → Option Cache
remove x c = unlink x.address (c.table (hash_key x.id)) >>= λ xs. some (record c {
  table = set_chain (hash_key x.id) xs c.table;
  lru = without x.address c.lru;
  available = u64 (c.available + x.size);
  invalidated = x.id ∷ c.invalidated;
})

-- What the loop of `add` does with the tail of the ring, which goes unless there is none.
abbrev pub evict_tail :
    (Cache → Option (Cache × Bool)) → List CacheItem → Cache → Option (Cache × Bool)
evict_tail again [] c = some (c, false)
evict_tail again (x ∷ xs) c = remove x c >>= again

-- The loop of `add`, on fuel, which is `none` when it runs out, and when an assertion fails.
unfoldable pub make_room : ℕ → Cache → Option (Cache × Bool)
make_room zero c = none
make_room (suc fuel) c =
    let evicted = evict_tail (make_room fuel) c.lru c in
    if is_negative c.available then evicted else some (c, true)

-- The end of `add`: if there is room, the item is put in, and otherwise `size` is added again.
abbrev pub insert : ℕ → ℕ → Cache × Bool → Cache × Bool
insert id size (c, false) = (record c { available = u64 (c.available + size) }, false)
insert id size (c, true) =
    let x : CacheItem = record { address = c.next_address; size = size; id = id } in
    (
      record c {
        table = set_chain (hash_key id) (x ∷ c.table (hash_key id)) c.table;
        lru = c.lru ++ (x ∷ []);
        next_address = suc c.next_address;
      },
      true,
    )

-- What `available -= size` gives.
abbrev pub take_off : ℕ → ℕ → ℕ
take_off available size = u64 (available + 2 ^ 64 - size)

-- `add`
unfoldable pub add : ℕ → ℕ → Cache → Option (Cache × Bool)
add id size c =
    make_room (suc (length c.lru)) (record c { available = take_off c.available size }) >>= λ r.
    some (insert id size r)

-- `reset`
unfoldable pub reset : ℕ → Cache → Cache
reset size c = record c { table = λ k. []; lru = []; available = size }

-- What the client is told of an item: it has it, it shall keep it, or neither.
pub data Verdict : Type 0 where
  from_cache cache_me uncached : Verdict

abbrev pub verdict_of : Bool → Verdict
verdict_of true = cache_me
verdict_of false = uncached

unfoldable pub add_missing : ℕ → ℕ → Option CacheItem × Cache → Option (Cache × Verdict)
add_missing id size (some x, c) = some (c, from_cache)
add_missing id size (none, c) = add id size c >>= λ r. some (r.0, verdict_of r.1)

-- `dcc_palette_cache_palette` for a palette with an id, and likewise for a cursor.
unfoldable pub request : ℕ → ℕ → Cache → Option (Cache × Verdict)
request id size c = add_missing id size (find id c)
