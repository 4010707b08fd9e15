-- ===== src/BufCache.antt =====
-- The buffer cache: sys/kern/bufcache.c. Disks and cache entries are pointers, `disk` 0 is NULL,
-- and the fields of the entries are functions from pointers. Every operation but the write runs
-- under `cacheLock` from its first to its last access, so it is one step on the state.
pub mod Valid
pub mod Steps
pub mod Blocks
mod Startup
mod Tests
use boring_os_ssaha.Prelude.{
  ℕ, zero, suc, ◌+◌, ◌-◌, ◌*◌, ◌%◌, ◌^◌, ◌==◌, if◌then◌else◌, ◌&&◌, Bool, true, false, Option, none,
  some, List, [], ◌∷◌, ◌++◌, update, remove,
}
use boring_os_ssaha.Sga
use boring_os_ssaha.Sga.{SgArray}

-- HASHTABLEENTRIES, BLOCKSIZE, CACHESIZE / BLOCKSIZE, ENOENT, ENOMEM
abbrev pub hash_table_entries : ℕ
hash_table_entries = 128

abbrev pub block_size : ℕ
block_size = 16384

abbrev pub cache_entries : ℕ
cache_entries = 1024

abbrev pub enoent : ℕ
enoent = 0x1bad0006

abbrev pub enomem : ℕ
enomem = 0x1bad0005

-- The statics of bufcache.c, and the fields of the `BufCacheEntry` objects.
pub record Cache : Type 0 where
  pub disk : ℕ → ℕ
  pub disk_offset : ℕ → ℕ
  pub ref_count : ℕ → ℕ
  pub buffer : ℕ → ℕ
  pub hash_table : ℕ → List ℕ
  pub lru_list : List ℕ
  pub cache_hit : ℕ
  pub cache_miss : ℕ
  pub cache_alloc : ℕ

abbrev pub slot_of : ℕ → ℕ
slot_of off = off % hash_table_entries

-- The loop over one hash chain in BufCacheLookup.
pub find_block : (ℕ → ℕ) → (ℕ → ℕ) → ℕ → ℕ → List ℕ → Option ℕ
find_block disk_of off_of d off [] = none
find_block disk_of off_of d off (e ∷ es) =
    let rest = find_block disk_of off_of d off es in
    if (disk_of e == d) && (off_of e == off) then some e else rest

-- The new reference count is 1 exactly when the entry was on the LRU list.
pub retain : Cache → ℕ → Cache
retain c e =
    let refs = (c.ref_count e + 1) % 2 ^ 64 in
    record c {
      ref_count = update c.ref_count e refs;
      lru_list = if refs == 1 then remove e c.lru_list else c.lru_list;
    }

-- BufCacheLookup: the state, the status, and `*entry` (`none` is NULL).
pub cache_lookup : Cache → ℕ → ℕ → Cache × ℕ × Option ℕ
cache_lookup c d off = elim (find_block c.disk c.disk_offset d off (c.hash_table (slot_of off))) [
  | some e ↦ (retain c e, 0, some e)
  | none ↦ (c, enoent, none)
]

-- The entry leaves the chain of the block that it held.
pub unhash : Cache → ℕ → Cache
unhash c e =
    let slot = slot_of (c.disk_offset e) in
    if c.disk e == 0
    then c
    else record c { hash_table = update c.hash_table slot (remove e (c.hash_table slot)) }

-- The entry is given to a block and enters that block's chain.
pub assign : Cache → ℕ → ℕ → ℕ → Cache
assign c e d off = record c {
  disk = update c.disk e d;
  disk_offset = update c.disk_offset e off;
  ref_count = update c.ref_count e 1;
  hash_table = update c.hash_table (slot_of off) (e ∷ c.hash_table (slot_of off));
}

pub alloc_from : List ℕ → Cache → ℕ → ℕ → Cache × ℕ × Option ℕ
alloc_from [] c d off = (c, enomem, none)
alloc_from (e ∷ rest) c d off =
    (assign (unhash (record c { lru_list = remove e c.lru_list }) e) e d off, 0, some e)

-- BufCacheAlloc, called with `*entry` NULL.
pub cache_alloc_entry : Cache → ℕ → ℕ → Cache × ℕ × Option ℕ
unfolding alloc_from
cache_alloc_entry c d off = alloc_from c.lru_list c d off

count_alloc : Cache × ℕ × Option ℕ → Cache × ℕ × Option ℕ
count_alloc (c, status, entry) =
    (record c { cache_alloc = (c.cache_alloc + 1) % 2 ^ 64 }, status, entry)

alloc_rest : ℕ → ℕ → Cache × ℕ × Option ℕ → Cache × ℕ × Option ℕ
unfolding count_alloc
alloc_rest d off (c, status, none) = count_alloc (cache_alloc_entry c d off)
alloc_rest d off (c, status, some e) = count_alloc (c, status, some e)

-- BufCache_Alloc
pub alloc : Cache → ℕ → ℕ → Cache × ℕ × Option ℕ
unfolding alloc_rest
alloc c d off = alloc_rest d off (cache_lookup c d off)

-- BufCache_Release. The count is a uint64_t.
pub release : Cache → ℕ → Cache
release c e =
    let refs = (c.ref_count e + 2 ^ 64 - 1) % 2 ^ 64 in
    record c {
      ref_count = update c.ref_count e refs;
      lru_list = if refs == 0 then c.lru_list ++ (e ∷ []) else c.lru_list;
    }

-- The transfer that BufCache_Read and BufCache_Write ask for. The ASSERT of SGArray_Append holds for
-- an array with no entry (`Steps.one_block_lem`).
pub one_block : ℕ → Option SgArray
unfolding Sga.init Sga.append
one_block off = elim (Sga.append Sga.init off block_size) [ none ↦ none | some (sga, n) ↦ some sga ]

-- What a driver does with a transfer: the status that it returns, by disk, buffer and array. It is
-- reached through the function pointers of a `Disk`.
abbrev pub Transfer : Type 0
Transfer = ℕ → ℕ → SgArray → ℕ

transfer : Transfer → ℕ → ℕ → ℕ → ℕ
unfolding one_block
transfer io d buf off = elim (one_block off) [ none ↦ 0 | some sga ↦ io d buf sga ]

pub read_alloc : Transfer → ℕ → ℕ → Cache × ℕ × Option ℕ → Cache × ℕ × Option ℕ
read_alloc io d off (c, status, none) = (c, status, none)
read_alloc io d off (c, status, some e) = (c, transfer io d (c.buffer e) off, some e)

read_rest : Transfer → ℕ → ℕ → Cache × ℕ × Option ℕ → Cache × ℕ × Option ℕ
unfolding read_alloc
read_rest io d off (c, status, some e) =
    (record c { cache_hit = (c.cache_hit + 1) % 2 ^ 64 }, status, some e)
read_rest io d off (c, status, none) =
    read_alloc io d off
      (cache_alloc_entry (record c { cache_miss = (c.cache_miss + 1) % 2 ^ 64 }) d off)

-- BufCache_Read
pub read : Transfer → Cache → ℕ → ℕ → Cache × ℕ × Option ℕ
unfolding read_rest
read io c d off = read_rest io d off (cache_lookup c d off)

-- BufCache_Write
pub write : Transfer → Cache → ℕ → ℕ
write io c e = transfer io (c.disk e) (c.buffer e) (c.disk_offset e)
