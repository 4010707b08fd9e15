-- ===== src/BufCache/Startup.antt =====
-- BufCache_Init of sys/kern/bufcache.c, over the regions, the page pool and the slab that it calls.
-- `none` is a panic.
use boring_os_ssaha.Prelude.{
  ℕ, zero, suc, ◌+◌, ◌*◌, true, false, Option, none, some, [], ◌∷◌, ◌++◌, update,
}
use boring_os_ssaha.PAlloc
use boring_os_ssaha.PAlloc.{Pool}
use boring_os_ssaha.XMem
use boring_os_ssaha.XMem.{Regions}
use boring_os_ssaha.Slab
use boring_os_ssaha.BufCache.{Cache, block_size, cache_entries}

-- sizeof(BufCacheEntry)
abbrev sizeof_entry : ℕ
sizeof_entry = 64

-- The fields of the entry `e` for block `i` of the buffer, and its place on the LRU list.
init_entry : Cache → ℕ → ℕ → ℕ → Cache
init_entry c e base i = record c {
  disk = update c.disk e 0;
  disk_offset = update c.disk_offset e 0;
  ref_count = update c.ref_count e 0;
  buffer = update c.buffer e (base + block_size * i);
  lru_list = c.lru_list ++ (e ∷ []);
}

-- The loop over the entries, with the rounds that are left.
init_entries :
    ℕ → ℕ → ℕ → Cache → Slab.Slab → Regions → Pool → Option (Cache × Slab.Slab × Regions × Pool)
init_entries zero i base c s x p = some (c, s, x, p)
init_entries (suc n) i base c s x p = elim (Slab.alloc s x p) [
  | none ↦ none
  | some ((t, none), y, q) ↦ none
  | some ((t, some e), y, q) ↦ init_entries n (i + 1) base (init_entry c e base i) t y q
]

-- BufCache_Init behind the allocation of the hash table.
init_slab : Cache → ℕ → Regions → Pool → Option (Cache × Slab.Slab × Regions × Pool)
unfolding init_entries init_entry
init_slab c disk_buf x p = elim (Slab.init x sizeof_entry 16) [
  | none ↦ none
  | some (s, y) ↦ init_entries cache_entries 0 (XMem.get_base y disk_buf) c s y p
]

-- The empty lists and the counters.
cleared : Cache → Cache
cleared c = record c {
  hash_table = λ i. [];
  lru_list = [];
  cache_hit = 0;
  cache_miss = 0;
  cache_alloc = 0;
}

init_region : Cache → Regions × Option ℕ → Pool → Option (Cache × Slab.Slab × Regions × Pool)
unfolding init_slab cleared
init_region c (x, none) p = none
init_region c (x, some disk_buf) p =
    elim (XMem.allocate x p disk_buf (block_size * cache_entries)) [
      | none ↦ none
      | some (false, y, q) ↦ none
      | some (true, y, q) ↦ elim (PAlloc.alloc_page q) [
        | none ↦ none
        | some (r, table) ↦ init_slab (cleared c) disk_buf y r
      ]
    ]

-- BufCache_Init, on a state whose entries hold anything.
unfoldable init : Cache → Regions → Pool → Option (Cache × Slab.Slab × Regions × Pool)
unfolding init_region
init c x p = init_region c (XMem.new x) p
