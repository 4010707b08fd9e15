-- ===== src/BufCache/Tests.antt =====
-- A cache of two entries, one of them idle, and the theorems at it.
use boring_os_ssaha.Prelude.{◌*◌, ◌≡◌, refl, arith, [], ◌∷◌}
use boring_os_ssaha.BufCache.{
  Cache, alloc, read, Transfer, cache_lookup, cache_alloc_entry, find_block, transfer,
}
use boring_os_ssaha.BufCache.Valid.{IsCache}
use boring_os_ssaha.BufCache.Steps.{read-IsCache}

-- Entries 10 and 20 are idle and hold nothing.
abbrev empty : Cache
empty = record {
  disk = λ e. 0;
  disk_offset = λ e. 0;
  ref_count = λ e. 0;
  buffer = λ e. e * 4096;
  hash_table = λ i. [];
  lru_list = 10 ∷ 20 ∷ [];
  cache_hit = 0;
  cache_miss = 0;
  cache_alloc = 0;
}

empty-IsCache : IsCache empty
empty-IsCache = record {
  lru_once = λ e. ground arith;
  chain_once = λ i e. omega arith;
  idle_unused = λ e l. refl;
  in_slot = λ i e l. absurd (omega arith);
  has_disk = λ i e l. absurd (omega arith);
  hashed = λ e n. absurd (n refl);
  one_entry = λ i e g l m p q. absurd (omega arith);
  unused_idle = λ i e l z. absurd (omega arith);
}

-- The disk at 5, its block at 32768, in entry 10.
abbrev loaded : Cache
loaded = (alloc empty 5 32768).0

-- A driver that fails with status 9 each time.
abbrev broken : Transfer
broken = λ disk buf sga. 9

read-IsCache_example : IsCache (read broken empty 5 32768).0
read-IsCache_example =
    read-IsCache broken empty 5 32768 (omega arith) (λ e. omega arith) empty-IsCache

read_fails : (read broken empty 5 32768).1 ≡ 9
unfolding read cache_lookup cache_alloc_entry find_block transfer
read_fails = refl
