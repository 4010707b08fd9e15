-- ===== src/PAlloc/Region.antt =====
-- PAlloc_AddRegion: the first region of memory becomes a well-formed pool.
use boring_os_ssaha.Prelude.{ℕ, ◌+◌, ◌*◌, ◌%◌, ◌^◌, ◌<◌, ◌≡◌, ◌∷◌, count, update}
use boring_os_ssaha.PAlloc.{Pool, pgsize, dmva_to_pa, info_index, magic_free, first_table}
use boring_os_ssaha.PAlloc.Valid.{IsPage}

-- The `n` pages from `pg` on can be given to the pool.
abbrev Fresh : ℕ → ℕ → Pool → Type 0
Fresh n pg s =
    (k : ℕ)
    → k < n
    → IsPage (pg + k * pgsize)
      × (count (pg + k * pgsize) s.free_list ≡ 0)
      × (s.info (info_index (pg + k * pgsize)) ≡ 0)

abbrev added : ℕ → Pool → Pool
added pg s = record s {
  magic = update s.magic pg magic_free;
  total_pages = (s.total_pages + 1) % 2 ^ 64;
  free_pages = (s.free_pages + 1) % 2 ^ 64;
  free_list = pg ∷ s.free_list;
}

abbrev tabled : Pool → ℕ → ℕ → ℕ → Pool
tabled s start len size = record s {
  table = start;
  table_length = size;
  info = first_table s.info (dmva_to_pa start) (dmva_to_pa start + len) size;
}
