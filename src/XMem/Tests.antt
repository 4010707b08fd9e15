-- ===== src/XMem/Tests.antt =====
-- A table of regions and a pool of eight pages, and the theorems at them.
use boring_os_ssaha.Prelude.{◌+◌, ◌*◌, refl, arith, true, false, [], ◌∷◌, update}
use boring_os_ssaha.PAlloc.{Pool, magic_free}
use boring_os_ssaha.PAlloc.Valid.{IsPool}
use boring_os_ssaha.XMem.{Regions, xmap_base, region_size, allocate}
use boring_os_ssaha.XMem.Grow.{Allocated, allocate-Allocated}

abbrev pool : Pool
pool = record {
  total_pages = 8;
  free_pages = 8;
  free_list =
      0xffff800000010000 ∷ 0xffff800000011000 ∷ 0xffff800000012000 ∷ 0xffff800000013000
      ∷ 0xffff800000014000 ∷ 0xffff800000015000 ∷ 0xffff800000016000 ∷ 0xffff800000017000 ∷ [];
  info = λ i. 0;
  magic = λ p. magic_free;
  table = 0xffff800000000000;
  table_length = 256;
  has_xmem = false;
}

pool-IsPool : IsPool pool
pool-IsPool = record {
  once = λ pg. ground arith;
  mapped = λ pg h. ground arith;
  unused = λ pg h. refl;
  marked = λ pg h. refl;
  counted = refl;
  bounded = omega arith;
}

abbrev regions : Regions
regions = record {
  in_use = update (λ r. false) 0 true;
  base = λ r. xmap_base + r * region_size;
  max_length = λ r. region_size;
  length = λ r. 0;
  maps = [];
  tables = λ size block. false;
}

allocate-Allocated_example : Allocated regions pool 0 5000 (allocate regions pool 0 5000)
allocate-Allocated_example =
    allocate-Allocated regions pool 0 5000 pool-IsPool (omega arith) (omega arith)
