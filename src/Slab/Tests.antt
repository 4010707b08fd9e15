-- ===== src/Slab/Tests.antt =====
-- A slab with objects of 64 bytes, and the theorems at it.
use boring_os_ssaha.Prelude.{
  ℕ, ◌+◌, ◌*◌, ◌≡◌, refl, arith, true, false, Option, some, [], ◌∷◌, update,
}
use boring_os_ssaha.PAlloc.{Pool, magic_free}
use boring_os_ssaha.PAlloc.Valid.{IsPool}
use boring_os_ssaha.XMem.{Regions, xmap_base, region_size}
use boring_os_ssaha.Slab.{Slab, alloc}
use boring_os_ssaha.Slab.Objects.{Backed, Small, Answer, alloc_lem}

abbrev pool : Pool
pool = record {
  total_pages = 16;
  free_pages = 16;
  free_list =
      0xffff800000010000 ∷ 0xffff800000011000 ∷ 0xffff800000012000 ∷ 0xffff800000013000
      ∷ 0xffff800000014000 ∷ 0xffff800000015000 ∷ 0xffff800000016000 ∷ 0xffff800000017000
      ∷ 0xffff800000018000 ∷ 0xffff800000019000 ∷ 0xffff80000001a000 ∷ 0xffff80000001b000
      ∷ 0xffff80000001c000 ∷ 0xffff80000001d000 ∷ 0xffff80000001e000 ∷ 0xffff80000001f000 ∷ [];
  info = λ i. 0;
  magic = λ p. magic_free;
  table = 0xffff800000000000;
  table_length = 512;
  has_xmem = false;
}

pool-IsPool : IsPool pool
pool-IsPool = record {
  once = λ pg. ground arith;
  mapped = λ pg h. ground arith;
  unused = λ pg h. refl;
  marked = λ pg h. refl;
  counted = refl;
  bounded = omega arith;
}

-- The first region has two pages.
abbrev regions : Regions
regions = record {
  in_use = update (λ r. false) 0 true;
  base = λ r. xmap_base + r * region_size;
  max_length = λ r. region_size;
  length = update (λ r. 0) 0 8192;
  maps = [];
  tables = λ size block. false;
}

-- Two objects, one of them allocated.
abbrev slab : Slab
slab = record {
  objsz = 48;
  align = 16;
  xmem = 0;
  objs = 2;
  free_objs = 1;
  free_list = 0xffff810000000040 ∷ [];
  allocs = 1;
  frees = 0;
}

-- Both objects are allocated: Slab_Alloc has to extend the slab.
abbrev full : Slab
full = record slab { free_objs = 0; free_list = []; allocs = 2 }

full-Backed : Backed full regions
full-Backed = record {
  sized = omega arith;
  inside = λ a h. elim h [ ];
  apart = λ a b h k lt. elim h [ ];
  once = λ a. omega arith;
  counted = refl;
  balanced = refl;
}

full-Small : Small full regions
full-Small = record {
  allocs = omega arith;
  objs = omega arith;
  free_objs = omega arith;
  sizes = omega arith;
}

alloc_lem_example :
    (t : Slab) × (r : Option ℕ) × (y : Regions) × (q : Pool) × (alloc full regions pool
      ≡ some ((t, r), y, q))
    × Backed t y
    × IsPool q
    × Answer full regions t y r
alloc_lem_example = alloc_lem full regions pool full-Backed full-Small pool-IsPool (omega arith)
