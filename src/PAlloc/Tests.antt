-- ===== src/PAlloc/Tests.antt =====
-- A pool with one free page, and the theorems at it.
use boring_os_ssaha.Prelude.{ℕ, ◌≡◌, refl, arith, false, some, [], ◌∷◌, update}
use boring_os_ssaha.PAlloc.{Pool, magic_free, magic_inuse, alloc_page, take_page, release}
use boring_os_ssaha.PAlloc.Valid.{IsPool, Released}
use boring_os_ssaha.PAlloc.Pages.{release-Released}

abbrev page : ℕ
page = 0xffff800000010000

abbrev pool : Pool
pool = record {
  total_pages = 1;
  free_pages = 1;
  free_list = page ∷ [];
  info = λ i. 0;
  magic = λ p. magic_free;
  table = 0xffff800000000000;
  table_length = 136;
  has_xmem = false;
}

-- The pool when the page is in use.
abbrev taken : Pool
taken = record pool {
  free_pages = 0;
  free_list = [];
  info = update (λ i. 0) 16 1;
  magic = update (update (λ p. magic_free) page magic_inuse) page 0;
}

taken-IsPool : IsPool taken
taken-IsPool = record {
  once = λ pg. omega arith;
  mapped = λ pg h. elim h [ ];
  unused = λ pg h. elim h [ ];
  marked = λ pg h. elim h [ ];
  counted = refl;
  bounded = omega arith;
}

alloc_page_run : alloc_page pool ≡ some (taken, page)
unfolding alloc_page take_page
alloc_page_run = refl

release-Released_example : (s' : Pool) × (release taken page ≡ some s') × Released taken s' page
release-Released_example =
    release-Released taken page taken-IsPool (omega arith, omega arith, refl) (omega arith)
      (omega arith) (omega arith)

-- A region of 64 KB, 1 MB into the memory, on a pool that is empty.
abbrev empty : Pool
empty = record pool { free_pages = 0; free_list = []; total_pages = 0; table = 0 }
