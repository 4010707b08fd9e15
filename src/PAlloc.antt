-- ===== src/PAlloc.antt =====
-- The allocator of physical pages: sys/kern/palloc.c. A page is the address of its mapping in the
-- direct map. `none` is a Panic or a failed ASSERT. Every operation runs under `pallocLock`.
pub mod Valid
pub mod Pages
pub mod Region
mod Tests
use boring_os_ssaha.Prelude.{
  ℕ, zero, suc, ◌+◌, ◌-◌, ◌*◌, ◌/◌, ◌%◌, ◌^◌, ◌==◌, if◌then◌else◌, ◌||◌, Bool, true, false, Option,
  none, some, List, [], ◌∷◌, update,
}

-- PGSIZE
abbrev pub pgsize : ℕ
pgsize = 4096

-- MEM_DIRECTMAP_BASE, and DMVA2PA
abbrev pub directmap_base : ℕ
directmap_base = 0xffff800000000000

abbrev pub dmva_to_pa : ℕ → ℕ
dmva_to_pa va = (va + 2 ^ 64 - directmap_base) % 2 ^ 64

-- FREEPAGE_MAGIC_FREE, FREEPAGE_MAGIC_INUSE, sizeof(PageInfo)
abbrev pub magic_free : ℕ
magic_free = 0x4652454550414745

abbrev pub magic_inuse : ℕ
magic_inuse = 0x414c4c4f43415445

abbrev pub sizeof_page_info : ℕ
sizeof_page_info = 8

-- ROUNDUP for a power of two `n`.
abbrev pub roundup : ℕ → ℕ → ℕ
roundup x n = (x + n - 1) / n * n

-- The globals of palloc.c: `info` is the array that `pageInfoTable` points to, and `magic` the first
-- word of each page. `table` 0 is NULL; `has_xmem` says that `pageInfoXMem` is not NULL.
pub record Pool : Type 0 where
  pub total_pages : ℕ
  pub free_pages : ℕ
  pub free_list : List ℕ
  pub info : ℕ → ℕ
  pub magic : ℕ → ℕ
  pub table : ℕ
  pub table_length : ℕ
  pub has_xmem : Bool

-- PAlloc_Init
pub init : Pool → Pool
init s = record s { total_pages = 0; free_pages = 0; free_list = []; table = 0; has_xmem = false }

-- PAllocGetInfo: the index of a page in the table.
abbrev pub info_index : ℕ → ℕ
info_index pg = dmva_to_pa pg / pgsize

-- `for (i = lo; i < lo + n; i++) pageInfoTable[i].refCount = v;`
pub fill : ℕ → ℕ → ℕ → (ℕ → ℕ) → ℕ → ℕ
fill zero lo v f = f
fill (suc n) lo v f = fill n (lo + 1) v (update f lo v)

-- The loop at the end of PAlloc_AddRegion, with the rounds that are left.
pub add_pages : ℕ → ℕ → Pool → Pool
add_pages zero pg s = s
add_pages (suc n) pg s = add_pages n (pg + pgsize) (record s {
  magic = update s.magic pg magic_free;
  total_pages = (s.total_pages + 1) % 2 ^ 64;
  free_pages = (s.free_pages + 1) % 2 ^ 64;
  free_list = pg ∷ s.free_list;
})

-- The first table, for memory between the physical addresses `base` and `end`: the pages below the
-- region, those of the region, and in it those that the table takes.
first_table : (ℕ → ℕ) → ℕ → ℕ → ℕ → ℕ → ℕ
first_table info base end size =
    let low = fill (base / pgsize) 0 1 info in
    let fresh = fill (end / pgsize - base / pgsize) (base / pgsize) 0 low in
    fill (size / pgsize) (base / pgsize) 1 fresh

-- The first region holds the table itself, of `size` bytes.
build_region : Pool → ℕ → ℕ → ℕ → Pool
build_region s start len size =
    let base = dmva_to_pa start in
    add_pages (((len + 2 ^ 64 - size) % 2 ^ 64 + pgsize - 1) / pgsize) (start + size) (record s {
      table = start;
      table_length = size;
      info = first_table s.info base (base + len) size;
    })

first_region : Pool → ℕ → ℕ → Pool
unfolding build_region
first_region s start len =
    build_region s start len (roundup ((dmva_to_pa start + len) / pgsize * sizeof_page_info) pgsize)

-- A later region; `backed` is the answer of XMem_Allocate to the request for a longer table.
later_region : Pool → ℕ → ℕ → Bool → Option Pool
later_region s start len backed =
    let base = dmva_to_pa start in
    let end = base + len in
    if s.has_xmem
    then (if backed
        then some (
            add_pages ((len + pgsize - 1) / pgsize) start
              (record s { info = fill (end / pgsize - base / pgsize) (base / pgsize) 0 s.info }))
        else none)
    else none

-- PAlloc_AddRegion
pub add_region : Pool → ℕ → ℕ → Bool → Option Pool
add_region s start len backed =
    if start % pgsize == 0
    then (if len % pgsize == 0
        then (if s.table == 0
            then some (first_region s start len)
            else later_region s start len backed)
        else none)
    else none

-- PAlloc_LateInit: the table moves to the region `base` of the `XMem`, or the kernel panics.
pub late_init : Pool → Bool → ℕ → Option Pool
late_init s backed base = if backed then some (record s { has_xmem = true; table = base }) else none

-- The rest of PAlloc_AllocPage, once LIST_FIRST has returned the page; the page is cleared.
pub take_page : Pool → ℕ → List ℕ → Option (Pool × ℕ)
take_page s pg rest =
    if s.magic pg == magic_free
    then (if s.info (info_index pg) == 0
        then some (
          record s {
            free_list = rest;
            info = update s.info (info_index pg) (s.info (info_index pg) + 1);
            magic = update (update s.magic pg magic_inuse) pg 0;
            free_pages = (s.free_pages + 2 ^ 64 - 1) % 2 ^ 64;
          },
          pg,
        )
        else none)
    else none

alloc_from : Pool → List ℕ → Option (Pool × ℕ)
alloc_from s [] = none
alloc_from s (pg ∷ rest) = take_page s pg rest

-- PAlloc_AllocPage
pub alloc_page : Pool → Option (Pool × ℕ)
unfolding alloc_from
alloc_page s = alloc_from s s.free_list

-- PAllocFreePage, with the checks of a debug build.
free_page : Pool → ℕ → Option Pool
free_page s pg =
    if pg % pgsize == 0
    then (if s.magic pg == magic_free
        then none
        else (if s.info (info_index pg) == 0
            then some (record s {
              free_list = pg ∷ s.free_list;
              magic = update s.magic pg magic_free;
              free_pages = (s.free_pages + 1) % 2 ^ 64;
            })
            else none))
    else none

-- PAlloc_Retain
pub retain : Pool → ℕ → Option Pool
retain s pg =
    let i = info_index pg in
    if s.info i == 0
    then none
    else some (record s { info = update s.info i ((s.info i + 1) % 2 ^ 64) })

-- PAlloc_Release
pub release : Pool → ℕ → Option Pool
unfolding free_page
release s pg =
    let i = info_index pg in
    let t = record s { info = update s.info i (s.info i - 1) } in
    if s.info i == 0 then none else (if t.info i == 0 then free_page t pg else some t)
