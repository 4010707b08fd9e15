-- ===== src/XMem.antt =====
-- Growable regions of kernel address space: sys/amd64/xmem.c. An `XMem *` is an index into
-- `regions`, whose fields are functions from indices. The pages come from the pool of PAlloc, and
-- each mapping that PMap_SystemMap makes is recorded as (physical, virtual) in `maps`. The tables of
-- the system's address space, for which PMapLookupEntry takes pages of the same pool, are `tables`.
-- `none` is a panic of the page allocator.
pub mod Grow
pub mod Table
mod Tests
use boring_os_ssaha.Prelude.{
  ℕ, zero, suc, ◌+◌, ◌-◌, ◌*◌, ◌/◌, ◌%◌, ◌^◌, ◌==◌, ltb, if◌then◌else◌, Bool, true, false, Option,
  none, some, List, [], ◌∷◌, ◌++◌, update,
}
use boring_os_ssaha.PAlloc
use boring_os_ssaha.PAlloc.{Pool, pgsize, dmva_to_pa}

-- MAX_XMEM_REGIONS, MEM_XMAP_BASE, MEM_XMAP_LEN
abbrev pub max_xmem_regions : ℕ
max_xmem_regions = 1024

abbrev pub xmap_base : ℕ
xmap_base = 0xffff810000000000

abbrev pub xmap_len : ℕ
xmap_len = 0x0000002000000000

abbrev pub region_size : ℕ
region_size = xmap_len / max_xmem_regions

pub record Regions : Type 0 where
  pub in_use : ℕ → Bool
  pub base : ℕ → ℕ
  pub max_length : ℕ → ℕ
  pub length : ℕ → ℕ
  pub maps : List (ℕ × ℕ)
  -- Whether there is a table for the block of this size and number.
  pub tables : ℕ → ℕ → Bool

init_regions : ℕ → ℕ → Regions → Regions
init_regions zero r x = x
init_regions (suc n) r x = init_regions n (r + 1) (record x {
  in_use = update x.in_use r false;
  base = update x.base r (xmap_base + r * region_size);
  max_length = update x.max_length r region_size;
  length = update x.length r 0;
})

-- XMem_Init
pub init : Regions → Regions
init x = init_regions max_xmem_regions 0 x

-- The loop of XMem_New from index `r` on.
new_from : ℕ → ℕ → Regions → Regions × Option ℕ
new_from zero r x = (x, none)
new_from (suc n) r x =
    let rest = new_from n (r + 1) x in
    if x.in_use r then rest else (record x { in_use = update x.in_use r true }, some r)

-- XMem_New
pub new : Regions → Regions × Option ℕ
new x = new_from max_xmem_regions 0 x

-- XMem_GetBase, XMem_GetLength
unfoldable pub get_base : Regions → ℕ → ℕ
get_base x r = x.base r

unfoldable pub get_length : Regions → ℕ → ℕ
get_length x r = x.length r

-- What an entry of the first three levels of tables covers: 1 << shift.
abbrev pub table_sizes : List ℕ
table_sizes = 2 ^ 39 ∷ 2 ^ 30 ∷ 2 ^ 21 ∷ []

abbrev pub with_table : Regions → ℕ → ℕ → Regions
with_table x size block = record x {
  tables = update x.tables size (update (x.tables size) block true);
}

-- PMapLookupEntry on the system's address space, without the entry itself: a missing table is a page of
-- PAlloc_AllocPage, which stops where there is none.
pub find_tables : List ℕ → Regions → Pool → ℕ → Option (Regions × Pool)
find_tables [] x s va = some (x, s)
find_tables (size ∷ sizes) x s va =
    let block = va % 2 ^ 48 / size in
    let present = find_tables sizes x s va in
    let made : Option (Regions × Pool) = elim (PAlloc.alloc_page s) [
      | none ↦ none
      | some (t, table) ↦ find_tables sizes (with_table x size block) t va
    ] in
    if x.tables size block then present else made

-- The rest of the loop body, when the entry has been found.
abbrev pub enter_page : ℕ → ℕ → ℕ → Option (Regions × Pool) → Option (Regions × Pool)
enter_page r va pg none = none
enter_page r va pg (some (x, s)) = some (
  record x {
    maps = x.maps ++ ((dmva_to_pa pg, va) ∷ []);
    length = update x.length r ((x.length r + pgsize) % 2 ^ 64);
  },
  s,
)

-- The loop body of XMem_Allocate behind PAlloc_AllocPage, for the page `pg`: PMap_SystemMap for one
-- page, and the new length.
pub map_page : Regions → Pool → ℕ → ℕ → ℕ → Option (Regions × Pool)
map_page x s r off pg =
    let va = (x.base r + off) % 2 ^ 64 in enter_page r va pg (find_tables table_sizes x s va)

-- The loop of XMem_Allocate, with the rounds that are left.
grow : ℕ → Regions → Pool → ℕ → ℕ → Option (Bool × Regions × Pool)
grow zero x s r off = some (true, x, s)
grow (suc n) x s r off = elim (PAlloc.alloc_page s) [
  | none ↦ none
  | some (t, pg) ↦ elim (pg == 0) [
    | true ↦ some (false, x, t)
    | false ↦ elim (map_page x t r off pg) [
      | none ↦ none
      | some (y, u) ↦ grow n y u r (off + pgsize)
    ]
  ]
]

-- The rounds of `for (off = from; off < to; off += PGSIZE)`.
abbrev pub rounds : ℕ → ℕ → ℕ
rounds from to = (to - from + pgsize - 1) / pgsize

-- XMem_Allocate
pub allocate : Regions → Pool → ℕ → ℕ → Option (Bool × Regions × Pool)
allocate x s r len =
    if ltb len (x.length r)
    then some (true, x, s)
    else if ltb (x.max_length r) len
    then some (false, x, s)
    else grow (rounds (x.length r) len) x s r (x.length r)
