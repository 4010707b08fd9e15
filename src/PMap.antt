-- ===== src/PMap.antt =====
-- The page tables of an address space: sys/amd64/pmap.c. A table is the address of its page in the
-- direct map, and `entries` is the memory of all tables. `free` has the pages that PAlloc_AllocPage will
-- hand out. At its end PAlloc_AllocPage fails its ASSERT and the kernel stops: `none` for a table and
-- `false` for a mapping say so, with the space as it was left. The branches of the code for a NULL answer
-- are never taken.
pub mod Entry
pub mod Walk
pub mod Grow
pub mod Lookup
pub mod Leaf
pub mod Map
pub mod Translate
pub mod Alloc
pub mod Lifetime
pub mod Destroy
mod Tests
use Prim.Native.Nat.{bit_or}
use boring_os_ssaha.Prelude.{
  ℕ, zero, suc, ◌+◌, ◌-◌, ◌*◌, ◌/◌, ◌%◌, ◌^◌, ◌==◌, if◌then◌else◌, Bool, true, false, Option, none,
  some, List, [], ◌∷◌, update,
}
use boring_os_ssaha.PAlloc.{pgsize, directmap_base, dmva_to_pa}

-- LARGE_PGSIZE, PAGETABLE_ENTRIES, and the flags PTE_P, PTE_W, PTE_U, PTE_PS
abbrev pub large_pgsize : ℕ
large_pgsize = 2097152

abbrev pub pagetable_entries : ℕ
pagetable_entries = 512

abbrev pub pte_p : ℕ
pte_p = 1

abbrev pub pte_w : ℕ
pte_w = 2

abbrev pub pte_u : ℕ
pte_u = 4

abbrev pub pte_ps : ℕ
pte_ps = 128

-- DMPA2VA(pte & PGNUMMASK)
unfoldable pub table_of : ℕ → ℕ
table_of pte = (pte / pgsize * pgsize + directmap_base) % 2 ^ 64

-- DMVA2PA(newtable) | PTE_P | PTE_W | PTE_U
unfoldable pub entry_of : ℕ → ℕ
entry_of table = bit_or (bit_or (bit_or (dmva_to_pa table) pte_p) pte_w) pte_u

-- An AS with the memory of the tables. The counters `tables` and `mappings` of the source are set
-- once and never read.
pub record Space : Type 0 where
  pub root : ℕ
  pub entries : ℕ → ℕ → ℕ
  pub free : List ℕ

abbrev pub write : Space → ℕ → ℕ → ℕ → Space
write s table i pte = record s { entries = update s.entries table (update (s.entries table) i pte) }

-- PMapAllocPageTable, with the free pages as its argument. With `none` the kernel has stopped in
-- PAlloc_AllocPage.
abbrev pub alloc_page_table : Space → List ℕ → Space × Option ℕ
alloc_page_table s [] = (s, none)
alloc_page_table s (pg ∷ rest) =
    (record s { entries = update s.entries pg (λ i. 0); free = rest }, some pg)

-- "pte = DMVA2PA(newtable) | ...; table->entries[i] = pte;"
abbrev pub link : ℕ → ℕ → Space × Option ℕ → Space × Option ℕ
link table i (s, none) = (s, none)
link table i (s, some new) = (write s table i (entry_of new), some (table_of (entry_of new)))

-- One level of PMapLookupEntry: the next table, which is allocated where the entry is 0.
unfoldable pub descend : Space → ℕ → ℕ → Space × Option ℕ
descend s table i =
    if s.entries table i == 0
    then link table i (alloc_page_table s s.free)
    else (s, some (table_of (s.entries table i)))

-- (va >> shift) & PGIDXMASK, where `size` is 1 << shift.
abbrev pub index : ℕ → ℕ → ℕ
index va size = va / size % pagetable_entries

abbrev pub then_descend : ℕ → Space × Option ℕ → Space × Option ℕ
then_descend i (s, none) = (s, none)
then_descend i (s, some table) = descend s table i

-- PMapLookupEntry down to the table of 2 MB entries, which ends it for LARGE_PGSIZE, and to the table
-- of 4 KB entries. With `none` the kernel has stopped; the tables that were made on the way stay.
unfoldable pub lookup_large : Space → ℕ → Space × Option ℕ
unfolding descend
lookup_large s va = then_descend (index va (2 ^ 30)) (descend s s.root (index va (2 ^ 39)))

unfoldable pub lookup_entry : Space → ℕ → Space × Option ℕ
unfolding lookup_large descend
lookup_entry s va = then_descend (index va (2 ^ 21)) (lookup_large s va)

-- The rest of a round of a loop: after `none` the kernel has stopped, and `some` writes the entry.
abbrev pub write_found : ℕ → ℕ → Space × Option ℕ → Space × Bool
write_found i pte (s, none) = (s, false)
write_found i pte (s, some table) = (write s table i pte, true)

-- The entry that PMap_Map writes.
abbrev pub user_entry : ℕ → ℕ → ℕ
user_entry phys flags = bit_or (bit_or (bit_or (bit_or phys pte_p) pte_w) pte_u) flags

-- One round of PMap_Map.
unfoldable pub map_page : Space → ℕ → ℕ → ℕ → Space × Bool
unfolding lookup_entry
map_page s phys va flags = write_found (index va pgsize) (user_entry phys flags) (lookup_entry s va)

-- PMap_Map, with the rounds that are left; `phys` and `va` are those of the round. The source computes
-- `PGSIZE * i` as an int, which is below 2 ^ 31 for the rounds of at most 2 ^ 19 pages: the theorems are
-- about such calls.
abbrev pub map_rest : (Space → Space × Bool) → Space × Bool → Space × Bool
map_rest rest (s, false) = (s, false)
map_rest rest (s, true) = rest s

unfoldable pub map_pages : ℕ → Space → ℕ → ℕ → ℕ → Space × Bool
unfolding map_page
map_pages zero s phys va flags = (s, true)
map_pages (suc n) s phys va flags =
    map_rest (λ t. map_pages n t ((phys + pgsize) % 2 ^ 64) ((va + pgsize) % 2 ^ 64) flags)
      (map_page s phys va flags)

-- PMap_Translate; `none` is a failed ASSERT. First an entry of the table of 4 KB entries.
abbrev pub small_address : ℕ → ℕ → ℕ
small_address pte va = pte / pgsize * pgsize % 2 ^ 63 + va % pgsize

abbrev pub large_address : ℕ → ℕ → ℕ
large_address pte va = pte / large_pgsize * large_pgsize % 2 ^ 63 + va % large_pgsize

-- "table = (PageTable *)DMPA2VA(pte & PGNUMMASK)", behind the test for 0.
abbrev pub follow : Space → ℕ → ℕ → Option ℕ
follow s table i = if s.entries table i == 0 then none else some (table_of (s.entries table i))

abbrev pub translate_large : Space → ℕ → Option ℕ → Option ℕ
translate_large s va none = none
translate_large s va (some table) =
    if s.entries table (index va (2 ^ 21)) / pte_ps % 2 == 1
    then some (large_address (s.entries table (index va (2 ^ 21))) va)
    else if s.entries table (index va (2 ^ 21)) == 0
    then none
    else some (
        small_address (s.entries (table_of (s.entries table (index va (2 ^ 21)))) (index va pgsize))
          va)

abbrev pub then_follow : Space → ℕ → Option ℕ → Option ℕ
then_follow s i none = none
then_follow s i (some table) = follow s table i

pub translate : Space → ℕ → Option ℕ
translate s va =
    translate_large s va (then_follow s (index va (2 ^ 30)) (follow s s.root (index va (2 ^ 39))))
