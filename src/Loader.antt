-- ===== src/Loader.antt =====
-- The loader of programs: sys/kern/loader.c. The memory is a function from addresses of the kernel to
-- bytes. VFS_Read is called through the file system's table of operations and is an argument: the memory,
-- the address, the offset in the file and the length. The loader ignores what it returns. `none` is a
-- failed ASSERT.
pub mod Segment
pub mod Parts
pub mod Image
pub mod Program
mod Tests
use boring_os_ssaha.Prelude.{
  ℕ, zero, suc, ◌+◌, ◌-◌, ◌%◌, ◌^◌, ◌==◌, ltb, leb, if◌then◌else◌, Bool, true, false, ◌&&◌, Option,
  none, some, List, [], ◌∷◌, update,
}
use boring_os_ssaha.PAlloc.{pgsize, directmap_base}
use boring_os_ssaha.CString.{memset}
use boring_os_ssaha.PMap.{Space, translate, pte_w}
use boring_os_ssaha.PMap.Alloc.{alloc_map}
use boring_os_ssaha.Process.{stkbase, stklen}

-- The fields of Elf64_Ehdr that are read, and of Elf64_Phdr.
pub record Ehdr : Type 0 where
  pub mag0 : ℕ
  pub mag1 : ℕ
  pub mag2 : ℕ
  pub mag3 : ℕ
  pub class : ℕ
  pub machine : ℕ
  pub entry : ℕ

pub record Phdr : Type 0 where
  pub type : ℕ
  pub offset : ℕ
  pub vaddr : ℕ
  pub filesz : ℕ
  pub memsz : ℕ

-- PT_LOAD, PT_DYNAMIC
abbrev pub pt_load : ℕ
pt_load = 1

abbrev pt_dynamic : ℕ
pt_dynamic = 2

-- Loader_CheckHeader
pub check_header : Ehdr → Bool
check_header ehdr =
    (ehdr.mag0 == 0x7f)
    && (ehdr.mag1 == 0x45)
    && (ehdr.mag2 == 0x4c)
    && (ehdr.mag3 == 0x46)
    && (ehdr.class == 2)
    && (ehdr.machine == 62)

-- What is done with a piece of a page, VFS_Read or memset: the memory, the address, the offset and the
-- length.
abbrev pub Fill : Type 0
Fill = (ℕ → ℕ) → ℕ → ℕ → ℕ → ℕ → ℕ

-- The bytes that memcpy puts into a buffer.
pub store : (ℕ → ℕ) → ℕ → List ℕ → ℕ → ℕ
store m raddr [] = m
store m raddr (b ∷ bytes) = store (update m raddr b) (raddr + 1) bytes

-- "raddr = (void *)DMPA2VA(PMap_Translate(as, vaddr));" and what is done there.
pub fill_page : Space → Fill → (ℕ → ℕ) → ℕ → ℕ → ℕ → Option (ℕ → ℕ)
fill_page s fill m vaddr offset len = elim (translate s vaddr) [
  | none ↦ none
  | some pa ↦ some (fill m ((pa + directmap_base) % 2 ^ 64) offset len)
]

-- The loop over whole pages and what is behind it, on fuel.
pub fill_pages : Space → Fill → (ℕ → ℕ) → ℕ → ℕ → ℕ → ℕ → Option (ℕ → ℕ)
fill_pages s fill m vaddr offset len zero = none
fill_pages s fill m vaddr offset len (suc fuel) =
    if ltb pgsize len
    then elim (fill_page s fill m vaddr offset pgsize) [
      | none ↦ none
      | some u ↦
          fill_pages s fill u ((vaddr + pgsize) % 2 ^ 64) ((offset + pgsize) % 2 ^ 64)
            (len - pgsize) fuel
    ]
    else if ltb 0 len
    then fill_page s fill m vaddr offset len
    else some m

-- LoaderLoadSegment and LoaderZeroSegment, which differ in what they do with a piece of a page.
pub fill_segment : Space → Fill → (ℕ → ℕ) → ℕ → ℕ → ℕ → Option (ℕ → ℕ)
fill_segment s fill m vaddr offset len =
    let maxlen = pgsize - vaddr % pgsize in
    let rlen = if ltb maxlen len then maxlen else len in
    let first : Option (ℕ → ℕ) = elim (fill_page s fill m vaddr offset rlen) [
      | none ↦ none
      | some u ↦
          fill_pages s fill u ((vaddr + rlen) % 2 ^ 64) ((offset + rlen) % 2 ^ 64) (len - rlen)
            (len + 1)
    ] in
    if vaddr % pgsize == 0 then fill_pages s fill m vaddr offset len (len + 1) else first

-- LoaderLoadSegment, with VFS_Read of the file.
pub load_segment : Fill → Space → (ℕ → ℕ) → ℕ → ℕ → ℕ → Option (ℕ → ℕ)
load_segment read s m vaddr offset len = fill_segment s read m vaddr offset len

-- "memset(raddr, 0, len)"
abbrev pub clear : Fill
clear m raddr offset len = memset m raddr 0 len

-- LoaderZeroSegment
pub zero_segment : Space → (ℕ → ℕ) → ℕ → ℕ → Option (ℕ → ℕ)
zero_segment s m vaddr len = fill_segment s clear m vaddr 0 len

-- The first loop of Loader_Load. A mapping for which pages are missing stops the kernel in
-- PAlloc_AllocPage.
pub map_segments : Space → List Phdr → Option Space
map_segments s [] = some s
map_segments s (ph ∷ phdrs) =
    let va = ph.vaddr - ph.vaddr % pgsize in
    let rest = map_segments s phdrs in
    let mapped : Option Space =
      elim (alloc_map s va ((ph.memsz + (ph.vaddr - va)) % 2 ^ 64) pte_w) [
        | none ↦ none
        | some (t, done) ↦ let rest = map_segments t phdrs in if done then rest else none
      ] in
    if ph.type == pt_dynamic then none else if ph.type == pt_load then mapped else rest

-- A round of the second loop.
pub load_phdr : Fill → Space → (ℕ → ℕ) → Phdr → Option (ℕ → ℕ)
load_phdr read s m ph =
    let loaded : Option (ℕ → ℕ) = elim (load_segment read s m ph.vaddr ph.offset ph.filesz) [
      | none ↦ none
      | some u ↦
          if leb ph.filesz ph.memsz
          then zero_segment s u ((ph.filesz + ph.vaddr) % 2 ^ 64) (ph.memsz - ph.filesz)
          else some u
    ] in
    if ph.type == pt_load then loaded else some m

-- The second loop.
pub load_phdrs : Fill → Space → (ℕ → ℕ) → List Phdr → Option (ℕ → ℕ)
load_phdrs read s m [] = some m
load_phdrs read s m (ph ∷ phdrs) = elim (load_phdr read s m ph) [
  | none ↦ none
  | some u ↦ load_phdrs read s u phdrs
]

-- Loader_Load: the address space, the memory, the entry point of the process, and whether the file is a
-- program. A mapping of the stack for which pages are missing stops the kernel in PAlloc_AllocPage.
pub load : Fill → Space → (ℕ → ℕ) → ℕ → Ehdr → List Phdr → Option (Space × (ℕ → ℕ) × ℕ × Bool)
load read s m entrypoint ehdr phdrs =
    let loaded : Option (Space × (ℕ → ℕ) × ℕ × Bool) = elim (map_segments s phdrs) [
      | none ↦ none
      | some t ↦ elim (alloc_map t stkbase stklen pte_w) [
        | none ↦ none
        | some (u, done) ↦
            let loaded : Option (Space × (ℕ → ℕ) × ℕ × Bool) = elim (load_phdrs read u m phdrs) [
              | none ↦ none
              | some n ↦ some (u, n, ehdr.entry, true)
            ] in
            if done then loaded else none
      ]
    ] in
    if check_header ehdr then loaded else some (s, m, entrypoint, false)
