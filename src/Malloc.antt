-- ===== src/Malloc.antt =====
-- The heap of user programs: lib/libc/malloc.c. A header is named by its address; a pool's free list is
-- the list of its headers in the order of their `next` fields. The kernel's answer to mmap is an
-- argument: it maps the address that is asked for, or returns NULL, which is 0. `none` is a failed
-- assertion.
pub mod Buckets
pub mod Valid
pub mod Small
pub mod Reuse
pub mod Large
mod Tests
use boring_os_ssaha.Prelude.{
  ℕ, zero, suc, ◌+◌, ◌-◌, ◌*◌, ◌/◌, ◌%◌, ◌^◌, ◌==◌, leb, ltb, if◌then◌else◌, Bool, true, false,
  Option, none, some, List, [], ◌∷◌, ◌++◌, update,
}

-- sizeof(Header), HEAP_MAGIC, HEAP_POOLS, HEAP_INCREMENT
abbrev pub sizeof_header : ℕ
sizeof_header = 16

abbrev pub heap_magic : ℕ
heap_magic = 0x8051

abbrev pub heap_pools : ℕ
heap_pools = 12

abbrev pub heap_increment : ℕ
heap_increment = 64

-- HEAP_MAX_POOLSIZE
abbrev pub heap_max_poolsize : ℕ
heap_max_poolsize = 128 * 1024 - sizeof_header

-- ROUNDUP for the page size.
abbrev pub roundup_page : ℕ → ℕ
roundup_page sz = (sz + 4095) / 4096 * 4096

-- The `free` and `top` fields of the pools, and the headers.
pub record Heap : Type 0 where
  pub free_list : ℕ → List ℕ
  pub top : ℕ → ℕ
  pub large_top : ℕ
  pub magic : ℕ → ℕ
  pub size : ℕ → ℕ
  -- The calls of munmap
  pub unmapped : List (ℕ × ℕ)

-- The `base` of a pool.
abbrev pub base : ℕ → ℕ
base idx = 0x400000000 + idx * 0x10000000

-- The heap of a program that starts.
abbrev pub init : Heap
init = record {
  free_list = λ i. [];
  top = base;
  large_top = 0x4c000000;
  magic = λ a. 0;
  size = λ a. 0;
  unmapped = [];
}

-- `(1 << idx) * 64`
pub bucket : ℕ → ℕ
bucket idx = 2 ^ idx * 64

-- The loop of size_to_idx, with fuel.
pub idx_from : ℕ → ℕ → ℕ → ℕ → Option ℕ
idx_from zero i bucket_sz sz = none
idx_from (suc fuel) i bucket_sz sz =
    let rest = idx_from fuel (i + 1) (bucket_sz * 2) sz in
    if leb sz (bucket_sz - sizeof_header) then some i else rest

-- size_to_idx, with a round for each pool.
pub size_to_idx : ℕ → Option ℕ
size_to_idx sz = idx_from heap_pools 0 64 sz

-- mmap with MAP_FIXED; `granted` is the kernel's answer.
abbrev pub mmap : Bool → ℕ → ℕ
mmap granted addr = if granted then addr else 0

-- The loop of grow_small over the new objects, of which `n` are left.
pub init_objects : ℕ → ℕ → ℕ → ℕ → Heap → Heap
init_objects zero obj bucket_sz idx h = h
init_objects (suc n) obj bucket_sz idx h =
    init_objects n (obj + bucket_sz) bucket_sz idx (record h {
      magic = update h.magic obj heap_magic;
      size = update h.size obj (bucket_sz - sizeof_header);
      free_list = update h.free_list idx (obj ∷ h.free_list idx);
    })

-- grow_small
pub grow_small : Heap → ℕ → Bool → Heap
grow_small h idx granted =
    let addr = mmap granted (h.top idx) in
    if addr == 0
    then h
    else init_objects heap_increment addr (bucket idx) idx
        (record h { top = update h.top idx (h.top idx + bucket idx * heap_increment) })

-- malloc_small behind the growth of the pool; 0 is NULL.
pub take : Heap → ℕ → List ℕ → Heap × ℕ
take h idx [] = (h, 0)
take h idx (hdr ∷ rest) =
    (record h { free_list = update h.free_list idx rest }, hdr + sizeof_header)

pub take_from : Heap → ℕ → Heap × ℕ
unfolding take
take_from h idx = take h idx (h.free_list idx)

-- "Grow pool if freelist is empty"
pub refill : Heap → ℕ → Bool → List ℕ → Heap
refill h idx granted [] = grow_small h idx granted
refill h idx granted (hdr ∷ rest) = h

-- malloc_small for the pool `idx`.
pub malloc_from : Heap → ℕ → Bool → Heap × ℕ
unfolding take_from
malloc_from h idx granted = take_from (refill h idx granted (h.free_list idx)) idx

pub malloc_small : Heap → ℕ → Bool → Option (Heap × ℕ)
malloc_small h sz granted = elim (size_to_idx sz) [
  | none ↦ none
  | some idx ↦ some (malloc_from h idx granted)
]

-- free_small
pub free_small : Heap → ℕ → Option Heap
free_small h mem = elim (size_to_idx (h.size mem)) [
  | none ↦ none
  | some idx ↦ some (record h { free_list = update h.free_list idx (mem ∷ h.free_list idx) })
]

-- malloc_large; the `size` field has 32 bits.
pub malloc_large : Heap → ℕ → Bool → Heap × ℕ
malloc_large h sz granted =
    let real_sz = roundup_page sz in
    let addr = mmap granted h.large_top in
    if addr == 0 then (h, 0) else (
      record h {
        magic = update h.magic addr heap_magic;
        size = update h.size addr (real_sz % 2 ^ 32);
        large_top = h.large_top + real_sz;
      },
      addr + sizeof_header,
    )

-- free_large
unfoldable pub free_large : Heap → ℕ → Heap
free_large h mem = record h { unmapped = h.unmapped ++ ((mem, h.size mem) ∷ []) }

-- malloc
pub malloc : Heap → ℕ → Bool → Option (Heap × ℕ)
malloc h sz granted =
    if ltb heap_max_poolsize sz then some (malloc_large h sz granted) else malloc_small h sz granted

-- calloc
unfoldable pub calloc : Heap → ℕ → ℕ → Bool → Option (Heap × ℕ)
unfolding malloc
calloc h num sz granted = malloc h (num * sz % 2 ^ 64) granted

-- free
pub free : Heap → ℕ → Option Heap
free h mem =
    let hdr = (mem + 2 ^ 64 - sizeof_header) % 2 ^ 64 in
    if mem == 0
    then some h
    else if h.magic hdr == heap_magic
    then (if ltb heap_max_poolsize (h.size hdr) then some (free_large h hdr) else free_small h hdr)
    else none
