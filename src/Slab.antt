-- ===== src/Slab.antt =====
-- The slab allocator: sys/kern/slab.c, over the regions of XMem and the pages of PAlloc. An object
-- is its address. `none` is a failed ASSERT or a panic below. Every operation but Slab_Init runs
-- under the slab's lock.
pub mod Valid
pub mod Objects
mod Tests
use boring_os_ssaha.Prelude.{
  ℕ, zero, suc, ◌+◌, ◌-◌, ◌*◌, ◌/◌, ◌%◌, ◌^◌, ◌==◌, ltb, if◌then◌else◌, Bool, true, false, Option,
  none, some, List, [], ◌∷◌,
}
use boring_os_ssaha.PAlloc.{Pool, pgsize, roundup}
use boring_os_ssaha.XMem
use boring_os_ssaha.XMem.{Regions}

-- sizeof(SlabElement)
abbrev pub sizeof_element : ℕ
sizeof_element = 16

pub record Slab : Type 0 where
  pub objsz : ℕ
  pub align : ℕ
  pub xmem : ℕ
  pub objs : ℕ
  pub free_objs : ℕ
  pub free_list : List ℕ
  pub allocs : ℕ
  pub frees : ℕ

init_with : ℕ → ℕ → Regions × Option ℕ → Option (Slab × Regions)
init_with objsz align (x, none) = none
init_with objsz align (x, some r) = some (
  record {
    objsz = objsz;
    align = align;
    xmem = r;
    objs = 0;
    free_objs = 0;
    free_list = [];
    allocs = 0;
    frees = 0;
  },
  x,
)

-- Slab_Init
pub init : Regions → ℕ → ℕ → Option (Slab × Regions)
unfolding init_with
init x objsz align = if ltb objsz sizeof_element then none else init_with objsz align (XMem.new x)

-- `realObjSz` and `inc` of SlabExtend.
abbrev pub real_objsz : Slab → ℕ
real_objsz s = roundup s.objsz s.align

abbrev pub increment : Slab → ℕ
increment s =
    let inc = roundup (real_objsz s * 64) pgsize in if ltb inc (4 * pgsize) then 4 * pgsize else inc

-- "Add empty objects to linked list": `n` objects from the address `a` on.
unfoldable pub push_objects : ℕ → ℕ → ℕ → List ℕ → List ℕ
push_objects zero a size free = free
push_objects (suc n) a size free = push_objects n (a + size) size (a ∷ free)

-- What SlabExtend does once the region has grown; `len` is the length before.
pub extend_by : Slab → ℕ → ℕ → Slab
extend_by s base len =
    let n = increment s / real_objsz s in
    record s {
      free_list = push_objects n (base + len) (real_objsz s) s.free_list;
      objs = (s.objs + n) % 2 ^ 64;
      free_objs = (s.free_objs + n) % 2 ^ 64;
    }

-- SlabExtend: -1 is `false`.
pub extend : Slab → Regions → Pool → Option (Bool × Slab × Regions × Pool)
extend s x p =
    let base = XMem.get_base x s.xmem in
    let len = XMem.get_length x s.xmem in
    elim (XMem.allocate x p s.xmem (len + increment s)) [
      | none ↦ none
      | some (true, y, q) ↦ some (true, extend_by s base len, y, q)
      | some (false, y, q) ↦ some (false, s, y, q)
    ]

-- The rest of Slab_Alloc, from LIST_FIRST on; `none` is NULL.
pub take_first : List ℕ → Slab → Slab × Option ℕ
take_first [] s = (s, none)
take_first (elem ∷ rest) s = (
  record s {
    free_list = rest;
    allocs = (s.allocs + 1) % 2 ^ 64;
    free_objs = (s.free_objs + 2 ^ 64 - 1) % 2 ^ 64;
  },
  some elem,
)

-- Slab_Alloc. The result of SlabExtend is not looked at.
pub alloc : Slab → Regions → Pool → Option ((Slab × Option ℕ) × Regions × Pool)
unfolding take_first
alloc s x p =
    if s.free_objs == 0
    then elim (extend s x p) [
      | none ↦ none
      | some (done, t, y, q) ↦ some (take_first t.free_list t, y, q)
    ]
    else some (take_first s.free_list s, x, p)

-- Slab_Free
pub free : Slab → ℕ → Slab
free s region = record s {
  free_list = region ∷ s.free_list;
  frees = (s.frees + 1) % 2 ^ 64;
  free_objs = (s.free_objs + 1) % 2 ^ 64;
}
