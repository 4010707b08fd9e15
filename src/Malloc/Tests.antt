-- ===== src/Malloc/Tests.antt =====
-- A heap at its start, and the theorems at it.
use boring_os_ssaha.Prelude.{ℕ, ◌≡◌, refl, arith, some, true, false, update}
use boring_os_ssaha.Malloc.{Heap, init, base, bucket, malloc, free, heap_magic}
use boring_os_ssaha.Malloc.Valid.{IsHeap, init-IsHeap}
use boring_os_ssaha.Malloc.Buckets.{bucket_max}
use boring_os_ssaha.Malloc.Small.{Answer, Given, malloc_lem}
use boring_os_ssaha.Malloc.Reuse.{malloc-free}

malloc_lem_example : (r : Heap × ℕ) × (malloc init 100 true ≡ some r) × Answer init 100 true r
malloc_lem_example =
    malloc_lem init 100 true init-IsHeap (omega arith) (λ i l. omega (arith, bucket_max i l))

-- The first object of 64 bytes is in use, and no other object has been made.
abbrev one_object : Heap
one_object = record init {
  top = update base 0 0x400000040;
  magic = update (λ a. 0) 0x400000000 heap_magic;
  size = update (λ a. 0) 0x400000000 48;
}

one_object-IsHeap : IsHeap one_object
one_object-IsHeap = record {
  low = λ i l. ground arith;
  high = λ i l. ground arith;
  sound = λ i l. record {
    inside = λ a h. elim h [ ];
    apart = λ a b h k q. elim h [ ];
    once = λ a. omega arith;
  };
  marked = λ i a l h. elim h [ ];
}

forty-Given : Given 40 0x400000010 one_object
unfolding bucket
forty-Given = record {
  idx = 0;
  fits = record { in_range = omega arith; room = omega arith; least = λ j l. elim l [ ] };
  hdr = 0x400000000;
  object = refl;
  header = record { magic = refl; size = refl };
  inside = (omega arith, omega arith);
  taken = refl;
  apart = λ b c. elim c [ ];
}

malloc-free_example :
    (g u : Heap) × (free one_object 0x400000010 ≡ some g)
    × IsHeap g
    × (malloc g 40 false ≡ some (u, 0x400000010))
    × ((i : ℕ) → u.free_list i ≡ one_object.free_list i)
malloc-free_example =
    malloc-free one_object 40 0x400000010 false one_object-IsHeap (omega arith) forty-Given
