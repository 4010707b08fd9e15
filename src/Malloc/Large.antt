-- ===== src/Malloc/Large.antt =====
-- The objects that malloc_large gives out.
use boring_os_ssaha.Prelude.{
  ℕ, ◌+◌, ◌%◌, ◌^◌, ◌≤◌, ◌<◌, ◌≡◌, ◌≢◌, ◌↔◌, ◌⊎◌, inl, inr, refl, arith, some, true, update,
}
use boring_os_ssaha.Malloc.{
  Heap, malloc, malloc_large, heap_max_poolsize, heap_magic, sizeof_header, roundup_page,
}

roundup_page_bounds :
    (sz : ℕ) → (sz ≤ roundup_page sz) × (roundup_page sz < sz + 4096) × (roundup_page sz % 4096 ≡ 0)
roundup_page_bounds sz = omega arith

overruns :
    (sz : ℕ)
    → roundup_page sz < sz + sizeof_header
    → (sz % 4096 ≡ 0) ⊎ (4096 < sz % 4096 + sizeof_header)
overruns sz h = ground arith

overrun_back :
    (sz : ℕ)
    → (sz % 4096 ≡ 0) ⊎ (4096 < sz % 4096 + sizeof_header)
    → roundup_page sz < sz + sizeof_header
overrun_back sz (inl h) = omega arith
overrun_back sz (inr h) = omega arith

-- A request above HEAP_MAX_POOLSIZE that the kernel grants gets the object behind the header at the old
-- `top` of the large pool, and the mapping from there to the new `top`. The object reaches past this
-- mapping, into the header of the next large object, exactly if the request fills its last page, or
-- leaves fewer than 16 bytes of it.
pub malloc_large_overruns_iff :
    (h : Heap) (sz : ℕ)
    → heap_max_poolsize < sz
    → h.large_top ≢ 0
    → (g : Heap) × (p : ℕ) × (malloc h sz true ≡ some (g, p))
      × (p ≡ h.large_top + sizeof_header)
      × (g.magic h.large_top ≡ heap_magic)
      × (((g.large_top < p + sz)) ↔ ((sz % 4096 ≡ 0) ⊎ (4096 < sz % 4096 + sizeof_header)))
unfolding malloc malloc_large
malloc_large_overruns_iff h sz big ne = (
  record h {
    magic = update h.magic h.large_top heap_magic;
    size = update h.size h.large_top (roundup_page sz % 2 ^ 32);
    large_top = h.large_top + roundup_page sz;
  },
  h.large_top + sizeof_header,
  ground arith,
  refl,
  ground arith,
  (λ l. overruns sz (omega arith), λ d. omega (arith, overrun_back sz d)),
)
