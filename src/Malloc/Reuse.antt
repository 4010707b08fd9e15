-- ===== src/Malloc/Reuse.antt =====
-- free, and the reuse of the object that it got.
use boring_os_ssaha.Prelude.{
  ℕ, ◌+◌, ◌-◌, ◌%◌, ◌^◌, ◌≤◌, ◌<◌, ◌≡◌, refl, sym, ap, ◌∙◌, subst, arith, Bool, ◌⊎◌, some, List,
  ◌∷◌, count, update,
}
use native.Mathlib.Decide.{ℕ_discrete}
use boring_os_ssaha.Slab.Valid.{Sound}
use boring_os_ssaha.Malloc.{
  Heap, bucket, base, refill, malloc_from, malloc_small, malloc, free_small, free, heap_pools,
  heap_max_poolsize, sizeof_header,
}
use boring_os_ssaha.Malloc.Valid.{Marked, IsHeap, Sound-cast}
use boring_os_ssaha.Malloc.Small.{Given, taken_from, take_from-cons, le-ltb}
use boring_os_ssaha.Malloc.Buckets.{
  Fits, size_to_idx-Fits, size_to_idx-bucket, bucket_pos, bucket_max, Fits-unique,
}

-- The heap when the object `hdr` is back in the pool `idx`.
abbrev returned : Heap → ℕ → ℕ → Heap
returned h idx hdr = record h { free_list = update h.free_list idx (hdr ∷ h.free_list idx) }

free_small-returned :
    (h : Heap) (idx hdr : ℕ)
    → idx < heap_pools
    → Marked h idx hdr
    → free_small h hdr ≡ some (returned h idx hdr)
unfolding free_small
free_small-returned h idx hdr l m =
    rw (m.size, free_small) (rw (size_to_idx-bucket idx l, free_small) refl)

header_of :
    (hdr : ℕ) → hdr + 16 < 2 ^ 64 → (hdr + sizeof_header + 2 ^ 64 - sizeof_header) % 2 ^ 64 ≡ hdr
header_of hdr h = omega arith

free-returned :
    (h : Heap) (idx hdr : ℕ)
    → idx < heap_pools
    → hdr + 16 < 2 ^ 64
    → Marked h idx hdr
    → free h (hdr + sizeof_header) ≡ some (returned h idx hdr)
unfolding free
free-returned h idx hdr l small m =
    rw (header_of hdr small)
      (rw (m.magic, m.size) (ground (arith, free_small-returned h idx hdr l m, bucket_max idx l)))

module _ (h : Heap) (idx hdr : ℕ) (v : IsHeap h) (l : idx < heap_pools) (m : Marked h idx hdr)
    (inside : (base idx ≤ hdr) × (hdr + bucket idx ≤ h.top idx))
    (taken : count hdr (h.free_list idx) ≡ 0)
    (apart : (b : ℕ)
      → 0 < count b (h.free_list idx)
      → (hdr + bucket idx ≤ b) ⊎ (b + bucket idx ≤ hdr)) where
  returned_self : Sound (base idx) (h.top idx) (bucket idx) (hdr ∷ h.free_list idx)
  returned_self =
      let s = v.sound idx l in
      record {
        inside = λ a c. ground (arith, s.inside a, inside);
        apart = λ a b c d q. ground (arith, s.apart a b, apart a, apart b, bucket_pos idx);
        once = λ a. ground (arith, s.once a, taken);
      }

  returned-Sound :
      (i : ℕ)
      → i < heap_pools
      → Sound (base i) (h.top i) (bucket i) ((returned h idx hdr).free_list i)
  returned-Sound i k = elim (ℕ_discrete i idx) [
    | yes q ↦
        subst (λ j. Sound (base j) (h.top j) (bucket j) ((returned h idx hdr).free_list j)) (sym q)
          (Sound-cast (base idx) (h.top idx) (h.top idx) (bucket idx) (hdr ∷ h.free_list idx) _ refl
            (ground arith) returned_self)
    | no ne ↦
        Sound-cast (base i) (h.top i) (h.top i) (bucket i) (h.free_list i) _ refl (ground arith)
          (v.sound i k)
  ]

  kept : (i a : ℕ) → Marked h i a → Marked (returned h idx hdr) i a
  kept i a n = record { magic = n.magic; size = n.size }

  returned-Marked :
      (i a : ℕ)
      → i < heap_pools
      → 0 < count a ((returned h idx hdr).free_list i)
      → Marked (returned h idx hdr) i a
  returned-Marked i a k c = elim (ℕ_discrete i idx) [
    | yes q ↦ elim (ℕ_discrete a hdr) [
      | yes e ↦ rw (q, e) (record { magic = m.magic; size = m.size })
      | no ne ↦
          kept i a
            (v.marked i a k (subst (λ j. 0 < count a (h.free_list j)) (sym q) (ground arith)))
    ]
    | no ne ↦ kept i a (v.marked i a k (subst (λ f. 0 < count a f) (ground arith) c))
  ]

  returned-IsHeap : IsHeap (returned h idx hdr)
  returned-IsHeap = record {
    low = v.low;
    high = v.high;
    sound = returned-Sound;
    marked = returned-Marked;
  }

returned_head :
    (h : Heap) (idx hdr : ℕ) → (returned h idx hdr).free_list idx ≡ hdr ∷ h.free_list idx
returned_head h idx hdr = ground arith

refill-cons :
    (h : Heap) (idx hdr : ℕ) (rest : List ℕ) (granted : Bool)
    → h.free_list idx ≡ hdr ∷ rest
    → malloc_from h idx granted ≡ (taken_from h idx rest, hdr + sizeof_header)
unfolding malloc_from refill
refill-cons h idx hdr rest granted e = rw (e, refill) (take_from-cons h idx hdr rest e)

malloc_small_again :
    (h : Heap) (idx hdr sz : ℕ) (granted : Bool)
    → Fits sz idx
    → sz ≤ heap_max_poolsize
    → malloc_small (returned h idx hdr) sz granted
      ≡ some (taken_from (returned h idx hdr) idx (h.free_list idx), hdr + sizeof_header)
unfolding malloc_small
malloc_small_again h idx hdr sz granted f le =
    let (k, e, g) = size_to_idx-Fits sz le in
    rw (e ∙ ap some (Fits-unique sz k idx g f), malloc_small)
      (ap some (
        refill-cons (returned h idx hdr) idx hdr (h.free_list idx) granted
          (returned_head h idx hdr)))

malloc_again :
    (h : Heap) (idx hdr sz : ℕ) (granted : Bool)
    → Fits sz idx
    → sz ≤ heap_max_poolsize
    → malloc (returned h idx hdr) sz granted
      ≡ some (taken_from (returned h idx hdr) idx (h.free_list idx), hdr + sizeof_header)
unfolding malloc
malloc_again h idx hdr sz granted f le =
    rw (le-ltb sz le) (malloc_small_again h idx hdr sz granted f le)

-- free of an object that malloc gave out passes its assertion and keeps the heap well formed, and the
-- next request for as many bytes gets that object again, whether or not the kernel grants memory; the
-- free lists are then as they were before the call of free.
pub malloc-free :
    (h : Heap) (sz p : ℕ) (granted : Bool)
    → IsHeap h
    → sz ≤ heap_max_poolsize
    → Given sz p h
    → (g u : Heap) × (free h p ≡ some g)
      × IsHeap g
      × (malloc g sz granted ≡ some (u, p))
      × ((i : ℕ) → u.free_list i ≡ h.free_list i)
malloc-free h sz p granted v le w =
    let g = returned h w.idx w.hdr in
    let small : w.hdr + 16 < 2 ^ 64 =
      omega (arith, w.inside, v.high w.idx w.fits.in_range, w.fits.in_range, bucket_pos w.idx) in
    (
      g,
      taken_from g w.idx (h.free_list w.idx),
      rw w.object (free-returned h w.idx w.hdr w.fits.in_range small w.header),
      returned-IsHeap h w.idx w.hdr v w.fits.in_range w.header w.inside w.taken w.apart,
      rw w.object (malloc_again h w.idx w.hdr sz granted w.fits le),
      λ i. ground arith,
    )
